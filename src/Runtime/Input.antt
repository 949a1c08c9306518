-- ===== src/Runtime/Input.antt =====
-- internal/runtime/manager.go: `Input`. What a provider does with input is an argument: the Codex
-- bridge, if it is there, and the process of each session, if it runs. A request is carried out
-- alone, as the service holds its mutex around it.
pub mod Order
mod Examples
use multi_agent_desk.Prelude.{
  ℕ, Bool, true, false, ◌&&◌, Option, none, some, List, [], ◌∷◌, ◌++◌, ◌==◌, if◌then◌else◌, slt,
  inc64, Text, text_eq,
}
use multi_agent_desk.Domain.Errors.{Code, Result, ok, err, ◌>>=◌, ◌>>◌, refuse_if}
use multi_agent_desk.Domain.Provider.{codex}
use multi_agent_desk.Domain.Session.{Session}
use multi_agent_desk.Storage.Driver.{Driver}
use multi_agent_desk.Storage.Leases.{Leases}
use multi_agent_desk.Storage.Sessions.{Sessions, session}
use multi_agent_desk.Runtime.Leases.{require_lease}

pub record InputRequest : Type 0 where
  pub session_id : Text
  pub client_id : Text
  pub revision : ℕ
  pub sequence : ℕ
  pub payload : Text

pub record InputResult : Type 0 where
  pub sequence : ℕ
  pub duplicate : Bool

-- What takes a session's input, over the state `W` of the providers.
pub record Providers {ℓ} (W : Type ℓ) : Type ℓ where
  pub codex_input : Option (Text → Text → W → Result (Unit {0}) × W)
  pub process : W → Text → Option (Text → W → Result (Unit {0}) × W)

-- What the call reads: the clock, the stores, and whether they answer.
pub record View : Type 0 where
  pub now : ℕ
  pub read : Driver
  pub reads : Bool
  pub leases : Leases
  pub sessions : Sessions

-- The map `inputSeq`, where a missing key reads as 0, and the providers' state.
abbrev pub Inputs {ℓ} : Type ℓ → Type ℓ
Inputs W = (Text → ℕ) × W

unfoldable pub input_key : Text → Text → Text
input_key session_id client_id = session_id ++ (58 ∷ client_id)

unfoldable pub expected_sequence : ℕ → ℕ
expected_sequence stored = if stored == 0 then 1 else stored

unfoldable pub set_sequence : (Text → ℕ) → Text → ℕ → Text → ℕ
set_sequence seqs key n k = if text_eq key k then n else seqs k

module _ {ℓ} {W : Type ℓ} (providers : Providers W) where
  unfoldable pub deliver : Session → InputRequest → W → Result (Unit {0}) × W
  deliver row r w =
      if text_eq row.provider codex
      then (elim providers.codex_input [
        | none ↦ (err Code.provider_unsupported, w)
        | some send ↦ send r.session_id r.payload w
      ])
      else (elim (providers.process w r.session_id) [
        | none ↦ (err Code.not_found, w)
        | some send ↦ send r.payload w
      ])

  unfoldable pub acknowledge :
      InputRequest → ℕ → (Text → ℕ) → Result (Unit {0}) × W → Result InputResult × Inputs W
  acknowledge r expected seqs (err e, w) = (err e, (seqs, w))
  acknowledge r expected seqs (ok _, w) = (
    ok (record { sequence = r.sequence; duplicate = false }),
    (set_sequence seqs (input_key r.session_id r.client_id) (inc64 expected), w),
  )

  unfoldable pub input_next : View → InputRequest → ℕ → Inputs W → Result InputResult × Inputs W
  input_next v r expected (seqs, w) = elim (session v.reads v.sessions r.session_id) [
    | err e ↦ (err e, (seqs, w))
    | ok row ↦ acknowledge r expected seqs (deliver row r w)
  ]

  unfoldable pub input_at : View → InputRequest → ℕ → Inputs W → Result InputResult × Inputs W
  input_at v r expected s =
      let delivered = input_next v r expected s in
      if slt r.sequence expected
      then (ok (record { sequence = r.sequence; duplicate = true }), s)
      else if slt expected r.sequence
      then (err Code.conflict, s)
      else delivered

  unfoldable pub input : View → InputRequest → Inputs W → Result InputResult × Inputs W
  input v r s =
      elim (do
        refuse_if (slt r.sequence 1) Code.invalid_argument
        require_lease v.read v.now v.leases r.session_id r.client_id r.revision) [
          | err e ↦ (err e, s)
          | ok _ ↦ input_at v r (expected_sequence (s.0 (input_key r.session_id r.client_id))) s
        ]
