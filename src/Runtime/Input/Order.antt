-- ===== src/Runtime/Input/Order.antt =====
-- Input reaches a session's provider in the order of its numbers, each number at most once.
use multi_agent_desk.Prelude.{
  ℕ, ◌≡◌, ◌≢◌, true, not, ◌&&◌, List, [], ◌∷◌, ◌++◌, if◌then◌else◌, slt, inc64, Text, text_eq,
  arith, zero, suc,
}
use multi_agent_desk.Domain.Errors.{Result, ok, err}
use multi_agent_desk.Runtime.Input.{
  InputRequest, InputResult, Providers, View, Inputs, input_key, expected_sequence, input_at, input,
}

-- `n` numbers from `first` on.
unfoldable pub count_up : ℕ → ℕ → List ℕ
count_up first zero = []
count_up first (suc n) = first ∷ count_up (inc64 first) n

-- The number of a request of this key that was carried out.
abbrev pub taken : Text → InputRequest → Result InputResult → List ℕ
taken key r (err e) = []
taken key r (ok a) =
    if not a.duplicate && text_eq (input_key r.session_id r.client_id) key
    then a.sequence ∷ []
    else []

pub record Call : Type 0 where
  pub view : View
  pub request : InputRequest

module _ {ℓ} {W : Type ℓ} (providers : Providers W) where
  -- The numbers of one key that a history of requests carries out, in their order.
  unfoldable pub sequences : Text → List Call → Inputs W → List ℕ
  sequences key [] s = []
  sequences key (c ∷ calls) s =
      taken key c.request (input providers c.view c.request s).0
      ++ sequences key calls (input providers c.view c.request s).1

  -- A request whose number is not the expected one changes nothing, and it is refused or, if its
  -- number is lower, acknowledged as a duplicate.
  pub input_off_sequence :
      (v : View) (r : InputRequest) (s : Inputs W)
      → r.sequence ≢ expected_sequence (s.0 (input_key r.session_id r.client_id))
      → ((input providers v r s).1 ≡ s)
        × ((a : InputResult)
            → (input providers v r s).0 ≡ ok a
            → (a.duplicate ≡ true)
              × (slt r.sequence (expected_sequence (s.0 (input_key r.session_id r.client_id)))
                  ≡ true))
  unfolding input input_at
  input_off_sequence v r s off = ground arith
