-- ===== src/App/Idempotency.antt =====
-- internal/app/session_service.go: `Handle` and `withIdempotency`; internal/storage/repository.go:
-- the table `idempotency_records` (its checks: migrations/device/0003_operations.sql). SHA-256, the
-- JSON encoder and the JSON check are arguments, and so is `dispatch`, over the state that it
-- changes.
pub mod Ledgers
pub mod Replays
pub mod AtMostOnce
pub mod Saving
use multi_agent_desk.Prelude.{
  ℕ, Bool, true, false, not, ◌&&◌, ◌||◌, Option, none, some, List, [], ◌∷◌, ◌++◌, ltb, ◌==◌,
  if◌then◌else◌, is_some, length, Text, text_eq, bytes,
}
use multi_agent_desk.Domain.Errors.{Code, Result, ok, err, ◌>>=◌, ◌>>◌, refuse_if}
use multi_agent_desk.Domain.Id.{validate_id, hex_encode}
use multi_agent_desk.Storage.Driver.{Driver, with_tx}
use multi_agent_desk.App.Methods.{requires_idempotency}

abbrev pub max_frame_bytes : ℕ
max_frame_bytes = 262144

pub record IdempotencyRecord : Type 0 where
  pub client_id : Text
  pub method : Text
  pub idempotency_key : Text
  pub request_digest : Text
  pub response_code : Text
  pub response_metadata : Text
  pub created_at : ℕ

-- The fields of `device.Request` that `Handle` reads.
pub record Request : Type 0 where
  pub method : Text
  pub idempotency_key : Text
  pub body : Text

-- The table: its primary key is the client, the method and the key.
abbrev pub Ledger : Type 0
Ledger = Text → Text → Text → Option IdempotencyRecord

-- The parts of the library that the code uses.
pub record Codec {ℓ} (A : Type ℓ) : Type ℓ where
  pub sha256 : Text → Text
  pub marshal : A → Option Text
  pub json_valid : Text → Bool

-- What the code does not decide: the clock, the database, and the records that others wrote
-- between the look-up and the save.
pub record Env : Type 0 where
  pub now : ℕ
  pub reads : Bool
  pub saves : Driver
  pub rereads : Bool
  pub others : Ledger → Ledger

-- A result of `dispatch`, or the stored bytes of an earlier one.
pub data Answer {ℓ} (A : Type ℓ) : Type ℓ where
  fresh : A → Answer A
  stored : Text → Answer A

unfoldable pub put_record : Ledger → IdempotencyRecord → Ledger
put_record t r client method key =
    if text_eq r.client_id client && text_eq r.method method && text_eq r.idempotency_key key
    then some r
    else t client method key

-- `dispatch` on a state: its result, and the state it leaves.
abbrev pub Dispatch {ℓ κ} : Type ℓ → Type κ → Type (ℓ ⊔ κ)
Dispatch W A = Request → W → Result A × W

unfoldable pub insert_record : Driver → IdempotencyRecord → Ledger → Result (Unit {0} × Ledger)
insert_record d r t = do
  refuse_if (not d.runs || is_some (t r.client_id r.method r.idempotency_key)) Code.conflict
  ok (tt, put_record t r)

unfoldable pub is_conflict : Code → Bool
is_conflict Code.conflict = true
is_conflict _ = false

unfoldable pub is_not_found : Code → Bool
is_not_found Code.not_found = true
is_not_found _ = false

abbrev or_not_found : Option IdempotencyRecord → Result IdempotencyRecord
or_not_found none = err Code.not_found
or_not_found (some row) = ok row

module _ {κ} {A : Type κ} (codec : Codec A) where
  unfoldable pub digest_text : Request → Text
  digest_text r = hex_encode (codec.sha256 (r.method ++ (0 ∷ r.idempotency_key) ++ (0 ∷ r.body)))

  unfoldable pub idempotency_record : Bool → Ledger → Text → Text → Text → Result IdempotencyRecord
  idempotency_record reads t client method key = do
    refuse_if (not reads) Code.conflict
    row ← or_not_found (t client method key)
    refuse_if (not (codec.json_valid row.response_metadata)) Code.schema_incompatible
    ok row

  unfoldable pub check_record : IdempotencyRecord → Result (Unit {0})
  check_record r = do
    validate_id r.client_id
    refuse_if
        (length r.method == 0
          || length r.idempotency_key == 0
          || ltb 128 (length r.method)
          || ltb 128 (length r.idempotency_key)
          || not (length r.request_digest == 64)
          || length r.response_code == 0
          || not (codec.json_valid r.response_metadata)
          || r.created_at == 0)
        Code.invalid_argument

  unfoldable pub save_idempotency_record :
      Driver → Ledger → IdempotencyRecord → Result (Unit {0}) × Ledger
  save_idempotency_record d t r = elim (check_record r) [
    | err e ↦ (err e, t)
    | ok _ ↦ with_tx d t (insert_record d r)
  ]

  -- `readErr == nil && stored.RequestDigest == digestText`, or the error of the save.
  unfoldable pub compare_stored : Result IdempotencyRecord → Text → Code → Result (Answer A)
  compare_stored (err _) digest e = err e
  compare_stored (ok row) digest e =
      if text_eq row.request_digest digest then ok (stored row.response_metadata) else err e

  unfoldable pub after_save :
      Env → Text → Request → A → Result (Unit {0}) × Ledger → Result (Answer A)
  after_save env client r a (ok _, t) = ok (fresh a)
  after_save env client r a (err e, t) =
      if is_conflict e
      then compare_stored (idempotency_record env.rereads t client r.method r.idempotency_key)
          (digest_text r) e
      else err e

  unfoldable pub new_record : Env → Text → Request → Text → IdempotencyRecord
  new_record env client r encoded = record {
    client_id = client;
    method = r.method;
    idempotency_key = r.idempotency_key;
    request_digest = digest_text r;
    response_code = bytes "ok";
    response_metadata = encoded;
    created_at = env.now;
  }

  -- What happens to the ledger once `dispatch` has run.
  unfoldable pub record_result :
      Env → Ledger → Text → Request → A → Option Text → Result (Answer A) × Ledger
  record_result env t client r a none = (err Code.frame_too_large, env.others t)
  record_result env t client r a (some encoded) =
      if ltb max_frame_bytes (length encoded)
      then (err Code.frame_too_large, env.others t)
      else (let saved =
            save_idempotency_record env.saves (env.others t) (new_record env client r encoded) in
          (after_save env client r a saved, saved.1))

  abbrev replay_record : IdempotencyRecord → Text → Result (Answer A)
  replay_record row digest =
      if text_eq row.request_digest digest
      then ok (stored row.response_metadata)
      else err Code.conflict

  module _ {ℓ} {W : Type ℓ} (dispatch : Dispatch W A) where
    unfoldable pub run_fresh : Env → Text → Request → W × Ledger → Result (Answer A) × (W × Ledger)
    run_fresh env client r (w, t) = elim ((dispatch r w).0) [
      | err e ↦ (err e, ((dispatch r w).1, env.others t))
      | ok a ↦
          let done = record_result env t client r a (codec.marshal a) in
          (done.0, ((dispatch r w).1, done.1))
    ]

    unfoldable pub with_idempotency :
        Env → Text → Request → W × Ledger → Result (Answer A) × (W × Ledger)
    with_idempotency env client r (w, t) =
        let again = run_fresh env client r (w, t) in
        elim (idempotency_record env.reads t client r.method r.idempotency_key) [
          | ok row ↦ (replay_record row (digest_text r), (w, t))
          | err e ↦ if is_not_found e then again else (err e, (w, t))
        ]

    unfoldable pub run_dispatch : Request → W × Ledger → Result (Answer A) × (W × Ledger)
    run_dispatch r (w, t) = elim ((dispatch r w).0) [
      | err e ↦ (err e, ((dispatch r w).1, t))
      | ok a ↦ (ok (fresh a), ((dispatch r w).1, t))
    ]

    -- `Handle` of a service whose store and runtime are there.
    unfoldable pub handle : Env → Text → Request → W × Ledger → Result (Answer A) × (W × Ledger)
    handle env client r s =
        if text_eq r.method (bytes "vault.initialize") || text_eq r.method (bytes "vault.unlock")
        then (if length r.idempotency_key == 0
            then (err Code.invalid_argument, s)
            else run_dispatch r s)
        else (if requires_idempotency r.method
            then (if length r.idempotency_key == 0
                then (err Code.invalid_argument, s)
                else with_idempotency env client r s)
            else run_dispatch r s)
