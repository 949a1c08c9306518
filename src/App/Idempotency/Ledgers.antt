-- ===== src/App/Idempotency/Ledgers.antt =====
-- Records stay in the ledger; what a look-up, a save and a whole request do to it.
use multi_agent_desk.Prelude.{◌≡◌, ◌≢◌, ◌⊎◌, inl, inr, true, none, some, Text, text_eq_iff, arith}
use multi_agent_desk.Domain.Errors.{ok}
use multi_agent_desk.Storage.Driver.{Driver, with_tx}
use multi_agent_desk.App.Idempotency.{
  IdempotencyRecord, Ledger, Codec, put_record, insert_record, idempotency_record, check_record,
  save_idempotency_record,
}

abbrev pub Extends : Ledger → Ledger → Type 0
Extends t t' =
    (client method key : Text) (row : IdempotencyRecord)
    → t client method key ≡ some row
    → t' client method key ≡ some row

pub put-Extends :
    (t : Ledger) (r : IdempotencyRecord)
    → t r.client_id r.method r.idempotency_key ≡ none
    → Extends t (put_record t r)
unfolding put_record
put-Extends t r absent client method key row h = ground (
  arith,
  text_eq_iff r.client_id client,
  text_eq_iff r.method method,
  text_eq_iff r.idempotency_key key,
)

pub put_record_self :
    (t : Ledger) (r : IdempotencyRecord)
    → put_record t r r.client_id r.method r.idempotency_key ≡ some r
unfolding put_record
put_record_self t r = ground (
  arith,
  text_eq_iff r.client_id r.client_id,
  text_eq_iff r.method r.method,
  text_eq_iff r.idempotency_key r.idempotency_key,
)

module _ {κ} {A : Type κ} (codec : Codec A) where
  -- A save leaves the ledger as it was, or succeeds and adds its record under a new key.
  save_cases :
      (d : Driver) (t : Ledger) (r : IdempotencyRecord)
      → (((save_idempotency_record codec d t r).1 ≡ t)
          × ((save_idempotency_record codec d t r).0 ≢ ok tt))
        ⊎ (((save_idempotency_record codec d t r).0 ≡ ok tt)
            × ((save_idempotency_record codec d t r).1 ≡ put_record t r)
            × (t r.client_id r.method r.idempotency_key ≡ none)
            × (codec.json_valid r.response_metadata ≡ true))
  unfolding save_idempotency_record check_record with_tx insert_record
  save_cases d t r = ground arith

  pub save-Extends :
      (d : Driver) (t : Ledger) (r : IdempotencyRecord)
      → Extends t (save_idempotency_record codec d t r).1
  save-Extends d t r client method key row h = elim (save_cases d t r) [
    | inl (same, _) ↦ rw same h
    | inr (_, added, absent, _) ↦ rw added (put-Extends t r absent client method key row h)
  ]

  pub save-ok :
      (d : Driver) (t : Ledger) (r : IdempotencyRecord)
      → (save_idempotency_record codec d t r).0 ≡ ok tt
      → ((save_idempotency_record codec d t r).1 r.client_id r.method r.idempotency_key ≡ some r)
        × (codec.json_valid r.response_metadata ≡ true)
  save-ok d t r h = elim (save_cases d t r) [
    | inl (_, fails) ↦ absurd (fails h)
    | inr (_, added, _, valid) ↦ (rw added (put_record_self t r), valid)
  ]

  -- The look-up of a stored record whose response is valid JSON finds it.
  pub lookup-ok :
      (t : Ledger) (client method key : Text) (row : IdempotencyRecord)
      → t client method key ≡ some row
      → codec.json_valid row.response_metadata ≡ true
      → idempotency_record codec true t client method key ≡ ok row
  unfolding idempotency_record
  lookup-ok t client method key row h v = rw h (ground arith)
