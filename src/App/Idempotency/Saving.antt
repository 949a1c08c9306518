-- ===== src/App/Idempotency/Saving.antt =====
-- A request that is new: it is carried out, and what becomes of its record.
use multi_agent_desk.Prelude.{
  inl, inr, ◌≡◌, ◌≢◌, refl, sym, ap, ◌∙◌, ◌≤◌, ◌<◌, true, false, Option, none, some, ◌∷◌, ◌++◌,
  length, ◌==◌, ltb, Text, arith, Bool-cases,
}
use multi_agent_desk.Domain.Errors.{ok}
use multi_agent_desk.Domain.Id.{validate_id}
use multi_agent_desk.Domain.Id.Generation.{length-hex_encode}
use multi_agent_desk.Storage.Driver.{Driver, with_tx}
use multi_agent_desk.App.Methods.{requires_idempotency}
use multi_agent_desk.App.Idempotency.{
  IdempotencyRecord, Request, Ledger, Codec, Env, fresh, Dispatch, digest_text, new_record,
  with_idempotency, handle, idempotency_record, run_fresh, is_not_found, record_result,
  save_idempotency_record, check_record, insert_record, put_record, after_save, compare_stored,
  max_frame_bytes,
}
use multi_agent_desk.App.Idempotency.Replays.{handle-ledger, run-done}

module _ {κ ℓ} {A : Type κ} {W : Type ℓ} (codec : Codec A) (dispatch : Dispatch W A) where
  with-absent :
      (env : Env) (client : Text) (r : Request) (w : W) (t : Ledger)
      → t client r.method r.idempotency_key ≡ none
      → env.reads ≡ true
      → with_idempotency codec dispatch env client r (w, t)
        ≡ run_fresh codec dispatch env client r (w, t)
  unfolding with_idempotency idempotency_record is_not_found
  with-absent env client r w t absent reads = ground arith

  new-runs :
      (env : Env) (client : Text) (r : Request) (w : W) (t : Ledger) (a : A)
      → requires_idempotency r.method ≡ true
      → (length r.idempotency_key == 0) ≡ false
      → t client r.method r.idempotency_key ≡ none
      → env.reads ≡ true
      → (dispatch r w).0 ≡ ok a
      → handle codec dispatch env client r (w, t) ≡ (
        (record_result codec env t client r a (codec.marshal a)).0,
        ((dispatch r w).1, (record_result codec env t client r a (codec.marshal a)).1),
      )
  new-runs env client r w t a h k absent reads done =
      handle-ledger codec dispatch env client r (w, t) h k
      ∙ with-absent env client r w t absent reads
      ∙ run-done codec dispatch env client r w t a done

  record-uncommitted :
      (env : Env) (t : Ledger) (client : Text) (r : Request) (a : A) (e : Option Text)
      → env.saves.commits ≡ false
      → ((b : A) → (record_result codec env t client r a e).0 ≢ ok (fresh b))
        × ((record_result codec env t client r a e).1 ≡ env.others t)
  unfolding record_result save_idempotency_record with_tx after_save compare_stored
  record-uncommitted env t client r a e fails = ground arith

  -- If a new request of the ledger succeeds and the transaction of its record does not commit, the
  -- answer is not fresh and the ledger has no record of it, but what the request did stays; sent
  -- again, the request is carried out a second time.
  pub unrecorded_effect :
      (env : Env) (client : Text) (r : Request) (w : W) (t : Ledger) (a : A) (env' : Env)
      → requires_idempotency r.method ≡ true
      → (length r.idempotency_key == 0) ≡ false
      → t client r.method r.idempotency_key ≡ none
      → env.reads ≡ true
      → (dispatch r w).0 ≡ ok a
      → env.saves.commits ≡ false
      → env.others t ≡ t
      → env'.reads ≡ true
      → let first = handle codec dispatch env client r (w, t) in
        ((b : A) → first.0 ≢ ok (fresh b))
        × (first.1 ≡ ((dispatch r w).1, t))
        × (handle codec dispatch env' client r first.1
            ≡ run_fresh codec dispatch env' client r ((dispatch r w).1, t))
  unrecorded_effect env client r w t a env' h k absent reads done fails alone reads' =
      let new = new-runs env client r w t a h k absent reads done in
      let (refused, kept) = record-uncommitted env t client r a (codec.marshal a) fails in
      let after : (handle codec dispatch env client r (w, t)).1 ≡ ((dispatch r w).1, t) =
        ap (λ x. x.1) new ∙ ap (λ x. ((dispatch r w).1, x)) (kept ∙ alone) in
      (
        (λ b e. refused b (sym (ap (λ x. x.0) new) ∙ e)),
        after,
        ap (λ s. handle codec dispatch env' client r s) after
            ∙ handle-ledger codec dispatch env' client r ((dispatch r w).1, t) h k
            ∙ with-absent env' client r (dispatch r w).1 t absent reads',
      )

  save-committed :
      (d : Driver) (t : Ledger) (row : IdempotencyRecord)
      → check_record codec row ≡ ok tt
      → t row.client_id row.method row.idempotency_key ≡ none
      → (d.begins ≡ true) × (d.runs ≡ true) × (d.commits ≡ true)
      → save_idempotency_record codec d t row ≡ (ok tt, put_record t row)
  unfolding save_idempotency_record with_tx insert_record
  save-committed d t row checked absent (begins, runs, commits) = ground arith

  record-committed :
      (env : Env) (t : Ledger) (client : Text) (r : Request) (a : A) (encoded : Text)
      → length encoded ≤ max_frame_bytes
      → save_idempotency_record codec env.saves
          (env.others t)
          (new_record codec env client r encoded)
        ≡ (ok tt, put_record (env.others t) (new_record codec env client r encoded))
      → record_result codec env t client r a (some encoded)
        ≡ (ok (fresh a), put_record (env.others t) (new_record codec env client r encoded))
  unfolding record_result after_save
  record-committed env t client r a encoded fits saved =
      elim (Bool-cases (ltb max_frame_bytes (length encoded))) [
        | inl big ↦ absurd (ground arith)
        | inr small ↦ rw (small, saved) refl
      ]

  check-ok :
      (env : Env) (client : Text) (r : Request) (encoded : Text)
      → validate_id client ≡ ok tt
      → (0 < length r.method) × (length r.method ≤ 128)
      → (0 < length r.idempotency_key) × (length r.idempotency_key ≤ 128)
      → length (codec.sha256 (r.method ++ (0 ∷ r.idempotency_key) ++ (0 ∷ r.body))) ≡ 32
      → codec.json_valid encoded ≡ true
      → 0 < env.now
      → check_record codec (new_record codec env client r encoded) ≡ ok tt
  unfolding check_record new_record digest_text
  check-ok env client r encoded id method key digest valid now =
      let doubled =
        length-hex_encode (codec.sha256 (r.method ++ (0 ∷ r.idempotency_key) ++ (0 ∷ r.body))) in
      ground arith

  -- A new request of the ledger, with a method and a key of at most 128 bytes, that succeeds with
  -- an encodable result of at most 256 KiB is answered with that result, and its record is in the
  -- ledger, provided that the database does its work and nobody else wrote to the ledger.
  pub new_request_recorded :
      (env : Env) (client : Text) (r : Request) (w : W) (t : Ledger) (a : A) (encoded : Text)
      → requires_idempotency r.method ≡ true
      → validate_id client ≡ ok tt
      → (0 < length r.method) × (length r.method ≤ 128)
      → (0 < length r.idempotency_key) × (length r.idempotency_key ≤ 128)
      → length (codec.sha256 (r.method ++ (0 ∷ r.idempotency_key) ++ (0 ∷ r.body))) ≡ 32
      → (codec.marshal a ≡ some encoded)
        × (codec.json_valid encoded ≡ true)
        × (length encoded ≤ max_frame_bytes)
      → (0 < env.now) × (env.others t ≡ t)
      → (env.reads ≡ true)
        × (env.saves.begins ≡ true)
        × (env.saves.runs ≡ true)
        × (env.saves.commits ≡ true)
      → t client r.method r.idempotency_key ≡ none
      → (dispatch r w).0 ≡ ok a
      → handle codec dispatch env client r (w, t)
        ≡ (ok (fresh a), ((dispatch r w).1, put_record t (new_record codec env client r encoded)))
  unfolding new_record
  new_request_recorded env client r w t a encoded h id method key digest (encodes, valid, fits)
        (now, alone) (reads, begins, runs, commits) absent done =
      let keyed : (length r.idempotency_key == 0) ≡ false = ground arith in
      let row = new_record codec env client r encoded in
      let checked = check-ok env client r encoded id method key digest valid now in
      let saved =
        save-committed env.saves (env.others t) row checked (rw alone absent)
          (begins, runs, commits) in
      let kept = record-committed env t client r a encoded fits saved in
      new-runs env client r w t a h keyed absent reads done
      ∙ ap
          (λ e. (
            (record_result codec env t client r a e).0,
            ((dispatch r w).1, (record_result codec env t client r a e).1),
          ))
          encodes
      ∙ ap (λ x. (x.0, ((dispatch r w).1, x.1))) kept
      ∙ ap (λ x. (ok (fresh a), ((dispatch r w).1, put_record x row))) alone
