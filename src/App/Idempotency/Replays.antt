-- ===== src/App/Idempotency/Replays.antt =====
-- What one request does: the record of a fresh answer, and what a later request of its key finds.
use multi_agent_desk.Prelude.{
  ◌≡◌, ◌≢◌, ◌⊎◌, inl, inr, refl, sym, ap, ◌∙◌, Bool, true, false, not, ◌||◌, Option, none, some,
  length, ◌==◌, if◌then◌else◌, Text, text_eq, bytes, arith, Bool-cases, ltb,
}
use mathlib.Core.Path.{subst}
use multi_agent_desk.Domain.Errors.{Code, Result, ok, err, result_cases}
use multi_agent_desk.App.Methods.{
  among, all_of, among-checked, ledger_methods, requires_idempotency,
}
use multi_agent_desk.App.Idempotency.{
  IdempotencyRecord, Request, Ledger, Codec, Env, Answer, fresh, Dispatch, digest_text,
  idempotency_record, save_idempotency_record, after_save, compare_stored, new_record,
  record_result, replay_record, run_fresh, with_idempotency, run_dispatch, handle, is_not_found,
  max_frame_bytes,
}
use multi_agent_desk.App.Idempotency.Ledgers.{Extends, save-Extends, save-ok, lookup-ok}

abbrev pub Honest : Env → Type 0
Honest env = (t : Ledger) → Extends t (env.others t)

not_vault : Text → Bool
not_vault m = not (text_eq m (bytes "vault.initialize") || text_eq m (bytes "vault.unlock"))

ledger-checked : all_of not_vault ledger_methods ≡ true
unfolding all_of text_eq not_vault
ledger-checked = refl

module _ {κ} {A : Type κ} (codec : Codec A) where
  record-Extends :
      (env : Env) (t : Ledger) (client : Text) (r : Request) (a : A) (e : Option Text)
      → Honest env
      → Extends t (record_result codec env t client r a e).1
  unfolding record_result
  record-Extends env t client r a none honest = honest t
  record-Extends env t client r a (some encoded) honest =
      elim (Bool-cases (ltb max_frame_bytes (length encoded))) [
        | inl big ↦ rw big (honest t)
        | inr fits ↦ rw fits λ c m k row h.
            save-Extends codec env.saves (env.others t) (new_record codec env client r encoded) c m
              k row (honest t c m k row h)
      ]

  after_save-fresh :
      (env : Env) (client : Text) (r : Request) (a b : A) (saved : Result (Unit {0}) × Ledger)
      → after_save codec env client r a saved ≡ ok (fresh b)
      → (a ≡ b) × (saved.0 ≡ ok tt)
  unfolding after_save compare_stored
  after_save-fresh env client r a b saved h = ground arith

  unencoded-not_fresh :
      (env : Env) (t : Ledger) (client : Text) (r : Request) (a b : A)
      → (record_result codec env t client r a none).0 ≢ ok (fresh b)
  unfolding record_result
  unencoded-not_fresh env t client r a b h = ground arith

  -- A fresh answer comes from a save that succeeded.
  record-fresh :
      (env : Env) (t : Ledger) (client : Text) (r : Request) (a b : A) (encoded : Text)
      → (record_result codec env t client r a (some encoded)).0 ≡ ok (fresh b)
      → (a ≡ b)
        × ((record_result codec env t client r a (some encoded)).1 client r.method r.idempotency_key
            ≡ some (new_record codec env client r encoded))
        × (codec.json_valid encoded ≡ true)
  unfolding record_result new_record
  record-fresh env t client r a b encoded h =
      let row = new_record codec env client r encoded in
      let saved = save_idempotency_record codec env.saves (env.others t) row in
      elim (Bool-cases (ltb max_frame_bytes (length encoded))) [
        | inl big ↦ absurd (ground arith)
        | inr fits ↦
            let (same, done) = after_save-fresh env client r a b saved (ground arith) in
            let (kept, valid) = save-ok codec env.saves (env.others t) row done in
            rw fits (same, kept, valid)
      ]

  -- What a fresh answer `b` needs of the encoded result and leaves in the ledger.
  pub record Saved (env : Env) (client : Text) (r : Request) (e : Option Text) (t' : Ledger)
      : Type 0 where
    pub encoded : Text
    pub encodes : e ≡ some encoded
    pub kept : t' client r.method r.idempotency_key ≡ some (new_record codec env client r encoded)
    pub valid : codec.json_valid encoded ≡ true

  record-Saved :
      (env : Env) (t : Ledger) (client : Text) (r : Request) (a b : A) (e : Option Text)
      → (record_result codec env t client r a e).0 ≡ ok (fresh b)
      → (a ≡ b) × Saved env client r e (record_result codec env t client r a e).1
  record-Saved env t client r a b none h = absurd (unencoded-not_fresh env t client r a b h)
  record-Saved env t client r a b (some encoded) h =
      let (same, kept, valid) = record-fresh env t client r a b encoded h in
      (same, record { encoded = encoded; encodes = refl; kept = kept; valid = valid })

  module _ {ℓ} {W : Type ℓ} (dispatch : Dispatch W A) where
    -- Either the call changes nothing and its answer is not fresh, or the request is run.
    with_cases :
        (env : Env) (client : Text) (r : Request) (w : W) (t : Ledger)
        → (((with_idempotency codec dispatch env client r (w, t)).1 ≡ (w, t))
            × ((a : A) → (with_idempotency codec dispatch env client r (w, t)).0 ≢ ok (fresh a)))
          ⊎ (with_idempotency codec dispatch env client r (w, t)
              ≡ run_fresh codec dispatch env client r (w, t))
    unfolding with_idempotency
    with_cases env client r w t = ground arith

    run-failed :
        (env : Env) (client : Text) (r : Request) (w : W) (t : Ledger) (e : Code)
        → (dispatch r w).0 ≡ err e
        → run_fresh codec dispatch env client r (w, t) ≡ (err e, ((dispatch r w).1, env.others t))
    unfolding run_fresh
    run-failed env client r w t e h = ground arith

    pub run-done :
        (env : Env) (client : Text) (r : Request) (w : W) (t : Ledger) (a : A)
        → (dispatch r w).0 ≡ ok a
        → run_fresh codec dispatch env client r (w, t) ≡ (
          (record_result codec env t client r a (codec.marshal a)).0,
          ((dispatch r w).1, (record_result codec env t client r a (codec.marshal a)).1),
        )
    unfolding run_fresh
    run-done env client r w t a h = ground arith

    run-Extends :
        (env : Env) (client : Text) (r : Request) (w : W) (t : Ledger)
        → Honest env
        → Extends t (run_fresh codec dispatch env client r (w, t)).1.1
    run-Extends env client r w t honest = elim (result_cases (dispatch r w).0) [
      | inl (e, failed) ↦ rw (run-failed env client r w t e failed) (honest t)
      | inr (a, done) ↦
          rw (run-done env client r w t a done)
            (record-Extends env t client r a (codec.marshal a) honest)
    ]

    with-Extends :
        (env : Env) (client : Text) (r : Request) (w : W) (t : Ledger)
        → Honest env
        → Extends t (with_idempotency codec dispatch env client r (w, t)).1.1
    with-Extends env client r w t honest = elim (with_cases env client r w t) [
      | inl (same, _) ↦ rw same (λ c m k row h. h)
      | inr runs ↦ rw runs (run-Extends env client r w t honest)
    ]

    -- Records stay, whatever is called.
    pub handle-Extends :
        (env : Env) (client : Text) (r : Request) (w : W) (t : Ledger)
        → Honest env
        → Extends t (handle codec dispatch env client r (w, t)).1.1
    unfolding handle run_dispatch
    handle-Extends env client r w t honest c m k row h =
        let ledger = with-Extends env client r w t honest c m k row h in ground arith

    -- What a fresh answer leaves behind.
    pub record Recorded (env : Env) (client : Text) (r : Request) (w : W) (a : A) (w' : W)
        (t' : Ledger) : Type (ℓ ⊔ κ) where
      pub ran : dispatch r w ≡ (ok a, w')
      pub saved : Saved env client r (codec.marshal a) t'

    done-Recorded :
        (env : Env) (client : Text) (r : Request) (w : W) (t : Ledger) (a b : A) (w' : W)
        (t' : Ledger)
        → (dispatch r w).0 ≡ ok b
        → ((record_result codec env t client r b (codec.marshal b)).0 ≡ ok (fresh a))
        → (dispatch r w).1 ≡ w'
        → (record_result codec env t client r b (codec.marshal b)).1 ≡ t'
        → Recorded env client r w a w' t'
    done-Recorded env client r w t a b w' t' done answer world ledger =
        let (same, saved) = record-Saved env t client r b a (codec.marshal b) answer in
        record {
          ran = ground arith;
          saved =
              subst (λ x. Saved env client r (codec.marshal x) t') same
                (subst (Saved env client r (codec.marshal b)) ledger saved);
        }

    run-Recorded :
        (env : Env) (client : Text) (r : Request) (w : W) (t : Ledger) (a : A) (w' : W)
        (t' : Ledger)
        → run_fresh codec dispatch env client r (w, t) ≡ (ok (fresh a), (w', t'))
        → Recorded env client r w a w' t'
    run-Recorded env client r w t a w' t' h = elim (result_cases (dispatch r w).0) [
      | inl (e, failed) ↦ let run = run-failed env client r w t e failed in absurd (ground arith)
      | inr (b, done) ↦
          let run = sym (run-done env client r w t b done) ∙ h in
          done-Recorded env client r w t a b w' t' done (ap (λ x. x.0) run) (ap (λ x. x.1.0) run)
            (ap (λ x. x.1.1) run)
    ]

    pub with-Recorded :
        (env : Env) (client : Text) (r : Request) (w : W) (t : Ledger) (a : A) (w' : W)
        (t' : Ledger)
        → with_idempotency codec dispatch env client r (w, t) ≡ (ok (fresh a), (w', t'))
        → Recorded env client r w a w' t'
    with-Recorded env client r w t a w' t' h = elim (with_cases env client r w t) [
      | inl (_, stale) ↦ absurd (stale a (ap (λ x. x.0) h))
      | inr runs ↦ run-Recorded env client r w t a w' t' (sym runs ∙ h)
    ]

    with-found :
        (env : Env) (client : Text) (r : Request) (w : W) (t : Ledger) (row : IdempotencyRecord)
        → idempotency_record codec env.reads t client r.method r.idempotency_key ≡ ok row
        → with_idempotency codec dispatch env client r (w, t)
          ≡ (replay_record codec row (digest_text codec r), (w, t))
    unfolding with_idempotency
    with-found env client r w t row h = ground arith

    -- A request whose key is in the ledger changes nothing.
    pub with-kept :
        (env : Env) (client : Text) (r : Request) (w : W) (t : Ledger) (row : IdempotencyRecord)
        → t client r.method r.idempotency_key ≡ some row
        → codec.json_valid row.response_metadata ≡ true
        → with_idempotency codec dispatch env client r (w, t) ≡ (
          if env.reads then replay_record codec row (digest_text codec r) else err Code.conflict,
          (w, t),
        )
    unfolding with_idempotency idempotency_record is_not_found
    with-kept env client r w t row h v = elim (Bool-cases env.reads) [
      | inl reads ↦
          let found =
            subst (λ b. idempotency_record codec b t client r.method r.idempotency_key ≡ ok row)
              (sym reads) (lookup-ok codec t client r.method r.idempotency_key row h v) in
          subst
            (λ b. with_idempotency codec dispatch env client r (w, t) ≡ (
              if b then replay_record codec row (digest_text codec r) else err Code.conflict,
              (w, t),
            ))
            (sym reads) (with-found env client r w t row found)
      | inr fails ↦ rw (fails, idempotency_record) refl
    ]

    pub handle-ledger :
        (env : Env) (client : Text) (r : Request) (s : W × Ledger)
        → requires_idempotency r.method ≡ true
        → (length r.idempotency_key == 0 ≡ false)
        → handle codec dispatch env client r s ≡ with_idempotency codec dispatch env client r s
    unfolding handle not_vault among requires_idempotency
    handle-ledger env client r s h k =
        let safe = among-checked not_vault ledger_methods r.method ledger-checked h in ground arith

    -- An answer that is not an error has a key.
    pub handle-keyed :
        (env : Env) (client : Text) (r : Request) (s s' : W × Ledger) (a : Answer A)
        → requires_idempotency r.method ≡ true
        → handle codec dispatch env client r s ≡ (ok a, s')
        → (length r.idempotency_key == 0) ≡ false
    unfolding handle not_vault among requires_idempotency
    handle-keyed env client r s s' a h answer =
        let safe = among-checked not_vault ledger_methods r.method ledger-checked h in ground arith
