-- ===== src/App/Idempotency/AtMostOnce.antt =====
-- A request of the ledger is carried out at most once, provided that its record is saved.
use multi_agent_desk.Prelude.{
  some_inj, ◌≡◌, sym, ap, ◌∙◌, Bool, true, false, ◌&&◌, some, List, [], ◌∷◌, length, ◌==◌,
  if◌then◌else◌, Text, text_eq, arith, All,
}
use multi_agent_desk.Domain.Errors.{Code, ok, err}
use multi_agent_desk.App.Methods.{requires_idempotency}
use multi_agent_desk.App.Idempotency.{
  IdempotencyRecord, Request, Ledger, Codec, Env, fresh, stored, Dispatch, digest_text, new_record,
  replay_record, handle,
}
use multi_agent_desk.App.Idempotency.Ledgers.{Extends}
use multi_agent_desk.App.Idempotency.Replays.{
  handle-keyed, Honest, with-Recorded, with-kept, handle-ledger, handle-Extends,
}

pub record Step : Type 0 where
  pub env : Env
  pub client : Text
  pub request : Request

abbrev pub HonestStep : Step → Type 0
HonestStep s = Honest s.env

module _ {ℓ κ} {A : Type κ} {W : Type ℓ} (codec : Codec A) (dispatch : Dispatch W A) where
  -- The requests of all clients, in the order in which the service carries them out.
  unfoldable pub run : List Step → W × Ledger → W × Ledger
  run [] s = s
  run (step ∷ rest) s = run rest (handle codec dispatch step.env step.client step.request s).1

  run-Extends :
      (steps : List Step) (s : W × Ledger) → All HonestStep steps → Extends s.1 (run steps s).1
  unfolding run
  run-Extends [] s honest c m k row h = h
  run-Extends (step ∷ rest) (w, t) honest c m k row h =
      run-Extends rest (handle codec dispatch step.env step.client step.request (w, t)).1 honest.1 c
        m k row
        (handle-Extends codec dispatch step.env step.client step.request w t honest.0 c m k row h)

  same_key :
      (env : Env) (client : Text) (r : Request) (s : W × Ledger) (row : IdempotencyRecord)
      → requires_idempotency r.method ≡ true
      → (length r.idempotency_key == 0) ≡ false
      → s.1 client r.method r.idempotency_key ≡ some row
      → codec.json_valid row.response_metadata ≡ true
      → handle codec dispatch env client r s ≡ (
        if env.reads then replay_record codec row (digest_text codec r) else err Code.conflict,
        s,
      )
  same_key env client r (w, t) row h k kept valid =
      handle-ledger codec dispatch env client r (w, t) h k
      ∙ with-kept codec dispatch env client r w t row kept valid

  replay-answer :
      (env : Env) (client : Text) (r r' : Request) (reads : Bool) (encoded' encoded : Text)
      → encoded' ≡ encoded
      → (if reads
          then replay_record codec (new_record codec env client r encoded') (digest_text codec r')
          else err Code.conflict)
        ≡ (if reads && text_eq (digest_text codec r) (digest_text codec r')
            then ok (stored encoded)
            else err Code.conflict)
  unfolding new_record
  replay-answer env client r r' reads encoded' encoded same = ground arith

  -- Once a client's request of the ledger has a fresh answer, a later request of that client with
  -- the same method and key is not carried out, whatever requests came between: it changes nothing.
  -- Its answer is the first one's encoded result if the ledger can be read and the two have one
  -- digest, and else a conflict. Other writers of the ledger are assumed to keep its records.
  pub at_most_once :
      (env : Env) (client : Text) (r : Request) (w : W) (t : Ledger) (a : A) (s' : W × Ledger)
      (steps : List Step) (env' : Env) (r' : Request) (encoded : Text)
      → requires_idempotency r.method ≡ true
      → handle codec dispatch env client r (w, t) ≡ (ok (fresh a), s')
      → codec.marshal a ≡ some encoded
      → All HonestStep steps
      → r'.method ≡ r.method
      → r'.idempotency_key ≡ r.idempotency_key
      → handle codec dispatch env' client r' (run steps s') ≡ (
        if env'.reads && text_eq (digest_text codec r) (digest_text codec r')
            then ok (stored encoded)
            else err Code.conflict,
        run steps s',
      )
  unfolding new_record
  at_most_once env client r w t a (w', t') steps env' r' encoded h answer encodes honest method
        key =
      let keyed = handle-keyed codec dispatch env client r (w, t) (w', t') (fresh a) h answer in
      let ran = sym (handle-ledger codec dispatch env client r (w, t) h keyed) ∙ answer in
      let recorded = with-Recorded codec dispatch env client r w t a w' t' ran in
      let saved = recorded.saved in
      let row = new_record codec env client r saved.encoded in
      let kept =
        run-Extends steps (w', t') honest client r.method r.idempotency_key row saved.kept in
      let second =
        same_key env' client r' (run steps (w', t')) row (rw method h) (rw key keyed)
          (rw (method, key) kept) saved.valid in
      second
      ∙ ap (λ x. (x, run steps (w', t')))
          (replay-answer env client r r' env'.reads saved.encoded encoded
            (some_inj (sym saved.encodes ∙ encodes)))
