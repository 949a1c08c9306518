-- ===== src/Storage/Driver.antt =====
-- internal/storage/store.go: `withTx`. What the database answers for reasons that the program does
-- not decide (I/O, locks, foreign keys into tables that are not modelled) is an argument.
use multi_agent_desk.Prelude.{◌≡◌, inl, inr, Bool, if◌then◌else◌, arith}
use multi_agent_desk.Domain.Errors.{Code, Result, ok, err, result_cases}

pub record Driver : Type 0 where
  pub begins : Bool
  pub runs : Bool
  pub commits : Bool

module _ {ℓ} {S A : Type ℓ} where
  unfoldable pub commit : Driver → S → Result (A × S) → Result A × S
  commit d s (err e) = (err e, s)
  commit d s (ok (a, s')) = if d.commits then (ok a, s') else (err Code.conflict, s)

  unfoldable pub with_tx : Driver → S → (S → Result (A × S)) → Result A × S
  unfolding commit
  with_tx d s body = if d.begins then commit d s (body s) else (err Code.conflict, s)

  -- A transaction that fails leaves the state as it was.
  pub with_tx-err :
      (d : Driver) (s : S) (body : S → Result (A × S)) {e : Code}
      → (with_tx d s body).0 ≡ err e
      → (with_tx d s body).1 ≡ s
  unfolding with_tx
  with_tx-err d s body h = ground arith

  -- One that succeeds has run its body on the state.
  pub with_tx-ok :
      (d : Driver) (s : S) (body : S → Result (A × S)) {a : A}
      → (with_tx d s body).0 ≡ ok a
      → body s ≡ ok (a, (with_tx d s body).1)
  unfolding with_tx
  with_tx-ok d s body h = ground arith

  -- What holds before, and after the body if it succeeds, holds after the transaction.
  pub with_tx-keeps {κ} :
      (P : S → Type κ) (d : Driver) (s : S) (body : S → Result (A × S))
      → P s
      → ((a : A) (s' : S) → body s ≡ ok (a, s') → P s')
      → P (with_tx d s body).1
  with_tx-keeps P d s body before after = elim (result_cases (with_tx d s body).0) [
    | inl (e, failed) ↦ rw (with_tx-err d s body failed) before
    | inr (a, done) ↦ after a (with_tx d s body).1 (with_tx-ok d s body done)
  ]
