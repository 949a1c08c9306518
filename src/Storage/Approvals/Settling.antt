-- ===== src/Storage/Approvals/Settling.antt =====
-- What a restart leaves of the approvals that were open.
use multi_agent_desk.Prelude.{
  some_inj, ℕ, Bool, true, false, ◌&&◌, ◌||◌, ◌≡◌, ◌∙◌, sym, Option-cases, Option, some, Text, refl,
  Bool-cases, not, ◌==◌, arith, ap, inl, inr,
}
use multi_agent_desk.Domain.Errors.{Code, Result, ok, err, bind-ok, refuse_if, ◌>>=◌}
use mathlib.Core.Path.{subst}
use multi_agent_desk.Storage.Driver.{Driver, with_tx, with_tx-keeps}
use multi_agent_desk.Storage.Table.{put, put-at}
use multi_agent_desk.Storage.Approvals.{
  write_claim, read_back, after_check, claim_approval_dispatch, check_claim, Approval, Approvals,
  Claim, is_pending, is_idle, is_dispatching, claim_row,
}
use multi_agent_desk.Storage.Approvals.Recovery.{expire_row, expire_pending_approvals}

-- Recovery takes these rows.
unfoldable pub is_open : Approval → Bool
is_open row =
    is_pending row.status && (is_idle row.response_state || is_dispatching row.response_state)

expire_row-closed :
    (owner : Option Text) (random : Text) (at : ℕ) (old row : Approval)
    → expire_row owner random at (some old) ≡ some row
    → is_open row ≡ false
unfolding expire_row is_open
expire_row-closed owner random at old row same = elim (Bool-cases (is_open old)) [
  | inl was ↦ let e = some_inj (rw was at same) in rw (sym e) refl
  | inr closed ↦ let e = some_inj (rw closed at same) in rw (sym e) closed
]

claim_row-closed :
    (row after : Approval) (c : Claim) (at : ℕ)
    → is_open row ≡ false
    → claim_row (some row) c at ≡ ok after
    → after ≡ row
unfolding claim_row is_open
claim_row-closed row after c at closed same = ground arith

unfoldable Closed : Approvals → Type 0
Closed t = (k : Text) (row : Approval) → t k ≡ some row → is_open row ≡ false

expired-Closed :
    (owner : Option Text) (random : Text → Text) (at : ℕ) (t : Approvals)
    → Closed (λ id. expire_row owner (random id) at (t id))
unfolding expire_row Closed
expired-Closed owner random at t k row stored = elim (Option-cases (t k)) [
  | inl none_there ↦ absurd (ground arith)
  | inr (old, there) ↦ expire_row-closed owner (random k) at old row (rw there at stored)
]

table_of : Result (Unit {0} × Approvals) → Approvals → Approvals
table_of (err e) t = t
table_of (ok (_, t)) _ = t

claim_row-stored :
    (t : Approvals) (id : Text) (row : Approval) (c : Claim) (at : ℕ)
    → Closed t
    → claim_row (t id) c at ≡ ok row
    → some row ≡ t id
unfolding claim_row Closed
claim_row-stored t id row c at closed claimed = elim (Option-cases (t id)) [
  | inl none_there ↦ absurd (ground arith)
  | inr (old, there) ↦
      let same = claim_row-closed old row c at (closed id old there) (rw there at claimed) in
      rw (same, there) refl
]

write_claim-keeps :
    (d : Driver) (id : Text) (c : Claim) (at : ℕ) (t after : Approvals) (k : Text) (done : Unit {0})
    → Closed t
    → write_claim d id c at t ≡ ok (done, after)
    → after k ≡ t k
unfolding write_claim table_of
write_claim-keeps d id c at t after k done closed wrote =
    let ready =
      bind-ok (refuse_if (not d.runs) Code.conflict)
        (λ ran. claim_row (t id) c at >>= λ row. ok (tt, put t id row)) wrote in
    let found = bind-ok (claim_row (t id) c at) (λ row. ok (tt, put t id row)) ready.rest in
    let written = ap (λ r. table_of r t k) found.rest in
    sym written
    ∙ put-at t id found.value k (λ o. o ≡ t k)
        (λ same. rw (sym same) (claim_row-stored t id found.value c at closed found.first)) refl

read_back-keeps :
    (reads : Bool) (id : Text) (x : Result (Unit {0}) × Approvals) → (read_back reads id x).1 ≡ x.1
read_back-keeps reads id (err e, t) = refl
read_back-keeps reads id (ok _, t) = refl

after_check-keeps :
    (d : Driver) (reads : Bool) (id : Text) (c : Claim) (at : ℕ) (t : Approvals) (k : Text)
    (checked : Result (Unit {0}))
    → Closed t
    → (after_check d reads id c at checked t).1 k ≡ t k
unfolding after_check
after_check-keeps d reads id c at t k (err e) closed = refl
after_check-keeps d reads id c at t k (ok _) closed =
    ap (λ u. u k) (read_back-keeps reads id (with_tx d t (write_claim d id c at)))
    ∙ with_tx-keeps (λ s. s k ≡ t k) d t (write_claim d id c at) refl
        (λ done after wrote. write_claim-keeps d id c at t after k done closed wrote)

ok_only : {code : Code} → Path (Result (Unit {0})) (err code) (ok tt) → ⊥
ok_only h = ground arith

expire-Closed :
    (runs : Bool) (owner : Option Text) (random : Text → Text) (at : ℕ) (t u : Approvals)
    → expire_pending_approvals runs owner random at t ≡ (ok tt, u)
    → Closed u
unfolding expire_pending_approvals
expire-Closed false owner random at t u h = elim (Bool-cases (at == 0)) [
  | inl zero_at ↦ absurd (ok_only (ap (λ r. r.0) (rw (zero_at, expire_pending_approvals) at h)))
  | inr some_at ↦ absurd (ok_only (ap (λ r. r.0) (rw (some_at, expire_pending_approvals) at h)))
]
expire-Closed true owner random at t u h = elim (Bool-cases (at == 0)) [
  | inl zero_at ↦ absurd (ok_only (ap (λ r. r.0) (rw (zero_at, expire_pending_approvals) at h)))
  | inr some_at ↦
      subst Closed (ap (λ r. r.1) (rw (some_at, expire_pending_approvals) at h))
        (expired-Closed owner random at t)
]

-- After a recovery that succeeds, a claim of an approval changes no row, whatever the table held
-- before, whether the claim is refused or repeats one that was made before.
pub recovery_settles :
    (runs : Bool) (owner : Option Text) (random : Text → Text) (at : ℕ) (t u : Approvals)
    (d : Driver) (reads : Bool) (id : Text) (c : Claim) (later : ℕ) (k : Text)
    → expire_pending_approvals runs owner random at t ≡ (ok tt, u)
    → (claim_approval_dispatch d reads id c later u).1 k ≡ u k
unfolding claim_approval_dispatch
recovery_settles runs owner random at t u d reads id c later k h =
    after_check-keeps d reads id c later u k (check_claim id c later)
      (expire-Closed runs owner random at t u h)
