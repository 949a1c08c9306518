-- ===== src/Storage/Approvals/Decided.antt =====
-- A decision that is claimed for an approval stays: the rows that have one, and what keeps them.
use multi_agent_desk.Prelude.{
  ℕ, Bool, true, false, not, ◌≡◌, ◌∙◌, refl, sym, ap, inl, inr, Bool-cases, Option, none, some,
  Text, arith,
}
use mathlib.Core.Path.{subst}
use multi_agent_desk.Domain.Errors.{Code, Result, ok, err, ok_inj, bind-ok, ◌>>=◌, refuse_if}
use multi_agent_desk.Storage.Driver.{Driver, with_tx, with_tx-keeps, with_tx-ok}
use multi_agent_desk.Storage.Table.{put, put-at, put_self}
use multi_agent_desk.Storage.Approvals.{
  Approval, Approvals, Decision, Claim, is_idle, decision_eq, same_claim, claimed, claim_row,
  write_claim, check_claim, read_back, after_check, claim_approval_dispatch,
}

-- A row whose decision is made.
pub record Made (decision : Decision) (row : Approval) : Type 0 where
  pub taken : is_idle row.response_state ≡ false
  pub decided : row.requested_decision ≡ some decision

pub record Holds (decision : Decision) (t : Approvals) (id : Text) : Type 0 where
  pub row : Approval
  pub stored : t id ≡ some row
  pub made : Made decision row

-- A change of the table that undoes no decision.
unfoldable pub Keeps : Approvals → Approvals → Type 0
Keeps t u = (decision : Decision) (id : Text) → Holds decision t id → Holds decision u id

pub Keeps-refl : (t : Approvals) → Keeps t t
unfolding Keeps
Keeps-refl t decision id h = h

pub Keeps-trans : (t u v : Approvals) → Keeps t u → Keeps u v → Keeps t v
unfolding Keeps
Keeps-trans t u v first second decision id h = second decision id (first decision id h)

-- Writing a row that keeps the decision of the one before it.
pub put-Keeps :
    (t : Approvals) (id : Text) (row : Approval)
    → ((decision : Decision) (old : Approval)
        → t id ≡ some old
        → Made decision old
        → Made decision row)
    → Keeps t (put t id row)
unfolding Keeps
put-Keeps t id row same decision k h =
    let w =
      put-at t id row k (λ o. (r : Approval) × (o ≡ some r) × Made decision r)
        (λ here. (row, refl, same decision h.row (ap t here ∙ h.stored) h.made))
        (h.row, h.stored, h.made) in
    record { row = w.0; stored = w.1; made = w.2 }

decision_eq-same : (d : Decision) (o : Option Decision) → decision_eq d o ≡ true → o ≡ some d
unfolding decision_eq
decision_eq-same Decision.approve (some Decision.approve) h = refl
decision_eq-same Decision.approve (some Decision.deny) h = absurd (ground arith)
decision_eq-same Decision.approve (some Decision.cancel) h = absurd (ground arith)
decision_eq-same Decision.approve none h = absurd (ground arith)
decision_eq-same Decision.deny (some Decision.approve) h = absurd (ground arith)
decision_eq-same Decision.deny (some Decision.deny) h = refl
decision_eq-same Decision.deny (some Decision.cancel) h = absurd (ground arith)
decision_eq-same Decision.deny none h = absurd (ground arith)
decision_eq-same Decision.cancel (some Decision.approve) h = absurd (ground arith)
decision_eq-same Decision.cancel (some Decision.deny) h = absurd (ground arith)
decision_eq-same Decision.cancel (some Decision.cancel) h = refl
decision_eq-same Decision.cancel none h = absurd (ground arith)

claim_row-Made :
    (decision : Decision) (old row : Approval) (c : Claim) (at : ℕ)
    → claim_row (some old) c at ≡ ok row
    → Made decision old
    → Made decision row
unfolding claim_row
claim_row-Made decision old row c at h made =
    let taken = made.taken in subst (Made decision) (ground arith) made

claim_row-new :
    (o : Option Approval) (row : Approval) (c : Claim) (at : ℕ)
    → claim_row o c at ≡ ok row
    → Made c.decision row
unfolding claim_row claimed same_claim
claim_row-new none row c at h = absurd (ground arith)
claim_row-new (some old) row c at h = elim (Bool-cases (is_idle old.response_state)) [
  | inl idle ↦
      let e : claimed old c at ≡ row = ground arith in
      subst (Made c.decision) e (record { taken = refl; decided = refl })
  | inr taken ↦
      let e : old ≡ row = ground arith in
      let same : decision_eq c.decision old.requested_decision ≡ true = ground arith in
      subst (Made c.decision) e (record {
        taken = taken;
        decided = decision_eq-same c.decision old.requested_decision same;
      })
]

record Claimed (c : Claim) (at : ℕ) (id : Text) (t u : Approvals) : Type 0 where
  pub row : Approval
  pub written : u ≡ put t id row
  pub claim : claim_row (t id) c at ≡ ok row

write_claim-Claimed :
    (d : Driver) (id : Text) (c : Claim) (at : ℕ) (t u : Approvals) (done : Unit {0})
    → write_claim d id c at t ≡ ok (done, u)
    → Claimed c at id t u
unfolding write_claim
write_claim-Claimed d id c at t u done h =
    let ran =
      bind-ok (refuse_if (not d.runs) Code.conflict)
        (λ _. claim_row (t id) c at >>= λ row. ok (tt, put t id row)) h in
    let found = bind-ok (claim_row (t id) c at) (λ row. ok (tt, put t id row)) ran.rest in
    record {
      row = found.value;
      written = sym (ap (λ r. r.1) (ok_inj found.rest));
      claim = found.first;
    }

Claimed-Keeps : (c : Claim) (at : ℕ) (id : Text) (t u : Approvals) → Claimed c at id t u → Keeps t u
Claimed-Keeps c at id t u w = subst (Keeps t) (sym w.written) (
    put-Keeps t id w.row (λ decision old there made.
      claim_row-Made decision old w.row c at (ap (λ o. claim_row o c at) (sym there) ∙ w.claim)
        made))

Claimed-Holds :
    (c : Claim) (at : ℕ) (id : Text) (t u : Approvals) → Claimed c at id t u → Holds c.decision u id
Claimed-Holds c at id t u w = record {
  row = w.row;
  stored = ap (λ x. x id) w.written ∙ put_self t id w.row;
  made = claim_row-new (t id) w.row c at w.claim;
}

read_back-table :
    (reads : Bool) (id : Text) (x : Result (Unit {0}) × Approvals) → (read_back reads id x).1 ≡ x.1
read_back-table reads id (err e, t) = refl
read_back-table reads id (ok _, t) = refl

read_back-done :
    (reads : Bool) (id : Text) (x : Result (Unit {0}) × Approvals) (row : Approval)
    → (read_back reads id x).0 ≡ ok row
    → x.0 ≡ ok tt
read_back-done reads id (err e, t) row h = absurd (ground arith)
read_back-done reads id (ok _, t) row h = refl

pub claim-Keeps :
    (d : Driver) (reads : Bool) (id : Text) (c : Claim) (at : ℕ) (t : Approvals)
    → Keeps t (claim_approval_dispatch d reads id c at t).1
unfolding claim_approval_dispatch after_check
claim-Keeps d reads id c at t = go (check_claim id c at)
  where
    go : (checked : Result (Unit {0})) → Keeps t (after_check d reads id c at checked t).1
    go (err e) = Keeps-refl t
    go (ok _) =
        subst (Keeps t) (sym (read_back-table reads id (with_tx d t (write_claim d id c at)))) (
          with_tx-keeps (Keeps t) d t (write_claim d id c at) (Keeps-refl t) (λ done u wrote.
            Claimed-Keeps c at id t u (write_claim-Claimed d id c at t u done wrote)))

pub claim-Holds :
    (d : Driver) (reads : Bool) (id : Text) (c : Claim) (at : ℕ) (t : Approvals) (row : Approval)
    → (claim_approval_dispatch d reads id c at t).0 ≡ ok row
    → Holds c.decision (claim_approval_dispatch d reads id c at t).1 id
unfolding claim_approval_dispatch after_check
claim-Holds d reads id c at t row = go (check_claim id c at)
  where
    go :
        (checked : Result (Unit {0}))
        → (after_check d reads id c at checked t).0 ≡ ok row
        → Holds c.decision (after_check d reads id c at checked t).1 id
    go (err e) h = absurd (ground arith)
    go (ok _) h =
        let tx = with_tx d t (write_claim d id c at) in
        let wrote = with_tx-ok d t (write_claim d id c at) (read_back-done reads id tx row h) in
        subst (λ u. Holds c.decision u id) (sym (read_back-table reads id tx))
          (Claimed-Holds c at id t tx.1 (write_claim-Claimed d id c at t tx.1 tt wrote))
