-- ===== src/Codex/Approvals/Planned.antt =====
-- What `RespondApproval` plans to write, and what it leaves of the table and of the requests that
-- wait.
use multi_agent_desk.Prelude.{
  Bool, true, not, ◌||◌, ◌&&◌, Option-cases, none, if◌then◌else◌, ◌≡◌, ◌∙◌, ap, inl, inr,
  Bool-cases, Option, some, Text, text_eq, text_eq_iff, arith, bytes,
}
use mathlib.Core.Path.{subst}
use multi_agent_desk.Domain.Errors.{Code, Result, ok, err, bind-ok, ◌>>=◌, ◌>>◌, refuse_if}
use multi_agent_desk.Storage.Approvals.{Approval, Approvals, Decision, is_idle, approval}
use multi_agent_desk.Storage.Approvals.Finishing.{complete_approval_dispatch}
use multi_agent_desk.Codex.Approvals.{
  Request, Pending, Binding, Bridge, response_text, answerable, Plan, Answers, method_of,
  check_request, dispatch_digest, plan, plan_stored, check_pending, fail, or_fail, forget,
  forget_pending, settle,
}
use multi_agent_desk.Storage.Approvals.Decided.{Keeps, Keeps-trans}
use multi_agent_desk.Storage.Approvals.Keeping.{complete-Keeps, fail-Keeps}

-- The other writers undo no decision.
pub record Fair (w : Answers) : Type 0 where
  pub before_claim : (t : Approvals) → Keeps t (w.before_claim t)
  pub during_finish : (t : Approvals) → Keeps t (w.during_finish t)
  pub during_fail : (t : Approvals) → Keeps t (w.during_fail t)

fails-Keeps :
    (w : Answers) (q : Request) (digest : Text) (t : Approvals)
    → Fair w
    → Keeps t (fail w q digest t).1
unfolding fail
fails-Keeps w q digest t fair =
    fail-Keeps w.fails w.fail_reads w.during_fail q.approval_id digest
      (bytes "approval_dispatch_ambiguous") w.fail_at t (fair.during_fail t)

or_fail-Keeps :
    (w : Answers) (q : Request) (digest : Text) (t : Approvals) (x : Result Approval × Approvals)
    → Fair w
    → Keeps t x.1
    → Keeps t (or_fail w q digest x).1
or_fail-Keeps w q digest t (ok row, u) fair kept = kept
or_fail-Keeps w q digest t (err e, u) fair kept =
    Keeps-trans t u (fail w q digest u).1 kept (fails-Keeps w q digest u fair)

pub settle-Keeps :
    (w : Answers) (q : Request) (digest request_id : Text) (t : Approvals)
    → Fair w
    → Keeps t (settle w q digest request_id t).1
unfolding settle fail
settle-Keeps w q digest request_id t fair =
    elim (Bool-cases (answerable w.handshaken request_id && w.writes)) [
      | inr broken ↦ rw (settle, broken) (fails-Keeps w q digest t fair)
      | inl wrote ↦
          rw (settle, wrote)
            (or_fail-Keeps w q digest t
              (complete_approval_dispatch w.finishes w.finish_reads w.during_finish q.approval_id
                digest w.finish_at t)
              fair
              (complete-Keeps w.finishes w.finish_reads w.during_finish q.approval_id digest
                w.finish_at t (fair.during_finish t)))
    ]

-- The words of the protocol for a decision.
pub data Wire : Decision → Text → Type 0 where
  accepts : Wire Decision.approve (bytes "accept")
  declines : Wire Decision.deny (bytes "decline")
  cancels : Wire Decision.cancel (bytes "cancel")

pub response_text-Wire : (decision : Decision) → Wire decision (response_text decision)
unfolding response_text
response_text-Wire Decision.approve = accepts
response_text-Wire Decision.deny = declines
response_text-Wire Decision.cancel = cancels

-- `Asked` relates the approvals to the requests of the process that they stand for.
module _ (Asked : Text → Text → Type 0) where
  -- Every request that waits is one of its approval.
  unfoldable pub Waiting : (Text → Option Binding) → Type 0
  Waiting bindings =
      (session key : Text) (b : Binding) (p : Pending)
      → bindings session ≡ some b
      → b.pending key ≡ some p
      → Asked p.approval_id p.request_id

  check_pending-Asked :
      (bindings : Text → Option Binding) (q : Request) (method payload_digest request_id : Text)
      → Waiting bindings
      → check_pending (bindings q.session_id) q method payload_digest ≡ ok request_id
      → Asked q.approval_id request_id
  unfolding check_pending Waiting
  check_pending-Asked bindings q method payload_digest request_id waits h =
      elim (Option-cases (bindings q.session_id)) [
        | inl nothing ↦ absurd (ground (arith, nothing))
        | inr (b, there) ↦ elim (Option-cases (b.pending q.provider_approval_id)) [
          | inl missing ↦ absurd (ground (arith, there, missing))
          | inr (p, pending) ↦
              let asked = waits q.session_id q.provider_approval_id b p there pending in
              let own : p.approval_id ≡ q.approval_id =
                ground (arith, there, pending, text_eq_iff p.approval_id q.approval_id) in
              let id : p.request_id ≡ request_id = ground (arith, there, pending) in
              subst (λ k. Asked q.approval_id k) id (subst (λ k. Asked k p.request_id) own asked)
        ]
      ]

  plan_stored-ready :
      (digest to_send request_id : Text) (waits : Result Text) (stored : Approval)
      → plan_stored digest waits stored ≡ ok (Plan.dispatch to_send request_id)
      → (is_idle stored.response_state ≡ true) × (waits ≡ ok request_id)
  unfolding plan_stored
  plan_stored-ready digest to_send request_id (ok id) stored h = (ground arith, ground arith)
  plan_stored-ready digest to_send request_id (err e) stored h = absurd (ground arith)

  approval-stored :
      (reads : Bool) (t : Approvals) (id : Text) (row : Approval)
      → approval reads t id ≡ ok row
      → t id ≡ some row
  unfolding approval
  approval-stored reads t id row h = ground arith

  -- A response is planned for an approval that is idle, to a request of it.
  pub record Ready (s : Bridge) (id request_id : Text) : Type 0 where
    pub row : Approval
    pub stored : s.approvals id ≡ some row
    pub idle : is_idle row.response_state ≡ true
    pub asked : Asked id request_id

  pub plan-Ready :
      (sha256 : Text → Text) (reads : Bool) (q : Request) (s : Bridge) (digest request_id : Text)
      → Waiting s.bindings
      → plan sha256 reads q s ≡ ok (Plan.dispatch digest request_id)
      → Ready s q.approval_id request_id
  unfolding plan
  plan-Ready sha256 reads q s digest request_id waits h =
      let checked = bind-ok (check_request q) (λ _. looked) h in
      let found = bind-ok (approval reads s.approvals q.approval_id) matched checked.rest in
      let same =
        bind-ok (refuse_if (mismatch found.value) Code.approval_request_unknown)
          (λ _. methods found.value) found.rest in
      let known = bind-ok (method_of found.value.kind) (λ m. planned found.value m) same.rest in
      let digest_of = dispatch_digest sha256 q known.value found.value.payload_digest in
      let pending =
        check_pending (s.bindings q.session_id) q known.value found.value.payload_digest in
      let ready = plan_stored-ready digest_of digest request_id pending found.value known.rest in
      record {
        row = found.value;
        stored = approval-stored reads s.approvals q.approval_id found.value found.first;
        idle = ready.0;
        asked =
            check_pending-Asked s.bindings q known.value found.value.payload_digest request_id waits
              ready.1;
      }
    where
      mismatch : Approval → Bool
      mismatch stored =
          not (text_eq stored.session_id q.session_id)
          || not (text_eq stored.provider_approval_id q.provider_approval_id)

      planned : Approval → Text → Result Plan
      planned stored method =
          plan_stored (dispatch_digest sha256 q method stored.payload_digest)
            (check_pending (s.bindings q.session_id) q method stored.payload_digest) stored

      methods : Approval → Result Plan
      methods stored = method_of stored.kind >>= λ m. planned stored m

      matched : Approval → Result Plan
      matched stored = refuse_if (mismatch stored) Code.approval_request_unknown >> methods stored

      looked : Result Plan
      looked = approval reads s.approvals q.approval_id >>= λ stored. matched stored

  pub forget-Waiting :
      (is_current : Bool) (q : Request) (bindings : Text → Option Binding)
      → Waiting bindings
      → Waiting (forget_pending is_current q bindings)
  unfolding Waiting forget_pending forget
  forget-Waiting is_current q bindings waits session key b p there pending =
      elim (Bool-cases (is_current && text_eq q.session_id session)) [
        | inr other ↦ waits session key b p (ground arith) pending
        | inl here ↦ elim (Option-cases (bindings session)) [
          | inl nothing ↦ absurd (ground (arith, nothing))
          | inr (old, known) ↦
              let same : forget q.provider_approval_id old ≡ b = ground (arith, known) in
              waits session key old p known
                (still old p key (ap (λ (x : Binding). x.pending key) same ∙ pending))
        ]
      ]
    where
      still :
          (old : Binding) (p : Pending) (key : Text)
          → (if text_eq q.provider_approval_id key then none else old.pending key) ≡ some p
          → old.pending key ≡ some p
      still old p key h = ground arith
