-- ===== src/Storage/Approvals/Recovery.antt =====
-- internal/storage/repository.go: `ExpirePendingApprovals`. The two values that it fills in are
-- arguments.
use multi_agent_desk.Prelude.{
  ℕ, Bool, not, ◌&&◌, ◌||◌, Option, none, some, ◌==◌, if◌then◌else◌, Text, bytes,
}
use multi_agent_desk.Domain.Errors.{Code, Result, ok, err, ◌>>◌, refuse_if}
use multi_agent_desk.Storage.Approvals.{
  Approval, Approvals, ApprovalStatus, ResponseState, Decision, is_pending, is_idle, is_dispatching,
}

abbrev pub coalesce {ℓ} : {A : Type ℓ} → Option A → Option A → Option A
coalesce none b = b
coalesce (some a) b = some a

-- `owner` is the first client, and `random` the digest that the database makes.
unfoldable pub expire_row : Option Text → Text → ℕ → Option Approval → Option Approval
expire_row owner random at none = none
expire_row owner random at (some row) =
    if is_pending row.status && (is_idle row.response_state || is_dispatching row.response_state)
    then some (record row {
      status = ApprovalStatus.expired;
      response_state = ResponseState.ambiguous;
      requested_decision = coalesce row.requested_decision (some Decision.cancel);
      responded_by_device_id = coalesce row.responded_by_device_id owner;
      dispatch_digest = coalesce row.dispatch_digest (some random);
      dispatch_started_at = coalesce row.dispatch_started_at (some row.requested_at);
      responded_at = some at;
      dispatch_error_code =
          if is_idle row.response_state
          then bytes "daemon_restart_before_dispatch"
          else bytes "daemon_restart";
    })
    else some row

unfoldable pub expire_pending_approvals :
    Bool → Option Text → (Text → Text) → ℕ → Approvals → Result (Unit {0}) × Approvals
expire_pending_approvals runs owner random at t =
    elim (refuse_if (at == 0) Code.invalid_argument >> refuse_if (not runs) Code.conflict) [
      | err e ↦ (err e, t)
      | ok _ ↦ (ok tt, λ id. expire_row owner (random id) at (t id))
    ]
