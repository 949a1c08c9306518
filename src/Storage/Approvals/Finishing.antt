-- ===== src/Storage/Approvals/Finishing.antt =====
-- internal/storage/repository.go: `CompleteApprovalDispatch` and `FailApprovalDispatch`.
use multi_agent_desk.Prelude.{
  ℕ, Bool, true, false, not, ◌&&◌, ◌||◌, Option, none, some, [], ltb, ◌==◌, if◌then◌else◌, length,
  Text, text_eq,
}
use multi_agent_desk.Domain.Errors.{Code, Result, ok, err, ◌>>◌, refuse_if}
use multi_agent_desk.Domain.Id.{validate_id}
use multi_agent_desk.Domain.Session.{is_empty}
use multi_agent_desk.Storage.Driver.{Driver}
use multi_agent_desk.Storage.Table.{put}
use multi_agent_desk.Storage.Approvals.{
  Approval, Approvals, ApprovalStatus, ResponseState, Decision, is_pending, is_dispatching,
  status_for_decision, column_eq, approval,
}

-- The row that `WHERE status='pending' AND response_state='dispatching' AND dispatch_digest=?`
-- selects, changed by `f`.
unfoldable pub in_flight : Option Approval → Text → (Approval → Approval) → Result Approval
in_flight none digest f = err Code.conflict
in_flight (some row) digest f =
    if is_pending row.status
      && is_dispatching row.response_state
      && column_eq row.dispatch_digest digest
    then ok (f row)
    else err Code.conflict

unfoldable pub update_in_flight :
    Driver → Bool → Text → Text → (Approval → Approval) → Approvals → Result Approval × Approvals
update_in_flight d reads id digest f t =
    elim (refuse_if (not d.runs) Code.conflict >> in_flight (t id) digest f) [
      | err e ↦ (err e, t)
      | ok row ↦ (approval reads (put t id row) id, put t id row)
    ]

unfoldable pub completed : ℕ → Decision → Approval → Approval
completed at decision row = record row {
  status = status_for_decision decision;
  response_state = ResponseState.written;
  responded_at = some at;
  dispatch_error_code = [];
}

abbrev pub is_written : ResponseState → Bool
is_written ResponseState.written = true
is_written _ = false

abbrev pub is_ambiguous : ResponseState → Bool
is_ambiguous ResponseState.ambiguous = true
is_ambiguous _ = false

-- Without a decision the status would be empty, and the table's checks refuse it.
unfoldable pub complete_decided :
    Driver → Bool → Text → Text → ℕ → Option Decision → Approvals → Result Approval × Approvals
complete_decided d reads id digest at none t = (err Code.conflict, t)
complete_decided d reads id digest at (some decision) t =
    update_in_flight d reads id digest (completed at decision) t

-- What was read decides whether there is something to write; others may write in between.
unfoldable pub complete_seen :
    Driver
    → Bool
    → (Approvals → Approvals)
    → Text
    → Text
    → ℕ
    → Result Approval
    → Approvals
    → Result Approval × Approvals
complete_seen d reads others id digest at (err e) t = (err e, t)
complete_seen d reads others id digest at (ok seen) t =
    let update = complete_decided d reads id digest at seen.requested_decision (others t) in
    if not (column_eq seen.dispatch_digest digest)
    then (err Code.conflict, t)
    else if is_written seen.response_state
    then (ok seen, t)
    else if is_dispatching seen.response_state
    then update
    else (err Code.conflict, t)

unfoldable pub complete_approval_dispatch :
    Driver
    → Bool
    → (Approvals → Approvals)
    → Text
    → Text
    → ℕ
    → Approvals
    → Result Approval × Approvals
complete_approval_dispatch d reads others id digest at t =
    complete_seen d reads others id digest at
      (do
        validate_id id
        refuse_if (not (length digest == 64) || at == 0) Code.invalid_argument
        approval reads t id)
      t

unfoldable pub failed : ℕ → Text → Approval → Approval
failed at error_code row = record row {
  status = ApprovalStatus.expired;
  response_state = ResponseState.ambiguous;
  responded_at = some at;
  dispatch_error_code = error_code;
}

unfoldable pub fail_seen :
    Driver
    → Bool
    → (Approvals → Approvals)
    → Text
    → Text
    → Text
    → ℕ
    → Result Approval
    → Approvals
    → Result Approval × Approvals
fail_seen d reads others id digest error_code at (err e) t = (err e, t)
fail_seen d reads others id digest error_code at (ok seen) t =
    let update = update_in_flight d reads id digest (failed at error_code) (others t) in
    if not (column_eq seen.dispatch_digest digest)
    then (err Code.conflict, t)
    else if is_ambiguous seen.response_state && text_eq seen.dispatch_error_code error_code
    then (ok seen, t)
    else if is_dispatching seen.response_state
    then update
    else (err Code.conflict, t)

unfoldable pub fail_approval_dispatch :
    Driver
    → Bool
    → (Approvals → Approvals)
    → Text
    → Text
    → Text
    → ℕ
    → Approvals
    → Result Approval × Approvals
fail_approval_dispatch d reads others id digest error_code at t =
    fail_seen d reads others id digest error_code at
      (do
        validate_id id
        refuse_if
            (not (length digest == 64)
              || is_empty error_code
              || ltb 64 (length error_code)
              || at == 0)
            Code.invalid_argument
        approval reads t id)
      t
