-- ===== src/Storage/Approvals/Creating.antt =====
-- internal/storage/repository.go: `CreateApproval`, with `ValidateApproval` of
-- internal/domain/provider.go and the checks of the table in
-- migrations/device/0005_codex_vault_and_approval_dispatch.sql. An empty text that the query makes
-- null is none, and an empty response state is idle. That the provider's id is new in the session
-- is an answer of the driver.
use multi_agent_desk.Prelude.{
  ℕ, Bool, true, false, not, ◌&&◌, ◌||◌, Option, none, some, ltb, ◌==◌, is_some, length, Text,
  text_eq, bytes,
}
use multi_agent_desk.Domain.Errors.{Code, Result, ok, err, ◌>>◌, refuse_if}
use multi_agent_desk.Domain.Id.{validate_id, hex_decode}
use multi_agent_desk.Domain.Provider.{codex}
use multi_agent_desk.Domain.Session.{is_empty}
use multi_agent_desk.Storage.Driver.{Driver, with_tx}
use multi_agent_desk.Storage.Table.{put}
use multi_agent_desk.Storage.Approvals.{
  Approval, Approvals, ApprovalStatus, ResponseState, Decision, is_pending, status_for_decision,
}

abbrev pub same_status : ApprovalStatus → ApprovalStatus → Bool
same_status ApprovalStatus.pending ApprovalStatus.pending = true
same_status ApprovalStatus.approved ApprovalStatus.approved = true
same_status ApprovalStatus.denied ApprovalStatus.denied = true
same_status ApprovalStatus.expired ApprovalStatus.expired = true
same_status ApprovalStatus.cancelled ApprovalStatus.cancelled = true
same_status _ _ = false

abbrev pub validate_optional_id : Option Text → Result (Unit {0})
validate_optional_id none = ok tt
validate_optional_id (some id) = validate_id id

abbrev pub precedes : Option ℕ → ℕ → Bool
precedes none at = false
precedes (some responded) at = ltb responded at

-- An operator has approved, denied or cancelled.
abbrev pub is_decided : ApprovalStatus → Bool
is_decided status =
    same_status status ApprovalStatus.approved
    || same_status status ApprovalStatus.denied
    || same_status status ApprovalStatus.cancelled

unfoldable pub validate_approval : Approval → Result (Unit {0})
validate_approval a = do
  validate_id a.id
  validate_id a.session_id
  refuse_if
      (is_empty a.provider_approval_id
        || ltb 256 (length a.provider_approval_id)
        || is_empty a.kind
        || ltb 64 (length a.kind)
        || not (length a.payload_digest == 64)
        || not (is_some (hex_decode a.payload_digest))
        || ltb 2048 (length a.summary)
        || is_empty a.idempotency_key
        || ltb 128 (length a.idempotency_key)
        || a.requested_at == 0)
      Code.invalid_argument
  validate_optional_id a.responded_by_device_id
  refuse_if (precedes a.responded_at a.requested_at) Code.invalid_argument
  refuse_if (is_pending a.status && (is_some a.responded_by_device_id || is_some a.responded_at))
      Code.invalid_argument
  refuse_if (not (is_pending a.status) && not (is_some a.responded_at)) Code.invalid_argument
  refuse_if (is_decided a.status && not (is_some a.responded_by_device_id)) Code.invalid_argument

abbrev pub decided_status : Option Decision → ApprovalStatus → Bool
decided_status none status = false
decided_status (some decision) status = same_status status (status_for_decision decision)

-- The columns that each response state has.
unfoldable pub state_allowed : ResponseState → Approval → Bool
state_allowed ResponseState.idle a =
    is_pending a.status
    && not (is_some a.requested_decision)
    && not (is_some a.dispatch_digest)
    && not (is_some a.dispatch_started_at)
    && not (is_some a.responded_at)
    && not (is_some a.responded_by_device_id)
    && is_empty a.dispatch_error_code
state_allowed ResponseState.dispatching a =
    is_pending a.status
    && is_some a.requested_decision
    && is_some a.dispatch_digest
    && is_some a.dispatch_started_at
    && not (is_some a.responded_at)
    && is_some a.responded_by_device_id
    && is_empty a.dispatch_error_code
state_allowed ResponseState.written a =
    is_some a.responded_at
    && is_some a.responded_by_device_id
    && is_some a.dispatch_digest
    && is_some a.dispatch_started_at
    && is_empty a.dispatch_error_code
    && decided_status a.requested_decision a.status
state_allowed ResponseState.ambiguous a =
    same_status a.status ApprovalStatus.expired
    && is_some a.requested_decision
    && is_some a.dispatch_digest
    && is_some a.dispatch_started_at
    && is_some a.responded_at
    && (is_some a.responded_by_device_id
        || text_eq a.dispatch_error_code (bytes "legacy_dispatch_unknown")
        || text_eq a.dispatch_error_code (bytes "daemon_restart_before_dispatch"))
    && not (is_empty a.dispatch_error_code)

unfoldable pub check_session : Option Text → Result (Unit {0})
check_session none = err Code.not_found
check_session (some provider) = refuse_if (not (text_eq provider codex)) Code.conflict

unfoldable pub insert_approval :
    Driver → (Text → Option Text) → Approval → Approvals → Result (Unit {0} × Approvals)
insert_approval d session_provider a t = do
  refuse_if (not d.runs) Code.conflict
  check_session (session_provider a.session_id)
  refuse_if (is_some (t a.id) || not (state_allowed a.response_state a)) Code.conflict
  ok (tt, put t a.id a)

unfoldable pub create_approval :
    Driver → (Text → Option Text) → Approval → Approvals → Result (Unit {0}) × Approvals
create_approval d session_provider a t = elim (validate_approval a) [
  | err e ↦ (err e, t)
  | ok _ ↦ with_tx d t (insert_approval d session_provider a)
]
