-- ===== src/Storage/Approvals.antt =====
-- internal/storage/repository.go: the approvals and `ClaimApprovalDispatch`. Columns that may be
-- null are options.
pub mod Creating
pub mod Finishing
pub mod Recovery
pub mod Settling
pub mod Decided
pub mod Keeping
use multi_agent_desk.Prelude.{
  ℕ, Bool, true, false, not, ◌&&◌, ◌||◌, Option, none, some, List, [], ltb, ◌==◌, if◌then◌else◌,
  is_some, length, Text, text_eq, bytes,
}
use multi_agent_desk.Domain.Errors.{Code, Result, ok, err, ◌>>=◌, ◌>>◌, refuse_if}
use multi_agent_desk.Domain.Id.{validate_id, hex_decode}
use multi_agent_desk.Domain.Session.{is_empty}
use multi_agent_desk.Storage.Driver.{Driver, with_tx}
use multi_agent_desk.Storage.Table.{Table, put}

pub data ApprovalStatus : Type 0 where
  pending approved denied expired cancelled : ApprovalStatus

pub data ResponseState : Type 0 where
  idle dispatching written ambiguous : ResponseState

pub data Decision : Type 0 where
  approve deny cancel : Decision

pub record Approval : Type 0 where
  pub id : Text
  pub session_id : Text
  pub provider_approval_id : Text
  pub kind : Text
  pub payload_digest : Text
  pub summary : Text
  pub status : ApprovalStatus
  pub response_state : ResponseState
  pub requested_decision : Option Decision
  pub responded_by_device_id : Option Text
  pub idempotency_key : Text
  pub dispatch_digest : Option Text
  pub requested_at : ℕ
  pub dispatch_started_at : Option ℕ
  pub responded_at : Option ℕ
  pub dispatch_error_code : Text

abbrev pub Approvals : Type 0
Approvals = Table Approval

abbrev pub is_pending : ApprovalStatus → Bool
is_pending ApprovalStatus.pending = true
is_pending _ = false

abbrev pub is_idle : ResponseState → Bool
is_idle ResponseState.idle = true
is_idle _ = false

abbrev pub is_dispatching : ResponseState → Bool
is_dispatching ResponseState.dispatching = true
is_dispatching _ = false

unfoldable pub status_for_decision : Decision → ApprovalStatus
status_for_decision Decision.approve = ApprovalStatus.approved
status_for_decision Decision.deny = ApprovalStatus.denied
status_for_decision Decision.cancel = ApprovalStatus.cancelled

unfoldable pub decision_eq : Decision → Option Decision → Bool
decision_eq Decision.approve (some Decision.approve) = true
decision_eq Decision.deny (some Decision.deny) = true
decision_eq Decision.cancel (some Decision.cancel) = true
decision_eq _ _ = false

-- `coalesce(column, '') == value`.
unfoldable pub column_eq : Option Text → Text → Bool
column_eq none value = is_empty value
column_eq (some t) value = text_eq t value

pub record Claim : Type 0 where
  pub provider_approval_id : Text
  pub responder_id : Text
  pub response_key : Text
  pub decision : Decision
  pub dispatch_digest : Text

unfoldable pub claimed : Approval → Claim → ℕ → Approval
claimed row c at = record row {
  response_state = ResponseState.dispatching;
  requested_decision = some c.decision;
  responded_by_device_id = some c.responder_id;
  idempotency_key = c.response_key;
  dispatch_digest = some c.dispatch_digest;
  dispatch_started_at = some at;
}

unfoldable pub same_claim : Approval → Claim → Bool
same_claim row c =
    decision_eq c.decision row.requested_decision
    && column_eq row.responded_by_device_id c.responder_id
    && text_eq row.idempotency_key c.response_key
    && column_eq row.dispatch_digest c.dispatch_digest

-- The row after the transaction of a claim; a repeated claim leaves it.
unfoldable pub claim_row : Option Approval → Claim → ℕ → Result Approval
claim_row none c at = err Code.approval_request_unknown
claim_row (some row) c at = do
  refuse_if (not (text_eq row.provider_approval_id c.provider_approval_id))
      Code.approval_request_unknown
  if is_idle row.response_state
      then (do refuse_if (not (is_pending row.status)) Code.conflict; ok (claimed row c at))
      else (if same_claim row c then ok row else err Code.conflict)

unfoldable pub check_claim : Text → Claim → ℕ → Result (Unit {0})
check_claim approval_id c at = do
  validate_id approval_id
  validate_id c.responder_id
  refuse_if
      (is_empty c.provider_approval_id
        || is_empty c.response_key
        || ltb 128 (length c.response_key)
        || not (length c.dispatch_digest == 64)
        || at == 0)
      Code.invalid_argument
  refuse_if (not (is_some (hex_decode c.dispatch_digest))) Code.invalid_argument

unfoldable pub write_claim : Driver → Text → Claim → ℕ → Approvals → Result (Unit {0} × Approvals)
write_claim d id c at t = do
  refuse_if (not d.runs) Code.conflict
  row ← claim_row (t id) c at
  ok (tt, put t id row)

unfoldable pub approval : Bool → Approvals → Text → Result Approval
approval false t id = err Code.conflict
approval true t id = elim (t id) [ none ↦ err Code.not_found | some row ↦ ok row ]

abbrev pub read_back : Bool → Text → Result (Unit {0}) × Approvals → Result Approval × Approvals
read_back reads id (err e, t) = (err e, t)
read_back reads id (ok _, t) = (approval reads t id, t)

unfoldable pub after_check :
    Driver → Bool → Text → Claim → ℕ → Result (Unit {0}) → Approvals → Result Approval × Approvals
after_check d reads id c at (err e) t = (err e, t)
after_check d reads id c at (ok _) t = read_back reads id (with_tx d t (write_claim d id c at))

unfoldable pub claim_approval_dispatch :
    Driver → Bool → Text → Claim → ℕ → Approvals → Result Approval × Approvals
claim_approval_dispatch d reads id c at t = after_check d reads id c at (check_claim id c at) t
