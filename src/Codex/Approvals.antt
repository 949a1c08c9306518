-- ===== src/Codex/Approvals.antt =====
-- internal/providers/codex/runtime.go: `RespondApproval`. The service holds its lock over it, so
-- two of these calls do not interleave; other writers of the table may come between its queries.
pub mod Planned
pub mod OneResponse
use multi_agent_desk.Prelude.{
  ℕ, Bool, true, false, not, ◌&&◌, ◌||◌, Option, none, some, List, [], ◌∷◌, ◌++◌, ltb, ◌==◌,
  if◌then◌else◌, is_some, slt, length, Text, text_eq, bytes,
}
use multi_agent_desk.Domain.Errors.{Code, Result, ok, err, ◌>>=◌, ◌>>◌, refuse_if}
use multi_agent_desk.Domain.Id.{validate_id, hex_encode}
use multi_agent_desk.Domain.Session.{is_empty}
use multi_agent_desk.Storage.Driver.{Driver}
use multi_agent_desk.Storage.Approvals.{
  Approval, Approvals, Decision, Claim, is_idle, column_eq, approval, claim_approval_dispatch,
}
use multi_agent_desk.Storage.Approvals.Finishing.{
  is_written, complete_approval_dispatch, fail_approval_dispatch,
}
use multi_agent_desk.Vault.Fields.{format_int}

pub record Request : Type 0 where
  pub session_id : Text
  pub approval_id : Text
  pub provider_approval_id : Text
  pub responder_id : Text
  pub decision : Decision
  pub lease_revision : ℕ
  pub response_key : Text

-- A request of the process that waits for an answer.
pub record Pending : Type 0 where
  pub approval_id : Text
  pub request_id : Text
  pub method : Text
  pub digest : Text

pub record Binding : Type 0 where
  pub has_runtime : Bool
  pub pending : Text → Option Pending

-- What is written to the process: the request that it answers, and the word for the decision.
pub record Response : Type 0 where
  pub request_id : Text
  pub decision : Text

-- `sent` has, for each approval, the responses whose write to the process was begun.
pub record Bridge : Type 0 where
  pub approvals : Approvals
  pub bindings : Text → Option Binding
  pub sent : Text → List Response

unfoldable pub check_request : Request → Result (Unit {0})
check_request q = do
  refuse_if (slt q.lease_revision 1 || is_empty q.response_key || ltb 128 (length q.response_key))
      Code.invalid_argument
  validate_id q.session_id
  validate_id q.approval_id
  validate_id q.responder_id

unfoldable pub method_of : Text → Result Text
method_of kind =
    if text_eq kind (bytes "commandExecution")
    then ok (bytes "item/commandExecution/requestApproval")
    else if text_eq kind (bytes "fileChange")
    then ok (bytes "item/fileChange/requestApproval")
    else err Code.provider_version_unsupported

unfoldable pub decision_text : Decision → Text
decision_text Decision.approve = bytes "approve"
decision_text Decision.deny = bytes "deny"
decision_text Decision.cancel = bytes "cancel"

-- The word that the process reads.
unfoldable pub response_text : Decision → Text
response_text Decision.approve = bytes "accept"
response_text Decision.deny = bytes "decline"
response_text Decision.cancel = bytes "cancel"

-- `strings.Join(parts, "\x00")`.
unfoldable pub join_zero : List Text → Text
join_zero [] = []
join_zero (part ∷ []) = part
join_zero (part ∷ next ∷ rest) = part ++ (0 ∷ join_zero (next ∷ rest))

unfoldable pub dispatch_digest : (Text → Text) → Request → Text → Text → Text
dispatch_digest sha256 q method payload_digest = hex_encode (
    sha256 (
      join_zero (
        q.session_id
        ∷ q.approval_id
        ∷ q.provider_approval_id
        ∷ method
        ∷ payload_digest
        ∷ decision_text q.decision
        ∷ q.responder_id
        ∷ format_int q.lease_revision
        ∷ q.response_key
        ∷ [])))

-- What the stored approval asks for: to repeat the answer, or to write it, with a digest, to a
-- request.
pub data Plan : Type 0 where
  repeat : Approval → Plan
  dispatch : Text → Text → Plan

unfoldable pub check_pending : Option Binding → Request → Text → Text → Result Text
check_pending none q method payload_digest = err Code.approval_dispatch_ambiguous
check_pending (some b) q method payload_digest = elim (b.pending q.provider_approval_id) [
  | none ↦ err Code.approval_request_unknown
  | some p ↦ (do
    refuse_if
        (not (text_eq p.approval_id q.approval_id)
          || not b.has_runtime
          || not (text_eq p.method method)
          || not (text_eq p.digest payload_digest))
        Code.approval_request_unknown
    ok p.request_id)
]

unfoldable pub plan_stored : Text → Result Text → Approval → Result Plan
plan_stored digest waits stored =
    if is_idle stored.response_state
    then (do request_id ← waits; ok (Plan.dispatch digest request_id))
    else (do
      refuse_if (not (column_eq stored.dispatch_digest digest)) Code.conflict
      if is_written stored.response_state
          then ok (Plan.repeat stored)
          else err Code.approval_dispatch_ambiguous)

unfoldable pub plan : (Text → Text) → Bool → Request → Bridge → Result Plan
plan sha256 reads q s = do
  check_request q
  stored ← approval reads s.approvals q.approval_id
  refuse_if
      (not (text_eq stored.session_id q.session_id)
        || not (text_eq stored.provider_approval_id q.provider_approval_id))
      Code.approval_request_unknown
  method ← method_of stored.kind
  plan_stored (dispatch_digest sha256 q method stored.payload_digest)
      (check_pending (s.bindings q.session_id) q method stored.payload_digest) stored

-- What the database, the process, the clock and the other writers do, call by call.
pub record Answers : Type 0 where
  pub reads : Bool
  pub before_claim : Approvals → Approvals
  pub claims : Driver
  pub claim_reads : Bool
  pub claim_at : ℕ
  -- whether the client has been through the handshake, and the write to the process succeeds
  pub handshaken : Bool
  pub writes : Bool
  pub finishes : Driver
  pub finish_reads : Bool
  pub during_finish : Approvals → Approvals
  pub finish_at : ℕ
  pub fails : Driver
  pub fail_reads : Bool
  pub during_fail : Approvals → Approvals
  pub fail_at : ℕ
  -- whether the session has the same binding after the write
  pub is_current : Bool

unfoldable pub forget : Text → Binding → Binding
forget provider_id b = record b {
  pending = λ k. if text_eq provider_id k then none else b.pending k;
}

unfoldable pub forget_pending : Bool → Request → (Text → Option Binding) → Text → Option Binding
forget_pending is_current q bindings k =
    if is_current && text_eq q.session_id k
    then elim (bindings k) [ none ↦ none | some b ↦ some (forget q.provider_approval_id b) ]
    else bindings k

unfoldable pub fail : Answers → Request → Text → Approvals → Result Approval × Approvals
fail w q digest t = (
  err Code.approval_dispatch_ambiguous,
  (fail_approval_dispatch w.fails w.fail_reads w.during_fail q.approval_id digest
      (bytes "approval_dispatch_ambiguous") w.fail_at t).1,
)

abbrev pub or_fail :
    Answers → Request → Text → Result Approval × Approvals → Result Approval × Approvals
or_fail w q digest (ok row, t) = (ok row, t)
or_fail w q digest (err e, t) = fail w q digest t

-- `RespondServerRequest` writes nothing for an id that it refuses, or before the handshake.
unfoldable pub answerable : Bool → Text → Bool
answerable handshaken request_id =
    not (is_empty request_id || ltb 256 (length request_id)) && handshaken

unfoldable pub respond_server_request : Bool → Text → Decision → List Response → List Response
respond_server_request handshaken request_id decision sent =
    if answerable handshaken request_id
    then sent ++ (record { request_id = request_id; decision = response_text decision } ∷ [])
    else sent

unfoldable pub settle : Answers → Request → Text → Text → Approvals → Result Approval × Approvals
settle w q digest request_id t =
    if answerable w.handshaken request_id && w.writes
    then or_fail w q digest (
        complete_approval_dispatch w.finishes w.finish_reads w.during_finish q.approval_id digest
          w.finish_at t)
    else fail w q digest t

unfoldable pub send :
    Answers → Request → Text → Text → Bridge → Approvals → Result Approval × Bridge
send w q digest request_id s t =
    let settled = settle w q digest request_id t in
    (
      settled.0,
      record {
        approvals = settled.1;
        bindings = forget_pending w.is_current q s.bindings;
        sent = λ k.
            if text_eq q.approval_id k
            then respond_server_request w.handshaken request_id q.decision (s.sent k)
            else s.sent k;
      },
    )

abbrev pub after_claim :
    Answers
    → Request
    → Text
    → Text
    → Bridge
    → Result Approval × Approvals
    → Result Approval × Bridge
after_claim w q digest request_id s (err e, t) = (err e, record s { approvals = t })
after_claim w q digest request_id s (ok _, t) = send w q digest request_id s t

abbrev pub follow : Answers → Request → Bridge → Result Plan → Result Approval × Bridge
follow w q s (err e) = (err e, s)
follow w q s (ok (Plan.repeat row)) = (ok row, s)
follow w q s (ok (Plan.dispatch digest request_id)) = after_claim w q digest request_id s (
    claim_approval_dispatch w.claims w.claim_reads q.approval_id
      (record {
        provider_approval_id = q.provider_approval_id;
        responder_id = q.responder_id;
        response_key = q.response_key;
        decision = q.decision;
        dispatch_digest = digest;
      })
      w.claim_at (w.before_claim s.approvals))

unfoldable pub respond_approval :
    (Text → Text) → Answers → Request → Bridge → Result Approval × Bridge
respond_approval sha256 w q s = follow w q s (plan sha256 w.reads q s)
