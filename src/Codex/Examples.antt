-- ===== src/Codex/Examples.antt =====
-- The theorem about answers to approvals at a concrete history.
use multi_agent_desk.Prelude.{
  ◌≡◌, ◌∙◌, refl, sym, ap, inl, inr, Bool-cases, arith, true, none, some, List, [], ◌∷◌,
  if◌then◌else◌, Text, text_eq, bytes,
}
use multi_agent_desk.Storage.Driver.{Driver}
use multi_agent_desk.Storage.Approvals.{
  Approval, Approvals, ApprovalStatus, ResponseState, Decision,
}
use multi_agent_desk.Storage.Approvals.Decided.{Keeps-refl}
use multi_agent_desk.Codex.Approvals.{Request, Pending, Binding, Bridge, Answers}
use multi_agent_desk.Codex.Approvals.Planned.{Fair, Waiting}
use multi_agent_desk.Codex.Approvals.OneResponse.{Sound, Event, run, one_response}

abbrev serving : Driver
serving = record { begins = true; runs = true; commits = true }

abbrev session : Text
session = bytes "session_00000000000000000000000000000001"

abbrev digest : Text
digest = bytes "0123456789abcdef0123456789abcdef0123456789abcdef0123456789abcdef"

abbrev asked : Approval
asked = record {
  id = bytes "approval_00000000000000000000000000000001";
  session_id = session;
  provider_approval_id = bytes "item";
  kind = bytes "fileChange";
  payload_digest = digest;
  summary = bytes "change a file";
  status = ApprovalStatus.pending;
  response_state = ResponseState.idle;
  requested_decision = none;
  responded_by_device_id = none;
  idempotency_key = bytes "item";
  dispatch_digest = none;
  requested_at = 100;
  dispatch_started_at = none;
  responded_at = none;
  dispatch_error_code = [];
}

abbrev approvals : Approvals
approvals k = if text_eq asked.id k then some asked else none

abbrev edit : Pending
edit = record {
  approval_id = asked.id;
  request_id = bytes "77";
  method = bytes "item/fileChange/requestApproval";
  digest = digest;
}

abbrev waiting : Binding
waiting = record {
  has_runtime = true;
  pending = λ k. if text_eq k (bytes "item") then some edit else none;
}

abbrev bridge : Bridge
bridge = record {
  approvals = approvals;
  bindings = λ k. if text_eq k session then some waiting else none;
  sent = λ k. [];
}

abbrev yes : Request
yes = record {
  session_id = session;
  approval_id = asked.id;
  provider_approval_id = bytes "item";
  responder_id = bytes "device_00000000000000000000000000000001";
  decision = Decision.approve;
  lease_revision = 1;
  response_key = bytes "key";
}

abbrev working : Answers
working = record {
  reads = true;
  before_claim = λ t. t;
  claims = serving;
  claim_reads = true;
  claim_at = 110;
  handshaken = true;
  writes = true;
  finishes = serving;
  finish_reads = true;
  during_finish = λ t. t;
  finish_at = 120;
  fails = serving;
  fail_reads = true;
  during_fail = λ t. t;
  fail_at = 130;
  is_current = true;
}

abbrev sha256 : Text → Text
sha256 text = bytes "0123456789abcdef0123456789abcdef"

working-Fair : Fair working
working-Fair = record {
  before_claim = Keeps-refl;
  during_finish = Keeps-refl;
  during_fail = Keeps-refl;
}

-- The approval stands for the request 77.
abbrev Asked : Text → Text → Type 0
Asked id request_id = (id ≡ asked.id) × (request_id ≡ bytes "77")

waiting-Asked :
    (session' key : Text) (b : Binding) (p : Pending)
    → bridge.bindings session' ≡ some b
    → b.pending key ≡ some p
    → Asked p.approval_id p.request_id
waiting-Asked session' key b p there pending = elim (Bool-cases (text_eq session' session)) [
  | inr other ↦ absurd (ground arith)
  | inl here ↦
      let same : waiting ≡ b = ground arith in
      let found : waiting.pending key ≡ some p =
        ap (λ (x : Binding). x.pending key) same ∙ pending in
      elim (Bool-cases (text_eq key (bytes "item"))) [
        | inr other ↦ absurd (ground arith)
        | inl item ↦
            let it : edit ≡ p = ground arith in
            (
              ap (λ (x : Pending). x.approval_id) (sym it),
              ap (λ (x : Pending). x.request_id) (sym it),
            )
      ]
]

bridge-Sound : Sound Asked bridge
unfolding Waiting
bridge-Sound = record { one = λ id. inl refl; waits = waiting-Asked }

abbrev events : List Event
events =
    Event.responds working yes
    ∷ Event.responds working (record yes { decision = Decision.deny })
    ∷ Event.recovers true none (λ id. digest) 200
    ∷ []

one_response_example : Sound Asked (run sha256 events bridge)
one_response_example =
    one_response Asked sha256 events bridge (working-Fair, (working-Fair, (tt, tt))) bridge-Sound
