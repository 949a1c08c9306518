-- ===== src/Storage/Examples.antt =====
-- The theorems about the stored sessions at a concrete table.
use multi_agent_desk.Prelude.{
  ◌≡◌, refl, inl, inr, Bool-cases, true, none, some, List, [], ◌∷◌, text_eq, text_eq_iff, bytes,
  arith, if◌then◌else◌, All,
}
use multi_agent_desk.Domain.Provider.{codex}
use multi_agent_desk.Domain.Session.{SessionStatus, Session, terminal}
use multi_agent_desk.Domain.Session.Lifecycle.{WellFormed}
use multi_agent_desk.Domain.Errors.{ok}
use multi_agent_desk.Storage.Driver.{Driver}
use multi_agent_desk.Storage.Approvals.{
  Approval, Approvals, ApprovalStatus, ResponseState, Claim, Decision, claim_approval_dispatch,
}
use multi_agent_desk.Storage.Approvals.Recovery.{expire_pending_approvals}
use multi_agent_desk.Storage.Approvals.Settling.{recovery_settles}
use multi_agent_desk.Storage.Sessions.{Sessions}
use multi_agent_desk.Storage.Sessions.Later.{RowsOk, Kept, Kept-refl}
use multi_agent_desk.Storage.Sessions.History.{Call, transits, names, Fair, run, sessions_advance}

abbrev serving : Driver
serving = record { begins = true; runs = true; commits = true }

abbrev live : Session
live = record {
  id = bytes "session_00000000000000000000000000000001";
  device_id = bytes "device_00000000000000000000000000000001";
  account_id = bytes "account_00000000000000000000000000000001";
  provider = codex;
  credential_instance_id = bytes "credential_00000000000000000000000000000002";
  runtime_profile_id = bytes "profile_00000000000000000000000000000003";
  workspace_id = bytes "workspace_00000000000000000000000000000004";
  provider_session_id = [];
  resumed_from_session_id = [];
  status = SessionStatus.starting;
  started_at = 100;
  ended_at = none;
  exit_code = none;
  capability_snapshot = [];
  failure_code = [];
}

abbrev over : Session
over = record live {
  id = bytes "session_00000000000000000000000000000002";
  status = SessionStatus.killed;
  ended_at = some 110;
}

abbrev table : Sessions
table k = if text_eq live.id k then some live else if text_eq over.id k then some over else none

live-WellFormed : WellFormed live
unfolding terminal
live-WellFormed = record {
  known = inr (inl refl);
  ended = refl;
  ordered = tt;
  clean = λ h. (refl, refl);
  explained = λ h. absurd (ground arith);
}

over-WellFormed : WellFormed over
unfolding terminal
over-WellFormed = record {
  known = inl refl;
  ended = refl;
  ordered = omega arith;
  clean = λ h. absurd (ground arith);
  explained = λ h. absurd (ground arith);
}

table-RowsOk : RowsOk table
table-RowsOk = record {
  at = λ k. elim (Bool-cases (text_eq live.id k)) [
    | inl first ↦ rw first ((text_eq_iff live.id k).0 first, live-WellFormed)
    | inr other ↦ elim (Bool-cases (text_eq over.id k)) [
      | inl second ↦ rw (other, second) ((text_eq_iff over.id k).0 second, over-WellFormed)
      | inr neither ↦ rw (other, neither) tt
    ]
  ];
}

-- The session is named, starts to run, is killed, and one that is over is moved in vain.
abbrev calls : List Call
calls =
    names serving true live.id SessionStatus.starting (bytes "thread-1")
    ∷ transits serving true (λ t. t) live.id SessionStatus.starting SessionStatus.running 105 none
        []
    ∷ transits serving true (λ t. t) over.id SessionStatus.killed SessionStatus.running 120 none []
    ∷ []

calls-Fair : All Fair calls
calls-Fair = (tt, (λ t v. Kept-refl t v, (λ t v. Kept-refl t v, tt)))

sessions_advance_example : Kept table (run calls table)
sessions_advance_example = sessions_advance calls table calls-Fair table-RowsOk

abbrev asked : Approval
asked = record {
  id = bytes "approval_00000000000000000000000000000005";
  session_id = live.id;
  provider_approval_id = bytes "request";
  kind = bytes "command";
  payload_digest = [];
  summary = bytes "run the tests";
  status = ApprovalStatus.pending;
  response_state = ResponseState.idle;
  requested_decision = none;
  responded_by_device_id = none;
  idempotency_key = [];
  dispatch_digest = none;
  requested_at = 100;
  dispatch_started_at = none;
  responded_at = none;
  dispatch_error_code = [];
}

abbrev approvals : Approvals
approvals k = if text_eq asked.id k then some asked else none

abbrev recovered : Approvals
recovered = (expire_pending_approvals true none (λ id. bytes "digest") 200 approvals).1

abbrev yes : Claim
yes = record {
  provider_approval_id = bytes "request";
  responder_id = live.device_id;
  response_key = bytes "key";
  decision = Decision.approve;
  dispatch_digest = bytes "0123456789abcdef0123456789abcdef0123456789abcdef0123456789abcdef";
}

recovered_is :
    expire_pending_approvals true none (λ id. bytes "digest") 200 approvals ≡ (ok tt, recovered)
unfolding expire_pending_approvals
recovered_is = refl

recovery_settles_example :
    (claim_approval_dispatch serving true asked.id yes 210 recovered).1 asked.id
    ≡ recovered asked.id
recovery_settles_example =
    recovery_settles true none (λ id. bytes "digest") 200 approvals recovered serving true asked.id
      yes 210 asked.id recovered_is
