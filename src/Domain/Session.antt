-- ===== src/Domain/Session.antt =====
-- internal/domain/session.go. Times are as in `Lease`; the nil receiver of `Transition` is left
-- out.
pub mod Lifecycle
pub mod Moving
pub mod Resuming
use multi_agent_desk.Prelude.{
  ℕ, Bool, true, false, not, ◌&&◌, ◌||◌, Option, none, some, List, [], ◌∷◌, ltb, ◌==◌,
  if◌then◌else◌, is_some, length, Text, text_eq,
}
use multi_agent_desk.Domain.Errors.{Code, Result, ok, err, ◌>>=◌, ◌>>◌, refuse_if}
use multi_agent_desk.Domain.Id.{validate_id}
use multi_agent_desk.Domain.Provider.{codex, provider_known}
use multi_agent_desk.Domain.Capability.{canonical_capabilities, has_capability, session_resume}

-- `SessionStatus` is a string: the six statuses, the empty string, and any other.
pub data SessionStatus : Type 0 where
  starting running stopping exited failed killed unset : SessionStatus
  other : Text → SessionStatus

pub record Session : Type 0 where
  pub id : Text
  pub device_id : Text
  pub account_id : Text
  pub provider : Text
  pub credential_instance_id : Text
  pub runtime_profile_id : Text
  pub workspace_id : Text
  pub provider_session_id : Text
  pub resumed_from_session_id : Text
  pub status : SessionStatus
  pub started_at : ℕ
  pub ended_at : Option ℕ
  pub exit_code : Option ℕ
  pub capability_snapshot : List Text
  pub failure_code : Text

-- Membership of `next` in `sessionTransitions[s.Status]`; `none` where the map has no such key.
unfoldable pub session_transitions : SessionStatus → Option (SessionStatus → Bool)
session_transitions SessionStatus.starting = some λ next. elim next [
  | SessionStatus.running ↦ true
  | SessionStatus.failed ↦ true
  | SessionStatus.killed ↦ true
  | _ ↦ false
]
session_transitions SessionStatus.running = some λ next. elim next [
  | SessionStatus.stopping ↦ true
  | SessionStatus.failed ↦ true
  | SessionStatus.killed ↦ true
  | _ ↦ false
]
session_transitions SessionStatus.stopping = some λ next. elim next [
  | SessionStatus.exited ↦ true
  | SessionStatus.failed ↦ true
  | SessionStatus.killed ↦ true
  | _ ↦ false
]
session_transitions _ = none

unfoldable pub terminal : SessionStatus → Bool
terminal SessionStatus.exited = true
terminal SessionStatus.failed = true
terminal SessionStatus.killed = true
terminal _ = false

abbrev pub is_failed : SessionStatus → Bool
is_failed SessionStatus.failed = true
is_failed _ = false

abbrev pub is_starting : SessionStatus → Bool
is_starting SessionStatus.starting = true
is_starting _ = false

abbrev pub is_empty : Text → Bool
is_empty t = length t == 0

-- `if id != "" { ValidateID(id) }`.
abbrev pub validate_optional_id : Text → Result (Unit {0})
validate_optional_id id = if is_empty id then ok tt else validate_id id

abbrev pub default_status : SessionStatus → SessionStatus
default_status SessionStatus.unset = SessionStatus.starting
default_status status = status

unfoldable pub new_session : Session → Result Session
new_session session = do
  validate_id session.id
  validate_id session.device_id
  validate_id session.credential_instance_id
  validate_id session.runtime_profile_id
  validate_id session.workspace_id
  validate_optional_id session.account_id
  refuse_if (is_empty session.provider || session.started_at == 0) Code.invalid_argument
  refuse_if (ltb 256 (length session.provider_session_id)) Code.invalid_argument
  refuse_if (text_eq session.provider codex && is_empty session.account_id) Code.invalid_argument
  refuse_if (not (provider_known session.provider)) Code.invalid_argument
  validate_optional_id session.resumed_from_session_id
  refuse_if (not (is_starting (default_status session.status))) Code.invalid_transition
  capabilities ← canonical_capabilities session.capability_snapshot
  refuse_if
      (not (is_empty session.resumed_from_session_id)
        && not (has_capability capabilities session_resume))
      Code.permission_denied
  ok (record session {
    status = SessionStatus.starting;
    capability_snapshot = capabilities;
    ended_at = none;
    exit_code = none;
    failure_code = [];
  })

-- The status is looked up in the map, and the target in the set that it maps to.
unfoldable pub check_edge : Option (SessionStatus → Bool) → SessionStatus → Result (Unit {0})
check_edge none next = err Code.invalid_transition
check_edge (some allowed) next = refuse_if (not (allowed next)) Code.invalid_transition

unfoldable pub apply_status : Session → SessionStatus → ℕ → Option ℕ → Text → Session
apply_status s next at exit_code failure_code =
    if terminal next
    then record s {
      status = next;
      ended_at = some at;
      exit_code = exit_code;
      failure_code = failure_code;
    }
    else record s { status = next }

unfoldable pub transition : Session → SessionStatus → ℕ → Option ℕ → Text → Result Session
transition s next at exit_code failure_code = do
  refuse_if (at == 0) Code.invalid_argument
  check_edge (session_transitions s.status) next
  refuse_if (ltb at s.started_at) Code.invalid_argument
  refuse_if (is_failed next && is_empty failure_code) Code.invalid_argument
  refuse_if (not (terminal next) && (is_some exit_code || not (is_empty failure_code)))
      Code.invalid_argument
  ok (apply_status s next at exit_code failure_code)

-- `s.EndedAt == nil || at.Before(*s.EndedAt)`.
unfoldable pub precedes_end : Option ℕ → ℕ → Bool
precedes_end none at = true
precedes_end (some ended_at) at = ltb at ended_at

unfoldable pub resume : Session → Text → ℕ → Result Session
resume s new_id at = do
  refuse_if (not (terminal s.status)) Code.invalid_transition
  refuse_if (not (has_capability s.capability_snapshot session_resume)) Code.permission_denied
  validate_id new_id
  refuse_if (text_eq new_id s.id) Code.conflict
  refuse_if (precedes_end s.ended_at at) Code.invalid_argument
  new_session (record {
    id = new_id;
    device_id = s.device_id;
    account_id = s.account_id;
    provider = s.provider;
    credential_instance_id = s.credential_instance_id;
    runtime_profile_id = s.runtime_profile_id;
    workspace_id = s.workspace_id;
    provider_session_id = s.provider_session_id;
    resumed_from_session_id = s.id;
    status = SessionStatus.starting;
    started_at = at;
    ended_at = none;
    exit_code = none;
    capability_snapshot = s.capability_snapshot;
    failure_code = [];
  })
