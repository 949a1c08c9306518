-- ===== src/Storage/Sessions.antt =====
-- internal/storage/repository.go: the table `sessions`, with its checks in
-- migrations/device/0004_codex_foundation.sql.
pub mod Later
pub mod Writes
pub mod Identity
pub mod History
use multi_agent_desk.Prelude.{
  ℕ, Bool, true, false, not, ◌&&◌, ◌||◌, Option, none, some, List, [], ◌∷◌, ◌++◌, ltb, ◌==◌,
  if◌then◌else◌, is_some, length, take, drop, Text, text_eq, bytes,
}
use multi_agent_desk.Domain.Errors.{Code, Result, ok, err, ◌>>=◌, ◌>>◌, refuse_if}
use multi_agent_desk.Domain.Id.{validate_id}
use multi_agent_desk.Domain.Provider.{codex, fake}
use multi_agent_desk.Domain.Capability.{canonical_capabilities, has_capability, session_resume}
use multi_agent_desk.Domain.Session.{
  SessionStatus, Session, terminal, is_failed, is_starting, is_empty, new_session, transition,
  precedes_end,
}
use multi_agent_desk.Storage.Driver.{Driver, with_tx}
use multi_agent_desk.Storage.Table.{Table, put}
use multi_agent_desk.Storage.Links.{Links, found, validate_session_links}

abbrev pub Sessions : Type 0
Sessions = Table Session

unfoldable pub status_eq : SessionStatus → SessionStatus → Bool
status_eq SessionStatus.starting SessionStatus.starting = true
status_eq SessionStatus.running SessionStatus.running = true
status_eq SessionStatus.stopping SessionStatus.stopping = true
status_eq SessionStatus.exited SessionStatus.exited = true
status_eq SessionStatus.failed SessionStatus.failed = true
status_eq SessionStatus.killed SessionStatus.killed = true
status_eq SessionStatus.unset SessionStatus.unset = true
status_eq (SessionStatus.other a) (SessionStatus.other b) = text_eq a b
status_eq _ _ = false

-- The statuses that the table's check allows.
unfoldable pub known_status : SessionStatus → Bool
known_status SessionStatus.unset = false
known_status (SessionStatus.other _) = false
known_status _ = true

-- The checks of the table on a row.
unfoldable pub row_check : Session → Bool
row_check row =
    (text_eq row.provider fake || text_eq row.provider codex)
    && known_status row.status
    && (if terminal row.status then is_some row.ended_at else not (is_some row.ended_at))
    && (is_failed row.status || is_empty row.failure_code)
    && (not (text_eq row.provider codex) || not (is_empty row.account_id))

unfoldable pub texts_eq : List Text → List Text → Bool
texts_eq [] [] = true
texts_eq (a ∷ s) (b ∷ t) = text_eq a b && texts_eq s t
texts_eq _ _ = false

abbrev device_prefix : Text
device_prefix = bytes "device_"

unfoldable pub fake_account_id : Text → Text
fake_account_id device_id =
    if text_eq (take 7 device_id) device_prefix then bytes "account_" ++ drop 7 device_id else []

unfoldable pub with_fake_account : Session → Session
with_fake_account s =
    if text_eq s.provider fake && is_empty s.account_id
    then record s { account_id = fake_account_id s.device_id }
    else s

-- The checks of `validateResumeSource` on the source's row.
unfoldable pub check_source : Session → Session → Result (Unit {0})
check_source source resumed = do
  refuse_if (not (terminal source.status) || not (is_some source.ended_at)) Code.invalid_transition
  refuse_if (precedes_end source.ended_at resumed.started_at) Code.invalid_argument
  canonical ← canonical_capabilities source.capability_snapshot
  refuse_if (not (texts_eq canonical source.capability_snapshot)) Code.schema_incompatible
  refuse_if (not (has_capability canonical session_resume)) Code.permission_denied
  refuse_if (not (texts_eq canonical resumed.capability_snapshot)) Code.conflict
  refuse_if
      (not (
        text_eq source.device_id resumed.device_id
        && text_eq source.account_id resumed.account_id
        && text_eq source.provider resumed.provider
        && text_eq source.credential_instance_id resumed.credential_instance_id
        && text_eq source.runtime_profile_id resumed.runtime_profile_id
        && text_eq source.workspace_id resumed.workspace_id
        && text_eq source.provider_session_id resumed.provider_session_id))
      Code.conflict

unfoldable pub validate_resume_source : Bool → Sessions → Session → Result (Unit {0})
validate_resume_source reads t resumed = do
  source ← found reads (t resumed.resumed_from_session_id)
  check_source source resumed

unfoldable pub insert_session : Driver → Links → Session → Sessions → Result (Unit {0} × Sessions)
insert_session d links s t = do
  validate_session_links links s
  if is_empty s.resumed_from_session_id then ok tt else validate_resume_source links.reads t s
  refuse_if (not d.runs || is_some (t s.id) || not (row_check s)) Code.conflict
  ok (tt, put t s.id s)

unfoldable pub insert_validated :
    Driver → Links → Sessions → Result Session → Result (Unit {0}) × Sessions
insert_validated d links t (err e) = (err e, t)
insert_validated d links t (ok validated) = with_tx d t (insert_session d links validated)

unfoldable pub create_session : Driver → Links → Sessions → Session → Result (Unit {0}) × Sessions
create_session d links t s = insert_validated d links t (new_session (with_fake_account s))

unfoldable pub session : Bool → Sessions → Text → Result Session
session reads t id = found reads (t id)

-- The four columns that a transition sets.
abbrev pub moved : Session → Session → Session
moved row s = record row {
  status = s.status;
  ended_at = s.ended_at;
  exit_code = s.exit_code;
  failure_code = s.failure_code;
}

-- The row that `WHERE id = ? AND status = ?` selects, as it becomes.
unfoldable pub updated_row : Option Session → Session → SessionStatus → Result Session
updated_row none s expected = err Code.conflict
updated_row (some row) s expected =
    if status_eq row.status expected then ok (moved row s) else err Code.conflict

unfoldable pub update_status :
    Driver → Session → SessionStatus → Sessions → Result (Session × Sessions)
update_status d s expected t = do
  refuse_if (not d.runs) Code.conflict
  row ← updated_row (t s.id) s expected
  refuse_if (not (row_check row)) Code.conflict
  ok (s, put t s.id row)

-- What `TransitionSession` reads and computes before its transaction.
unfoldable pub moved_session :
    Bool → Sessions → Text → SessionStatus → SessionStatus → ℕ → Option ℕ → Text → Result Session
moved_session reads t id expected next at exit_code failure_code = do
  s ← session reads t id
  refuse_if (not (status_eq s.status expected)) Code.conflict
  transition s next at exit_code failure_code

unfoldable pub write_moved :
    Driver → Sessions → Sessions → SessionStatus → Result Session → Result Session × Sessions
write_moved d t t' expected (err e) = (err e, t)
write_moved d t t' expected (ok s) = with_tx d t' (update_status d s expected)

-- Between the read and the write, other writers may have changed the table.
unfoldable pub transition_session :
    Driver
    → Bool
    → (Sessions → Sessions)
    → Sessions
    → Text
    → SessionStatus
    → SessionStatus
    → ℕ
    → Option ℕ
    → Text
    → Result Session × Sessions
transition_session d reads others t id expected next at exit_code failure_code =
    write_moved d t (others t) expected
      (moved_session reads t id expected next at exit_code failure_code)

-- `UPDATE … WHERE id=? AND provider='codex' AND status=? AND coalesce(provider_session_id,'')=''`.
unfoldable pub identified_row : Option Session → SessionStatus → Text → Result Session
identified_row none expected provider_session_id = err Code.conflict
identified_row (some row) expected provider_session_id =
    if text_eq row.provider codex
      && status_eq row.status expected
      && is_empty row.provider_session_id
    then ok (record row { provider_session_id = provider_session_id })
    else err Code.conflict

unfoldable pub update_identity : Driver → Text → SessionStatus → Text → Sessions → Result Sessions
update_identity d id expected provider_session_id t = do
  validate_id id
  refuse_if
      (not (is_starting expected)
        || is_empty provider_session_id
        || ltb 256 (length provider_session_id))
      Code.invalid_argument
  refuse_if (not d.runs) Code.conflict
  row ← identified_row (t id) expected provider_session_id
  ok (put t id row)

unfoldable pub read_back : Bool → Sessions → Text → Result Sessions → Result Session × Sessions
read_back reads t id (err e) = (err e, t)
read_back reads t id (ok t') = (session reads t' id, t')

unfoldable pub set_session_provider_session_id :
    Driver → Bool → Sessions → Text → SessionStatus → Text → Result Session × Sessions
set_session_provider_session_id d reads t id expected provider_session_id =
    read_back reads t id (update_identity d id expected provider_session_id t)
