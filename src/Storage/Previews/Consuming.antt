-- ===== src/Storage/Previews/Consuming.antt =====
-- internal/storage/session_preview.go: `ConsumeSessionStartPreview`. What was previewed is compared
-- with what is there again, in the transaction that inserts the session.
use multi_agent_desk.Prelude.{
  Bool, not, ◌&&◌, ◌||◌, Option, none, some, [], ltb, ◌==◌, is_some, Text, text_eq,
}
use multi_agent_desk.Domain.Errors.{Code, Result, ok, err, ◌>>=◌, ◌>>◌, refuse_if}
use multi_agent_desk.Domain.Id.{validate_id}
use multi_agent_desk.Domain.Provider.{codex}
use multi_agent_desk.Domain.Account.{is_valid_id}
use multi_agent_desk.Domain.Session.{SessionStatus, Session, is_empty, new_session}
use multi_agent_desk.Storage.Driver.{Driver, with_tx}
use multi_agent_desk.Storage.Table.{put}
use multi_agent_desk.Storage.Links.{validate_session_links}
use multi_agent_desk.Storage.Sessions.{session, row_check}
use multi_agent_desk.Storage.Previews.{
  Consumed, Preview, ConsumeRequest, SeenAccount, SeenProfile, SeenCredential, Seen, PreviewRows,
  valid_fingerprint, is_healthy, bound,
}

unfoldable pub check_request : ConsumeRequest → Result (Unit {0})
check_request q =
    refuse_if
      (not (is_valid_id (validate_id q.preview_id))
        || not (is_valid_id (validate_id q.client_id))
        || not (valid_fingerprint q.request_digest)
        || q.at == 0
        || not (valid_fingerprint q.binary_fingerprint)
        || not (valid_fingerprint q.schema_fingerprint)
        || not (valid_fingerprint q.capability_digest)
        || not q.confirmation.confirmed)
      Code.identity_confirmation_required

-- Whether what is confirmed, and what is run, is what was shown.
unfoldable pub confirms : ConsumeRequest → Preview → Bool
confirms q p =
    let c = q.confirmation in
    c.confirmed
    && text_eq c.account_id p.account_id
    && c.account_revision == p.account_revision
    && text_eq c.runtime_profile_id p.runtime_profile_id
    && c.profile_revision == p.profile_revision
    && text_eq c.credential_instance_id p.credential_instance_id
    && c.credential_revision == p.credential_revision
    && text_eq c.device_id p.device_id
    && text_eq c.workspace_id p.workspace_id
    && text_eq c.usage_snapshot_id p.usage_snapshot_id
    && text_eq c.provider_version p.provider_version
    && text_eq q.binary_fingerprint p.binary_fingerprint
    && text_eq q.schema_fingerprint p.schema_fingerprint
    && text_eq q.capability_digest p.capability_digest

unfoldable pub matches_preview : Session → Preview → Bool
matches_preview s p =
    text_eq s.account_id p.account_id
    && text_eq s.runtime_profile_id p.runtime_profile_id
    && text_eq s.credential_instance_id p.credential_instance_id
    && text_eq s.device_id p.device_id
    && text_eq s.workspace_id p.workspace_id
    && text_eq s.provider codex

unfoldable pub account_current : SeenAccount → Preview → Bool
account_current a p =
    text_eq a.provider codex && not a.internal && a.enabled && a.revision == p.account_revision

unfoldable pub profile_current : SeenProfile → Preview → Bool
profile_current f p =
    text_eq f.account_id p.account_id
    && text_eq f.device_id p.device_id
    && text_eq f.provider codex
    && not f.internal
    && f.enabled
    && f.revision == p.profile_revision
    && text_eq f.credential_instance_id p.credential_instance_id

unfoldable pub credential_current : SeenCredential → Preview → Bool
credential_current c p =
    text_eq c.account_id p.account_id
    && text_eq c.device_id p.device_id
    && text_eq c.provider codex
    && is_healthy c.status
    && c.credential_revision == p.credential_revision

abbrev pub usage_current : Option Text → Text → Bool
usage_current none id = is_empty id
usage_current (some latest) id = text_eq latest id

unfoldable pub check_current : Seen → Session → Preview → Result (Unit {0})
check_current t s p = do
  a ← bound (t.accounts p.account_id)
  refuse_if (not (account_current a p)) Code.profile_binding_changed
  f ← bound (t.profiles p.runtime_profile_id)
  refuse_if (not (profile_current f p)) Code.profile_binding_changed
  c ← bound (t.credentials p.credential_instance_id)
  refuse_if (not (credential_current c p)) Code.profile_binding_changed
  refuse_if (not (usage_current (t.latest_usage p.account_id) p.usage_snapshot_id))
      Code.profile_binding_changed
  validate_session_links t.links s
  w ← bound (t.workspaces p.workspace_id)
  refuse_if (not (w.updated_at == p.workspace_updated_at)) Code.profile_binding_changed

-- The columns of the session that the statement inserts.
unfoldable pub reserved : Session → Session
reserved s = record s {
  provider = codex;
  provider_session_id = [];
  resumed_from_session_id = [];
  status = SessionStatus.starting;
  ended_at = none;
  exit_code = none;
  failure_code = [];
}

unfoldable pub reserve_session :
    ConsumeRequest → Session → Preview → PreviewRows → Result (Text × PreviewRows)
reserve_session q s p r = do
  refuse_if (is_some (r.sessions s.id) || not (row_check (reserved s))) Code.conflict
  ok (
    s.id,
    record {
      previews = put r.previews q.preview_id (record p {
        consumed =
            some (record { at = q.at; request_digest = q.request_digest; session_id = s.id });
      });
      sessions = put r.sessions s.id (reserved s);
    },
  )

-- A preview that is consumed gives its session again to the same request.
unfoldable pub consume_preview :
    Seen
    → ConsumeRequest
    → Session
    → Preview
    → Option Consumed
    → PreviewRows
    → Result (Text × PreviewRows)
consume_preview t q s p (some done) r = do
  refuse_if (not (text_eq done.request_digest q.request_digest)) Code.conflict
  ok (done.session_id, r)
consume_preview t q s p none r = do
  refuse_if (not (ltb q.at p.expires_at)) Code.confirmation_expired
  refuse_if (not (confirms q p)) Code.profile_binding_changed
  refuse_if (not (matches_preview s p)) Code.profile_binding_changed
  check_current t s p
  reserve_session q s p r

unfoldable pub owned_preview : Option Preview → ConsumeRequest → Result Preview
owned_preview none q = err Code.identity_confirmation_required
owned_preview (some p) q = do
  refuse_if (not (text_eq p.client_id q.client_id)) Code.permission_denied
  ok p

unfoldable pub consume_stored :
    Driver → Seen → ConsumeRequest → Session → PreviewRows → Result (Text × PreviewRows)
consume_stored d t q s r = do
  refuse_if (not d.runs) Code.conflict
  p ← owned_preview (r.previews q.preview_id) q
  consume_preview t q s p p.consumed r

abbrev pub read_session : Bool → Result Text × PreviewRows → Result Session × PreviewRows
read_session reads (err e, r) = (err e, r)
read_session reads (ok id, r) = (session reads r.sessions id, r)

abbrev pub consume_checked :
    Driver
    → Seen
    → Bool
    → ConsumeRequest
    → Result Session
    → PreviewRows
    → Result Session × PreviewRows
consume_checked d t reads q (err e) r = (err e, r)
consume_checked d t reads q (ok s) r = read_session reads (with_tx d r (consume_stored d t q s))

unfoldable pub consume_session_start_preview :
    Driver → Seen → Bool → ConsumeRequest → PreviewRows → Result Session × PreviewRows
consume_session_start_preview d t reads q r =
    consume_checked d t reads q (check_request q >> new_session q.session) r
