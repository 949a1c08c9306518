-- ===== src/Storage/Previews.antt =====
-- internal/storage/session_preview.go: the previews of codex sessions, each of which starts one
-- session. Of the tables that a preview refers to, the columns that its queries read. The table's
-- check makes the three columns of a consumption null together.
pub mod Consuming
pub mod Deleting
pub mod Spending
pub mod SingleUse
mod Examples
use multi_agent_desk.Prelude.{
  ℕ, ◌-◌, ◌*◌, Bool, true, false, not, ◌&&◌, ◌||◌, Option, none, some, List, [], ◌∷◌, ltb, ◌==◌,
  if◌then◌else◌, is_some, slt, length, Text, text_eq,
}
use multi_agent_desk.Domain.Errors.{Code, Result, ok, err, ◌>>=◌, ◌>>◌, refuse_if}
use multi_agent_desk.Domain.Id.{validate_id, hex_decode}
use multi_agent_desk.Domain.Provider.{codex}
use multi_agent_desk.Domain.Capability.{text_lt}
use multi_agent_desk.Domain.Account.{is_valid_id}
use multi_agent_desk.Domain.Session.{SessionStatus, Session, is_empty, new_session}
use multi_agent_desk.Storage.Driver.{Driver, with_tx}
use multi_agent_desk.Storage.Table.{Table, put}
use multi_agent_desk.Storage.Links.{Links, CredentialStatus, validate_session_links}
use multi_agent_desk.Storage.Sessions.{Sessions, session, row_check}

pub record Consumed : Type 0 where
  pub at : ℕ
  pub request_digest : Text
  pub session_id : Text

pub record Preview : Type 0 where
  pub id : Text
  pub client_id : Text
  pub provider : Text
  pub account_id : Text
  pub account_revision : ℕ
  pub runtime_profile_id : Text
  pub profile_revision : ℕ
  pub credential_instance_id : Text
  pub credential_revision : ℕ
  pub device_id : Text
  pub workspace_id : Text
  pub workspace_updated_at : ℕ
  pub usage_snapshot_id : Text
  pub provider_version : Text
  pub binary_fingerprint : Text
  pub schema_fingerprint : Text
  pub capability_digest : Text
  pub created_at : ℕ
  pub expires_at : ℕ
  pub consumed : Option Consumed

pub record Confirmation : Type 0 where
  pub confirmed : Bool
  pub account_id : Text
  pub account_revision : ℕ
  pub runtime_profile_id : Text
  pub profile_revision : ℕ
  pub credential_instance_id : Text
  pub credential_revision : ℕ
  pub device_id : Text
  pub workspace_id : Text
  pub usage_snapshot_id : Text
  pub provider_version : Text

pub record ConsumeRequest : Type 0 where
  pub preview_id : Text
  pub client_id : Text
  pub request_digest : Text
  pub at : ℕ
  pub binary_fingerprint : Text
  pub schema_fingerprint : Text
  pub capability_digest : Text
  pub confirmation : Confirmation
  pub session : Session

pub record SeenAccount : Type 0 where
  pub provider : Text
  pub enabled : Bool
  pub internal : Bool
  pub revision : ℕ

pub record SeenProfile : Type 0 where
  pub account_id : Text
  pub device_id : Text
  pub credential_instance_id : Text
  pub provider : Text
  pub enabled : Bool
  pub internal : Bool
  pub revision : ℕ

pub record SeenCredential : Type 0 where
  pub account_id : Text
  pub device_id : Text
  pub provider : Text
  pub status : CredentialStatus
  pub credential_revision : ℕ

pub record SeenWorkspace : Type 0 where
  pub device_id : Text
  pub updated_at : ℕ

pub record SeenUsage : Type 0 where
  pub account_id : Text
  pub device_id : Text
  pub credential_instance_id : Option Text

-- What the other tables hold; `latest_usage` is the last snapshot of an account.
pub record Seen : Type 0 where
  pub links : Links
  pub accounts : Table SeenAccount
  pub profiles : Table SeenProfile
  pub credentials : Table SeenCredential
  pub workspaces : Table SeenWorkspace
  pub usage : Table SeenUsage
  pub latest_usage : Table Text
  pub sealed : Text → ℕ → Bool
  pub revoking : Text → Bool

pub record PreviewRows : Type 0 where
  pub previews : Table Preview
  pub sessions : Sessions

unfoldable pub valid_fingerprint : Text → Bool
valid_fingerprint value = length value == 64 && is_some (hex_decode value)

unfoldable pub all_valid_ids : List Text → Bool
all_valid_ids [] = true
all_valid_ids (id ∷ ids) = is_valid_id (validate_id id) && all_valid_ids ids

unfoldable pub valid_session_start_preview : Preview → Bool
valid_session_start_preview p =
    all_valid_ids (
      p.id ∷ p.client_id ∷ p.account_id ∷ p.runtime_profile_id ∷ p.credential_instance_id
      ∷ p.device_id ∷ p.workspace_id ∷ [])
    && (is_empty p.usage_snapshot_id || is_valid_id (validate_id p.usage_snapshot_id))
    && text_eq p.provider codex
    && not (slt p.account_revision 1)
    && not (slt p.profile_revision 1)
    && not (slt p.credential_revision 1)
    && not (ltb (length p.provider_version) 1)
    && not (ltb 128 (length p.provider_version))
    && valid_fingerprint p.binary_fingerprint
    && valid_fingerprint p.schema_fingerprint
    && valid_fingerprint p.capability_digest
    && not (p.workspace_updated_at == 0)
    && not (p.created_at == 0)
    && ltb p.created_at p.expires_at

abbrev pub is_healthy : CredentialStatus → Bool
is_healthy CredentialStatus.healthy = true
is_healthy _ = false

-- A row, or that the binding has changed.
abbrev pub bound {ℓ} : {A : Type ℓ} → Option A → Result A
bound none = err Code.profile_binding_changed
bound (some row) = ok row

unfoldable pub check_bindings : Seen → Preview → Result (Unit {0})
check_bindings t p = do
  a ← bound (t.accounts p.account_id)
  f ← bound (t.profiles p.runtime_profile_id)
  c ← bound (t.credentials p.credential_instance_id)
  refuse_if
      (not (text_eq a.provider codex)
        || not a.enabled
        || a.internal
        || not (text_eq f.account_id p.account_id)
        || not (text_eq f.device_id p.device_id)
        || not (text_eq f.credential_instance_id p.credential_instance_id)
        || not (text_eq f.provider codex)
        || not f.enabled
        || f.internal
        || not (text_eq c.account_id p.account_id)
        || not (text_eq c.device_id p.device_id)
        || not (text_eq c.provider codex)
        || not (is_healthy c.status)
        || not (a.revision == p.account_revision)
        || not (f.revision == p.profile_revision)
        || not (c.credential_revision == p.credential_revision))
      Code.profile_binding_changed

abbrev pub is_credential : Option Text → Text → Bool
is_credential none id = true
is_credential (some c) id = text_eq c id

unfoldable pub check_usage : Seen → Preview → Result (Unit {0})
check_usage t p = if is_empty p.usage_snapshot_id then ok tt else (do
  u ← bound (t.usage p.usage_snapshot_id)
  refuse_if
      (not (text_eq u.account_id p.account_id)
        || not (text_eq u.device_id p.device_id)
        || not (is_credential u.credential_instance_id p.credential_instance_id))
      Code.profile_binding_changed)

unfoldable pub insert_preview :
    Driver → Seen → Preview → PreviewRows → Result (Unit {0} × PreviewRows)
insert_preview d t p r = do
  check_bindings t p
  w ← bound (t.workspaces p.workspace_id)
  refuse_if (not (text_eq w.device_id p.device_id) || not (w.updated_at == p.workspace_updated_at))
      Code.profile_binding_changed
  refuse_if (not (t.sealed p.credential_instance_id p.credential_revision))
      Code.profile_binding_changed
  refuse_if (t.revoking p.credential_instance_id) Code.permission_denied
  check_usage t p
  refuse_if (not d.runs || is_some (r.previews p.id)) Code.conflict
  ok (tt, record r { previews = put r.previews p.id p })

unfoldable pub create_session_start_preview :
    Driver → Seen → Preview → PreviewRows → Result (Unit {0}) × PreviewRows
create_session_start_preview d t p r =
    if not (valid_session_start_preview p) || is_some p.consumed
    then (err Code.invalid_argument, r)
    else with_tx d r (insert_preview d t p)
