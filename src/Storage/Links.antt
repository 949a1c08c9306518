-- ===== src/Storage/Links.antt =====
-- internal/storage/repository.go: `validateAccountForProvider` and `validateSessionLinks`, over the
-- columns that they read of the tables a session refers to.
use multi_agent_desk.Prelude.{
  ℕ, Bool, true, false, not, ◌&&◌, ◌||◌, Option, none, some, if◌then◌else◌, is_some, slt, Text,
  text_eq,
}
use multi_agent_desk.Domain.Errors.{Code, Result, ok, err, ◌>>=◌, ◌>>◌, refuse_if}
use multi_agent_desk.Domain.Id.{validate_id}
use multi_agent_desk.Domain.Provider.{codex, fake}
use multi_agent_desk.Domain.Session.{Session, is_empty}
use multi_agent_desk.Storage.Table.{Table}

pub data CredentialStatus : Type 0 where
  healthy expired revoked unknown : CredentialStatus

pub record AccountRow : Type 0 where
  pub provider : Text
  pub enabled : Bool

pub record ProfileRow : Type 0 where
  pub device_id : Text
  pub provider : Text
  pub account_id : Option Text

pub record CredentialRow : Type 0 where
  pub device_id : Text
  pub provider : Text
  pub account_id : Option Text
  pub status : CredentialStatus
  pub credential_revision : ℕ
  pub revocation_reserved : Bool

-- The tables beside `sessions`; a workspace row is its device. `reads` is false where a query
-- fails.
pub record Links : Type 0 where
  pub reads : Bool
  pub accounts : Table AccountRow
  pub profiles : Table ProfileRow
  pub credentials : Table CredentialRow
  pub workspaces : Table Text

abbrev pub found {ℓ} : {A : Type ℓ} → Bool → Option A → Result A
found false o = err Code.conflict
found true none = err Code.not_found
found true (some row) = ok row

-- Whether a nullable account column holds the account.
abbrev pub is_account : Option Text → Text → Bool
is_account none account = false
is_account (some a) account = text_eq a account

abbrev pub unusable : CredentialStatus → Bool
unusable CredentialStatus.revoked = true
unusable CredentialStatus.expired = true
unusable _ = false

unfoldable pub check_account : AccountRow → Text → Result (Unit {0})
check_account row provider = do
  refuse_if (not (text_eq row.provider provider)) Code.conflict
  refuse_if (not row.enabled) Code.permission_denied

unfoldable pub validate_account_for_provider : Links → Text → Text → Result (Unit {0})
validate_account_for_provider t provider account_id = do
  refuse_if (text_eq provider codex && is_empty account_id) Code.invalid_argument
  if is_empty account_id then ok tt else (do
    validate_id account_id
    row ← found t.reads (t.accounts account_id)
    check_account row provider)

unfoldable pub check_profile : ProfileRow → Session → Result (Unit {0})
check_profile row s = do
  refuse_if (not (text_eq row.device_id s.device_id) || not (text_eq row.provider s.provider))
      Code.conflict
  refuse_if
      ((is_some row.account_id && not (is_account row.account_id s.account_id))
        || (not (is_some row.account_id) && text_eq s.provider codex))
      Code.conflict

unfoldable pub check_credential : CredentialRow → Session → Result (Unit {0})
check_credential row s = do
  refuse_if (not (text_eq row.device_id s.device_id) || not (text_eq row.provider s.provider))
      Code.conflict
  refuse_if (unusable row.status) Code.permission_denied
  refuse_if
      (text_eq s.provider codex
        && (slt row.credential_revision 1
            || not (is_some row.account_id)
            || not (is_account row.account_id s.account_id)))
      Code.conflict
  refuse_if (text_eq s.provider fake && is_some row.account_id) Code.conflict
  refuse_if row.revocation_reserved Code.permission_denied

unfoldable pub validate_session_links : Links → Session → Result (Unit {0})
validate_session_links t s = do
  validate_account_for_provider t s.provider s.account_id
  profile ← found t.reads (t.profiles s.runtime_profile_id)
  check_profile profile s
  credential ← found t.reads (t.credentials s.credential_instance_id)
  check_credential credential s
  device ← found t.reads (t.workspaces s.workspace_id)
  refuse_if (not (text_eq device s.device_id)) Code.conflict
