-- ===== src/Storage/Registry.antt =====
-- internal/storage/accounts.go: accounts, their profiles, and what is left of the deleted ones. Of
-- credentials, sessions and usage snapshots, the columns that these queries read. A statement that
-- the database refuses for another reason, as for a device that is not there, is one that the
-- driver does not run.
pub mod Profiles
pub mod Accounts
pub mod Consistent
pub mod Keeping
pub mod Deleting
pub mod History
mod Examples
pub mod Pages
use multi_agent_desk.Prelude.{
  ℕ, Bool, true, false, not, ◌&&◌, ◌||◌, Option, none, some, List, [], ◌∷◌, ltb, leb, ◌==◌,
  if◌then◌else◌, is_some, slt, inc64, length, Text, text_eq,
}
use multi_agent_desk.Domain.Errors.{Code, Result, ok, err, ◌>>=◌, ◌>>◌, refuse_if}
use multi_agent_desk.Domain.Id.{validate_id}
use multi_agent_desk.Domain.Session.{is_empty}
use multi_agent_desk.Domain.Account.{
  Account, is_valid_id, public_provider, canonical_selector_alias,
}
use multi_agent_desk.Storage.Rows.{find, any}

-- A null alias or credential is empty, as `scanProfile` reads it.
pub record Profile : Type 0 where
  pub id : Text
  pub account_id : Text
  pub credential_instance_id : Text
  pub device_id : Text
  pub name : Text
  pub provider : Text
  pub selector_alias : Text
  pub selector_key : Text
  pub settings : Text
  pub internal : Bool
  pub enabled : Bool
  pub revision : ℕ
  pub created_at : ℕ
  pub updated_at : ℕ

pub data Entity : Type 0 where
  an_account a_profile : Entity

pub record Tombstone : Type 0 where
  pub entity : Entity
  pub entity_id : Text
  pub provider : Text
  pub final_revision : ℕ
  pub deleted_at : ℕ

-- The account and the profile of a session.
pub record SessionOwner : Type 0 where
  pub account_id : Text
  pub runtime_profile_id : Text

pub record Registry : Type 0 where
  pub accounts : List Account
  pub profiles : List Profile
  pub tombstones : List Tombstone
  -- the accounts of the credentials and of the usage snapshots
  pub credentials : List Text
  pub usage : List Text
  pub sessions : List SessionOwner

abbrev pub is_account : Text → Account → Bool
is_account id a = text_eq a.id id

abbrev pub is_profile : Text → Profile → Bool
is_profile id p = text_eq p.id id

unfoldable pub account : Bool → Registry → Text → Result Account
account reads r id = do
  refuse_if (not reads) Code.conflict
  elim (find (is_account id) r.accounts) [ none ↦ err Code.account_not_found | some a ↦ ok a ]

unfoldable pub public_account : Bool → Registry → Text → Result Account
public_account reads r id = do
  a ← account reads r id
  refuse_if a.internal Code.account_not_found
  ok a

abbrev pub is_public_profile : Text → Profile → Bool
is_public_profile id p = text_eq p.id id && not p.internal

unfoldable pub profile : Bool → Registry → Text → Result Profile
profile reads r id = do
  refuse_if (not reads) Code.conflict
  elim (find (is_public_profile id) r.profiles) [
    | none ↦ err Code.profile_not_found
    | some p ↦ ok p
  ]

-- `selector_key = ? AND internal = 0`; a null key meets no test.
abbrev pub has_key : Text → Profile → Bool
has_key key p = not (is_empty p.selector_key) && text_eq p.selector_key key && not p.internal

-- What `json.Valid` answers is an argument; the settings of a profile are JSON of 64 KiB at most.
unfoldable pub canonical_settings : (Text → Bool) → Text → Result Text
canonical_settings json_valid settings = if length settings == 0 then ok (b'{' ∷ b'}' ∷ []) else (do
  refuse_if (not (json_valid settings) || ltb 65536 (length settings)) Code.invalid_argument
  ok settings)

unfoldable pub validate_public_profile : (Text → Bool) → Profile → Account → Result Profile
validate_public_profile json_valid p a = do
  refuse_if
      (not (is_valid_id (validate_id p.id))
        || not (is_valid_id (validate_id p.device_id))
        || not (text_eq p.account_id a.id)
        || not (text_eq p.provider a.provider)
        || not (public_provider p.provider)
        || p.internal
        || ltb (length p.name) 1
        || ltb 128 (length p.name)
        || slt p.revision 1
        || p.created_at == 0
        || ltb p.updated_at p.created_at
        || not (is_empty p.credential_instance_id))
      Code.invalid_argument
  key ← canonical_selector_alias p.selector_alias
  settings ← canonical_settings json_valid p.settings
  ok (record p { selector_key = key; settings = settings })

-- Whether a row of the profiles would meet the new one's primary key, its name on the device, or
-- its selector key.
abbrev pub clashes : Profile → Profile → Bool
clashes new old =
    text_eq old.id new.id
    || text_eq old.device_id new.device_id && text_eq old.name new.name
    || not new.internal && has_key new.selector_key old

unfoldable pub insert_profile : Profile → List Profile → Result (List Profile)
insert_profile new rows = do refuse_if (any (clashes new) rows) Code.alias_conflict; ok (new ∷ rows)

unfoldable pub insert_account : Account → List Account → Result (List Account)
insert_account new rows = do refuse_if (any (is_account new.id) rows) Code.conflict; ok (new ∷ rows)

abbrev pub same_entity : Entity → Entity → Bool
same_entity Entity.an_account Entity.an_account = true
same_entity Entity.a_profile Entity.a_profile = true
same_entity _ _ = false

-- A tombstone's entity is its primary key.
unfoldable pub insert_tombstone : Tombstone → List Tombstone → Result (List Tombstone)
insert_tombstone new rows = do
  refuse_if
      (any (λ old. same_entity old.entity new.entity && text_eq old.entity_id new.entity_id) rows)
      Code.conflict
  ok (new ∷ rows)
