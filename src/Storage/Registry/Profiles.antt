-- ===== src/Storage/Registry/Profiles.antt =====
-- internal/storage/accounts.go: the operations on profiles.
use multi_agent_desk.Prelude.{
  ℕ, Bool, true, not, ◌&&◌, ◌||◌, Option, none, some, [], ◌∷◌, ltb, ◌==◌, if◌then◌else◌, is_some,
  slt, inc64, length, take, Text, text_eq, bytes,
}
use multi_agent_desk.Domain.Errors.{Code, Result, ok, err, ◌>>=◌, ◌>>◌, refuse_if}
use multi_agent_desk.Domain.Id.{validate_id}
use multi_agent_desk.Domain.Session.{is_empty}
use multi_agent_desk.Domain.Account.{
  Account, is_valid_id, canonical_selector_alias, parse_profile_selector, at_sign,
}
use multi_agent_desk.Storage.Driver.{Driver, with_tx}
use multi_agent_desk.Storage.Rows.{find, any, modify, without}
use multi_agent_desk.Storage.Registry.{
  Profile, Entity, Registry, is_profile, is_public_profile, has_key, clashes, account,
  public_account, profile, validate_public_profile, insert_profile, insert_tombstone,
}

unfoldable pub insert_for_account : Driver → Text → Profile → Registry → Result (Profile × Registry)
insert_for_account d account_id p r = do
  refuse_if (not d.runs) Code.conflict
  a ← account true r account_id
  refuse_if (a.internal || not (text_eq a.provider p.provider)) Code.invalid_argument
  profiles' ← insert_profile p r.profiles
  ok (p, record r { profiles = profiles' })

unfoldable pub create_profile :
    Driver → (Text → Bool) → Account → Profile → Registry → Result Profile × Registry
create_profile d json_valid a p r = elim (validate_public_profile json_valid p a) [
  | err e ↦ (err e, r)
  | ok p' ↦ with_tx d r (insert_for_account d a.id p')
]

module _ {ℓ} {C : Type ℓ} (credential_instance : Text → Result C) where
  -- The account, the profile and the credential, if it has one.
  unfoldable pub binding : Bool → Registry → Profile → Result (Account × Profile × Option C)
  binding reads r p = do
    a ← account reads r p.account_id
    if is_empty p.credential_instance_id
        then ok (a, p, none)
        else (do c ← credential_instance p.credential_instance_id; ok (a, p, some c))

  unfoldable pub resolve_profile : Bool → Registry → Text → Result (Account × Profile × Option C)
  resolve_profile reads r selector = do
    key ← parse_profile_selector selector
    refuse_if (not reads) Code.conflict
    p ← elim (find (has_key key) r.profiles) [ none ↦ err Code.profile_not_found | some p ↦ ok p ]
    binding reads r p

  -- An explicit id of a profile is looked up as such.
  unfoldable pub resolve_profile_target :
      Bool → Registry → Text → Result (Account × Profile × Option C)
  resolve_profile_target reads r target =
      if not (text_eq (take 8 target) (bytes "profile_")) || not (is_valid_id (validate_id target))
      then resolve_profile reads r target
      else (do p ← profile reads r target; binding reads r p)

  unfoldable pub account_by_selector : Bool → Registry → Text → Result Account
  account_by_selector reads r selector =
      if text_eq (take 1 selector) (at_sign ∷ [])
      then (do b ← resolve_profile reads r selector; ok b.0)
      else public_account reads r selector

pub record ProfilePatch : Type 0 where
  pub name : Option Text
  pub selector_alias : Option Text

abbrev pub renamed : Option Text → Profile → Profile
renamed none p = p
renamed (some name) p = record p { name = name }

abbrev pub realiased : Option Text → Profile → Result Profile
realiased none p = ok p
realiased (some alias) p = do
  key ← canonical_selector_alias alias
  ok (record p { selector_alias = alias; selector_key = key })

-- The profile as it is to be.
unfoldable pub patch_profile : Bool → Registry → Text → ℕ → ProfilePatch → ℕ → Result Profile
patch_profile reads r id expected patch at = do
  refuse_if
      (slt expected 1 || at == 0 || not (is_some patch.name) && not (is_some patch.selector_alias))
      Code.invalid_argument
  p ← profile reads r id
  refuse_if (not (p.revision == expected)) Code.sync_conflict
  p' ← realiased patch.selector_alias (renamed patch.name p)
  refuse_if (ltb (length p'.name) 1 || ltb 128 (length p'.name)) Code.invalid_argument
  ok (record p' { revision = inc64 p'.revision; updated_at = at })

abbrev pub at_revision : Text → ℕ → Profile → Bool
at_revision id expected p = is_public_profile id p && p.revision == expected

unfoldable pub save_patched : Profile → Profile → Profile
save_patched p old = record old {
  name = p.name;
  selector_alias = p.selector_alias;
  selector_key = p.selector_key;
  revision = p.revision;
  updated_at = p.updated_at;
}

-- The row is compared with all others for the unique columns.
unfoldable pub update_at : Driver → Text → ℕ → Profile → Registry → Result Registry
update_at d id expected p r = do
  refuse_if (not d.runs) Code.conflict
  old ← elim (find (at_revision id expected) r.profiles) [
    | none ↦ err Code.sync_conflict
    | some old ↦ ok old
  ]
  refuse_if (any (λ q. not (is_profile id q) && clashes (save_patched p old) q) r.profiles)
      Code.alias_conflict
  ok (record r { profiles = modify (at_revision id expected) (save_patched p) r.profiles })

abbrev pub write_patched :
    Driver
    → (Registry → Registry)
    → Text
    → ℕ
    → Result Profile
    → Registry
    → Result Profile × Registry
write_patched d others id expected (err e) r = (err e, r)
write_patched d others id expected (ok p) r = elim (update_at d id expected p (others r)) [
  | err e ↦ (err e, others r)
  | ok r' ↦ (ok p, r')
]

unfoldable pub update_profile :
    Driver
    → Bool
    → (Registry → Registry)
    → Text
    → ℕ
    → ProfilePatch
    → ℕ
    → Registry
    → Result Profile × Registry
update_profile d reads others id expected patch at r =
    write_patched d others id expected (patch_profile reads r id expected patch at) r

unfoldable pub enabled_profile : Bool → ℕ → Profile → Profile
enabled_profile enabled at p = record p {
  enabled = enabled;
  revision = inc64 p.revision;
  updated_at = at;
}

unfoldable pub enable_at : Driver → Text → ℕ → Bool → ℕ → Registry → Result Registry
enable_at d id expected enabled at r = do
  refuse_if (not d.runs) Code.conflict
  refuse_if (not (any (at_revision id expected) r.profiles)) Code.sync_conflict
  ok (record r {
    profiles = modify (at_revision id expected) (enabled_profile enabled at) r.profiles;
  })

abbrev pub read_profile : Bool → Text → Registry → Result Registry → Result Profile × Registry
read_profile reads id r (ok r') = (profile reads r' id, r')
read_profile reads id r (err Code.sync_conflict) =
    ((do p ← profile reads r id; err Code.sync_conflict), r)
read_profile reads id r (err e) = (err e, r)

unfoldable pub set_profile_enabled :
    Driver → Bool → Text → ℕ → Bool → ℕ → Registry → Result Profile × Registry
set_profile_enabled d reads id expected enabled at r =
    if slt expected 1 || at == 0
    then (err Code.invalid_argument, r)
    else read_profile reads id r (enable_at d id expected enabled at r)

-- `profileTx`, which also finds an internal profile.
unfoldable pub profile_row : Registry → Text → Result Profile
profile_row r id = elim (find (is_profile id) r.profiles) [
  | none ↦ err Code.not_found
  | some p ↦ ok p
]

unfoldable pub remove_profile : Driver → Text → ℕ → ℕ → Registry → Result (Unit {0} × Registry)
remove_profile d id expected at r = do
  refuse_if (not d.runs) Code.conflict
  p ← profile_row r id
  refuse_if p.internal Code.permission_denied
  refuse_if (not (p.revision == expected)) Code.sync_conflict
  refuse_if p.enabled Code.conflict
  refuse_if (not (is_empty p.credential_instance_id)) Code.provider_cleanup_required
  refuse_if (any (λ s. text_eq s.runtime_profile_id id) r.sessions) Code.profile_in_use
  tombs ←
      insert_tombstone
        (record {
          entity = Entity.a_profile;
          entity_id = id;
          provider = p.provider;
          final_revision = inc64 p.revision;
          deleted_at = at;
        })
        r.tombstones
  ok (
    tt,
    record r {
      profiles = without (λ q. text_eq q.id id && q.revision == expected) r.profiles;
      tombstones = tombs;
    },
  )

unfoldable pub delete_profile : Driver → Text → ℕ → ℕ → Registry → Result (Unit {0}) × Registry
delete_profile d id expected at r =
    if slt expected 1 || at == 0
    then (err Code.invalid_argument, r)
    else with_tx d r (remove_profile d id expected at)
