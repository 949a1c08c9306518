-- ===== src/Storage/Registry/Accounts.antt =====
-- internal/storage/accounts.go: the operations on accounts. `others` is what other writers do
-- between the read and the write of an operation without a transaction.
use multi_agent_desk.Prelude.{
  ℕ, Bool, true, not, ◌&&◌, ◌||◌, Option, none, some, List, [], ◌∷◌, ◌==◌, if◌then◌else◌, is_some,
  slt, inc64, Text, text_eq,
}
use multi_agent_desk.Domain.Errors.{Code, Result, ok, err, ◌>>=◌, ◌>>◌, refuse_if}
use multi_agent_desk.Domain.Account.{Account, new_account, public_provider}
use multi_agent_desk.Storage.Driver.{Driver, with_tx}
use multi_agent_desk.Storage.Rows.{find, any, modify, without}
use multi_agent_desk.Storage.Registry.{
  Profile, Entity, Tombstone, Registry, has_key, account, validate_public_profile, insert_account,
  insert_profile, insert_tombstone,
}

abbrev pub if_valid : Result Account → Result Account
if_valid (ok a) = ok a
if_valid (err e) = err Code.invalid_argument

unfoldable pub check_new : (Text → Bool) → Account → Profile → Result (Account × Profile)
check_new json_valid a p = do
  a' ← if_valid (new_account a)
  refuse_if (not (public_provider a.provider) || a.internal) Code.invalid_argument
  p' ← validate_public_profile json_valid p a'
  ok (a', p')

-- Whether what is there is what is asked for.
unfoldable pub same_creation : Account → Profile → Account → Profile → Bool
same_creation a p existing existing_profile =
    text_eq existing.provider a.provider
    && text_eq existing.display_name a.display_name
    && text_eq existing.subscription_hint a.subscription_hint
    && text_eq existing_profile.name p.name
    && text_eq existing_profile.selector_alias p.selector_alias

unfoldable pub create_or_replay :
    Account → Profile → Option Profile → Registry → Result ((Account × Profile) × Registry)
create_or_replay a p (some q) r = do
  existing ← account true r q.account_id
  refuse_if (not (same_creation a p existing q)) Code.alias_conflict
  ok ((existing, q), r)
create_or_replay a p none r = do
  accounts' ← insert_account a r.accounts
  profiles' ← insert_profile p r.profiles
  ok ((a, p), record r { accounts = accounts'; profiles = profiles' })

unfoldable pub insert_both :
    Driver → Account × Profile → Registry → Result ((Account × Profile) × Registry)
insert_both d (a, p) r = do
  refuse_if (not d.runs) Code.conflict
  create_or_replay a p (find (has_key p.selector_key) r.profiles) r

unfoldable pub create_account_with_default_profile :
    Driver → (Text → Bool) → Account → Profile → Registry → Result (Account × Profile) × Registry
create_account_with_default_profile d json_valid a p r = elim (check_new json_valid a p) [
  | err e ↦ (err e, r)
  | ok both ↦ with_tx d r (insert_both d both)
]

pub record AccountPatch : Type 0 where
  pub display_name : Option Text
  pub subscription_hint : Option Text

abbrev pub or_else : Option Text → Text → Text
or_else none old = old
or_else (some t) old = t

unfoldable pub patched : AccountPatch → ℕ → Account → Account
patched patch at a = record a {
  display_name = or_else patch.display_name a.display_name;
  subscription_hint = or_else patch.subscription_hint a.subscription_hint;
  revision = inc64 a.revision;
  updated_at = at;
}

abbrev pub at_revision : Text → ℕ → Account → Bool
at_revision id expected a = text_eq a.id id && not a.internal && a.revision == expected

-- `UPDATE accounts SET ... WHERE id = ? AND internal = 0 AND revision = ?`.
unfoldable pub update_at : Driver → Text → ℕ → (Account → Account) → Registry → Result Registry
update_at d id expected f r = do
  refuse_if (not d.runs) Code.conflict
  refuse_if (not (any (at_revision id expected) r.accounts)) Code.sync_conflict
  ok (record r { accounts = modify (at_revision id expected) f r.accounts })

-- The account as it is to be.
unfoldable pub patch_account : Bool → Registry → Text → ℕ → AccountPatch → ℕ → Result Account
patch_account reads r id expected patch at = do
  refuse_if
      (slt expected 1
        || at == 0
        || not (is_some patch.display_name) && not (is_some patch.subscription_hint))
      Code.invalid_argument
  a ← account reads r id
  refuse_if (not (a.revision == expected)) Code.sync_conflict
  new_account (patched patch at a)

abbrev pub saved {ℓ} : {A : Type ℓ} → A → Registry → Result Registry → Result A × Registry
saved a r (err e) = (err e, r)
saved a r (ok r') = (ok a, r')

-- The four columns of the update.
unfoldable pub save_patched : Account → Account → Account
save_patched a old = record old {
  display_name = a.display_name;
  subscription_hint = a.subscription_hint;
  revision = a.revision;
  updated_at = a.updated_at;
}

abbrev pub write_patched :
    Driver
    → (Registry → Registry)
    → Text
    → ℕ
    → Result Account
    → Registry
    → Result Account × Registry
write_patched d others id expected (err e) r = (err e, r)
write_patched d others id expected (ok a) r =
    saved a (others r) (update_at d id expected (save_patched a) (others r))

unfoldable pub update_account :
    Driver
    → Bool
    → (Registry → Registry)
    → Text
    → ℕ
    → AccountPatch
    → ℕ
    → Registry
    → Result Account × Registry
update_account d reads others id expected patch at r =
    write_patched d others id expected (patch_account reads r id expected patch at) r

unfoldable pub enabled_account : Bool → ℕ → Account → Account
enabled_account enabled at a = record a {
  enabled = enabled;
  revision = inc64 a.revision;
  updated_at = at;
}

-- A row that was not met is looked up, to tell a missing account from another revision.
abbrev pub read_account : Bool → Text → Registry → Result Registry → Result Account × Registry
read_account reads id r (ok r') = (account reads r' id, r')
read_account reads id r (err Code.sync_conflict) =
    ((do a ← account reads r id; err Code.sync_conflict), r)
read_account reads id r (err e) = (err e, r)

unfoldable pub set_account_enabled_revision :
    Driver → Bool → Text → ℕ → Bool → ℕ → Registry → Result Account × Registry
set_account_enabled_revision d reads id expected enabled at r =
    if slt expected 1 || at == 0
    then (err Code.invalid_argument, r)
    else read_account reads id r (update_at d id expected (enabled_account enabled at) r)

abbrev pub owned_by : Text → Profile → Bool
owned_by id p = text_eq p.account_id id && not p.internal

-- A tombstone for each profile of the account.
unfoldable pub bury_profiles : Text → ℕ → List Profile → List Tombstone → Result (List Tombstone)
bury_profiles id at [] tombs = ok tombs
bury_profiles id at (p ∷ ps) tombs = do
  tombs' ←
      if owned_by id p
      then insert_tombstone
          (record {
            entity = Entity.a_profile;
            entity_id = p.id;
            provider = p.provider;
            final_revision = inc64 p.revision;
            deleted_at = at;
          })
          tombs
      else ok tombs
  bury_profiles id at ps tombs'

unfoldable pub check_deletable : Account → ℕ → Registry → Result (Unit {0})
check_deletable a expected r = do
  refuse_if a.internal Code.permission_denied
  refuse_if (not (a.revision == expected)) Code.sync_conflict
  refuse_if a.enabled Code.conflict
  refuse_if (any (λ s. text_eq s.account_id a.id) r.sessions) Code.active_sessions
  refuse_if (any (λ owner. text_eq owner a.id) r.credentials) Code.provider_cleanup_required

-- The last statement is refused while a profile still refers to the account.
unfoldable pub remove_account : Driver → Text → ℕ → ℕ → Registry → Result (Unit {0} × Registry)
remove_account d id expected at r = do
  refuse_if (not d.runs) Code.conflict
  a ← account true r id
  check_deletable a expected r
  tombs ← bury_profiles id at r.profiles r.tombstones
  tombs' ←
      insert_tombstone
        (record {
          entity = Entity.an_account;
          entity_id = id;
          provider = a.provider;
          final_revision = inc64 a.revision;
          deleted_at = at;
        })
        tombs
  refuse_if (any (λ p. text_eq p.account_id id) (without (owned_by id) r.profiles)) Code.conflict
  ok (
    tt,
    record r {
      accounts = without (λ b. text_eq b.id id && b.revision == expected) r.accounts;
      profiles = without (owned_by id) r.profiles;
      tombstones = tombs';
      usage = without (λ owner. text_eq owner id) r.usage;
    },
  )

unfoldable pub delete_account : Driver → Text → ℕ → ℕ → Registry → Result (Unit {0}) × Registry
delete_account d id expected at r =
    if slt expected 1 || at == 0
    then (err Code.invalid_argument, r)
    else with_tx d r (remove_account d id expected at)
