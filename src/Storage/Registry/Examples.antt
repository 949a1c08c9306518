-- ===== src/Storage/Registry/Examples.antt =====
-- The theorems about accounts and profiles at a concrete registry.
use multi_agent_desk.Prelude.{
  suc, ◌≡◌, refl, true, false, none, some, List, [], ◌∷◌, All, if◌then◌else◌, length, Text, text_eq,
  bytes, arith,
}
use multi_agent_desk.Domain.Errors.{ok}
use multi_agent_desk.Domain.Id.{
  validate_id, hex_encode, hex_decode, decodes_to, valid_id_at, valid_id_prefix, last_index_byte,
}
use multi_agent_desk.Domain.Provider.{codex}
use multi_agent_desk.Domain.Account.{Account}
use multi_agent_desk.Storage.Driver.{Driver}
use multi_agent_desk.Storage.Rows.{find}
use multi_agent_desk.Storage.Registry.{Profile, Registry}
use multi_agent_desk.Storage.Registry.Profiles.{ProfilePatch}
use multi_agent_desk.Storage.Registry.Consistent.{Owned, Consistent, same_key}
use multi_agent_desk.Storage.Registry.History.{Call, run, run-Consistent}
use multi_agent_desk.Storage.Registry.Pages.{
  Codec, PageCursor, page_limit, cursor_filter, list_profiles,
}
use multi_agent_desk.Storage.Registry.Pages.Complete.{IsReadable, walk}
use multi_agent_desk.Storage.Registry.Pages.Listing.{id, created_at, listed, profiles_complete}

abbrev serving : Driver
serving = record { begins = true; runs = true; commits = true }

abbrev owner : Account
owner = record {
  id = bytes "account_00000000000000000000000000000001";
  provider = codex;
  display_name = bytes "Work";
  provider_subject_digest = [];
  subscription_hint = [];
  internal = false;
  enabled = true;
  revision = 1;
  created_at = 40;
  updated_at = 40;
}

abbrev one : Profile
one = record {
  id = bytes "profile_00000000000000000000000000000001";
  account_id = owner.id;
  credential_instance_id = [];
  device_id = bytes "device_00000000000000000000000000000001";
  name = bytes "Default";
  provider = codex;
  selector_alias = bytes "Work";
  selector_key = bytes "work";
  settings = bytes "{}";
  internal = false;
  enabled = true;
  revision = 1;
  created_at = 40;
  updated_at = 40;
}

abbrev two : Profile
two = record one {
  id = bytes "profile_00000000000000000000000000000002";
  name = bytes "Second";
  selector_alias = bytes "Other";
  selector_key = bytes "other";
  created_at = 50;
  updated_at = 50;
}

abbrev registry : Registry
registry = record {
  accounts = owner ∷ [];
  profiles = two ∷ one ∷ [];
  tombstones = [];
  credentials = [];
  usage = [];
  sessions = [];
}

registry-Consistent : Consistent registry
unfolding text_eq same_key find
registry-Consistent = record {
  owned = (belongs, (belongs1, tt));
  distinct = ((record { ids = refl; keys = refl }, tt), (tt, tt));
}
  where
    belongs : Owned (owner ∷ []) two
    belongs = record { owner = owner; found = refl; provider = refl }

    belongs1 : Owned (owner ∷ []) one
    belongs1 = record { owner = owner; found = refl; provider = refl }

abbrev third : Profile
third = record one {
  id = bytes "profile_00000000000000000000000000000003";
  name = bytes "Third";
  selector_alias = bytes "Third";
  selector_key = [];
}

abbrev rename : ProfilePatch
rename = record { name = none; selector_alias = some (bytes "Main") }

abbrev calls : List Call
calls =
    Call.creates_profile serving (λ text. true) owner third
    ∷ Call.updates_profile serving true (λ r. r) one.id 1 rename 60
    ∷ Call.deletes_profile serving two.id 1 70
    ∷ []

run-Consistent_example : Consistent (run calls registry)
run-Consistent_example =
    run-Consistent calls registry (tt, ((λ r c. c), (tt, tt))) registry-Consistent

abbrev cursor : Text → Profile → PageCursor
cursor filter p = record { version = 1; at = p.created_at ∷ []; id = p.id; filter = filter }

abbrev filter : Text
filter = bytes "00"

abbrev codec : Codec
codec = record {
  base64 = λ text. text;
  unbase64 = λ text. some text;
  marshal = λ cursor. cursor.id;
  unmarshal = λ text. some (cursor filter (if text_eq text one.id then one else two));
  format_time = λ n. n ∷ [];
  parses_time = λ text. true;
  sha256 = λ text. 0 ∷ [];
}

profiles-IsReadable :
    All
      (IsReadable codec id created_at (cursor_filter codec (bytes "profiles") []))
      registry.profiles
unfolding text_eq cursor_filter hex_encode validate_id valid_id_at last_index_byte valid_id_prefix
    hex_decode decodes_to
profiles-IsReadable = (
  record {
    written = refl;
    decoded = refl;
    short = omega arith;
    read = refl;
    valid_id = refl;
    parses = refl;
    timed = refl;
  },
  (
    record {
      written = refl;
      decoded = refl;
      short = omega arith;
      read = refl;
      valid_id = refl;
      parses = refl;
      timed = refl;
    },
    tt,
  ),
)

limit_of_one : page_limit 1 ≡ ok 1
unfolding page_limit
limit_of_one = refl

profiles_complete_example :
    walk
      (λ value. list_profiles codec true [] 1 value registry)
      (suc (length (listed codec [] registry)))
      []
    ≡ ok (listed codec [] registry)
profiles_complete_example =
    profiles_complete codec [] 1 1 registry limit_of_one refl profiles-IsReadable
      registry-Consistent
