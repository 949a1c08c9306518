-- ===== src/Domain/Examples.antt =====
-- The theorems about the domain at concrete values.
use multi_agent_desk.Prelude.{
  ◌≡◌, ◌⊎◌, ◌↔◌, refl, true, none, some, List, [], ◌∷◌, ◌&&◌, Text, text_eq, bytes, arith, All,
}
use multi_agent_desk.Domain.Account.{matches_alias, to_lower, at_sign, parse_profile_selector}
use multi_agent_desk.Domain.Account.Selectors.{parse_profile_selector_iff}
use multi_agent_desk.Domain.Errors.{ok}
use multi_agent_desk.Domain.Id.{all_bytes, validate_id, new_id, hex_decode, hex_encode}
use multi_agent_desk.Domain.Id.Generation.{
  IsByte, all_bytes-IsByte, hex_decode-hex_encode, new_id_valid,
}
use multi_agent_desk.Domain.Capability.{
  session_observe, session_resume, metadata_read, has_capability, canonical_capabilities,
  intersect_capabilities, capabilities_subset, valid_capabilities, text_lt,
}
use multi_agent_desk.Domain.Capability.Canonical.{
  Canonical, canonical_capabilities-Canonical, canonical_same_members, canonical_idem,
}
use multi_agent_desk.Domain.Capability.Grants.{grant_accepted}
use multi_agent_desk.Domain.Provider.{fake, provider_known}
use multi_agent_desk.Domain.Session.{
  SessionStatus, Session, transition, apply_status, resume, terminal, new_session, precedes_end,
  check_edge, session_transitions,
}
use multi_agent_desk.Domain.Session.Lifecycle.{
  Edge, exit, WellFormed, Allowed, Frozen, transition-WellFormed,
}
use multi_agent_desk.Domain.Session.Moving.{Moved, transition_iff}
use multi_agent_desk.Domain.Session.Resuming.{Resumed, started, started-WellFormed, resume-Resumed}

abbrev random : Text
random = 0 ∷ 1 ∷ 2 ∷ 3 ∷ 4 ∷ 5 ∷ 6 ∷ 7 ∷ 248 ∷ 249 ∷ 250 ∷ 251 ∷ 252 ∷ 253 ∷ 254 ∷ 255 ∷ []

random-IsByte : All IsByte random
unfolding all_bytes
random-IsByte = all_bytes-IsByte random refl

abbrev made_id : Text
made_id = bytes "session_0001020304050607f8f9fafbfcfdfeff"

made : new_id (bytes "session") (some random) ≡ ok made_id
unfolding new_id
made = refl

hex_decode-hex_encode_example : hex_decode (hex_encode random) ≡ some random
hex_decode-hex_encode_example = hex_decode-hex_encode random random-IsByte

new_id_valid_example : validate_id made_id ≡ ok tt
new_id_valid_example = new_id_valid (bytes "session") random made_id refl random-IsByte made

abbrev unsorted : List Text
unsorted = session_resume ∷ metadata_read ∷ session_resume ∷ []

abbrev sorted : List Text
sorted = metadata_read ∷ session_resume ∷ []

sorts : canonical_capabilities unsorted ≡ ok sorted
unfolding canonical_capabilities has_capability valid_capabilities text_eq text_lt
sorts = refl

canonical_capabilities-Canonical_example : Canonical unsorted (canonical_capabilities unsorted)
canonical_capabilities-Canonical_example = canonical_capabilities-Canonical unsorted

same : (c : Text) → has_capability unsorted c ≡ has_capability sorted c
unfolding has_capability
same c = ground arith

canonical_same_members_example : canonical_capabilities unsorted ≡ canonical_capabilities sorted
canonical_same_members_example = canonical_same_members unsorted sorted same

canonical_capabilities-sorted : canonical_capabilities sorted ≡ ok sorted
canonical_capabilities-sorted = canonical_idem unsorted sorted sorts

abbrev allowed : List Text
allowed = session_observe ∷ session_resume ∷ []

grant_accepted_example :
    let granted = intersect_capabilities sorted allowed in
    (canonical_capabilities granted ≡ ok granted)
    × (capabilities_subset granted sorted ≡ true)
    × ((c : Text)
        → has_capability granted c ≡ (has_capability sorted c && has_capability allowed c))
grant_accepted_example = grant_accepted sorted allowed canonical_capabilities-sorted

abbrev begun : Session
begun =
    started
      (record {
        id = made_id;
        device_id = bytes "device_00000000000000000000000000000001";
        account_id = [];
        provider = fake;
        credential_instance_id = bytes "credential_00000000000000000000000000000002";
        runtime_profile_id = bytes "profile_00000000000000000000000000000003";
        workspace_id = bytes "workspace_00000000000000000000000000000004";
        provider_session_id = [];
        resumed_from_session_id = [];
        status = SessionStatus.starting;
        started_at = 100;
        ended_at = none;
        exit_code = none;
        capability_snapshot = [];
        failure_code = [];
      })
      sorted

begun-WellFormed : WellFormed begun
begun-WellFormed = started-WellFormed begun sorted

abbrev over : Session
over = record begun {
  status = SessionStatus.failed;
  ended_at = some 120;
  exit_code = some 1;
  failure_code = bytes "provider_failed";
}

fails : transition begun SessionStatus.failed 120 (some 1) (bytes "provider_failed") ≡ ok over
unfolding transition apply_status check_edge session_transitions terminal
fails = refl

transition-WellFormed_example :
    Edge SessionStatus.starting SessionStatus.failed
    × (over.status ≡ SessionStatus.failed)
    × Allowed begun SessionStatus.failed 120 (some 1) (bytes "provider_failed")
    × WellFormed over
    × Frozen begun over
transition-WellFormed_example =
    transition-WellFormed begun SessionStatus.failed 120 (some 1) (bytes "provider_failed") over
      begun-WellFormed fails

abbrev stopping : Session
stopping = record begun { status = SessionStatus.stopping }

may_exit : Allowed stopping SessionStatus.exited 130 (some 0) []
unfolding terminal
may_exit = (omega arith, omega arith, (λ h. absurd (ground arith)), (λ h. absurd (ground arith)))

abbrev ended : Session
ended = record stopping { status = SessionStatus.exited; ended_at = some 130; exit_code = some 0 }

transition_iff_example : (transition stopping SessionStatus.exited 130 (some 0) [] ≡ ok ended) ↔ (
    Edge SessionStatus.stopping SessionStatus.exited
    × Allowed stopping SessionStatus.exited 130 (some 0) []
    × Moved stopping SessionStatus.exited 130 (some 0) [] ended)
transition_iff_example = transition_iff stopping SessionStatus.exited 130 (some 0) [] ended

moved : Moved stopping SessionStatus.exited 130 (some 0) [] ended
moved =
    (refl, (refl, refl, refl), (refl, refl, refl, refl, refl, refl, refl, refl, refl, refl, refl))

exits : transition stopping SessionStatus.exited 130 (some 0) [] ≡ ok ended
exits =
    (transition_iff stopping SessionStatus.exited 130 (some 0) [] ended).1 (exit, may_exit, moved)

abbrev next_id : Text
next_id = bytes "session_000000000000000000000000000000aa"

abbrev again : Session
again = record begun { id = next_id; resumed_from_session_id = made_id; started_at = 150 }

resumes : resume over next_id 150 ≡ ok again
unfolding resume new_session text_eq terminal validate_id has_capability canonical_capabilities
    precedes_end provider_known valid_capabilities text_lt
resumes = refl

resume-Resumed_example : Resumed over again next_id 150
resume-Resumed_example = resume-Resumed over next_id 150 again resumes

parse_profile_selector_iff_example :
    (parse_profile_selector (bytes "@Work") ≡ ok (bytes "work")) ↔ (
      (alias : Text) × ((bytes "@Work" ≡ alias) ⊎ (bytes "@Work" ≡ at_sign ∷ alias))
      × (matches_alias alias ≡ true)
      × (bytes "work" ≡ to_lower alias))
parse_profile_selector_iff_example = parse_profile_selector_iff (bytes "@Work") (bytes "work")
