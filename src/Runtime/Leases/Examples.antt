-- ===== src/Runtime/Leases/Examples.antt =====
-- The theorems about leases at concrete sessions.
use multi_agent_desk.Prelude.{
  ◌≡◌, ◌≢◌, refl, true, ◌⊎◌, none, some, List, [], ◌∷◌, All, arith, Text, text_eq, text_eq_iff,
  bytes, if◌then◌else◌, ℕ,
}
use multi_agent_desk.Domain.Errors.{ok}
use multi_agent_desk.Domain.Id.{validate_id}
use multi_agent_desk.Domain.Lease.{
  ControllerLease, active, acquire_controller_lease, heartbeat, release, require_control,
}
use multi_agent_desk.Storage.Driver.{Driver}
use multi_agent_desk.Storage.Leases.{Leases, controller_lease, save_controller_lease}
use multi_agent_desk.Runtime.Leases.{
  Env, Call, acquires, heartbeats, releases, manager_acquire, manager_heartbeat, manager_release,
  require_lease, step, run,
}
use multi_agent_desk.Runtime.Leases.Fencing.{Inv}
use multi_agent_desk.Runtime.Leases.Control.{
  Commands, revision_one_holder, active_lease_changed_by_holder, acquire_gives_control,
}
use multi_agent_desk.Runtime.Leases.Releasing.{NotAcquired, release_ends_control}
use multi_agent_desk.Runtime.Leases.Progress.{Serves, fresh, acquire_when-Free}

abbrev desk : Text
desk = bytes "session_00000000000000000000000000000001"

abbrev alice : Text
alice = bytes "client_0000000000000000000000000000000a"

abbrev bob : Text
bob = bytes "client_0000000000000000000000000000000b"

abbrev serving : Driver
serving = record { begins = true; runs = true; commits = true }

-- A call at `now`, for a lease of 30 ticks.
abbrev at_time : ℕ → Env
at_time now = record { now = now; duration = 30; read = serving; write = serving }

abbrev held : ControllerLease
held = record {
  session_id = desk;
  holder_device_id = alice;
  revision = 1;
  expires_at = 40;
  last_heartbeat = 10;
  released_at = none;
}

abbrev no_leases : Leases
no_leases k = none

after_acquire : Leases
unfolding manager_acquire
after_acquire = (manager_acquire (at_time 10) no_leases desk alice).1

no_leases-Inv : Inv no_leases
no_leases-Inv = record { at = λ k. tt }

acquired : manager_acquire (at_time 10) no_leases desk alice ≡ (ok held, after_acquire)
unfolding after_acquire controller_lease acquire_controller_lease validate_id save_controller_lease
    text_eq
acquired = refl

acquire_gives_control_example :
    require_lease serving 25 after_acquire desk alice held.revision ≡ ok tt
acquire_gives_control_example =
    acquire_gives_control (at_time 10) no_leases desk alice held after_acquire serving 25 acquired
      refl (omega arith) (omega arith)

ready : Serves serving
ready = record { begun = refl; ran = refl; committed = refl }

acquire_when-Free_example :
    (manager_acquire (at_time 10) no_leases desk alice).0 ≡ ok (fresh (at_time 10) desk alice none)
unfolding validate_id
acquire_when-Free_example =
    acquire_when-Free (at_time 10) no_leases desk alice no_leases-Inv ready ready refl refl
      (omega arith) refl tt

abbrev one_lease : Leases
one_lease k = if text_eq desk k then some held else none

one_lease-Inv : Inv one_lease
one_lease-Inv = record { at = λ k. ground (arith, text_eq_iff desk k) }

found : one_lease desk ≡ some held
unfolding text_eq
found = refl

passes : require_lease serving 25 one_lease desk alice 1 ≡ ok tt
unfolding require_lease controller_lease require_control text_eq
passes = refl

-- Alice prolongs her lease while Bob asks for it.
abbrev contest : List Call
contest = heartbeats (at_time 20) desk alice 1 ∷ acquires (at_time 21) desk bob ∷ []

passes_later : require_lease serving 45 (run one_lease contest) desk alice 1 ≡ ok tt
unfolding require_lease run step manager_heartbeat manager_acquire heartbeat controller_lease
    require_control text_eq acquire_controller_lease validate_id save_controller_lease
passes_later = refl

revision_one_holder_example : alice ≡ alice
revision_one_holder_example =
    revision_one_holder one_lease contest serving serving 25 45 desk alice alice 1 one_lease-Inv
      passes passes_later

active_lease_changed_by_holder_example :
    (step one_lease (acquires (at_time 20) desk bob) desk ≡ one_lease desk)
    ⊎ Commands desk held (acquires (at_time 20) desk bob)
unfolding active
active_lease_changed_by_holder_example =
    active_lease_changed_by_holder one_lease desk held (acquires (at_time 20) desk bob)
      one_lease-Inv found refl

abbrev given_up : ControllerLease
given_up = record held { revision = 2; expires_at = 20; last_heartbeat = 20; released_at = some 20 }

after_release : Leases
unfolding manager_release
after_release = (manager_release (at_time 20) one_lease desk alice 1).1

released : manager_release (at_time 20) one_lease desk alice 1 ≡ (ok given_up, after_release)
unfolding after_release controller_lease release save_controller_lease text_eq
released = refl

-- What is tried with a session that was given up: two of its former holder's calls, and an
-- `Acquire` of another session.
abbrev afterwards : List Call
afterwards =
    heartbeats (at_time 21) desk alice 2
    ∷ acquires (at_time 22) alice bob
    ∷ releases (at_time 23) desk alice 2
    ∷ []

elsewhere : All (NotAcquired desk) afterwards
elsewhere = (tt, ((λ e. absurd (ground arith)), (tt, tt)))

release_ends_control_example :
    require_lease serving 24 (run after_release afterwards) desk bob 2 ≢ ok tt
release_ends_control_example =
    release_ends_control (at_time 20) one_lease desk alice 1 given_up after_release afterwards
      serving 24 bob 2 one_lease-Inv released elsewhere
