-- ===== src/Runtime/Leases.antt =====
-- internal/runtime/manager.go: the controller lease of a session. Each method holds `m.mu`, so it
-- is one step; its clock reading and the database's answers are arguments.
pub mod Outcomes
pub mod Fencing
pub mod Control
pub mod Releasing
pub mod Progress
mod Examples
use multi_agent_desk.Prelude.{ℕ, Option, none, some, List, [], ◌∷◌, if◌then◌else◌, Text}
use multi_agent_desk.Domain.Errors.{Code, Result, ok, err}
use multi_agent_desk.Domain.Lease.{
  ControllerLease, acquire_controller_lease, heartbeat, release, require_control,
}
use multi_agent_desk.Storage.Driver.{Driver}
use multi_agent_desk.Storage.Leases.{Leases, controller_lease, save_controller_lease}

-- What one call reads from outside: the clock, and the answers to its read and its write.
pub record Env : Type 0 where
  pub now : ℕ
  pub duration : ℕ
  pub read : Driver
  pub write : Driver

abbrev pub Outcome : Type 0
Outcome = Result ControllerLease × Leases

abbrev pub saved : ControllerLease → Result (Unit {0}) × Leases → Outcome
saved lease (ok _, t) = (ok lease, t)
saved lease (err e, t) = (err e, t)

abbrev pub save_result : Env → Leases → Result ControllerLease → ℕ → Outcome
save_result env t (ok lease) expected =
    saved lease (save_controller_lease env.write t lease expected)
save_result env t (err e) expected = (err e, t)

-- `expected` is the revision of the lease that was loaded, or zero.
acquire_over : Env → Leases → Text → Text → Option ControllerLease → ℕ → Outcome
acquire_over env t session_id client_id current expected =
    save_result env t (acquire_controller_lease current session_id client_id env.now env.duration)
      expected

-- `NotFound` alone means that there is no lease yet.
acquire_loaded : Env → Leases → Text → Text → Result ControllerLease → Outcome
unfolding acquire_over
acquire_loaded env t session_id client_id (ok loaded) =
    acquire_over env t session_id client_id (some loaded) loaded.revision
acquire_loaded env t session_id client_id (err Code.not_found) =
    acquire_over env t session_id client_id none 0
acquire_loaded env t session_id client_id (err e) = (err e, t)

unfoldable pub manager_acquire : Env → Leases → Text → Text → Outcome
unfolding acquire_loaded
manager_acquire env t session_id client_id =
    acquire_loaded env t session_id client_id (controller_lease env.read t session_id)

heartbeat_loaded : Env → Leases → Text → ℕ → Result ControllerLease → Outcome
heartbeat_loaded env t client_id revision (err e) = (err e, t)
heartbeat_loaded env t client_id revision (ok lease) =
    save_result env t (heartbeat lease client_id revision env.now env.duration) lease.revision

unfoldable pub manager_heartbeat : Env → Leases → Text → Text → ℕ → Outcome
unfolding heartbeat_loaded
manager_heartbeat env t session_id client_id revision =
    heartbeat_loaded env t client_id revision (controller_lease env.read t session_id)

release_loaded : Env → Leases → Text → ℕ → Result ControllerLease → Outcome
release_loaded env t client_id revision (err e) = (err e, t)
release_loaded env t client_id revision (ok lease) =
    save_result env t (release lease client_id revision env.now) lease.revision

unfoldable pub manager_release : Env → Leases → Text → Text → ℕ → Outcome
unfolding release_loaded
manager_release env t session_id client_id revision =
    release_loaded env t client_id revision (controller_lease env.read t session_id)

require_loaded : Text → ℕ → ℕ → Result ControllerLease → Result (Unit {0})
require_loaded client_id revision now (err e) = err e
require_loaded client_id revision now (ok lease) = require_control lease client_id revision now

unfoldable pub require_lease : Driver → ℕ → Leases → Text → Text → ℕ → Result (Unit {0})
unfolding require_loaded
require_lease read now t session_id client_id revision =
    require_loaded client_id revision now (controller_lease read t session_id)

-- One call of a client, with what it meets.
pub data Call : Type 0 where
  acquires : Env → Text → Text → Call
  heartbeats : Env → Text → Text → ℕ → Call
  releases : Env → Text → Text → ℕ → Call

unfoldable pub step : Leases → Call → Leases
step t (acquires env session_id client_id) = (manager_acquire env t session_id client_id).1
step t (heartbeats env session_id client_id revision) =
    (manager_heartbeat env t session_id client_id revision).1
step t (releases env session_id client_id revision) =
    (manager_release env t session_id client_id revision).1

-- The calls of all clients, in the order in which they take the mutex.
unfoldable pub run : Leases → List Call → Leases
run t [] = t
run t (c ∷ cs) = run (step t c) cs
