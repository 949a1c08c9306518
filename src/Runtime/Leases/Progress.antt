-- ===== src/Runtime/Leases/Progress.antt =====
-- A session that nobody controls can be acquired.
use multi_agent_desk.Prelude.{
  ℕ, ◌+◌, ◌<◌, ◌≤◌, ◌≡◌, refl, true, false, Option, none, some, slt, sign_bit, Text, text_eq_iff,
  arith,
}
use multi_agent_desk.Domain.Errors.{ok}
use multi_agent_desk.Domain.Id.{validate_id}
use multi_agent_desk.Domain.Lease.{ControllerLease, active, acquire_controller_lease}
use multi_agent_desk.Storage.Driver.{Driver}
use multi_agent_desk.Storage.Leases.{Leases, controller_lease, save_controller_lease}
use multi_agent_desk.Runtime.Leases.{Env, acquire_over, acquire_loaded, manager_acquire}
use multi_agent_desk.Runtime.Leases.Fencing.{Inv, RowOk}

-- The database serves the call.
pub record Serves (d : Driver) : Type 0 where
  pub begun : d.begins ≡ true
  pub ran : d.runs ≡ true
  pub committed : d.commits ≡ true

-- No lease yet, or one that has ended, was not touched after `now`, and has a successor.
abbrev pub Free : Option ControllerLease → ℕ → Type 0
Free none now = Unit
Free (some row) now =
    (active row now ≡ false) × (row.last_heartbeat ≤ now) × (row.revision + 1 < sign_bit)

abbrev pub revision_after : Option ControllerLease → ℕ
revision_after none = 1
revision_after (some row) = row.revision + 1

abbrev pub fresh : Env → Text → Text → Option ControllerLease → ControllerLease
fresh env session_id client_id row = record {
  session_id = session_id;
  holder_device_id = client_id;
  revision = revision_after row;
  expires_at = env.now + env.duration;
  last_heartbeat = env.now;
  released_at = none;
}

module _ (env : Env) (t : Leases) (session_id client_id : Text) (v : Inv t)
    (reads : Serves env.read) (writes : Serves env.write) (named : validate_id session_id ≡ ok tt)
    (caller : validate_id client_id ≡ ok tt) (started : 0 < env.now)
    (long : slt 0 env.duration ≡ true) where
  made :
      (row : Option ControllerLease)
      → RowOk session_id row
      → Free row env.now
      → acquire_controller_lease row session_id client_id env.now env.duration
        ≡ ok (fresh env session_id client_id row)
  unfolding acquire_controller_lease
  made none w f = rw (named, caller) (ground arith)
  made (some row) w f = rw (named, caller) (ground (arith, text_eq_iff row.session_id session_id))

  acquire_over-fresh :
      (row : Option ControllerLease) (expected : ℕ)
      → t session_id ≡ row
      → Free row env.now
      → (row ≡ none → expected ≡ 0)
      → ((l : ControllerLease) → row ≡ some l → expected ≡ l.revision)
      → (acquire_over env t session_id client_id row expected).0
        ≡ ok (fresh env session_id client_id row)
  unfolding acquire_over save_controller_lease
  acquire_over-fresh none expected e f first over = rw (made none tt f) (ground (arith, first refl))
  acquire_over-fresh (some row) expected e f first over =
      let w : RowOk session_id (some row) = rw e at (v.at session_id) in
      rw (made (some row) w f) (ground (arith, over row refl))

  -- `Acquire` succeeds where the session is free, its caller is well named and the database serves:
  -- also after an expiry or a release, with the next revision.
  pub acquire_when-Free :
      Free (t session_id) env.now
      → (manager_acquire env t session_id client_id).0
        ≡ ok (fresh env session_id client_id (t session_id))
  unfolding manager_acquire acquire_loaded controller_lease
  acquire_when-Free f = at_row (t session_id) refl f
    where
      at_row :
          (row : Option ControllerLease)
          → t session_id ≡ row
          → Free row env.now
          → (manager_acquire env t session_id client_id).0 ≡ ok (fresh env session_id client_id row)
      at_row none e f = rw (reads.ran, e) (acquire_over-fresh none 0 e f (λ _. refl) (λ l h. cc))
      at_row (some row) e f =
          rw (reads.ran, e) (acquire_over-fresh (some row) row.revision e f (λ h. cc) (λ l h. cc))
