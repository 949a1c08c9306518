-- ===== src/Runtime/Leases/Outcomes.antt =====
-- What one call of the manager may do: fail and change nothing, or store the lease it returns.
use multi_agent_desk.Prelude.{
  ℕ, ◌+◌, ◌≡◌, refl, true, inl, inr, Option, none, some, slt, inc64, Text,
}
use multi_agent_desk.Domain.Errors.{Code, Result, ok, err}
use multi_agent_desk.Domain.Lease.{ControllerLease}
use multi_agent_desk.Domain.Lease.Grants.{
  Granted, InControl, acquire-Granted, heartbeat-ok, release-ok,
}
use multi_agent_desk.Storage.Table.{put}
use multi_agent_desk.Storage.Leases.{Leases, controller_lease}
use multi_agent_desk.Storage.Leases.Saves.{
  Replaces, Saves, save-Saves, controller_lease-ok, controller_lease-not_found,
}
use multi_agent_desk.Runtime.Leases.{
  Env, Outcome, saved, save_result, acquire_over, acquire_loaded, manager_acquire, heartbeat_loaded,
  manager_heartbeat, release_loaded, manager_release,
}

-- `Good` holds of the lease that was stored.
abbrev pub Does : Leases → (ControllerLease → Type 0) → Outcome → Type 0
Does t Good (err e, t') = t' ≡ t
Does t Good (ok lease, t') = (t' ≡ put t lease.session_id lease) × Good lease

saved-Does :
    (Good : ControllerLease → Type 0) (t : Leases) (lease : ControllerLease) (expected : ℕ)
    (r : Result (Unit {0}) × Leases)
    → Saves t lease expected r
    → (Replaces (t lease.session_id) lease expected → Good lease)
    → Does t Good (saved lease r)
saved-Does Good t lease expected (ok _, t') (inl (e, p, q)) good = cc
saved-Does Good t lease expected (ok _, t') (inr (p, q, replaces)) good = (q, good replaces)
saved-Does Good t lease expected (err e, t') (inl (_, p, q)) good = q
saved-Does Good t lease expected (err e, t') (inr (p, q, replaces)) good = cc

save_result-Does :
    (Good : ControllerLease → Type 0) (env : Env) (t : Leases) (made : Result ControllerLease)
    (expected : ℕ)
    → ((lease : ControllerLease)
        → made ≡ ok lease
        → Replaces (t lease.session_id) lease expected
        → Good lease)
    → Does t Good (save_result env t made expected)
save_result-Does Good env t (err e) expected good = refl
save_result-Does Good env t (ok lease) expected good =
    saved-Does Good t lease expected _ (save-Saves env.write t lease expected) (good lease refl)

-- The lease is granted over what the session had, and its revision is a positive `int64`.
abbrev pub Acquired : Env → Leases → Text → Text → ControllerLease → Type 0
Acquired env t session_id client_id lease =
    Granted (t session_id) session_id client_id env.now env.duration lease
    × (slt 0 lease.revision ≡ true)

Replaces-positive :
    (row : Option ControllerLease) (lease : ControllerLease) (expected : ℕ)
    → Replaces row lease expected
    → slt 0 lease.revision ≡ true
Replaces-positive none lease expected (p, q) = rw q refl
Replaces-positive (some row) lease expected (p, q) = q

acquire_over-Does :
    (env : Env) (t : Leases) (session_id client_id : Text) (current : Option ControllerLease)
    (expected : ℕ)
    → t session_id ≡ current
    → Does t
        (Acquired env t session_id client_id)
        (acquire_over env t session_id client_id current expected)
unfolding acquire_over
acquire_over-Does env t session_id client_id current expected found =
    save_result-Does (Acquired env t session_id client_id) env t _ expected λ lease made replaces.
      let granted = acquire-Granted current session_id client_id env.now env.duration made in
      (rw found granted, Replaces-positive _ lease expected replaces)

acquire_loaded-Does :
    (env : Env) (t : Leases) (session_id client_id : Text) (loaded : Result ControllerLease)
    → controller_lease env.read t session_id ≡ loaded
    → Does t
        (Acquired env t session_id client_id)
        (acquire_loaded env t session_id client_id loaded)
unfolding acquire_loaded
acquire_loaded-Does env t session_id client_id (ok row) read =
    acquire_over-Does env t session_id client_id (some row) row.revision
      (controller_lease-ok env.read t session_id read)
acquire_loaded-Does env t session_id client_id (err Code.not_found) read =
    acquire_over-Does env t session_id client_id none 0
      (controller_lease-not_found env.read t session_id read)
acquire_loaded-Does env t session_id client_id (err _) read = refl

pub acquire-Does :
    (env : Env) (t : Leases) (session_id client_id : Text)
    → Does t (Acquired env t session_id client_id) (manager_acquire env t session_id client_id)
unfolding manager_acquire
acquire-Does env t session_id client_id = acquire_loaded-Does env t session_id client_id _ refl

-- The row before the call was in the caller's control, and `next` is what it became.
pub record Controlled (env : Env) (t : Leases) (session_id client_id : Text) (revision : ℕ)
    (next : ControllerLease → ControllerLease) (lease : ControllerLease) : Type 0 where
  pub before : ControllerLease
  pub found : t session_id ≡ some before
  pub control : InControl before client_id revision env.now
  pub after : lease ≡ next before
  pub positive : slt 0 lease.revision ≡ true

abbrev pub beaten : Env → ControllerLease → ControllerLease
beaten env l = record l { last_heartbeat = env.now; expires_at = env.now + env.duration }

abbrev pub released : Env → ControllerLease → ControllerLease
released env l = record l {
  revision = inc64 l.revision;
  expires_at = env.now;
  last_heartbeat = env.now;
  released_at = some env.now;
}

module _ (env : Env) (t : Leases) (session_id client_id : Text) (revision : ℕ) where
  heartbeat_loaded-Does :
      (loaded : Result ControllerLease)
      → controller_lease env.read t session_id ≡ loaded
      → Does t
          (Controlled env t session_id client_id revision (beaten env))
          (heartbeat_loaded env t client_id revision loaded)
  unfolding heartbeat_loaded
  heartbeat_loaded-Does (err e) read = refl
  heartbeat_loaded-Does (ok row) read =
      save_result-Does _ env t _ row.revision λ lease made replaces.
        let (control, _, after) = heartbeat-ok row client_id revision env.now env.duration made in
        record {
          before = row;
          found = controller_lease-ok env.read t session_id read;
          control = control;
          after = after;
          positive = Replaces-positive _ lease row.revision replaces;
        }

  pub heartbeat-Does :
      Does t
        (Controlled env t session_id client_id revision (beaten env))
        (manager_heartbeat env t session_id client_id revision)
  unfolding manager_heartbeat
  heartbeat-Does = heartbeat_loaded-Does _ refl

  release_loaded-Does :
      (loaded : Result ControllerLease)
      → controller_lease env.read t session_id ≡ loaded
      → Does t
          (Controlled env t session_id client_id revision (released env))
          (release_loaded env t client_id revision loaded)
  unfolding release_loaded
  release_loaded-Does (err e) read = refl
  release_loaded-Does (ok row) read = save_result-Does _ env t _ row.revision λ lease made replaces.
      let (control, after) = release-ok row client_id revision env.now made in
      record {
        before = row;
        found = controller_lease-ok env.read t session_id read;
        control = control;
        after = after;
        positive = Replaces-positive _ lease row.revision replaces;
      }

  pub release-Does :
      Does t
        (Controlled env t session_id client_id revision (released env))
        (manager_release env t session_id client_id revision)
  unfolding manager_release
  release-Does = release_loaded-Does _ refl
