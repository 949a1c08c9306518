-- ===== src/Runtime/Leases/Control.antt =====
-- Who controls a session, over calls of `Manager`.
use multi_agent_desk.Prelude.{
  ℕ, ◌+◌, ◌<◌, ◌≤◌, ◌≡◌, refl, sym, ap, true, ◌⊎◌, inl, inr, Option, none, some, List, Text, arith,
  ◌∙◌,
}
use multi_agent_desk.Domain.Errors.{ok, err}
use multi_agent_desk.Domain.Lease.{ControllerLease, active, require_control}
use multi_agent_desk.Domain.Lease.Grants.{InControl, Follows, require-InControl, InControl-require}
use multi_agent_desk.Storage.Driver.{Driver}
use multi_agent_desk.Storage.Table.{put_self, put-at}
use multi_agent_desk.Storage.Leases.{Leases, controller_lease}
use multi_agent_desk.Runtime.Leases.{
  Env, Call, acquires, heartbeats, releases, Outcome, manager_acquire, require_lease, step, run,
}
use multi_agent_desk.Runtime.Leases.Outcomes.{
  Does, Controlled, beaten, released, acquire-Does, heartbeat-Does, release-Does,
}
use multi_agent_desk.Runtime.Leases.Fencing.{Inv, RowOk, Advances, run-Fenced}

-- A call that passes the check has read a row in the caller's control.
pub record Passed (at : ℕ) (t : Leases) (session_id client_id : Text) (revision : ℕ) : Type 0 where
  pub row : ControllerLease
  pub found : t session_id ≡ some row
  pub control : InControl row client_id revision at

pub require_lease-Passed :
    (d : Driver) (at : ℕ) (t : Leases) (session_id client_id : Text) (revision : ℕ)
    (row : Option ControllerLease)
    → t session_id ≡ row
    → require_lease d at t session_id client_id revision ≡ ok tt
    → Passed at t session_id client_id revision
unfolding require_lease controller_lease require_control
require_lease-Passed d at t session_id client_id revision none e h = absurd (ground arith)
require_lease-Passed d at t session_id client_id revision (some row) e h = record {
  row = row;
  found = e;
  control = require-InControl row client_id revision at (ground arith);
}

-- Whatever calls come between, one revision of a session's lease never gives control to two
-- different clients.
pub revision_one_holder :
    (t : Leases) (cs : List Call) (d d' : Driver) (at at' : ℕ) (session_id c c' : Text)
    (revision : ℕ)
    → Inv t
    → require_lease d at t session_id c revision ≡ ok tt
    → require_lease d' at' (run t cs) session_id c' revision ≡ ok tt
    → c ≡ c'
revision_one_holder t cs d d' at at' session_id c c' revision v h h' =
    let before = require_lease-Passed d at t session_id c revision _ refl h in
    let after = require_lease-Passed d' at' (run t cs) session_id c' revision _ refl h' in
    let grows = (run-Fenced t cs v).grows session_id before.row before.found in
    let grown : Advances before.row (some after.row) = rw after.found at grows in ground arith

-- The call is the holder's own, with the current revision.
abbrev pub Commands : Text → ControllerLease → Call → Type 0
Commands session_id row (acquires env key client_id) = ⊥
Commands session_id row (heartbeats env key client_id revision) =
    (key ≡ session_id) × (client_id ≡ row.holder_device_id) × (revision ≡ row.revision)
Commands session_id row (releases env key client_id revision) =
    (key ≡ session_id) × (client_id ≡ row.holder_device_id) × (revision ≡ row.revision)

abbrev pub call_time : Call → ℕ
call_time (acquires env _ _) = env.now
call_time (heartbeats env _ _ _) = env.now
call_time (releases env _ _ _) = env.now

pub Does-kept :
    (t : Leases) (Good : ControllerLease → Type 0) (o : Outcome) (session_id : Text) (R : Type 0)
    → ((lease : ControllerLease) → Good lease → lease.session_id ≡ session_id → R)
    → Does t Good o
    → (o.1 session_id ≡ t session_id) ⊎ R
Does-kept t Good (err e, t') session_id R good same = inl (rw same)
Does-kept t Good (ok lease, t') session_id R good (stored, g) = rw stored (
    put-at t lease.session_id lease session_id (λ r. (r ≡ t session_id) ⊎ R)
      (λ same. inr (good lease g same)) (inl refl))

not-granted-active :
    (row : ControllerLease) (current : Option ControllerLease) (at revision : ℕ)
    → current ≡ some row
    → active row at ≡ true
    → Follows current at revision
    → ⊥
not-granted-active row none at revision e a f = cc
not-granted-active row (some current) at revision e a (_, _, ended, _) = ground arith

Controlled-Commands :
    (t : Leases) (v : Inv t) (env : Env) (session_id key client_id : Text) (revision : ℕ)
    (row lease : ControllerLease) (next : ControllerLease → ControllerLease)
    → ((l : ControllerLease) → (next l).session_id ≡ l.session_id)
    → t session_id ≡ some row
    → Controlled env t key client_id revision next lease
    → lease.session_id ≡ session_id
    → (key ≡ session_id) × (client_id ≡ row.holder_device_id) × (revision ≡ row.revision)
Controlled-Commands t v env session_id key client_id revision row lease next keeps e c own =
    let at_key : RowOk key (some c.before) = rw c.found at (v.at key) in
    let same_id : lease.session_id ≡ c.before.session_id =
      ap (λ (l : ControllerLease). l.session_id) c.after ∙ keeps c.before in
    let same_key : key ≡ session_id = sym at_key.0 ∙ sym same_id ∙ own in
    let found : t session_id ≡ some c.before = rw same_key at c.found in
    let same_row : c.before ≡ row = cc in
    let held : InControl row client_id revision env.now = rw same_row at c.control in
    (same_key, sym held.2, sym held.1)

-- While a lease is in force, only its holder's own call, with its current revision, changes its
-- row.
pub active_lease_changed_by_holder :
    (t : Leases) (session_id : Text) (row : ControllerLease) (c : Call)
    → Inv t
    → t session_id ≡ some row
    → active row (call_time c) ≡ true
    → (step t c session_id ≡ t session_id) ⊎ Commands session_id row c
unfolding step
active_lease_changed_by_holder t session_id row (acquires env key client_id) v e a =
    Does-kept t _ _ session_id _
      (λ lease ((own, _, _, _, _, _, _, follows), _) same.
        not-granted-active row (t key) env.now lease.revision (rw (sym own ∙ same) e) a follows)
      (acquire-Does env t key client_id)
active_lease_changed_by_holder t session_id row (heartbeats env key client_id revision) v e a =
    Does-kept t _ _ session_id _
      (λ lease g own.
        Controlled-Commands t v env session_id key client_id revision row lease (beaten env)
          (λ l. refl) e g own)
      (heartbeat-Does env t key client_id revision)
active_lease_changed_by_holder t session_id row (releases env key client_id revision) v e a =
    Does-kept t _ _ session_id _
      (λ lease g own.
        Controlled-Commands t v env session_id key client_id revision row lease (released env)
          (λ l. refl) e g own)
      (release-Does env t key client_id revision)

pub Does-ok :
    (t : Leases) (Good : ControllerLease → Type 0) (o : Outcome) (lease : ControllerLease)
    (t' : Leases)
    → Does t Good o
    → o ≡ (ok lease, t')
    → (t' lease.session_id ≡ some lease) × Good lease
Does-ok t Good (err e, _) lease t' does h = cc
Does-ok t Good (ok made, made_t) lease t' (stored, good) h =
    let same : made ≡ lease = cc in
    let same_t : made_t ≡ t' = cc in
    let at_own : made_t made.session_id ≡ some made = rw stored (put_self t made.session_id made) in
    (rw (← same_t, ← same) at_own, rw (← same) good)

-- The lease that `Acquire` returns controls its session from now on until it expires, for its
-- holder, whatever reads it.
pub acquire_gives_control :
    (env : Env) (t : Leases) (session_id client_id : Text) (lease : ControllerLease) (t' : Leases)
    (d : Driver) (at : ℕ)
    → manager_acquire env t session_id client_id ≡ (ok lease, t')
    → d.runs ≡ true
    → env.now ≤ at
    → at < env.now + env.duration
    → require_lease d at t' session_id client_id lease.revision ≡ ok tt
unfolding require_lease controller_lease require_control
acquire_gives_control env t session_id client_id lease t' d at h runs from until =
    let (stored, acquired) = Does-ok t _ _ lease t' (acquire-Does env t session_id client_id) h in
    let ((own, holder, expires, beat, free, started, _, _), positive) = acquired in
    let found : t' session_id ≡ some lease = ap t' (sym own) ∙ stored in
    let control : InControl lease client_id lease.revision at =
      (positive, refl, holder, omega arith, omega arith, omega arith, free) in
    rw (found, runs) (InControl-require lease client_id lease.revision at control)
