-- ===== src/Runtime/Leases/Fencing.antt =====
-- The revision of a lease is a fencing token: over any history it never falls, and it never passes
-- to another client without growing.
use multi_agent_desk.Prelude.{
  ℕ, ◌<◌, ◌≡◌, refl, ap, true, ◌⊎◌, inl, inr, Option, none, some, List, [], ◌∷◌, slt, Text, arith,
  inc64,
}
use multi_agent_desk.Domain.Errors.{ok, err}
use multi_agent_desk.Domain.Lease.{ControllerLease}
use multi_agent_desk.Domain.Lease.Grants.{Follows}
use multi_agent_desk.Storage.Table.{put, put-at}
use multi_agent_desk.Storage.Leases.{Leases}
use multi_agent_desk.Runtime.Leases.{
  Env, Call, acquires, heartbeats, releases, Outcome, manager_acquire, manager_heartbeat,
  manager_release, step, run,
}
use multi_agent_desk.Runtime.Leases.Outcomes.{
  Does, Acquired, Controlled, beaten, released, acquire-Does, heartbeat-Does, release-Does,
}

-- Each row stands under its own session, at a positive revision.
abbrev pub RowOk : Text → Option ControllerLease → Type 0
RowOk k none = Unit
RowOk k (some row) = (row.session_id ≡ k) × (slt 0 row.revision ≡ true)

pub record Inv (t : Leases) : Type 0 where
  pub at : (k : Text) → RowOk k (t k)

-- The holder and the revision stay, or the revision grows.
abbrev pub Advances : ControllerLease → Option ControllerLease → Type 0
Advances row none = ⊥
Advances row (some row') =
    ((row'.revision ≡ row.revision) × (row'.holder_device_id ≡ row.holder_device_id))
    ⊎ (row.revision < row'.revision)

-- A change of a table that keeps `Inv` and lets each row advance.
pub record Fenced (t t' : Leases) : Type 0 where
  pub inv : Inv t'
  pub grows : (k : Text) (row : ControllerLease) → t k ≡ some row → Advances row (t' k)

Fenced-refl : (t : Leases) → Inv t → Fenced t t
Fenced-refl t v = record { inv = v; grows = λ k row e. rw e (inl (refl, refl)) }

Advances-trans :
    (row row' : ControllerLease) (after : Option ControllerLease)
    → Advances row (some row')
    → Advances row' after
    → Advances row after
Advances-trans row row' none h k = k
Advances-trans row row' (some row'') h k = ground arith

put-Fenced :
    (t : Leases) (lease : ControllerLease)
    → Inv t
    → slt 0 lease.revision ≡ true
    → ((row : ControllerLease) → t lease.session_id ≡ some row → Advances row (some lease))
    → Fenced t (put t lease.session_id lease)
put-Fenced t lease v positive advances = record {
  inv = record {
    at = λ k. put-at t lease.session_id lease k (RowOk k) (λ same. (same, positive)) (v.at k);
  };
  grows = λ k row e.
      put-at t lease.session_id lease k (Advances row) (λ same. advances row (rw same e))
        (rw e (inl (refl, refl)));
}

Does-Fenced :
    (t : Leases) (Good : ControllerLease → Type 0) (o : Outcome)
    → Inv t
    → ((lease : ControllerLease)
        → Good lease
        → (slt 0 lease.revision ≡ true)
          × ((row : ControllerLease) → t lease.session_id ≡ some row → Advances row (some lease)))
    → Does t Good o
    → Fenced t o.1
Does-Fenced t Good (err e, t') v good same = rw same (Fenced-refl t v)
Does-Fenced t Good (ok lease, t') v good (stored, g) =
    let (positive, advances) = good lease g in rw stored (put-Fenced t lease v positive advances)

-- The successor of a revision is larger where both are positive `int64`s.
inc64-grows : (n : ℕ) → slt 0 n ≡ true → slt 0 (inc64 n) ≡ true → n < inc64 n
inc64-grows n h k = ground arith

granted-Advances :
    (row : ControllerLease) (current : Option ControllerLease) (at revision : ℕ)
    → current ≡ some row
    → Follows current at revision
    → slt 0 revision ≡ true
    → row.revision < revision
granted-Advances row none at revision e f positive = cc
granted-Advances row (some current) at revision e (p, _, _, q) positive =
    ground (arith, inc64-grows current.revision p)

module _ (t : Leases) (v : Inv t) (env : Env) (session_id client_id : Text) where
  Acquired-Advances :
      (lease row : ControllerLease)
      → Acquired env t session_id client_id lease
      → t lease.session_id ≡ some row
      → Advances row (some lease)
  Acquired-Advances lease row ((at_key, _, _, _, _, _, _, follows), positive) e =
      let found : t session_id ≡ some row = rw at_key at e in
      inr (granted-Advances row (t session_id) env.now lease.revision found follows positive)

  -- The row that a controlled change writes over is the one that was in control.
  Controlled-before :
      (next : ControllerLease → ControllerLease) (revision : ℕ) (lease row : ControllerLease)
      (c : Controlled env t session_id client_id revision next lease)
      → (next c.before).session_id ≡ c.before.session_id
      → t lease.session_id ≡ some row
      → c.before ≡ row
  Controlled-before next revision lease row c keeps e =
      let key : RowOk session_id (some c.before) = rw c.found at (v.at session_id) in
      let own : lease.session_id ≡ session_id =
        cc (ap (λ (l : ControllerLease). l.session_id) c.after) in
      let found : t session_id ≡ some row = rw own at e in cc

  pub acquire-Fenced : Fenced t (manager_acquire env t session_id client_id).1
  acquire-Fenced =
      Does-Fenced t _ _ v (λ lease g. (g.1, λ row e. Acquired-Advances lease row g e))
        (acquire-Does env t session_id client_id)

  pub heartbeat-Fenced :
      (revision : ℕ) → Fenced t (manager_heartbeat env t session_id client_id revision).1
  heartbeat-Fenced revision =
      Does-Fenced t _ _ v
        (λ lease c. (
          c.positive,
          λ row e.
              let same = Controlled-before (beaten env) revision lease row c refl e in
              rw (c.after, same) (inl (refl, refl)),
        ))
        (heartbeat-Does env t session_id client_id revision)

  pub release-Fenced :
      (revision : ℕ) → Fenced t (manager_release env t session_id client_id revision).1
  release-Fenced revision =
      Does-Fenced t _ _ v
        (λ lease c. (
          c.positive,
          λ row e.
              let same = Controlled-before (released env) revision lease row c refl e in
              let after : lease ≡ released env row = rw (← same) c.after in
              inr (ground (arith, inc64-grows row.revision)),
        ))
        (release-Does env t session_id client_id revision)

pub step-Fenced : (t : Leases) (c : Call) → Inv t → Fenced t (step t c)
unfolding step
step-Fenced t (acquires env session_id client_id) v = acquire-Fenced t v env session_id client_id
step-Fenced t (heartbeats env session_id client_id revision) v =
    heartbeat-Fenced t v env session_id client_id revision
step-Fenced t (releases env session_id client_id revision) v =
    release-Fenced t v env session_id client_id revision

Advances-step :
    (row : ControllerLease) (mid after : Option ControllerLease)
    → Advances row mid
    → ((row' : ControllerLease) → mid ≡ some row' → Advances row' after)
    → Advances row after
Advances-step row none after h k = absurd h
Advances-step row (some row') after h k = Advances-trans row row' after h (k row' refl)

pub run-Fenced : (t : Leases) (cs : List Call) → Inv t → Fenced t (run t cs)
unfolding run
run-Fenced t [] v = Fenced-refl t v
run-Fenced t (c ∷ cs) v =
    let first = step-Fenced t c v in
    let rest = run-Fenced (step t c) cs first.inv in
    record {
      inv = rest.inv;
      grows = λ k row e. Advances-step row _ _ (first.grows k row e) (rest.grows k);
    }
