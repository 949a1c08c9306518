-- ===== src/Runtime/Leases/Releasing.antt =====
-- A session that was given up, over calls of `Manager`.
use multi_agent_desk.Prelude.{
  ℕ, ◌≡◌, ◌≢◌, refl, sym, ap, inl, inr, some, List, [], ◌∷◌, All, Text, ◌∙◌,
}
use multi_agent_desk.Domain.Errors.{ok}
use multi_agent_desk.Domain.Lease.{ControllerLease}
use multi_agent_desk.Domain.Lease.Grants.{InControl}
use multi_agent_desk.Storage.Driver.{Driver}
use multi_agent_desk.Storage.Leases.{Leases}
use multi_agent_desk.Runtime.Leases.{
  Env, Call, acquires, heartbeats, releases, Outcome, manager_release, require_lease, step, run,
}
use multi_agent_desk.Runtime.Leases.Outcomes.{
  Does, Controlled, beaten, released, acquire-Does, heartbeat-Does, release-Does,
}
use multi_agent_desk.Runtime.Leases.Fencing.{Inv, RowOk, Fenced, release-Fenced, step-Fenced}
use multi_agent_desk.Runtime.Leases.Control.{require_lease-Passed, Does-kept, Does-ok}

-- The call is not an `Acquire` of the session.
abbrev pub NotAcquired : Text → Call → Type 0
NotAcquired session_id (acquires env key client_id) = key ≢ session_id
NotAcquired session_id _ = Unit

Controlled-not_released :
    (t : Leases) (v : Inv t) (env : Env) (session_id key client_id : Text) (revision at : ℕ)
    (row lease : ControllerLease) (next : ControllerLease → ControllerLease)
    → ((l : ControllerLease) → (next l).session_id ≡ l.session_id)
    → t session_id ≡ some row
    → row.released_at ≡ some at
    → Controlled env t key client_id revision next lease
    → lease.session_id ≢ session_id
Controlled-not_released t v env session_id key client_id revision at row lease next keeps e over c
      own =
    let at_key : RowOk key (some c.before) = rw c.found at (v.at key) in
    let same_id : lease.session_id ≡ c.before.session_id =
      ap (λ (l : ControllerLease). l.session_id) c.after ∙ keeps c.before in
    let same_key : key ≡ session_id = sym at_key.0 ∙ sym same_id ∙ own in
    let found : t session_id ≡ some c.before = rw same_key at c.found in
    let same_row : c.before ≡ row = cc in
    let held : InControl row client_id revision env.now = rw same_row at c.control in cc

-- A call that can store no lease of the session leaves its row as it is.
Does-unchanged :
    (t : Leases) (Good : ControllerLease → Type 0) (o : Outcome) (session_id : Text)
    → Does t Good o
    → ((lease : ControllerLease) → Good lease → lease.session_id ≢ session_id)
    → o.1 session_id ≡ t session_id
Does-unchanged t Good o session_id does never = elim (Does-kept t Good o session_id ⊥ never does) [
  | inl same ↦ same
  | inr stored ↦ absurd stored
]

-- A row that was given up stays until the session is acquired.
step-released :
    (t : Leases) (c : Call) (session_id : Text) (row : ControllerLease) (at : ℕ)
    → Inv t
    → t session_id ≡ some row
    → row.released_at ≡ some at
    → NotAcquired session_id c
    → step t c session_id ≡ t session_id
unfolding step
step-released t (acquires env key client_id) session_id row at v e over not_acquired =
    Does-unchanged t _ _ session_id (acquire-Does env t key client_id)
      λ lease (granted, _) own. not_acquired (sym granted.0 ∙ own)
step-released t (heartbeats env key client_id revision) session_id row at v e over _ =
    Does-unchanged t _ _ session_id (heartbeat-Does env t key client_id revision) λ lease.
      Controlled-not_released t v env session_id key client_id revision at row lease (beaten env)
        (λ l. refl) e over
step-released t (releases env key client_id revision) session_id row at v e over _ =
    Does-unchanged t _ _ session_id (release-Does env t key client_id revision) λ lease.
      Controlled-not_released t v env session_id key client_id revision at row lease (released env)
        (λ l. refl) e over

run-released :
    (t : Leases) (cs : List Call) (session_id : Text) (row : ControllerLease) (at : ℕ)
    → Inv t
    → t session_id ≡ some row
    → row.released_at ≡ some at
    → All (NotAcquired session_id) cs
    → run t cs session_id ≡ some row
unfolding run
run-released t [] session_id row at v e over _ = e
run-released t (c ∷ cs) session_id row at v e over (not_acquired, rest) =
    let same = step-released t c session_id row at v e over not_acquired in
    run-released (step t c) cs session_id row at (step-Fenced t c v).inv (same ∙ e) over rest

-- After `Release` returns, no client passes the check on that session, whatever calls come between,
-- as long as none acquires it. At first stored leases stand under their sessions, at positive
-- revisions.
pub release_ends_control :
    (env : Env) (t : Leases) (session_id client_id : Text) (revision : ℕ) (lease : ControllerLease)
    (t' : Leases) (cs : List Call) (d : Driver) (at : ℕ) (other : Text) (claimed : ℕ)
    → Inv t
    → manager_release env t session_id client_id revision ≡ (ok lease, t')
    → All (NotAcquired session_id) cs
    → require_lease d at (run t' cs) session_id other claimed ≢ ok tt
release_ends_control env t session_id client_id revision lease t' cs d at other claimed v h calls
      pass =
    let (stored, c) = Does-ok t _ _ lease t' (release-Does env t session_id client_id revision) h in
    let key : RowOk session_id (some c.before) = rw c.found at (v.at session_id) in
    let own : lease.session_id ≡ session_id =
      ap (λ (l : ControllerLease). l.session_id) c.after ∙ key.0 in
    let over : lease.released_at ≡ some env.now =
      ap (λ (l : ControllerLease). l.released_at) c.after in
    let fenced : Fenced t t' = rw h at (release-Fenced t v env session_id client_id revision) in
    let found =
      run-released t' cs session_id lease env.now fenced.inv (ap t' (sym own) ∙ stored) over
        calls in
    let passed = require_lease-Passed d at (run t' cs) session_id other claimed _ refl pass in
    let same : passed.row ≡ lease = cc in
    let held : InControl lease other claimed at = rw same at passed.control in cc
