-- ===== src/Domain/Session/Lifecycle.antt =====
-- The life of a session: its edges, what an edge changes, and what always holds.
use multi_agent_desk.Prelude.{
  ℕ, ◌<◌, ◌≤◌, ◌≡◌, ◌≢◌, refl, ◌⊎◌, inl, inr, true, false, Option, none, some, [], ◌∷◌, is_some,
  Text, arith, Bool-cases,
}
use multi_agent_desk.Domain.Errors.{ok}
use multi_agent_desk.Domain.Session.{
  SessionStatus, Session, session_transitions, terminal, is_empty, check_edge, apply_status,
  transition,
}

pub data Edge : SessionStatus → SessionStatus → Type 0 where
  launch : Edge SessionStatus.starting SessionStatus.running
  starting_fails : Edge SessionStatus.starting SessionStatus.failed
  starting_killed : Edge SessionStatus.starting SessionStatus.killed
  stop : Edge SessionStatus.running SessionStatus.stopping
  running_fails : Edge SessionStatus.running SessionStatus.failed
  running_killed : Edge SessionStatus.running SessionStatus.killed
  exit : Edge SessionStatus.stopping SessionStatus.exited
  stopping_fails : Edge SessionStatus.stopping SessionStatus.failed
  stopping_killed : Edge SessionStatus.stopping SessionStatus.killed

pub ruleset edges = (
  launch, starting_fails, starting_killed, stop, running_fails, running_killed, exit,
  stopping_fails, stopping_killed,
)

pub check_edge-Edge :
    (s next : SessionStatus) → check_edge (session_transitions s) next ≡ ok tt → Edge s next
unfolding check_edge session_transitions
check_edge-Edge SessionStatus.starting next h = grind (arith, edges)
check_edge-Edge SessionStatus.running next h = grind (arith, edges)
check_edge-Edge SessionStatus.stopping next h = grind (arith, edges)
check_edge-Edge _ next h = cc

pub Edge-check_edge :
    (s next : SessionStatus) → Edge s next → check_edge (session_transitions s) next ≡ ok tt
unfolding check_edge session_transitions
Edge-check_edge s next launch = refl
Edge-check_edge s next _ = refl

abbrev pub NotBefore : ℕ → Option ℕ → Type 0
NotBefore start none = Unit
NotBefore start (some end) = start ≤ end

-- A session has an end exactly if it is over; its exit data is empty before; a failure has a code.
pub record WellFormed (s : Session) : Type 0 where
  pub known :
      (terminal s.status ≡ true)
      ⊎ (s.status ≡ SessionStatus.starting)
      ⊎ (s.status ≡ SessionStatus.running)
      ⊎ (s.status ≡ SessionStatus.stopping)
  pub ended : is_some s.ended_at ≡ terminal s.status
  pub ordered : NotBefore s.started_at s.ended_at
  pub clean : terminal s.status ≡ false → (s.exit_code ≡ none) × (s.failure_code ≡ [])
  pub explained : s.status ≡ SessionStatus.failed → s.failure_code ≢ []

-- The columns that no transition touches.
abbrev pub Frozen : Session → Session → Type 0
Frozen s s' =
    (s'.id ≡ s.id)
    × (s'.device_id ≡ s.device_id)
    × (s'.account_id ≡ s.account_id)
    × (s'.provider ≡ s.provider)
    × (s'.credential_instance_id ≡ s.credential_instance_id)
    × (s'.runtime_profile_id ≡ s.runtime_profile_id)
    × (s'.workspace_id ≡ s.workspace_id)
    × (s'.provider_session_id ≡ s.provider_session_id)
    × (s'.resumed_from_session_id ≡ s.resumed_from_session_id)
    × (s'.started_at ≡ s.started_at)
    × (s'.capability_snapshot ≡ s.capability_snapshot)

-- What `Transition` demands beside an edge.
abbrev pub Allowed : Session → SessionStatus → ℕ → Option ℕ → Text → Type 0
Allowed s next at exit_code failure_code =
    (0 < at)
    × (s.started_at ≤ at)
    × (next ≡ SessionStatus.failed → failure_code ≢ [])
    × (terminal next ≡ false → (exit_code ≡ none) × (failure_code ≡ []))

pub empty-nil : (t : Text) → is_empty t ≡ true → t ≡ []
empty-nil [] h = refl
empty-nil (c ∷ t) h = absurd (ground arith)

nonempty-ne_nil : (t : Text) → is_empty t ≡ false → t ≢ []
nonempty-ne_nil t h e = ground arith

pub transition-Allowed :
    (s : Session) (next : SessionStatus) (at : ℕ) (exit_code : Option ℕ) (failure_code : Text)
    {s' : Session}
    → transition s next at exit_code failure_code ≡ ok s'
    → (check_edge (session_transitions s.status) next ≡ ok tt)
      × Allowed s next at exit_code failure_code
      × (s' ≡ apply_status s next at exit_code failure_code)
unfolding transition
transition-Allowed s next at exit_code failure_code h =
    ground (arith, empty-nil failure_code, nonempty-ne_nil failure_code)

pub Edge-known :
    {s next : SessionStatus}
    → Edge s next
    → (terminal s ≡ false)
      × ((terminal next ≡ true)
          ⊎ (next ≡ SessionStatus.starting)
          ⊎ (next ≡ SessionStatus.running)
          ⊎ (next ≡ SessionStatus.stopping))
unfolding terminal
Edge-known launch = (refl, inr (inr (inl refl)))
Edge-known stop = (refl, inr (inr (inr refl)))
Edge-known _ = (refl, inl refl)

pub apply-status :
    (s : Session) (next : SessionStatus) (at : ℕ) (exit_code : Option ℕ) (failure_code : Text)
    → (apply_status s next at exit_code failure_code).status ≡ next
unfolding apply_status
apply-status s next at exit_code failure_code = elim (Bool-cases (terminal next)) [
  | inl over ↦ rw over refl
  | inr going ↦ rw going refl
]

going-not_failed : (next : SessionStatus) → terminal next ≡ false → next ≢ SessionStatus.failed
unfolding terminal
going-not_failed next going failed = ground arith

apply-WellFormed :
    (s : Session) (next : SessionStatus) (at : ℕ) (exit_code : Option ℕ) (failure_code : Text)
    → WellFormed s
    → Edge s.status next
    → Allowed s next at exit_code failure_code
    → WellFormed (apply_status s next at exit_code failure_code)
unfolding apply_status
apply-WellFormed s next at exit_code failure_code w e a =
    let (live, known) = Edge-known e in
    let clean = w.clean live in
    elim (Bool-cases (terminal next)) [
      | inl over ↦ rw over (record {
        known = known;
        ended = rw over;
        ordered = a.1;
        clean = λ h. cc;
        explained = a.2;
      })
      | inr going ↦ rw going (record {
        known = known;
        ended = cc;
        ordered = w.ordered;
        clean = λ h. clean;
        explained = λ failed. absurd (going-not_failed next going failed);
      })
    ]

pub apply-Frozen :
    (s : Session) (next : SessionStatus) (at : ℕ) (exit_code : Option ℕ) (failure_code : Text)
    → Frozen s (apply_status s next at exit_code failure_code)
unfolding apply_status
apply-Frozen s next at exit_code failure_code = elim (Bool-cases (terminal next)) [
  | inl over ↦ rw over (refl, refl, refl, refl, refl, refl, refl, refl, refl, refl, refl)
  | inr going ↦ rw going (refl, refl, refl, refl, refl, refl, refl, refl, refl, refl, refl)
]

-- A transition that succeeds follows an edge at a time not before the start, keeps the session
-- well-formed, and changes nothing but the status and the exit data.
pub transition-WellFormed :
    (s : Session) (next : SessionStatus) (at : ℕ) (exit_code : Option ℕ) (failure_code : Text)
    (s' : Session)
    → WellFormed s
    → transition s next at exit_code failure_code ≡ ok s'
    → Edge s.status next
      × (s'.status ≡ next)
      × Allowed s next at exit_code failure_code
      × WellFormed s'
      × Frozen s s'
transition-WellFormed s next at exit_code failure_code s' w h =
    let (edge, allowed, same) = transition-Allowed s next at exit_code failure_code h in
    let e = check_edge-Edge s.status next edge in
    rw same (
      e,
      apply-status s next at exit_code failure_code,
      allowed,
      apply-WellFormed s next at exit_code failure_code w e allowed,
      apply-Frozen s next at exit_code failure_code,
    )
