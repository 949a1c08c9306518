-- ===== src/Domain/Session/Moving.antt =====
-- What a transition of a session does, field by field.
use multi_agent_desk.Prelude.{ℕ, ◌≡◌, refl, ap, Option, some, Text, arith, ◌∙◌, ◌↔◌}
use multi_agent_desk.Domain.Errors.{ok}
use multi_agent_desk.Domain.Session.{SessionStatus, Session, terminal, apply_status, transition}
use multi_agent_desk.Domain.Session.Lifecycle.{
  Edge, launch, Frozen, Allowed, check_edge-Edge, Edge-check_edge, transition-Allowed, apply-status,
  apply-Frozen,
}

-- The exit data after a step to a status: untouched on the way to running and to stopping, and the
-- end, the exit code and the failure code that are given at an end.
abbrev pub ExitData : SessionStatus → Session → ℕ → Option ℕ → Text → Session → Type 0
ExitData SessionStatus.running s at exit_code failure_code s' =
    (s'.ended_at ≡ s.ended_at) × (s'.exit_code ≡ s.exit_code) × (s'.failure_code ≡ s.failure_code)
ExitData SessionStatus.stopping s at exit_code failure_code s' =
    (s'.ended_at ≡ s.ended_at) × (s'.exit_code ≡ s.exit_code) × (s'.failure_code ≡ s.failure_code)
ExitData _ s at exit_code failure_code s' =
    (s'.ended_at ≡ some at) × (s'.exit_code ≡ exit_code) × (s'.failure_code ≡ failure_code)

-- Each field of a session after a step of its life.
abbrev pub Moved : Session → SessionStatus → ℕ → Option ℕ → Text → Session → Type 0
Moved s next at exit_code failure_code s' =
    (s'.status ≡ next) × ExitData next s at exit_code failure_code s' × Frozen s s'

apply-ExitData :
    (s : Session) {status next : SessionStatus} (at : ℕ) (exit_code : Option ℕ)
    (failure_code : Text)
    → Edge status next
    → ExitData next s at exit_code failure_code (apply_status s next at exit_code failure_code)
unfolding apply_status terminal
apply-ExitData s at exit_code failure_code launch = (refl, refl, refl)
apply-ExitData s at exit_code failure_code _ = (refl, refl, refl)

-- What a session ended with.
abbrev exit_data : Session → Option ℕ × Option ℕ × Text
exit_data s = (s.ended_at, s.exit_code, s.failure_code)

ExitData-unique :
    (s : Session) (next : SessionStatus) (at : ℕ) (exit_code : Option ℕ) (failure_code : Text)
    (a b : Session)
    → ExitData next s at exit_code failure_code a
    → ExitData next s at exit_code failure_code b
    → exit_data a ≡ exit_data b
ExitData-unique s SessionStatus.running at exit_code failure_code a b m n = cc
ExitData-unique s SessionStatus.stopping at exit_code failure_code a b m n = cc
ExitData-unique s _ at exit_code failure_code a b m n = cc

-- The fields that a step leaves determine the session.
Moved-unique :
    (s : Session) (next : SessionStatus) (at : ℕ) (exit_code : Option ℕ) (failure_code : Text)
    (a b : Session)
    → Moved s next at exit_code failure_code a
    → Moved s next at exit_code failure_code b
    → a ≡ b
Moved-unique s next at exit_code failure_code a b (status, ended, frozen)
      (status', ended', frozen') =
    let same = ExitData-unique s next at exit_code failure_code a b ended ended' in cc

Edge-transition :
    (s : Session) (next : SessionStatus) (at : ℕ) (exit_code : Option ℕ) (failure_code : Text)
    → Edge s.status next
    → Allowed s next at exit_code failure_code
    → transition s next at exit_code failure_code
      ≡ ok (apply_status s next at exit_code failure_code)
unfolding transition
Edge-transition s next at exit_code failure_code e a =
    rw (Edge-check_edge s.status next e) (ground arith)

-- A transition succeeds with a session exactly if it follows an edge of the life cycle, at a time
-- and with exit data that are allowed, and each field of the session is what that step leaves.
pub transition_iff :
    (s : Session) (next : SessionStatus) (at : ℕ) (exit_code : Option ℕ) (failure_code : Text)
    (s' : Session)
    → (transition s next at exit_code failure_code ≡ ok s') ↔ (
        Edge s.status next
        × Allowed s next at exit_code failure_code
        × Moved s next at exit_code failure_code s')
transition_iff s next at exit_code failure_code s' =
    let after : Edge s.status next
        → Moved s next at exit_code failure_code (apply_status s next at exit_code failure_code) =
      λ e. (
        apply-status s next at exit_code failure_code,
        apply-ExitData s at exit_code failure_code e,
        apply-Frozen s next at exit_code failure_code,
      ) in
    (
      (λ h.
          let (edge, allowed, same) = transition-Allowed s next at exit_code failure_code h in
          let e = check_edge-Edge s.status next edge in (e, allowed, rw same (after e))),
      λ (e, allowed, moved).
          Edge-transition s next at exit_code failure_code e allowed
          ∙ ap ok (Moved-unique s next at exit_code failure_code _ s' (after e) moved),
    )
