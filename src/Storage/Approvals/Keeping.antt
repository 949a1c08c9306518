-- ===== src/Storage/Approvals/Keeping.antt =====
-- Every operation on approvals keeps the decisions that are made.
use multi_agent_desk.Prelude.{
  ℕ, Bool, true, false, not, ◌&&◌, ◌||◌, ◌≡◌, ◌∙◌, refl, ap, inl, inr, Bool-cases, Option, none,
  some, if◌then◌else◌, is_some, ◌==◌, ltb, length, Text, text_eq, arith,
}
use mathlib.Core.Path.{subst}
use multi_agent_desk.Domain.Errors.{Code, Result, ok, err, bind-ok, result_cases, ◌>>◌, refuse_if}
use multi_agent_desk.Domain.Id.{validate_id}
use multi_agent_desk.Domain.Session.{is_empty}
use multi_agent_desk.Storage.Driver.{Driver, with_tx-keeps}
use multi_agent_desk.Storage.Table.{put}
use multi_agent_desk.Storage.Approvals.{
  Approval, Approvals, Decision, is_idle, is_pending, is_dispatching, column_eq, approval,
}
use multi_agent_desk.Storage.Approvals.Creating.{
  create_approval, insert_approval, validate_approval,
}
use multi_agent_desk.Storage.Approvals.Finishing.{
  in_flight, update_in_flight, completed, complete_decided, complete_seen,
  complete_approval_dispatch, failed, fail_seen, is_written, is_ambiguous, fail_approval_dispatch,
}
use multi_agent_desk.Storage.Approvals.Recovery.{expire_row, expire_pending_approvals}
use multi_agent_desk.Storage.Approvals.Decided.{Made, Keeps, Keeps-refl, Keeps-trans, put-Keeps}

update-Keeps :
    (d : Driver) (reads : Bool) (id digest : Text) (f : Approval → Approval) (t : Approvals)
    → ((decision : Decision) (old : Approval) → Made decision old → Made decision (f old))
    → Keeps t (update_in_flight d reads id digest f t).1
unfolding update_in_flight in_flight
update-Keeps d reads id digest f t keeps =
    elim (result_cases (refuse_if (not d.runs) Code.conflict >> in_flight (t id) digest f)) [
      | inl (e, refused) ↦ rw (update_in_flight, refused) (Keeps-refl t)
      | inr (row, found) ↦
          rw (update_in_flight, found)
            (put-Keeps t id row (λ decision old there made.
              subst (Made decision)
                (flown old row
                  (bind-ok (refuse_if (not d.runs) Code.conflict) (λ _. in_flight (t id) digest f)
                    found).rest
                  there)
                (keeps decision old made)))
    ]
  where
    flown :
        (old row : Approval) → in_flight (t id) digest f ≡ ok row → t id ≡ some old → f old ≡ row
    flown old row h there = let h' = rw (in_flight, there) at h in ground arith

expire_row-Made :
    (owner : Option Text) (digest : Text) (at : ℕ) (decision : Decision) (old : Approval)
    → Made decision old
    → (row : Approval) × (expire_row owner digest at (some old) ≡ some row) × Made decision row
unfolding expire_row
expire_row-Made owner digest at decision old made =
    elim (Bool-cases (
      is_pending old.status && (is_idle old.response_state || is_dispatching old.response_state))) [
        | inl taken ↦ rw taken (_, refl, record { taken = refl; decided = rw made.decided refl })
        | inr closed ↦ rw closed (old, refl, made)
      ]

pub expire-Keeps :
    (runs : Bool) (owner : Option Text) (random : Text → Text) (at : ℕ) (t : Approvals)
    → Keeps t (expire_pending_approvals runs owner random at t).1
unfolding expire_pending_approvals Keeps
expire-Keeps runs owner random at t decision id h =
    elim (result_cases
      (refuse_if (at == 0) Code.invalid_argument >> refuse_if (not runs) Code.conflict)) [
        | inl (e, refused) ↦ rw (expire_pending_approvals, refused) h
        | inr (_, done) ↦
            let (row, stored, made) = expire_row-Made owner (random id) at decision h.row h.made in
            rw (expire_pending_approvals, done)
              (record {
                row = row;
                stored = ap (expire_row owner (random id) at) h.stored ∙ stored;
                made = made;
              })
      ]

pub create-Keeps :
    (d : Driver) (session_provider : Text → Option Text) (a : Approval) (t : Approvals)
    → Keeps t (create_approval d session_provider a t).1
unfolding create_approval insert_approval
create-Keeps d session_provider a t = elim (result_cases (validate_approval a)) [
  | inl (e, refused) ↦ rw (create_approval, refused) (Keeps-refl t)
  | inr (_, valid) ↦
      rw (create_approval, valid)
        (with_tx-keeps (Keeps t) d t (insert_approval d session_provider a) (Keeps-refl t)
          (λ done u wrote. inserted u done wrote))
]
  where
    inserted :
        (u : Approvals) (done : Unit {0})
        → insert_approval d session_provider a t ≡ ok (done, u)
        → Keeps t u
    inserted u done wrote =
        let fresh : is_some (t a.id) ≡ false = ground arith in
        let written : put t a.id a ≡ u = ground arith in
        subst (Keeps t) written
          (put-Keeps t a.id a (λ decision old there made. absurd (ground arith)))

completed-Made :
    (at : ℕ) (by decision : Decision) (old : Approval)
    → Made decision old
    → Made decision (completed at by old)
unfolding completed
completed-Made at by decision old made = record { taken = refl; decided = made.decided }

failed-Made :
    (at : ℕ) (code : Text) (decision : Decision) (old : Approval)
    → Made decision old
    → Made decision (failed at code old)
unfolding failed
failed-Made at code decision old made = record { taken = refl; decided = made.decided }

either :
    (t : Approvals) (b : Bool) (x y : Result Approval × Approvals)
    → Keeps t x.1
    → Keeps t y.1
    → Keeps t (if b then x else y).1
either t true x y kx ky = kx
either t false x y kx ky = ky

pub complete-Keeps :
    (d : Driver) (reads : Bool) (others : Approvals → Approvals) (id digest : Text) (at : ℕ)
    (t : Approvals)
    → Keeps t (others t)
    → Keeps t (complete_approval_dispatch d reads others id digest at t).1
unfolding complete_approval_dispatch complete_seen complete_decided
complete-Keeps d reads others id digest at t fair = seen (do
  validate_id id
  refuse_if (not (length digest == 64) || at == 0) Code.invalid_argument
  approval reads t id)
  where
    decided : (o : Option Decision) → Keeps t (complete_decided d reads id digest at o (others t)).1
    decided none = fair
    decided (some by) =
        Keeps-trans t (others t) (update_in_flight d reads id digest (completed at by) (others t)).1
          fair (update-Keeps d reads id digest (completed at by) (others t) (completed-Made at by))

    seen : (r : Result Approval) → Keeps t (complete_seen d reads others id digest at r t).1
    seen (err e) = Keeps-refl t
    seen (ok row) =
        either t (not (column_eq row.dispatch_digest digest)) (err Code.conflict, t) _
          (Keeps-refl t)
          (either t (is_written row.response_state) (ok row, t) _ (Keeps-refl t)
            (either t (is_dispatching row.response_state)
              (complete_decided d reads id digest at row.requested_decision (others t))
              (err Code.conflict, t) (decided row.requested_decision) (Keeps-refl t)))

pub fail-Keeps :
    (d : Driver) (reads : Bool) (others : Approvals → Approvals) (id digest code : Text) (at : ℕ)
    (t : Approvals)
    → Keeps t (others t)
    → Keeps t (fail_approval_dispatch d reads others id digest code at t).1
unfolding fail_approval_dispatch fail_seen
fail-Keeps d reads others id digest code at t fair = seen (do
  validate_id id
  refuse_if (not (length digest == 64) || is_empty code || ltb 64 (length code) || at == 0)
      Code.invalid_argument
  approval reads t id)
  where
    update : Keeps t (update_in_flight d reads id digest (failed at code) (others t)).1
    update =
        Keeps-trans t (others t) (update_in_flight d reads id digest (failed at code) (others t)).1
          fair (update-Keeps d reads id digest (failed at code) (others t) (failed-Made at code))

    seen : (r : Result Approval) → Keeps t (fail_seen d reads others id digest code at r t).1
    seen (err e) = Keeps-refl t
    seen (ok row) =
        either t (not (column_eq row.dispatch_digest digest)) (err Code.conflict, t) _
          (Keeps-refl t)
          (either t (is_ambiguous row.response_state && text_eq row.dispatch_error_code code)
            (ok row, t) _ (Keeps-refl t)
            (either t (is_dispatching row.response_state)
              (update_in_flight d reads id digest (failed at code) (others t))
              (err Code.conflict, t) update (Keeps-refl t)))
