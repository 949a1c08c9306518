-- ===== src/Storage/Sessions/Writes.antt =====
-- What each operation on `sessions` does to the table.
use multi_agent_desk.Prelude.{
  some_inj, ℕ, ◌≡◌, refl, sym, ap, ◌∙◌, inl, inr, Bool, true, Option, none, some, Text, text_eq_iff,
  arith,
}
use mathlib.Core.Path.{subst}
use multi_agent_desk.Domain.Errors.{Result, ok, err, bind-ok, result_cases}
use multi_agent_desk.Domain.Session.{SessionStatus, Session, new_session, transition}
use multi_agent_desk.Domain.Session.Lifecycle.{
  Edge, WellFormed, NotBefore, Edge-known, transition-WellFormed,
}
use multi_agent_desk.Domain.Session.Resuming.{new_session-ok, started, started-WellFormed}
use multi_agent_desk.Storage.Driver.{Driver, with_tx-keeps}
use multi_agent_desk.Storage.Table.{put}
use multi_agent_desk.Storage.Links.{Links}
use multi_agent_desk.Storage.Sessions.{
  Sessions, status_eq, with_fake_account, insert_session, create_session, session, updated_row,
  moved, moved_session, write_moved, insert_validated, update_status, transition_session,
}
use multi_agent_desk.Storage.Sessions.Later.{
  Edges, stay, onward, Later, RowsOk, RowOk, Kept, Kept-refl, Kept-trans, put-Kept, LaterRow,
}

pub status_eq_sound : (a b : SessionStatus) → status_eq a b ≡ true → a ≡ b
unfolding status_eq
status_eq_sound (SessionStatus.other a) (SessionStatus.other b) h =
    ap SessionStatus.other ((text_eq_iff a b).0 h)
status_eq_sound a b h = ground arith

insert-put :
    (d : Driver) (links : Links) (s : Session) (t t' : Sessions)
    → insert_session d links s t ≡ ok (tt, t')
    → (t' ≡ put t s.id s) × (t s.id ≡ none)
unfolding insert_session
insert-put d links s t t' h = ground arith

insert-Kept :
    (d : Driver) (links : Links) (t : Sessions) (r : Result Session)
    → RowsOk t
    → ((validated : Session) → r ≡ ok validated → WellFormed validated)
    → Kept t (insert_validated d links t r).1
unfolding insert_validated
insert-Kept d links t (err e) v new = Kept-refl t v
insert-Kept d links t (ok s) v new =
    with_tx-keeps (Kept t) d t (insert_session d links s) (Kept-refl t v) (λ _ t' inserted.
      let (written, absent) = insert-put d links s t t' inserted in
      rw written (put-Kept t s.id s v (refl, new s refl) (λ old e. absurd (ground arith))))

new_session-WellFormed :
    (s validated : Session) → new_session s ≡ ok validated → WellFormed validated
new_session-WellFormed s validated made =
    let (_, _, _, same) = new_session-ok s validated made in
    subst WellFormed (sym same) (started-WellFormed s validated.capability_snapshot)

pub create-Kept :
    (d : Driver) (links : Links) (t : Sessions) (s : Session)
    → RowsOk t
    → Kept t (create_session d links t s).1
unfolding create_session
create-Kept d links t s v =
    insert-Kept d links t (new_session (with_fake_account s)) v
      (λ validated made. new_session-WellFormed (with_fake_account s) validated made)

-- The row that a transition writes over a later row of the same status.
transit-Later :
    (s0 s row : Session)
    → WellFormed s
    → Edge s0.status s.status
    → (s.started_at ≡ s0.started_at)
    → Later s0 row
    → WellFormed row
    → row.status ≡ s0.status
    → let row' = moved row s in WellFormed row' × Later row row'
transit-Later s0 s row w edge started later wr same =
    let (live, _) = Edge-known edge in
    (
      record {
        known = w.known;
        ended = w.ended;
        ordered = subst (λ x. NotBefore x s.ended_at) (started ∙ sym later.started_at) w.ordered;
        clean = w.clean;
        explained = w.explained;
      },
      record {
        statuses = subst (λ x. Edges x s.status) (sym same) (onward edge stay);
        id = refl;
        device_id = refl;
        account_id = refl;
        provider = refl;
        credential_instance_id = refl;
        runtime_profile_id = refl;
        workspace_id = refl;
        resumed_from_session_id = refl;
        started_at = refl;
        capability_snapshot = refl;
        identity = inl refl;
        over = λ h. absurd (ground arith);
      },
    )

updated_row-ok :
    (row s : Session) (expected : SessionStatus) (row' : Session)
    → updated_row (some row) s expected ≡ ok row'
    → (row.status ≡ expected) × (row' ≡ moved row s)
unfolding updated_row
updated_row-ok row s expected row' h = ground (arith, status_eq_sound row.status expected)

updated-Later :
    (k : Text) (o : Option Session) (s0 s : Session) (expected : SessionStatus) (row' : Session)
    → WellFormed s
    → Edge s0.status s.status
    → (s.started_at ≡ s0.started_at)
    → s0.status ≡ expected
    → LaterRow s0 o
    → RowOk k o
    → updated_row o s expected ≡ ok row'
    → ((row'.id ≡ k) × WellFormed row') × ((row : Session) → o ≡ some row → Later row row')
updated-Later k none s0 s expected row' w edge started same later v h = absurd later
updated-Later k (some row) s0 s expected row' w edge started same later v h =
    let (status, written) = updated_row-ok row s expected row' h in
    let (sound, after) = transit-Later s0 s row w edge started later v.1 (status ∙ sym same) in
    rw written ((v.0, sound), λ old e. subst (λ x. Later x (moved row s)) (some_inj e) after)

update-put :
    (d : Driver) (s : Session) (expected : SessionStatus) (t : Sessions) (a : Session)
    (t' : Sessions)
    → update_status d s expected t ≡ ok (a, t')
    → (row : Session) × (updated_row (t s.id) s expected ≡ ok row) × (t' ≡ put t s.id row)
unfolding update_status
update-put d s expected t a t' h = elim (result_cases (updated_row (t s.id) s expected)) [
  | inl (e, refused) ↦ absurd (ground arith)
  | inr (row, found') ↦ (row, found', ground arith)
]

-- What is known of the session that a transition computes.
record Moved (t : Sessions) (id : Text) (expected : SessionStatus) (s : Session) : Type 0 where
  before : Session
  stored : t id ≡ some before
  same : before.status ≡ expected
  at_id : s.id ≡ id
  sound : WellFormed s
  edge : Edge before.status s.status
  started : s.started_at ≡ before.started_at

session-ok :
    (reads : Bool) (t : Sessions) (id : Text) (s : Session)
    → session reads t id ≡ ok s
    → t id ≡ some s
unfolding session
session-ok reads t id s h = ground arith

RowOk-some :
    (k : Text) (o : Option Session) (row : Session)
    → RowOk k o
    → o ≡ some row
    → (row.id ≡ k) × WellFormed row
RowOk-some k o row v e = subst (RowOk k) e v

moved_session-Moved :
    (reads : Bool) (t : Sessions) (id : Text) (expected next : SessionStatus) (at : ℕ)
    (exit_code : Option ℕ) (failure_code : Text) (s : Session)
    → RowsOk t
    → moved_session reads t id expected next at exit_code failure_code ≡ ok s
    → Moved t id expected s
unfolding moved_session
moved_session-Moved reads t id expected next at exit_code failure_code s v h =
    let read = bind-ok (session reads t id) _ h in
    let s0 = read.value in
    let stored = session-ok reads t id s0 read.first in
    let same : status_eq s0.status expected ≡ true = let rest = read.rest in ground arith in
    let made : transition s0 next at exit_code failure_code ≡ ok s =
      let rest = read.rest in ground arith in
    let (keyed, w0) = RowOk-some id (t id) s0 (v.at id) stored in
    let (edge, status, _, w, frozen) =
      transition-WellFormed s0 next at exit_code failure_code s w0 made in
    record {
      before = s0;
      stored = stored;
      same = status_eq_sound s0.status expected same;
      at_id = frozen.0 ∙ keyed;
      sound = w;
      edge = subst (λ x. Edge s0.status x) (sym status) edge;
      started = frozen.9;
    }

write-Kept :
    (d : Driver) (t t' : Sessions) (id : Text) (expected : SessionStatus) (r : Result Session)
    → RowsOk t
    → Kept t t'
    → ((s : Session) → r ≡ ok s → Moved t id expected s)
    → Kept t (write_moved d t t' expected r).1
unfolding write_moved
write-Kept d t t' id expected (err e) v kept known = Kept-refl t v
write-Kept d t t' id expected (ok s) v kept known =
    let m = known s refl in
    let s0 = m.before in
    with_tx-keeps (Kept t) d t' (update_status d s expected) kept (λ a t'' written.
      let (row', updated, put') = update-put d s expected t' a t'' written in
      let here = subst (λ k. updated_row (t' k) s expected ≡ ok row') m.at_id updated in
      let (row_ok, later) =
        updated-Later id (t' id) s0 s expected row' m.sound m.edge m.started m.same
          (kept.later id s0 m.stored) (kept.rows.at id) here in
      rw (put' ∙ ap (λ k. put t' k row') m.at_id)
        (Kept-trans t t' (put t' id row') kept (put-Kept t' id row' kept.rows row_ok later)))

pub transit-Kept :
    (d : Driver) (reads : Bool) (others : Sessions → Sessions) (t : Sessions) (id : Text)
    (expected next : SessionStatus) (at : ℕ) (exit_code : Option ℕ) (failure_code : Text)
    → RowsOk t
    → Kept t (others t)
    → Kept t (transition_session d reads others t id expected next at exit_code failure_code).1
unfolding transition_session
transit-Kept d reads others t id expected next at exit_code failure_code v kept =
    write-Kept d t (others t) id expected _ v kept
      (λ s h. moved_session-Moved reads t id expected next at exit_code failure_code s v h)
