-- ===== src/Storage/Previews/SingleUse.antt =====
-- A preview starts one session at most.
use multi_agent_desk.Prelude.{
  ℕ, ◌-◌, ◌≡◌, refl, sym, inl, inr, ◌⊎◌, Bool, true, false, not, ◌||◌, Bool-cases, Option, none,
  some, List, [], ◌∷◌, All, is_some, ◌==◌, arith, Text, text_eq,
}
use mathlib.Core.Path.{subst}
use multi_agent_desk.Domain.Errors.{Code, ok, err, result_cases, ◌>>◌, refuse_if}
use multi_agent_desk.Domain.Session.{Session, new_session}
use multi_agent_desk.Storage.Driver.{Driver, with_tx-keeps}
use multi_agent_desk.Storage.Table.{put}
use multi_agent_desk.Storage.Sessions.{Sessions}
use multi_agent_desk.Storage.Previews.{
  Preview, ConsumeRequest, Seen, PreviewRows, insert_preview, create_session_start_preview,
  valid_session_start_preview,
}
use multi_agent_desk.Storage.Previews.Consuming.{
  check_request, consume_checked, consume_session_start_preview,
}
use multi_agent_desk.Storage.Previews.Deleting.{
  is_outdated, kept, retention, delete_expired_previews,
}
use multi_agent_desk.Storage.Previews.Spending.{
  spent, Spent, consume_stored-unchanged, consume_stored-Spent, consume_stored-keeps,
  consumed_stored, checked-keeps,
}

create-Spent :
    (d : Driver) (t : Seen) (p : Preview) (r : PreviewRows) (digest id : Text)
    → text_eq p.id id ≡ false
    → Spent digest id r
    → Spent digest id (create_session_start_preview d t p r).1
unfolding create_session_start_preview insert_preview put
create-Spent d t p r digest id other used =
    elim (Bool-cases (not (valid_session_start_preview p) || is_some p.consumed)) [
      | inl invalid ↦ rw (create_session_start_preview, invalid) used
      | inr valid ↦
          rw (create_session_start_preview, valid)
            (with_tx-keeps (Spent digest id) d r (insert_preview d t p) used
              (λ done r' h. subst (Spent digest id) (inserted r' done h) (rw (put, other) used)))
    ]
  where
    inserted :
        (r' : PreviewRows) (done : Unit {0})
        → insert_preview d t p r ≡ ok (done, r')
        → record r { previews = put r.previews p.id p } ≡ r'
    inserted r' done h = ground arith

spent-kept :
    (format_time : ℕ → Text) (cutoff : ℕ) (o : Option Preview) (digest : Text)
    → spent digest o ≡ true
    → spent digest (kept format_time cutoff o) ≡ true
unfolding kept
spent-kept format_time cutoff none digest used = used
spent-kept format_time cutoff (some p) digest used =
    elim (Bool-cases (is_outdated format_time cutoff p)) [
      | inl old ↦ rw old refl
      | inr recent ↦ rw recent used
    ]

delete-Spent :
    (runs : Bool) (format_time : ℕ → Text) (before : ℕ) (r : PreviewRows) (digest id : Text)
    → Spent digest id r
    → Spent digest id (delete_expired_previews runs format_time before r).1
unfolding delete_expired_previews
delete-Spent runs format_time before r digest id used =
    elim (result_cases
      (refuse_if (before == 0) Code.invalid_argument >> refuse_if (not runs) Code.conflict)) [
        | inl (e, refused) ↦ rw (delete_expired_previews, refused) used
        | inr (_, done) ↦
            rw (delete_expired_previews, done)
              (spent-kept format_time (before - retention) (r.previews id) digest used)
      ]

-- The calls on previews, and whatever else changes the sessions.
pub data Call : Type 0 where
  creates : Driver → Seen → Preview → Call
  consumes : Driver → Seen → Bool → ConsumeRequest → Call
  deletes : Bool → (ℕ → Text) → ℕ → Call
  changes : (Sessions → Sessions) → Call

unfoldable pub step : Call → PreviewRows → PreviewRows
step (Call.creates d t p) r = (create_session_start_preview d t p r).1
step (Call.consumes d t reads q) r = (consume_session_start_preview d t reads q r).1
step (Call.deletes runs format_time before) r =
    (delete_expired_previews runs format_time before r).1
step (Call.changes f) r = record r { sessions = f r.sessions }

unfoldable pub run : List Call → PreviewRows → PreviewRows
run [] r = r
run (call ∷ calls) r = run calls (step call r)

-- A call creates no preview of this id.
abbrev pub Other : Text → Call → Type 0
Other id (Call.creates d t p) = text_eq p.id id ≡ false
Other id _ = Unit

step-Spent :
    (call : Call) (r : PreviewRows) (digest id : Text)
    → Other id call
    → Spent digest id r
    → Spent digest id (step call r)
unfolding step consume_session_start_preview
step-Spent (Call.creates d t p) r digest id other used = create-Spent d t p r digest id other used
step-Spent (Call.consumes d t reads q) r digest id other used =
    checked-keeps (Spent digest id) d t reads q (check_request q >> new_session q.session) r used
      (λ s sid r' h. consume_stored-keeps d t q s r r' sid digest id used h)
step-Spent (Call.deletes runs format_time before) r digest id other used =
    delete-Spent runs format_time before r digest id used
step-Spent (Call.changes f) r digest id other used = used

run-Spent :
    (calls : List Call) (r : PreviewRows) (digest id : Text)
    → All (Other id) calls
    → Spent digest id r
    → Spent digest id (run calls r)
unfolding run
run-Spent [] r digest id other used = used
run-Spent (call ∷ calls) r digest id other used =
    run-Spent calls (step call r) digest id other.1 (step-Spent call r digest id other.0 used)

-- Once a preview is consumed with success, a later consumption of it changes nothing, so that no
-- second session starts from it, and it is of the same request or refused, after any calls that
-- create, consume and delete previews, but create none of this id, and any changes of sessions.
pub single_use :
    (d : Driver) (t : Seen) (reads : Bool) (q : ConsumeRequest) (r : PreviewRows) (row : Session)
    (calls : List Call) (d' : Driver) (t' : Seen) (reads' : Bool) (q' : ConsumeRequest)
    → (consume_session_start_preview d t reads q r).0 ≡ ok row
    → All (Other q.preview_id) calls
    → q'.preview_id ≡ q.preview_id
    → let later = run calls (consume_session_start_preview d t reads q r).1 in
      ((consume_session_start_preview d' t' reads' q' later).1 ≡ later)
      × ((q'.request_digest ≡ q.request_digest)
          ⊎ ((e : Code) × ((consume_session_start_preview d' t' reads' q' later).0 ≡ err e)))
unfolding consume_session_start_preview
single_use d t reads q r row calls d' t' reads' q' h other same =
    let checked = check_request q >> new_session q.session in
    let checked' = check_request q' >> new_session q'.session in
    let (s, sid, done) = consumed_stored d t reads q checked r row h in
    let after = (consume_checked d t reads q checked r).1 in
    let later = run calls after in
    let used : Spent q.request_digest q'.preview_id later =
      subst (λ id. Spent q.request_digest id later) (sym same)
        (run-Spent calls after q.request_digest q.preview_id other
          (consume_stored-Spent d t q s r after sid done)) in
    (
      checked-keeps (λ x. x ≡ later) d' t' reads' q' checked' later refl
          (λ s' sid' x h'.
            sym (consume_stored-unchanged d' t' q' s' later x sid' q.request_digest used h').0),
      elim (result_cases (consume_checked d' t' reads' q' checked' later).0) [
        | inl (e, refused) ↦ inr (e, refused)
        | inr (row', done') ↦
            let (s', sid', ran) = consumed_stored d' t' reads' q' checked' later row' done' in
            inl (
              sym
                (consume_stored-unchanged d' t' q' s' later
                  (consume_checked d' t' reads' q' checked' later).1 sid' q.request_digest used
                  ran).1)
      ],
    )
