-- ===== src/Storage/Previews/Spending.antt =====
-- What one consumption of a preview does, and that a consumed one stays so.
use multi_agent_desk.Prelude.{
  ◌≡◌, ◌∙◌, refl, sym, ap, inl, inr, Bool, true, false, Bool-cases, Option-cases, Option, none,
  some, arith, Text, text_eq, text_eq_iff,
}
use mathlib.Core.Path.{subst}
use multi_agent_desk.Domain.Errors.{Result, ok, err}
use multi_agent_desk.Domain.Session.{Session}
use multi_agent_desk.Storage.Driver.{Driver, with_tx, with_tx-keeps, with_tx-ok}
use multi_agent_desk.Storage.Table.{put, put_self}
use multi_agent_desk.Storage.Previews.{Consumed, Preview, ConsumeRequest, Seen, PreviewRows}
use multi_agent_desk.Storage.Previews.Consuming.{
  reserved, reserve_session, consume_preview, owned_preview, consume_stored, read_session,
  consume_checked,
}

abbrev pub by_request : Text → Option Consumed → Bool
by_request digest none = false
by_request digest (some done) = text_eq done.request_digest digest

-- The preview is gone, or consumed by the request.
abbrev pub spent : Text → Option Preview → Bool
spent digest none = true
spent digest (some p) = by_request digest p.consumed

abbrev pub Spent : Text → Text → PreviewRows → Type 0
Spent digest id r = spent digest (r.previews id) ≡ true

record Reserves (q : ConsumeRequest) (s : Session) (p : Preview) (r r' : PreviewRows) : Type 0 where
  pub written : r' ≡ record {
    previews = put r.previews q.preview_id (record p {
      consumed = some (record { at = q.at; request_digest = q.request_digest; session_id = s.id });
    });
    sessions = put r.sessions s.id (reserved s);
  }

reserve_session-Reserves :
    (q : ConsumeRequest) (s : Session) (p : Preview) (r r' : PreviewRows) (sid : Text)
    → reserve_session q s p r ≡ ok (sid, r')
    → Reserves q s p r r'
unfolding reserve_session
reserve_session-Reserves q s p r r' sid h = record { written = ground arith }

fresh-Reserves :
    (t : Seen) (q : ConsumeRequest) (s : Session) (p : Preview) (r r' : PreviewRows) (sid : Text)
    → consume_preview t q s p none r ≡ ok (sid, r')
    → Reserves q s p r r'
unfolding consume_preview
fresh-Reserves t q s p r r' sid h = reserve_session-Reserves q s p r r' sid (ground arith)

by_request-consume_preview :
    (t : Seen) (q : ConsumeRequest) (s : Session) (p : Preview) (o : Option Consumed)
    (r r' : PreviewRows) (sid digest : Text)
    → by_request digest o ≡ true
    → consume_preview t q s p o r ≡ ok (sid, r')
    → (r ≡ r') × (digest ≡ q.request_digest)
unfolding consume_preview
by_request-consume_preview t q s p none r r' sid digest used h = absurd (ground arith)
by_request-consume_preview t q s p (some done) r r' sid digest used h = (
  ground arith,
  ground (
    arith,
    text_eq_iff done.request_digest digest,
    text_eq_iff done.request_digest q.request_digest,
  ),
)

stored_preview :
    (d : Driver) (t : Seen) (q : ConsumeRequest) (s : Session) (r r' : PreviewRows) (sid : Text)
    → consume_stored d t q s r ≡ ok (sid, r')
    → (p : Preview) × (r.previews q.preview_id ≡ some p)
      × (consume_preview t q s p p.consumed r ≡ ok (sid, r'))
unfolding consume_stored owned_preview
stored_preview d t q s r r' sid h = elim (Option-cases (r.previews q.preview_id)) [
  | inl missing ↦ absurd (ground (arith, missing))
  | inr (p, there) ↦ (p, there, ground (arith, there))
]

pub consume_stored-unchanged :
    (d : Driver) (t : Seen) (q : ConsumeRequest) (s : Session) (r r' : PreviewRows)
    (sid digest : Text)
    → Spent digest q.preview_id r
    → consume_stored d t q s r ≡ ok (sid, r')
    → (r ≡ r') × (digest ≡ q.request_digest)
consume_stored-unchanged d t q s r r' sid digest used h =
    let (p, there, consumed) = stored_preview d t q s r r' sid h in
    by_request-consume_preview t q s p p.consumed r r' sid digest
      (ap (spent digest) (sym there) ∙ used) consumed

replayed_digest :
    (t : Seen) (q : ConsumeRequest) (s : Session) (p : Preview) (done : Consumed)
    (r r' : PreviewRows) (sid : Text)
    → consume_preview t q s p (some done) r ≡ ok (sid, r')
    → (r ≡ r') × (text_eq done.request_digest q.request_digest ≡ true)
unfolding consume_preview
replayed_digest t q s p done r r' sid h = (ground arith, ground arith)

pub consume_stored-Spent :
    (d : Driver) (t : Seen) (q : ConsumeRequest) (s : Session) (r r' : PreviewRows) (sid : Text)
    → consume_stored d t q s r ≡ ok (sid, r')
    → Spent q.request_digest q.preview_id r'
consume_stored-Spent d t q s r r' sid h =
    let (p, there, consumed) = stored_preview d t q s r r' sid h in
    elim (Option-cases p.consumed) [
      | inl new ↦
          let w =
            fresh-Reserves t q s p r r' sid
              (ap (λ o. consume_preview t q s p o r) (sym new) ∙ consumed) in
          ap (λ x. spent q.request_digest (x.previews q.preview_id)) w.written
          ∙ ap (spent q.request_digest) (
              put_self r.previews q.preview_id (record p {
                consumed =
                    some
                      (record { at = q.at; request_digest = q.request_digest; session_id = s.id });
              }))
          ∙ (text_eq_iff q.request_digest q.request_digest).1 refl
      | inr (done, used) ↦
          let replay =
            replayed_digest t q s p done r r' sid
              (ap (λ o. consume_preview t q s p o r) (sym used) ∙ consumed) in
          ap (λ x. spent q.request_digest (x.previews q.preview_id)) (sym replay.0)
          ∙ ap (spent q.request_digest) there
          ∙ ap (by_request q.request_digest) used
          ∙ replay.1
    ]

pub consume_stored-keeps :
    (d : Driver) (t : Seen) (q : ConsumeRequest) (s : Session) (r r' : PreviewRows)
    (sid digest id : Text)
    → Spent digest id r
    → consume_stored d t q s r ≡ ok (sid, r')
    → Spent digest id r'
unfolding put
consume_stored-keeps d t q s r r' sid digest id used h =
    elim (Bool-cases (text_eq q.preview_id id)) [
      | inl same ↦
          let here = (text_eq_iff q.preview_id id).0 same in
          subst (Spent digest id)
            (consume_stored-unchanged d t q s r r' sid digest
              (subst (λ k. Spent digest k r) (sym here) used) h).0
            used
      | inr other ↦
          let (p, there, consumed) = stored_preview d t q s r r' sid h in
          elim (Option-cases p.consumed) [
            | inl new ↦
                let w =
                  fresh-Reserves t q s p r r' sid
                    (ap (λ o. consume_preview t q s p o r) (sym new) ∙ consumed) in
                ap (λ x. spent digest (x.previews id)) w.written ∙ rw (put, other) used
            | inr (done, replay) ↦
                subst (Spent digest id)
                  (replayed_digest t q s p done r r' sid
                    (ap (λ o. consume_preview t q s p o r) (sym replay) ∙ consumed)).0
                  used
          ]
    ]

read_session-rows : (reads : Bool) (x : Result Text × PreviewRows) → (read_session reads x).1 ≡ x.1
read_session-rows reads (err e, r) = refl
read_session-rows reads (ok id, r) = refl

read_session-done :
    (reads : Bool) (x : Result Text × PreviewRows) (row : Session)
    → (read_session reads x).0 ≡ ok row
    → (sid : Text) × (x.0 ≡ ok sid)
read_session-done reads (err e, r) row h = absurd (ground arith)
read_session-done reads (ok id, r) row h = (id, refl)

-- A call that succeeds has run its transaction on a session.
pub consumed_stored :
    (d : Driver) (t : Seen) (reads : Bool) (q : ConsumeRequest) (checked : Result Session)
    (r : PreviewRows) (row : Session)
    → (consume_checked d t reads q checked r).0 ≡ ok row
    → (s : Session) × (sid : Text) × (consume_stored d t q s r
        ≡ ok (sid, (consume_checked d t reads q checked r).1))
consumed_stored d t reads q (err e) r row h = absurd (ground arith)
consumed_stored d t reads q (ok s) r row h =
    let tx = with_tx d r (consume_stored d t q s) in
    let (sid, done) = read_session-done reads tx row h in
    (
      s,
      sid,
      with_tx-ok d r (consume_stored d t q s) done
          ∙ ap (λ x. ok (sid, x)) (sym (read_session-rows reads tx)),
    )

pub checked-keeps {κ} :
    (P : PreviewRows → Type κ) (d : Driver) (t : Seen) (reads : Bool) (q : ConsumeRequest)
    (checked : Result Session) (r : PreviewRows)
    → P r
    → ((s : Session) (sid : Text) (r' : PreviewRows)
        → consume_stored d t q s r ≡ ok (sid, r')
        → P r')
    → P (consume_checked d t reads q checked r).1
checked-keeps P d t reads q (err e) r before after = before
checked-keeps P d t reads q (ok s) r before after =
    subst P (sym (read_session-rows reads (with_tx d r (consume_stored d t q s))))
      (with_tx-keeps P d r (consume_stored d t q s) before (λ sid r' h. after s sid r' h))
