-- ===== src/Storage/Sessions/Identity.antt =====
-- What `SetSessionProviderSessionID` does to the table.
use multi_agent_desk.Prelude.{
  some_inj, ◌≡◌, refl, sym, ap, ◌∙◌, inl, inr, Bool, true, Option, none, some, [], Text, arith,
}
use mathlib.Core.Path.{subst}
use multi_agent_desk.Domain.Errors.{Result, ok, err, result_cases}
use multi_agent_desk.Domain.Session.{SessionStatus, Session, terminal, is_starting}
use multi_agent_desk.Domain.Session.Lifecycle.{empty-nil}
use multi_agent_desk.Storage.Driver.{Driver}
use multi_agent_desk.Storage.Table.{put}
use multi_agent_desk.Storage.Sessions.{
  Sessions, identified_row, update_identity, read_back, set_session_provider_session_id,
}
use multi_agent_desk.Storage.Sessions.Later.{stay, Later, RowsOk, RowOk, Kept, Kept-refl, put-Kept}
use multi_agent_desk.Storage.Sessions.Writes.{status_eq_sound}

abbrev named : Session → Text → Session
named row provider_session_id = record row { provider_session_id = provider_session_id }

named-Later :
    (k : Text) (row : Session) (p : Text)
    → RowOk k (some row)
    → row.status ≡ SessionStatus.starting
    → row.provider_session_id ≡ []
    → RowOk k (some (named row p)) × Later row (named row p)
unfolding terminal
named-Later k row p (at_id, w) starts empty = (
  (
    at_id,
    record {
      known = w.known;
      ended = w.ended;
      ordered = w.ordered;
      clean = w.clean;
      explained = w.explained;
    },
  ),
  record {
    statuses = stay;
    id = refl;
    device_id = refl;
    account_id = refl;
    provider = refl;
    credential_instance_id = refl;
    runtime_profile_id = refl;
    workspace_id = refl;
    resumed_from_session_id = refl;
    started_at = refl;
    capability_snapshot = refl;
    identity = inr empty;
    over = λ h. absurd (ground arith);
  },
)

identified_row-ok :
    (o : Option Session) (expected : SessionStatus) (p : Text) (row' : Session)
    → is_starting expected ≡ true
    → identified_row o expected p ≡ ok row'
    → (row : Session) × (o ≡ some row)
      × (row' ≡ named row p)
      × (row.status ≡ SessionStatus.starting)
      × (row.provider_session_id ≡ [])
unfolding identified_row
identified_row-ok none expected p row' h g = absurd (ground arith)
identified_row-ok (some row) expected p row' h g = (
  row,
  refl,
  ground arith,
  ground (arith, status_eq_sound row.status expected),
  ground (arith, empty-nil row.provider_session_id),
)

identity-put :
    (d : Driver) (id : Text) (expected : SessionStatus) (p : Text) (t t' : Sessions)
    → update_identity d id expected p t ≡ ok t'
    → (row' : Session) × (is_starting expected ≡ true)
      × (identified_row (t id) expected p ≡ ok row')
      × (t' ≡ put t id row')
unfolding update_identity
identity-put d id expected p t t' h = elim (result_cases (identified_row (t id) expected p)) [
  | inl (e, refused) ↦ absurd (ground arith)
  | inr (row, named') ↦ (row, ground arith, named', ground arith)
]

read_back-Kept :
    (reads : Bool) (t : Sessions) (id : Text) (r : Result Sessions)
    → RowsOk t
    → ((t' : Sessions) → r ≡ ok t' → Kept t t')
    → Kept t (read_back reads t id r).1
unfolding read_back
read_back-Kept reads t id (err e) v kept = Kept-refl t v
read_back-Kept reads t id (ok t') v kept = kept t' refl

pub identity-Kept :
    (d : Driver) (reads : Bool) (t : Sessions) (id : Text) (expected : SessionStatus) (p : Text)
    → RowsOk t
    → Kept t (set_session_provider_session_id d reads t id expected p).1
unfolding set_session_provider_session_id
identity-Kept d reads t id expected p v =
    read_back-Kept reads t id (update_identity d id expected p t) v (λ t' h.
      let (row', starts, named', written) = identity-put d id expected p t t' h in
      let (row, stored, same, starting, empty) =
        identified_row-ok (t id) expected p row' starts named' in
      let (sound, later) =
        named-Later id row p (subst (RowOk id) stored (v.at id)) starting empty in
      rw (written ∙ ap (λ x. put t id x) same) (
        put-Kept t id (named row p) v sound
          (λ old e. subst (λ x. Later x (named row p)) (some_inj (sym stored ∙ e)) later)))
