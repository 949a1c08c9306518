-- ===== src/Storage/Sessions/Later.antt =====
-- How a row of `sessions` may differ from what it was, and a table from what it was.
use multi_agent_desk.Prelude.{
  ◌≡◌, refl, sym, ap, ◌∙◌, ◌⊎◌, inl, inr, true, Option, none, some, [], Text,
}
use multi_agent_desk.Domain.Session.{SessionStatus, Session, terminal}
use multi_agent_desk.Domain.Session.Lifecycle.{Edge, WellFormed}
use multi_agent_desk.Storage.Table.{put, put-at}
use multi_agent_desk.Storage.Sessions.{Sessions}

pub data Edges : SessionStatus → SessionStatus → Type 0 where
  stay : {s : SessionStatus} → Edges s s
  onward : {s next last : SessionStatus} → Edge s next → Edges next last → Edges s last

pub Edges-trans : {a b c : SessionStatus} → Edges a b → Edges b c → Edges a c
Edges-trans stay g = g
Edges-trans (onward e f) g = onward e (Edges-trans f g)

pub record Later (s s' : Session) : Type 0 where
  pub statuses : Edges s.status s'.status
  pub id : s'.id ≡ s.id
  pub device_id : s'.device_id ≡ s.device_id
  pub account_id : s'.account_id ≡ s.account_id
  pub provider : s'.provider ≡ s.provider
  pub credential_instance_id : s'.credential_instance_id ≡ s.credential_instance_id
  pub runtime_profile_id : s'.runtime_profile_id ≡ s.runtime_profile_id
  pub workspace_id : s'.workspace_id ≡ s.workspace_id
  pub resumed_from_session_id : s'.resumed_from_session_id ≡ s.resumed_from_session_id
  pub started_at : s'.started_at ≡ s.started_at
  pub capability_snapshot : s'.capability_snapshot ≡ s.capability_snapshot
  pub identity : (s'.provider_session_id ≡ s.provider_session_id) ⊎ (s.provider_session_id ≡ [])
  pub over : terminal s.status ≡ true → s' ≡ s

pub Later-refl : (s : Session) → Later s s
Later-refl s = record {
  statuses = stay;
  id = refl;
  device_id = refl;
  account_id = refl;
  provider = refl;
  credential_instance_id = refl;
  runtime_profile_id = refl;
  workspace_id = refl;
  resumed_from_session_id = refl;
  started_at = refl;
  capability_snapshot = refl;
  identity = inl refl;
  over = λ h. refl;
}

pub Later-trans : (a b c : Session) → Later a b → Later b c → Later a c
Later-trans a b c f g = record {
  statuses = Edges-trans f.statuses g.statuses;
  id = g.id ∙ f.id;
  device_id = g.device_id ∙ f.device_id;
  account_id = g.account_id ∙ f.account_id;
  provider = g.provider ∙ f.provider;
  credential_instance_id = g.credential_instance_id ∙ f.credential_instance_id;
  runtime_profile_id = g.runtime_profile_id ∙ f.runtime_profile_id;
  workspace_id = g.workspace_id ∙ f.workspace_id;
  resumed_from_session_id = g.resumed_from_session_id ∙ f.resumed_from_session_id;
  started_at = g.started_at ∙ f.started_at;
  capability_snapshot = g.capability_snapshot ∙ f.capability_snapshot;
  identity = elim f.identity [
    | inl same ↦ elim g.identity [
      | inl same' ↦ inl (same' ∙ same)
      | inr empty ↦ inr (sym same ∙ empty)
    ]
    | inr empty ↦ inr empty
  ];
  over = λ h. let same = f.over h in g.over (rw same h) ∙ same;
}

abbrev pub RowOk : Text → Option Session → Type 0
RowOk k none = Unit
RowOk k (some row) = (row.id ≡ k) × WellFormed row

pub record RowsOk (t : Sessions) : Type 0 where
  pub at : (k : Text) → RowOk k (t k)

abbrev pub LaterRow : Session → Option Session → Type 0
LaterRow row none = ⊥
LaterRow row (some row') = Later row row'

-- The rows stay, well-formed, each later than it was.
pub record Kept (t t' : Sessions) : Type 0 where
  pub rows : RowsOk t'
  pub later : (k : Text) (row : Session) → t k ≡ some row → LaterRow row (t' k)

pub Kept-refl : (t : Sessions) → RowsOk t → Kept t t
Kept-refl t v = record { rows = v; later = λ k row e. rw e (Later-refl row) }

LaterRow-trans : (a b : Session) (c : Option Session) → Later a b → LaterRow b c → LaterRow a c
LaterRow-trans a b none f g = g
LaterRow-trans a b (some c) f g = Later-trans a b c f g

LaterRow-then :
    (t'' : Sessions) (k : Text) (row : Session) (after : Option Session)
    → LaterRow row after
    → ((row' : Session) → after ≡ some row' → LaterRow row' (t'' k))
    → LaterRow row (t'' k)
LaterRow-then t'' k row none f g = absurd f
LaterRow-then t'' k row (some row') f g = LaterRow-trans row row' (t'' k) f (g row' refl)

pub Kept-trans : (t t' t'' : Sessions) → Kept t t' → Kept t' t'' → Kept t t''
Kept-trans t t' t'' f g = record {
  rows = g.rows;
  later =
      λ k row e. LaterRow-then t'' k row (t' k) (f.later k row e) (λ row' e'. g.later k row' e');
}

-- A write of one row that is well-formed and later than the row it replaces.
pub put-Kept :
    (t : Sessions) (k : Text) (row : Session)
    → RowsOk t
    → (row.id ≡ k) × WellFormed row
    → ((old : Session) → t k ≡ some old → Later old row)
    → Kept t (put t k row)
put-Kept t k row v ok_row later = record {
  rows = record {
    at = λ j. put-at t k row j (RowOk j) (λ same. (ok_row.0 ∙ same, ok_row.1)) (v.at j);
  };
  later = λ j old e.
      put-at t k row j (LaterRow old) (λ same. later old (ap t same ∙ e)) (rw e (Later-refl old));
}
