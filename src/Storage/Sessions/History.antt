-- ===== src/Storage/Sessions/History.antt =====
-- What a history of calls leaves of the stored sessions.
use multi_agent_desk.Prelude.{ℕ, Bool, Option, List, [], ◌∷◌, All, Text}
use multi_agent_desk.Domain.Session.{SessionStatus, Session}
use multi_agent_desk.Storage.Driver.{Driver}
use multi_agent_desk.Storage.Links.{Links}
use multi_agent_desk.Storage.Sessions.{
  Sessions, create_session, transition_session, set_session_provider_session_id,
}
use multi_agent_desk.Storage.Sessions.Later.{RowsOk, Kept, Kept-refl, Kept-trans}
use multi_agent_desk.Storage.Sessions.Writes.{create-Kept, transit-Kept}
use multi_agent_desk.Storage.Sessions.Identity.{identity-Kept}

-- The calls of the store that write sessions.
pub data Call : Type 0 where
  creates : Driver → Links → Session → Call
  transits :
      Driver
      → Bool
      → (Sessions → Sessions)
      → Text
      → SessionStatus
      → SessionStatus
      → ℕ
      → Option ℕ
      → Text
      → Call
  names : Driver → Bool → Text → SessionStatus → Text → Call

unfoldable pub step : Call → Sessions → Sessions
step (Call.creates d links s) t = (create_session d links t s).1
step (Call.transits d reads others id expected next at exit_code failure_code) t =
    (transition_session d reads others t id expected next at exit_code failure_code).1
step (Call.names d reads id expected p) t =
    (set_session_provider_session_id d reads t id expected p).1

unfoldable pub run : List Call → Sessions → Sessions
run [] t = t
run (c ∷ calls) t = run calls (step c t)

-- The writers between the read and the write of a transition are such calls too.
abbrev pub Fair : Call → Type 0
Fair (Call.transits d reads others id expected next at exit_code failure_code) =
    (t : Sessions) → RowsOk t → Kept t (others t)
Fair _ = Unit

step-Kept : (c : Call) (t : Sessions) → Fair c → RowsOk t → Kept t (step c t)
unfolding step
step-Kept (Call.creates d links s) t fair v = create-Kept d links t s v
step-Kept (Call.transits d reads others id expected next at exit_code failure_code) t fair v =
    transit-Kept d reads others t id expected next at exit_code failure_code v (fair t v)
step-Kept (Call.names d reads id expected p) t fair v = identity-Kept d reads t id expected p v

-- Over any history of calls that create sessions, move them, or name their provider session, with
-- other such writers between the read and the write of a move, every stored session stays stored,
-- is well-formed, and is later than it was: it went along edges, kept its id, device, account,
-- provider, credential, profile, workspace, source, start and capabilities, took a provider session
-- only where it had none, and did not change at all once it was over.
pub sessions_advance :
    (calls : List Call) (t : Sessions) → All Fair calls → RowsOk t → Kept t (run calls t)
unfolding run
sessions_advance [] t fair v = Kept-refl t v
sessions_advance (c ∷ calls) t fair v =
    let kept = step-Kept c t fair.0 v in
    Kept-trans t (step c t) (run calls (step c t)) kept
      (sessions_advance calls (step c t) fair.1 kept.rows)
