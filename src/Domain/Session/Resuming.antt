-- ===== src/Domain/Session/Resuming.antt =====
-- What `NewSession` and `Resume` give.
use multi_agent_desk.Prelude.{
  ℕ, ◌≡◌, ◌≢◌, refl, sym, ap, ◌≤◌, ◌<◌, inl, inr, true, false, Option, none, some, List, [], Text,
  text_eq, text_eq-false, arith,
}
use mathlib.Core.Path.{subst}
use multi_agent_desk.Domain.Errors.{ok}
use multi_agent_desk.Domain.Id.{validate_id}
use multi_agent_desk.Domain.Capability.{canonical_capabilities, has_capability, session_resume}
use multi_agent_desk.Domain.Session.{
  SessionStatus, Session, terminal, new_session, precedes_end, resume,
}
use multi_agent_desk.Domain.Session.Lifecycle.{WellFormed}

-- A session as `NewSession` stores it: the caller's fields, starting, with no exit data.
abbrev pub started : Session → List Text → Session
started session capabilities = record session {
  status = SessionStatus.starting;
  capability_snapshot = capabilities;
  ended_at = none;
  exit_code = none;
  failure_code = [];
}

pub new_session-ok :
    (session s' : Session)
    → new_session session ≡ ok s'
    → (validate_id session.id ≡ ok tt)
      × (0 < session.started_at)
      × (canonical_capabilities session.capability_snapshot ≡ ok s'.capability_snapshot)
      × (s' ≡ started session s'.capability_snapshot)
unfolding new_session
new_session-ok session s' h = ground arith

pub started-WellFormed :
    (session : Session) (capabilities : List Text) → WellFormed (started session capabilities)
unfolding terminal
started-WellFormed session capabilities = record {
  known = inr (inl refl);
  ended = refl;
  ordered = tt;
  clean = λ _. (refl, refl);
  explained = λ h. absurd (ground arith);
}

-- What a resumed session takes from its source and what is new in it.
pub record Resumed (s s' : Session) (new_id : Text) (at : ℕ) : Type 0 where
  pub was_over : terminal s.status ≡ true
  pub after_end : {end : ℕ} → s.ended_at ≡ some end → end ≤ at
  pub fresh_id : (s'.id ≡ new_id) × (new_id ≢ s.id)
  pub source : s'.resumed_from_session_id ≡ s.id
  pub starts : (s'.status ≡ SessionStatus.starting) × (s'.started_at ≡ at)
  pub device_id : s'.device_id ≡ s.device_id
  pub account_id : s'.account_id ≡ s.account_id
  pub provider : s'.provider ≡ s.provider
  pub credential_instance_id : s'.credential_instance_id ≡ s.credential_instance_id
  pub runtime_profile_id : s'.runtime_profile_id ≡ s.runtime_profile_id
  pub workspace_id : s'.workspace_id ≡ s.workspace_id
  pub provider_session_id : s'.provider_session_id ≡ s.provider_session_id
  pub capabilities : canonical_capabilities s.capability_snapshot ≡ ok s'.capability_snapshot
  pub may_resume : has_capability s.capability_snapshot session_resume ≡ true
  pub well_formed : WellFormed s'

-- The session that `Resume` passes to `NewSession`.
abbrev successor : Session → Text → ℕ → Session
successor s new_id at = record s {
  id = new_id;
  resumed_from_session_id = s.id;
  status = SessionStatus.starting;
  started_at = at;
  ended_at = none;
  exit_code = none;
  failure_code = [];
}

resume-new_session :
    (s : Session) (new_id : Text) (at : ℕ) (s' : Session)
    → resume s new_id at ≡ ok s'
    → (terminal s.status ≡ true)
      × (has_capability s.capability_snapshot session_resume ≡ true)
      × (text_eq new_id s.id ≡ false)
      × (precedes_end s.ended_at at ≡ false)
      × (new_session (successor s new_id at) ≡ ok s')
unfolding resume
resume-new_session s new_id at s' h = ground arith

precedes_end-false :
    (ended_at : Option ℕ) (at : ℕ) {end : ℕ}
    → precedes_end ended_at at ≡ false
    → ended_at ≡ some end
    → end ≤ at
unfolding precedes_end
precedes_end-false ended_at at h e = ground arith

-- A session that `Resume` gives is new: it starts with its own id at the time of the call, not
-- before its source ended, and it is well-formed. It names its source, which is over and may be
-- resumed, and it has that source's device, account, provider, credential, profile, workspace and
-- provider session, and its capabilities.
pub resume-Resumed :
    (s : Session) (new_id : Text) (at : ℕ) (s' : Session)
    → resume s new_id at ≡ ok s'
    → Resumed s s' new_id at
resume-Resumed s new_id at s' h =
    let (over, may, fresh, after, new) = resume-new_session s new_id at s' h in
    let (_, _, caps, same) = new_session-ok (successor s new_id at) s' new in
    record {
      was_over = over;
      after_end = λ e. precedes_end-false s.ended_at at after e;
      fresh_id = (ap (λ x. x.id) same, text_eq-false fresh);
      source = ap (λ x. x.resumed_from_session_id) same;
      starts = (ap (λ x. x.status) same, ap (λ x. x.started_at) same);
      device_id = ap (λ x. x.device_id) same;
      account_id = ap (λ x. x.account_id) same;
      provider = ap (λ x. x.provider) same;
      credential_instance_id = ap (λ x. x.credential_instance_id) same;
      runtime_profile_id = ap (λ x. x.runtime_profile_id) same;
      workspace_id = ap (λ x. x.workspace_id) same;
      provider_session_id = ap (λ x. x.provider_session_id) same;
      capabilities = caps;
      may_resume = may;
      well_formed =
          subst WellFormed (sym same)
            (started-WellFormed (successor s new_id at) s'.capability_snapshot);
    }
