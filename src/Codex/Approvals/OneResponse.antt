-- ===== src/Codex/Approvals/OneResponse.antt =====
-- The process gets one answer at most to an approval, and the one that is stored.
use multi_agent_desk.Prelude.{
  some_inj, ℕ, Bool, true, false, if◌then◌else◌, ◌≡◌, ◌∙◌, refl, sym, ap, inl, inr, ◌⊎◌, Bool-cases,
  Option, some, List, [], ◌∷◌, All, Text, text_eq, text_eq_iff,
}
use mathlib.Core.Path.{subst}
use multi_agent_desk.Domain.Errors.{Result, ok, err, result_cases}
use multi_agent_desk.Storage.Driver.{Driver}
use multi_agent_desk.Storage.Approvals.{
  Approval, Approvals, Decision, Claim, is_idle, claim_approval_dispatch,
}
use multi_agent_desk.Storage.Approvals.Creating.{create_approval}
use multi_agent_desk.Storage.Approvals.Recovery.{expire_pending_approvals}
use multi_agent_desk.Codex.Approvals.{
  Request, Binding, Response, Bridge, answerable, respond_server_request, Plan, Answers, plan,
  settle, send, after_claim, follow, respond_approval,
}
use multi_agent_desk.Storage.Approvals.Decided.{Holds, Keeps, Keeps-trans, claim-Keeps, claim-Holds}
use multi_agent_desk.Storage.Approvals.Keeping.{expire-Keeps, create-Keeps}
use multi_agent_desk.Codex.Approvals.Planned.{
  Fair, settle-Keeps, Wire, response_text-Wire, Waiting, plan-Ready, forget-Waiting,
}

pub data Event : Type 0 where
  responds : Answers → Request → Event
  creates : Driver → (Text → Option Text) → Approval → Event
  recovers : Bool → Option Text → (Text → Text) → ℕ → Event
  binds : (Text → Option Binding) → Event

unfoldable pub step : (Text → Text) → Event → Bridge → Bridge
step sha256 (Event.responds w q) s = (respond_approval sha256 w q s).1
step sha256 (Event.creates d session_provider a) s = record s {
  approvals = (create_approval d session_provider a s.approvals).1;
}
step sha256 (Event.recovers runs owner random at) s = record s {
  approvals = (expire_pending_approvals runs owner random at s.approvals).1;
}
step sha256 (Event.binds bindings) s = record s { bindings = bindings }

unfoldable pub run : (Text → Text) → List Event → Bridge → Bridge
run sha256 [] s = s
run sha256 (event ∷ events) s = run sha256 events (step sha256 event s)

-- `Asked` relates the approvals to the requests of the process that they stand for.
module _ (Asked : Text → Text → Type 0) where
  -- What was sent for an approval: nothing, or one response, to a request of the approval, in the
  -- word for the decision that its row has.
  abbrev pub OneSent : List Response → Approvals → Text → Type 0
  OneSent sent t id =
      (sent ≡ [])
      ⊎ ((decision : Decision) × (response : Response) × (sent ≡ response ∷ [])
          × Wire decision response.decision
          × Asked id response.request_id
          × Holds decision t id)

  pub record Sound (s : Bridge) : Type 0 where
    pub one : (id : Text) → OneSent (s.sent id) s.approvals id
    pub waits : Waiting Asked s.bindings

  abbrev pub FairEvent : Event → Type 0
  FairEvent (Event.responds w q) = Fair w
  FairEvent (Event.binds bindings) = Waiting Asked bindings
  FairEvent _ = Unit

  OneSent-Keeps :
      (sent : List Response) (t u : Approvals) (id : Text)
      → Keeps t u
      → OneSent sent t id
      → OneSent sent u id
  unfolding Keeps
  OneSent-Keeps sent t u id keeps (inl nothing) = inl nothing
  OneSent-Keeps sent t u id keeps (inr (decision, response, one, wire, asked, holds)) =
      inr (decision, response, one, wire, asked, keeps decision id holds)

  respond-OneSent :
      (handshaken : Bool) (request_id : Text) (decision : Decision) (sent : List Response)
      (t : Approvals) (id : Text)
      → sent ≡ []
      → Asked id request_id
      → Holds decision t id
      → OneSent (respond_server_request handshaken request_id decision sent) t id
  unfolding respond_server_request
  respond-OneSent handshaken request_id decision sent t id unsent asked holds =
      elim (Bool-cases (answerable handshaken request_id)) [
        | inr refused ↦ rw (refused, unsent) (inl refl)
        | inl answered ↦
            rw (answered, unsent)
              (inr (decision, _, refl, response_text-Wire decision, asked, holds))
      ]

  send-Sound :
      (w : Answers) (q : Request) (digest request_id : Text) (s : Bridge) (t : Approvals)
      → Fair w
      → Sound s
      → s.sent q.approval_id ≡ []
      → Asked q.approval_id request_id
      → Keeps s.approvals t
      → Holds q.decision t q.approval_id
      → Sound (send w q digest request_id s t).1
  unfolding send Keeps
  send-Sound w q digest request_id s t fair sound unsent asked keeps holds = record {
    one = one;
    waits = forget-Waiting Asked w.is_current q s.bindings sound.waits;
  }
    where
      settled : Keeps t (settle w q digest request_id t).1
      settled = settle-Keeps w q digest request_id t fair

      one :
          (id : Text)
          → OneSent
              (if text_eq q.approval_id id
                then respond_server_request w.handshaken request_id q.decision (s.sent id)
                else s.sent id)
              (settle w q digest request_id t).1
              id
      one id = elim (Bool-cases (text_eq q.approval_id id)) [
        | inl same ↦
            let here = (text_eq_iff q.approval_id id).0 same in
            rw same (
              respond-OneSent w.handshaken request_id q.decision (s.sent id)
                (settle w q digest request_id t).1 id (ap s.sent (sym here) ∙ unsent)
                (subst (λ k. Asked k request_id) here asked)
                (settled q.decision id (subst (Holds q.decision t) here holds)))
        | inr other ↦ rw other (
            OneSent-Keeps (s.sent id) s.approvals (settle w q digest request_id t).1 id
              (Keeps-trans s.approvals t (settle w q digest request_id t).1 keeps settled)
              (sound.one id))
      ]

  unsent_idle :
      (s : Bridge) (id : Text) (row : Approval)
      → Sound s
      → s.approvals id ≡ some row
      → is_idle row.response_state ≡ true
      → s.sent id ≡ []
  unsent_idle s id row sound stored idle = elim (sound.one id) [
    | inl nothing ↦ nothing
    | inr (decision, response, one, wire, asked, holds) ↦
        let same : holds.row ≡ row = some_inj (sym holds.stored ∙ stored) in
        absurd (
          true_ne_false
            (sym idle ∙ ap (λ r. is_idle r.response_state) (sym same) ∙ holds.made.taken))
  ]
    where
      true_ne_false : Path Bool true false → ⊥
      true_ne_false e = cc

  -- A change of the table that keeps decisions.
  table-Sound :
      (s : Bridge) (t : Approvals)
      → Keeps s.approvals t
      → Sound s
      → Sound (record s { approvals = t })
  table-Sound s t keeps sound = record {
    one = λ id. OneSent-Keeps (s.sent id) s.approvals t id keeps (sound.one id);
    waits = sound.waits;
  }

  after_claim-Sound :
      (w : Answers) (q : Request) (digest request_id : Text) (s : Bridge)
      (x : Result Approval × Approvals)
      → Fair w
      → Sound s
      → s.sent q.approval_id ≡ []
      → Asked q.approval_id request_id
      → Keeps s.approvals x.1
      → ((row : Approval) → x.0 ≡ ok row → Holds q.decision x.1 q.approval_id)
      → Sound (after_claim w q digest request_id s x).1
  after_claim-Sound w q digest request_id s (err e, t) fair sound unsent asked keeps holds =
      table-Sound s t keeps sound
  after_claim-Sound w q digest request_id s (ok row, t) fair sound unsent asked keeps holds =
      send-Sound w q digest request_id s t fair sound unsent asked keeps (holds row refl)

  respond-Sound :
      (sha256 : Text → Text) (w : Answers) (q : Request) (s : Bridge)
      → Fair w
      → Sound s
      → Sound (respond_approval sha256 w q s).1
  unfolding respond_approval
  respond-Sound sha256 w q s fair sound = elim (result_cases (plan sha256 w.reads q s)) [
    | inl (e, refused) ↦ rw (respond_approval, refused) sound
    | inr (Plan.repeat row, planned) ↦ rw (respond_approval, planned) sound
    | inr (Plan.dispatch digest request_id, planned) ↦
        let ready = plan-Ready Asked sha256 w.reads q s digest request_id sound.waits planned in
        rw (respond_approval, planned)
          (taken digest request_id
            (unsent_idle s q.approval_id ready.row sound ready.stored ready.idle) ready.asked)
  ]
    where
      taken :
          (digest request_id : Text)
          → s.sent q.approval_id ≡ []
          → Asked q.approval_id request_id
          → Sound (follow w q s (ok (Plan.dispatch digest request_id))).1
      taken digest request_id unsent asked =
          let before = w.before_claim s.approvals in
          let claim : Claim = record {
            provider_approval_id = q.provider_approval_id;
            responder_id = q.responder_id;
            response_key = q.response_key;
            decision = q.decision;
            dispatch_digest = digest;
          } in
          let made =
            claim_approval_dispatch w.claims w.claim_reads q.approval_id claim w.claim_at before in
          after_claim-Sound w q digest request_id s made fair sound unsent asked
            (Keeps-trans s.approvals before made.1 (fair.before_claim s.approvals)
              (claim-Keeps w.claims w.claim_reads q.approval_id claim w.claim_at before))
            (λ row done.
              claim-Holds w.claims w.claim_reads q.approval_id claim w.claim_at before row done)

  step-Sound :
      (sha256 : Text → Text) (event : Event) (s : Bridge)
      → FairEvent event
      → Sound s
      → Sound (step sha256 event s)
  unfolding step
  step-Sound sha256 (Event.responds w q) s fair sound = respond-Sound sha256 w q s fair sound
  step-Sound sha256 (Event.creates d session_provider a) s fair sound =
      table-Sound s (create_approval d session_provider a s.approvals).1
        (create-Keeps d session_provider a s.approvals) sound
  step-Sound sha256 (Event.recovers runs owner random at) s fair sound =
      table-Sound s (expire_pending_approvals runs owner random at s.approvals).1
        (expire-Keeps runs owner random at s.approvals) sound
  step-Sound sha256 (Event.binds bindings) s fair sound = record { one = sound.one; waits = fair }

  -- Over any history of answers to approvals, new approvals, recoveries and changed bindings, the
  -- process is sent one response at most for each approval, to a request that the approval stands
  -- for, in the protocol's word for the decision that the approval's row has from then on (accept,
  -- decline or cancel). That holds at first, each request that waits is one that its approval
  -- stands for, at first and whenever the bindings change, and the other writers of the table undo
  -- no decision.
  pub one_response :
      (sha256 : Text → Text) (events : List Event) (s : Bridge)
      → All FairEvent events
      → Sound s
      → Sound (run sha256 events s)
  unfolding run
  one_response sha256 [] s fair sound = sound
  one_response sha256 (event ∷ events) s fair sound =
      one_response sha256 events (step sha256 event s) fair.1
        (step-Sound sha256 event s fair.0 sound)
