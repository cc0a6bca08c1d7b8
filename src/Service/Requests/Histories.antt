-- ===== src/Service/Requests/Histories.antt =====
-- sevmgr/service/SEVMGR_Service.cpp: requests one after another, and the events that a client
-- writes.
use sevmgr.Prelude.{
  ℕ, ◌≡◌, refl, sym, ◌∙◌, subst, Bool, Result, done, raised, aborted, undefined, diverged, Leaves,
  some,
}
use sevmgr.Stdair.{Stdair}
use sevmgr.EventQueue.{EventQueue, default_event_queue_id, new_event_queue}
use sevmgr.EventQueue.Validity.{new_event_queue-IsValid}
use sevmgr.EventQueueManager.Grading.{IsGraded}
use sevmgr.EventQueueManager.Validity.{IsValid-IsGraded}
use sevmgr.Service.{Service, Session, new_service, new_service_context}
use sevmgr.Service.Keeping.{OnSession, ServiceIsValid, SessionIsValid}
use sevmgr.Service.Requests.{Request, perform}
use sevmgr.Service.Requests.Grading.{after, perform-Leads}

module _ (s : Stdair) where
  open s use {Event}

  -- `τ` is the state that a result leaves, for a request that ends at all.
  abbrev pub EndsIn : {S A : Type 0} → Result S A → S → Type 0
  EndsIn (done a σ) τ = σ ≡ τ
  EndsIn (raised x σ) τ = σ ≡ τ
  EndsIn aborted τ = ⊥
  EndsIn undefined τ = ⊥
  EndsIn diverged τ = ⊥

  -- What a client does: it makes a request, whose exception it may catch, or writes its own event.
  pub data Step (σ τ : Session s) : Type 0 where
    asks : (r : Request s) → EndsIn (perform s r σ) τ → Step σ τ
    writes : (e : Event) → record σ { event = e } ≡ τ → Step σ τ

  pub data Reach (σ : Session s) : Session s → Type 0 where
    here : Reach σ σ
    next : {τ ρ : Session s} → Reach σ τ → Step τ ρ → Reach σ ρ

  pub EndsIn-Leaves :
      {S A : Type 0} (P : S → Type 0) (r : Result S A) (τ : S) → EndsIn r τ → Leaves P r → P τ
  EndsIn-Leaves P (done a σ) τ e h = subst P e h
  EndsIn-Leaves P (raised x σ) τ e h = subst P e h
  EndsIn-Leaves P aborted τ e h = absurd e
  EndsIn-Leaves P undefined τ e h = absurd e
  EndsIn-Leaves P diverged τ e h = absurd e

  -- The events that the requests of a history ask for: one for each addition, four for each sample
  -- queue.
  unfoldable pub additions : {σ τ : Session s} → Reach σ τ → ℕ
  additions here = 0
  additions (next r (asks q e)) = after s q (additions r)
  additions (next r (writes e h)) = additions r

  module _ {P : ℕ → EventQueue s → Type 0} (graded : IsGraded s P) (E : Type 0) where
    -- A graded family of predicates along a history.
    pub Reach-Leads :
        {σ τ : Session s} (r : Reach σ τ)
        → OnSession s E (P 0) σ
        → OnSession s E (P (additions r)) τ
    unfolding additions
    Reach-Leads here v = v
    Reach-Leads {σ} {τ} (next {τ = υ} r (asks q e)) v =
        EndsIn-Leaves (OnSession s E (P (after s q (additions r)))) (perform s q υ) τ e
          ((perform-Leads graded E q (additions r)).at υ (Reach-Leads r v))
    Reach-Leads (next r (writes e h)) v =
        subst (OnSession s E (P (additions r))) h (Reach-Leads r v)

  -- The session of a client with a service that was just made, which owns its StdAir service or
  -- not.
  unfoldable pub fresh : s.Service → Bool → Event → Session s
  fresh stdair own e = record {
    service = record {
      context = some (record {
        stdair_service = some stdair;
        own_stdair_service = own;
        event_queue = some (new_event_queue s (default_event_queue_id s));
      });
    };
    event = e;
  }

  pub new_service-fresh :
      (stdair : s.Service) (own : Bool) (e : Event)
      → new_service s stdair own ≡ done tt (fresh stdair own e).service
  unfolding new_service fresh new_service_context
  new_service-fresh stdair own e = refl

  -- From a new service, whatever requests a client makes in whatever order, and whatever events it
  -- passes, also after exceptions that it catches: the service stays initialised, with a queue, and
  -- the queue stays in the order of its time stamps, each event under its own, and the statuses in
  -- the order of their types.
  pub fresh-Reach-IsValid :
      (stdair : s.Service) (own : Bool) (e : Event) (v : Service s) (τ : Session s)
      → new_service s stdair own ≡ done tt v
      → Reach (record { service = v; event = e }) τ
      → SessionIsValid s τ
  unfolding fresh
  fresh-Reach-IsValid stdair own e v τ made r = Reach-Leads (IsValid-IsGraded s) ⊥ r (
      subst (Leaves (ServiceIsValid s)) (sym (new_service-fresh stdair own e) ∙ made)
        (new_event_queue-IsValid s (default_event_queue_id s)))
