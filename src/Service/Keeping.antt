-- ===== src/Service/Keeping.antt =====
-- sevmgr/service/SEVMGR_Service.cpp: the methods of the service and the predicates of its queue.
use sevmgr.Prelude.{
  ◌≡◌, sym, subst, non_initialised_service, Option, none, some, Exec, Result, done, raised, Leaves,
  Leads, ◌>>=◌, bind_result, zoom_result, zoom_result-Leaves, arith, inl, inr, Option-cases,
}
use sevmgr.Stdair.{Stdair}
use sevmgr.EventQueue.{EventQueue, Frame}
use sevmgr.EventQueue.Validity.{IsValid}
use sevmgr.EventQueueManager.Grading.{OnFrame}
use sevmgr.Service.{
  Service, Session, ServiceContext, on_event_queue, on_frame, on_service, get_service_context,
  run_on_queue, run_on_frame, put_queue, put_frame,
}

-- A predicate of the queue of a service; `E` holds of a service that has no context or no queue.
module _ (s : Stdair) (E : Type 0) where
  abbrev pub OnQueue : (EventQueue s → Type 0) → Option (EventQueue s) → Type 0
  OnQueue P none = E
  OnQueue P (some q) = P q

  abbrev pub OnContext : (EventQueue s → Type 0) → Option (ServiceContext s) → Type 0
  OnContext P none = E
  OnContext P (some c) = OnQueue P c.event_queue

  abbrev pub OnService : (EventQueue s → Type 0) → Service s → Type 0
  OnService P v = OnContext P v.context

  abbrev pub OnSession : (EventQueue s → Type 0) → Session s → Type 0
  OnSession P σ = OnService P σ.service

module _ (s : Stdair) where
  -- The service has a queue, which is valid.
  abbrev pub ServiceIsValid : Service s → Type 0
  ServiceIsValid = OnService s ⊥ (IsValid s)

  abbrev pub SessionIsValid : Session s → Type 0
  SessionIsValid = OnSession s ⊥ (IsValid s)

  get_service_context-some :
      (v : Service s) (c : ServiceContext s)
      → v.context ≡ some c
      → get_service_context s v ≡ done c v
  unfolding get_service_context
  get_service_context-some v c e = ground arith

  get_service_context-none :
      (v : Service s)
      → v.context ≡ none
      → get_service_context s v ≡ raised non_initialised_service v
  unfolding get_service_context
  get_service_context-none v e = ground arith

module _ (s : Stdair) (E : Type 0) (P Q : EventQueue s → Type 0) where
  -- Before and after a method.
  abbrev Before : Service s → Type 0
  Before = OnService s E P

  abbrev After : Service s → Type 0
  After = OnService s E Q

  abbrev SessionBefore : Session s → Type 0
  SessionBefore σ = Before σ.service

  abbrev SessionAfter : Session s → Type 0
  SessionAfter σ = After σ.service

  pub run_on_queue-Leaves :
      {A : Type 0} (m : Exec (EventQueue s) A) (c : ServiceContext s) (o : Option (EventQueue s))
      (v : Service s)
      → Leads P Q m
      → OnQueue s E P o
      → Leaves After (run_on_queue s m c o v)
  run_on_queue-Leaves m c none v k h = tt
  run_on_queue-Leaves m c (some q) v k h =
      zoom_result-Leaves Q After (λ _ u. put_queue s v c u) v (m q) (λ u w. w) (k.at q h)

  -- A method that begins by getting the context, by what the rest of it does.
  pub context-Leads :
      {A : Type 0} (m : ServiceContext s → Exec (Service s) A)
      → ((c : ServiceContext s) (v : Service s)
          → OnQueue s E P c.event_queue
          → Before v
          → Leaves After (m c v))
      → Leads Before After (get_service_context s >>= m)
  context-Leads m k = record {
    at = λ v h. elim (Option-cases v.context) [
      | inl e ↦
          subst (λ r. Leaves After (bind_result r m)) (sym (get_service_context-none s v e))
            (subst (OnContext s E Q) (sym e) (subst (OnContext s E P) e h))
      | inr (c, e) ↦
          subst (λ r. Leaves After (bind_result r m)) (sym (get_service_context-some s v c e))
            (k c v (subst (OnContext s E P) e h) h)
    ];
  }

  pub queue-Leads :
      {A : Type 0} (m : Exec (EventQueue s) A)
      → Leads P Q m
      → Leads Before After (on_event_queue s m)
  unfolding on_event_queue
  queue-Leads m k =
      context-Leads (λ c. run_on_queue s m c c.event_queue)
        λ c v h w. run_on_queue-Leaves m c c.event_queue v k h

  -- The same for a method that takes the event of the caller.
  run_on_frame-Leaves :
      {A : Type 0} (m : Exec (Frame s) A) (c : ServiceContext s) (o : Option (EventQueue s))
      (σ : Session s)
      → Leads (OnFrame s P) (OnFrame s Q) m
      → OnQueue s E P o
      → Leaves SessionAfter (run_on_frame s m c o σ)
  run_on_frame-Leaves m c none σ k h = tt
  run_on_frame-Leaves m c (some q) σ k h =
      zoom_result-Leaves (OnFrame s Q) SessionAfter (λ _ g. put_frame s σ c g) σ (m _) (λ g w. w)
        (k.at _ h)

  pub frame-Leads :
      {A : Type 0} (m : Exec (Frame s) A)
      → Leads (OnFrame s P) (OnFrame s Q) m
      → Leads SessionBefore SessionAfter (on_frame s m)
  unfolding on_frame
  frame-Leads {A} m k = record {
    at = λ σ h. elim (Option-cases σ.service.context) [
      | inl e ↦
          subst (λ r. Leaves SessionAfter (rest σ r)) (sym (get_service_context-none s σ.service e))
            (subst (OnContext s E Q) (sym e) (subst (OnContext s E P) e h))
      | inr (c, e) ↦
          subst (λ r. Leaves SessionAfter (rest σ r))
            (sym (get_service_context-some s σ.service c e))
            (run_on_frame-Leaves m c c.event_queue σ k (subst (OnContext s E P) e h))
    ];
  }
    where
      rest : Session s → Result (Service s) (ServiceContext s) → Result (Session s) A
      rest σ r =
          bind_result (zoom_result (λ τ v. record τ { service = v }) σ r)
            (λ c τ. run_on_frame s m c c.event_queue τ)

  pub service-Leads :
      {A : Type 0} (m : Exec (Service s) A)
      → Leads Before After m
      → Leads SessionBefore SessionAfter (on_service s m)
  service-Leads m k = record {
    at = λ σ h.
        zoom_result-Leaves After SessionAfter (λ τ v. record τ { service = v }) σ (m σ.service)
          (λ v w. w) (k.at σ.service h);
  }
