-- ===== src/Service/Refinement/Lifting.antt =====
-- sevmgr/service/SEVMGR_Service.cpp: what a method of the queue does, put back into the session of
-- a service that has a queue.
use sevmgr.Prelude.{
  ◌≡◌, refl, sym, ap, subst, Option, some, Exec, Result, done, raised, aborted, undefined, diverged,
  Leaves, Leaves-bind, ◌>>=◌, pure, bind_result, zoom_result, zoom_result-Leaves, Keeps, Leads,
}
use sevmgr.Stdair.{Stdair}
use sevmgr.EventQueue.{EventQueue, Frame}
use sevmgr.Service.{
  Service, Session, ServiceContext, on_event_queue, on_frame, on_service, get_service_context,
  run_on_queue, put_queue, put_frame,
}
use sevmgr.Service.Serving.{serving, serving_to}

module _ (s : Stdair) where
  open s use {Event, Moment}

  -- A result of a method of the queue or of the frame, put back into the session.
  module _ (c : ServiceContext s) (R : Frame s → Type 0) where
    abbrev pub Back : Session s → Type 0
    Back τ = (g : Frame s) × (τ ≡ serving_to s c g) × R g

    pub frame-Back :
        {A : Type 0} (m : Exec (Frame s) A) (f : Frame s)
        → Leaves R (m f)
        → Leaves Back (on_frame s m (serving_to s c f))
    unfolding on_frame
    frame-Back m f h =
        zoom_result-Leaves R Back (λ σ g. put_frame s σ (record c { event_queue = some f.queue }) g)
          (serving_to s c f) (m f) (λ g w. (g, refl, w)) h

    pub context-Back :
        {A : Type 0} (m : Option s.Service → Exec (EventQueue s) A) (f : Frame s)
        → Leaves (λ q. R (record { queue = q; event = f.event })) (m c.stdair_service f.queue)
        → Leaves Back (
            on_service s
              (do c ← get_service_context s; run_on_queue s (m c.stdair_service) c c.event_queue)
              (serving_to s c f))
    unfolding get_service_context
    context-Back m f h =
        zoom_result-Leaves InService Back (λ σ v. record σ { service = v }) (serving_to s c f) _
          (λ v w. (
            record { queue = w.0; event = f.event },
            ap (λ v. record { service = v; event = f.event }) w.1,
            w.2,
          ))
          (zoom_result-Leaves (λ q. R (record { queue = q; event = f.event })) InService
            (λ v q. put_queue s v (record c { event_queue = some f.queue }) q) (serving s c f.queue)
            (m c.stdair_service f.queue) (λ q w. (q, refl, w)) h)
      where
        InService : Service s → Type 0
        InService v =
            (q : EventQueue s) × (v ≡ serving s c q) × R (record { queue = q; event = f.event })

    pub queue-Back :
        {A : Type 0} (m : Exec (EventQueue s) A) (f : Frame s)
        → Leaves (λ q. R (record { queue = q; event = f.event })) (m f.queue)
        → Leaves Back (on_service s (on_event_queue s m) (serving_to s c f))
    unfolding on_event_queue
    queue-Back m f h = context-Back (λ _. m) f h

  -- A value that is dropped.
  pub drop-Leaves :
      {S A : Type 0} (P : S → Type 0) (r : Result S A)
      → Leaves P r
      → Leaves P (bind_result r λ _. pure tt)
  drop-Leaves P r h = Leaves-bind P r (λ _. pure tt) h λ _ σ k. k

  drop_within-Leaves :
      {S T A : Type 0} (P : S → Type 0) (put : S → T → S) (σ : S) (r : Result T A)
      → Leaves P (zoom_result put σ r)
      → Leaves P (zoom_result put σ (bind_result r λ _. pure tt))
  drop_within-Leaves P put σ (done a t) h = h
  drop_within-Leaves P put σ (raised x t) h = h
  drop_within-Leaves P put σ aborted h = tt
  drop_within-Leaves P put σ undefined h = tt
  drop_within-Leaves P put σ diverged h = tt

  -- A method that reads the queue, and one that reads the context.
  module _ (c : ServiceContext s) (f : Frame s) where
    abbrev Reads : EventQueue s → Type 0
    Reads q = f ≡ record { queue = q; event = f.event }

    pub query-Back :
        {A : Type 0} (m : Option s.Service → Exec (EventQueue s) A)
        → Leaves Reads (m c.stdair_service f.queue)
        → Leaves (Back c (λ g. f ≡ g)) (
            on_service s
              ((do c ← get_service_context s; run_on_queue s (m c.stdair_service) c c.event_queue)
                >>= λ _. pure tt)
              (serving_to s c f))
    query-Back m h =
        drop_within-Leaves (Back c (λ g. f ≡ g)) (λ σ v. record σ { service = v })
          (serving_to s c f)
          ((do c ← get_service_context s; run_on_queue s (m c.stdair_service) c c.event_queue)
            (serving s c f.queue))
          (context-Back c (λ g. f ≡ g) m f h)

  -- A method that reads the StdAir service.
  abbrev IsServing : ServiceContext s → Frame s → Service s → Type 0
  IsServing c f v = v ≡ serving s c f.queue

  pub looks-Back :
      {A : Type 0} (c : ServiceContext s) (f : Frame s) (m : Exec (Service s) A)
      → Leads (IsServing c f) (IsServing c f) m
      → Leaves (Back c (λ g. f ≡ g)) (on_service s (m >>= λ _. pure tt) (serving_to s c f))
  looks-Back c f m k =
      drop_within-Leaves (Back c (λ g. f ≡ g)) (λ σ v. record σ { service = v }) (serving_to s c f)
        (m (serving s c f.queue))
        (zoom_result-Leaves (IsServing c f) (Back c (λ g. f ≡ g)) (λ σ v. record σ { service = v })
          (serving_to s c f) (m (serving s c f.queue))
          (λ v w. (f, ap (λ v. record { service = v; event = f.event }) w, refl))
          (k.at (serving s c f.queue) refl))

  pub contexts-Keeps :
      {A : Type 0} (c : ServiceContext s) (f : Frame s) (m : Option s.Service → Exec (Service s) A)
      → Keeps (IsServing c f) (m c.stdair_service)
      → Keeps (IsServing c f) (get_service_context s >>= λ d. m d.stdair_service)
  unfolding get_service_context
  contexts-Keeps c f m k = record {
    at = λ v h.
        subst (λ u. Leaves (IsServing c f) ((get_service_context s >>= λ d. m d.stdair_service) u))
          (sym h) (k.at (serving s c f.queue) refl);
  }
