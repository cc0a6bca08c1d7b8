-- ===== src/Service/Serving.antt =====
-- sevmgr/service/SEVMGR_Service.cpp: the methods of a service that is initialised and has a queue.
use sevmgr.Prelude.{
  int_of_size, ℕ, ◌≡◌, refl, ap, true, false, List, [], ◌∷◌, arith, some, Exec, done, length,
  zoom_result,
}
use sevmgr.Stdair.{Stdair}
use sevmgr.EventQueue.{
  EventQueue, Frame, is_queue_done, get_queue_size, reset, new_event_queue, default_event_queue_id,
}
use sevmgr.EventQueueManager
use sevmgr.Service
use sevmgr.Service.{
  Service, Session, ServiceContext, on_event_queue, on_frame, on_service, put_queue, put_frame,
}

module _ (s : Stdair) where
  open s use {Event}

  -- A service with a queue, and a session with it.
  abbrev pub serving : ServiceContext s → EventQueue s → Service s
  serving c q = record { context = some (record c { event_queue = some q }) }

  abbrev pub serving_to : ServiceContext s → Frame s → Session s
  serving_to c f = record { service = serving c f.queue; event = f.event }

  pub on_frame-serving :
      {A : Type 0} (m : Exec (Frame s) A) (c : ServiceContext s) (f g : Frame s) (a : A)
      → m f ≡ done a g
      → on_frame s m (serving_to c f) ≡ done a (serving_to c g)
  unfolding on_frame
  on_frame-serving m c f g a h =
      ap
        (λ r.
          zoom_result (λ σ u. put_frame s σ (record c { event_queue = some f.queue }) u)
            (serving_to c f) r)
        h

  pub get_queue_size-serving :
      (c : ServiceContext s) (q : EventQueue s)
      → Service.get_queue_size s (serving c q)
        ≡ done (int_of_size (length q.event_list)) (serving c q)
  unfolding Service.get_queue_size EventQueueManager.get_queue_size get_queue_size
  get_queue_size-serving c q = refl

  pub reset-serving :
      (c : ServiceContext s) (q : EventQueue s)
      → Service.reset s (serving c q) ≡ done tt (serving c (reset s q))
  unfolding Service.reset EventQueueManager.reset
  reset-serving c q = refl

  pub is_queue_done-serving :
      (c : ServiceContext s) (q : EventQueue s)
      → Service.is_queue_done s (serving c q)
        ≡ done (EventQueueManager.is_queue_done s q) (serving c q)
  unfolding Service.is_queue_done
  is_queue_done-serving c q = refl

  pub is_queue_done-nil :
      (q : EventQueue s) → q.event_list ≡ [] → EventQueueManager.is_queue_done s q ≡ true
  unfolding EventQueueManager.is_queue_done is_queue_done
  is_queue_done-nil q h = ground (arith, h)

  pub is_queue_done-cons :
      (q : EventQueue s) (x : ℕ × Event) (l : List (ℕ × Event))
      → q.event_list ≡ x ∷ l
      → EventQueueManager.is_queue_done s q ≡ false
  unfolding EventQueueManager.is_queue_done is_queue_done
  is_queue_done-cons q x l h = ground (arith, h)

  pub build_sample_queue-serving :
      (c : ServiceContext s) (q q' : EventQueue s)
      → EventQueueManager.build_sample_queue s c.stdair_service q ≡ done tt q'
      → Service.build_sample_queue s (serving c q) ≡ done tt (serving c q')
  unfolding Service.build_sample_queue
  build_sample_queue-serving c q q' h =
      ap
        (λ r.
          zoom_result (λ _ u. put_queue s (serving c q) (record c { event_queue = some q }) u)
            (serving c q) r)
        h

  -- The context of a new service that owns its StdAir service.
  abbrev pub own_context : s.Service → ServiceContext s
  own_context stdair = record {
    stdair_service = some stdair;
    own_stdair_service = true;
    event_queue = some (new_event_queue s (default_event_queue_id s));
  }
