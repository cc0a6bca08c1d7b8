-- ===== src/Service/Refinement.antt =====
-- sevmgr/service/SEVMGR_Service.cpp: what each request of a client does to the agenda of the queue
-- and to the event of the client, whether it returns or throws.
pub mod Lifting
use sevmgr.Prelude.{
  Returns-Leaves, ℕ, ◌≡◌, refl, sym, ap, subst, ◌∙◌, Bool, true, false, Option, none, some, List,
  [], ◌∷◌, arith, Exec, Result, done, raised, aborted, undefined, diverged, Leaves, Leaves-bind,
  Leaves-weaken, ◌>>=◌, pure, bind_result, zoom_result, zoom_result-Leaves, gets, Keeps, Keeps-bind,
  Keeps-dereference, Keeps-pure, Leads, dereference, inl, inr, Option-cases, ◌==◌,
}
use sevmgr.Stdair.{Stdair}
use sevmgr.OrderedMap.{find}
use sevmgr.EventQueue
use sevmgr.EventQueue.{EventQueue, Frame}
use sevmgr.EventQueue.Statuses
use sevmgr.EventQueue.Validity.{IsValid, FrameIsValid}
use sevmgr.EventQueue.Refinement.{Agenda, agenda}
use sevmgr.EventQueue.Refinement.Steps.{Same, PlaysFrom, Adds}
use sevmgr.EventQueue.Refinement.Unchanged.{
  HasEvents, add_status-HasEvents, update_status_nb-HasEvents,
}
use sevmgr.EventQueueManager
use sevmgr.EventQueueManager.Refinement.{
  is_break, every, run-PlaysFrom, Selects, select-Selects, pop_event-PlaysFrom, command_add-Adds,
}
use sevmgr.EventQueueManager.Refinement.Additions.{
  AddsAll, sample_events, build_sample_queue-AddsAll,
}
use sevmgr.JsonExport.{json_export_event_queue as export_event_queue}
use sevmgr.Service
use sevmgr.Service.{
  Service, Session, ServiceContext, on_event_queue, on_frame, on_service, get_service_context,
  run_on_queue, run_on_frame, put_queue, put_frame, new_service,
}
use sevmgr.Service.Keeping.{SessionIsValid, OnSession, OnContext, OnQueue}
use sevmgr.Service.Serving.{serving, serving_to}
use sevmgr.Service.Refinement.Lifting.{
  Back, frame-Back, context-Back, queue-Back, drop-Leaves, query-Back, looks-Back, contexts-Keeps,
}
use sevmgr.Service.Requests.{
  Request, perform, pops, runs, selects, adds, resets, adds_status, updates_status, builds_sample,
  asks_done, asks_progress, asks_size, asks_expected, asks_expected_of, asks_actual, asks_actual_of,
  asks_status, asks_status_of, asks_key, asks_list, asks_list_of, asks_queue, asks_booking,
  asks_stdair, exports_queue, exports_event, handles_json, json_handler_cases,
}
use sevmgr.Service.Requests.Grading.{export_queue-Keeps, status-Keeps, expected-Keeps, actual-Keeps}
use sevmgr.Service.Requests.Histories.{EndsIn, EndsIn-Leaves, Reach, fresh-Reach-IsValid}

module _ (s : Stdair) where
  open s use {Event, Moment}

  -- The agenda changes as given, and the event of the client stays.
  abbrev pub OnAgenda : (Agenda s → Agenda s → Type 0) → Frame s → Frame s → Type 0
  OnAgenda R f g = R (agenda s f.queue) (agenda s g.queue) × (g.event ≡ f.event)

  abbrev pub Clears : Agenda s → Agenda s → Type 0
  Clears a b = (i : ℕ) → b i ≡ none

  -- The specification of each request. Those that play events go on to the first event behind which
  -- they halt, or to the end of the queue, and those that read change nothing at all.
  abbrev pub Answers : Option s.Service → Request s → Frame s → Frame s → Type 0
  Answers service pops f g = PlaysFrom s false (every s) f g
  Answers service runs f g = PlaysFrom s (s.bkg_req == s.brk_pt) (is_break s) f g
  Answers service (selects time) f g = Selects s time f g
  Answers service adds f g = Adds s f g
  Answers service resets f g = OnAgenda Clears f g
  Answers service (adds_status k n) f g = OnAgenda (Same s) f g
  Answers service (updates_status k n) f g = OnAgenda (Same s) f g
  Answers service builds_sample f g = OnAgenda (AddsAll s (sample_events s service)) f g
  Answers service _ f g = f ≡ g

  -- The session after a request has the same context, but for the queue.
  abbrev pub SessionAnswers : ServiceContext s → Request s → Frame s → Session s → Type 0
  SessionAnswers c r f τ = Back s c (Answers c.stdair_service r f) τ

  on_agenda :
      {A : Type 0} (R : Agenda s → Agenda s → Type 0) (f : Frame s) (r : Result (EventQueue s) A)
      → Leaves (λ q. R (agenda s f.queue) (agenda s q)) r
      → Leaves (λ q. OnAgenda R f (record { queue = q; event = f.event })) r
  on_agenda R f r h =
      Leaves-weaken (λ q. R (agenda s f.queue) (agenda s q))
        (λ q. OnAgenda R f (record { queue = q; event = f.event })) r (λ q k. (k, refl)) h

  same :
      {A : Type 0} (f : Frame s) (r : Result (EventQueue s) A)
      → Leaves (HasEvents s f.queue.event_list) r
      → Leaves (λ q. OnAgenda (Same s) f (record { queue = q; event = f.event })) r
  same f r h = on_agenda (Same s) f r (
      Leaves-weaken (HasEvents s f.queue.event_list) (λ q. Same s (agenda s f.queue) (agenda s q)) r
        (λ q k i. ap (find i) k) h)

  json_handler-Keeps :
      (c : ServiceContext s) (f : Frame s) (text : List ℕ)
      → Keeps (λ v. v ≡ serving s c f.queue) (Service.json_handler s text)
  unfolding Service.json_export_event_queue get_service_context
  json_handler-Keeps c f text = record {
    at = λ v h.
        subst (λ u. Leaves (λ v. v ≡ serving s c f.queue) (Service.json_handler s text u)) (sym h)
          (elim (json_handler_cases s text (serving s c f.queue)) [
            | inl (answer, answered) ↦
                subst (Leaves (λ v. v ≡ serving s c f.queue)) (sym answered) refl
            | inr (k, listed) ↦ subst (Leaves (λ v. v ≡ serving s c f.queue)) (sym listed) (
                zoom_result-Leaves (λ q. q ≡ f.queue) (λ v. v ≡ serving s c f.queue)
                  (λ v q. put_queue s v (record c { event_queue = some f.queue }) q)
                  (serving s c f.queue) (export_event_queue s c.stdair_service k f.queue)
                  (λ q same. ap (serving s c) same)
                  ((export_queue-Keeps s c.stdair_service k).at f.queue refl))
          ]);
  }

  pub perform-Answers :
      (r : Request s) (c : ServiceContext s) (f : Frame s)
      → FrameIsValid s f
      → Leaves (SessionAnswers c r f) (perform s r (serving_to s c f))
  unfolding perform Service.pop_event Service.run Service.select Service.add_event Service.reset
      Service.add_status Service.update_status Service.build_sample_queue Service.is_queue_done
      Service.has_progress_status Service.get_queue_size Service.get_expected_total_number
      Service.get_expected_total_number_of Service.get_actual_total_number
      Service.get_actual_total_number_of Service.get_status Service.get_status_of
      Service.describe_key Service.list Service.list_of Service.get_event_queue
      Service.build_sample_booking_request Service.get_stdair_service
      Service.json_export_event_queue Service.json_export_event EventQueueManager.reset
      EventQueueManager.add_status EventQueueManager.update_status EventQueue.reset find
      EventQueueManager.get_expected_total_number_of EventQueueManager.get_actual_total_number_of
      EventQueueManager.get_status_of EventQueueManager.build_sample_booking_request on_event_queue
      get_service_context
  perform-Answers pops c f v =
      drop-Leaves s (SessionAnswers c pops f) (Service.pop_event s (serving_to s c f)) (
        frame-Back s c (PlaysFrom s false (every s) f) (EventQueueManager.pop_event s) f
          (pop_event-PlaysFrom s f v))
  perform-Answers runs c f v = frame-Back s c _ (EventQueueManager.run s) f (run-PlaysFrom s f v)
  perform-Answers (selects time) c f v =
      drop-Leaves s (SessionAnswers c (selects time) f) (Service.select s time (serving_to s c f)) (
        frame-Back s c (Selects s time f) (EventQueueManager.select s time) f
          (select-Selects s time f v))
  perform-Answers adds c f v =
      frame-Back s c _ (EventQueueManager.add_event s) f (command_add-Adds s f v)
  perform-Answers resets c f v =
      (record f { queue = EventQueue.reset s f.queue }, refl, ((λ i. refl), refl))
  perform-Answers (adds_status k n) c f v =
      queue-Back s c _ (EventQueueManager.add_status s k n) f (
        same f (Statuses.add_status s k (s.real_of_count n) f.queue)
          (add_status-HasEvents s f.queue.event_list k (s.real_of_count n) f.queue refl))
  perform-Answers (updates_status k n) c f v =
      queue-Back s c _ (EventQueueManager.update_status s k n) f (
        same f (Statuses.update_status_nb s k (s.real_of_count n) f.queue)
          (update_status_nb-HasEvents s f.queue.event_list k (s.real_of_count n) f.queue refl))
  perform-Answers builds_sample c f v =
      context-Back s c _ (EventQueueManager.build_sample_queue s) f (
        on_agenda (AddsAll s (sample_events s c.stdair_service)) f
          (EventQueueManager.build_sample_queue s c.stdair_service f.queue)
          (Returns-Leaves
            (λ q. AddsAll s (sample_events s c.stdair_service) (agenda s f.queue) (agenda s q))
            (EventQueueManager.build_sample_queue s c.stdair_service f.queue)
            (build_sample_queue-AddsAll s c.stdair_service f.queue v)))
  perform-Answers asks_done c f v = (f, refl, refl)
  perform-Answers (asks_progress k) c f v = (f, refl, refl)
  perform-Answers asks_size c f v = (f, refl, refl)
  perform-Answers asks_expected c f v = (f, refl, refl)
  perform-Answers (asks_expected_of k) c f v =
      query-Back s c f (λ _. EventQueueManager.get_expected_total_number_of s k)
        ((expected-Keeps s k).at f.queue refl)
  perform-Answers asks_actual c f v = (f, refl, refl)
  perform-Answers (asks_actual_of k) c f v =
      query-Back s c f (λ _. EventQueueManager.get_actual_total_number_of s k)
        ((actual-Keeps s k).at f.queue refl)
  perform-Answers asks_status c f v = (f, refl, refl)
  perform-Answers (asks_status_of k) c f v =
      query-Back s c f (λ _. EventQueueManager.get_status_of s k)
        ((status-Keeps s k).at f.queue refl)
  perform-Answers asks_key c f v = (f, refl, refl)
  perform-Answers asks_list c f v = (f, refl, refl)
  perform-Answers (asks_list_of k) c f v = (f, refl, refl)
  perform-Answers asks_queue c f v = (f, refl, refl)
  perform-Answers (asks_booking b) c f v =
      looks-Back s c f (Service.build_sample_booking_request s b) (
        contexts-Keeps s c f (λ o. EventQueueManager.build_sample_booking_request s o b)
          (Keeps-bind _ _ (Keeps-dereference c.stdair_service)
            λ x. Keeps-pure (s.build_sample_booking_request x b)))
  perform-Answers asks_stdair c f v =
      looks-Back s c f (Service.get_stdair_service s)
        (contexts-Keeps s c f dereference (Keeps-dereference c.stdair_service))
  perform-Answers (exports_queue k) c f v =
      query-Back s c f (λ service. export_event_queue s service k)
        ((export_queue-Keeps s c.stdair_service k).at f.queue refl)
  perform-Answers (exports_event e) c f v = looks-Back s c f (Service.json_export_event s e) (
      contexts-Keeps s c f (λ o. dereference o >>= λ x. pure (s.json_export_event_object x e))
        (Keeps-bind _ _ (Keeps-dereference c.stdair_service)
          λ x. Keeps-pure (s.json_export_event_object x e)))
  perform-Answers (handles_json text) c f v =
      looks-Back s c f (Service.json_handler s text) (json_handler-Keeps c f text)

  -- A session that is valid has a context and a queue.
  queue_frame :
      (σ : Session s) (c : ServiceContext s) (o : Option (EventQueue s))
      → σ.service.context ≡ some (record c { event_queue = o })
      → OnQueue s ⊥ (IsValid s) o
      → (f : Frame s) × (σ ≡ serving_to s c f) × FrameIsValid s f
  queue_frame σ c none h v = absurd v
  queue_frame σ c (some q) h v = (
    record { queue = q; event = σ.event },
    ap (λ k. record { service = record { context = k }; event = σ.event }) h,
    v,
  )

  -- The specification of a request between two sessions.
  abbrev pub Refines : Request s → Session s → Session s → Type 0
  Refines r σ τ =
      (c : ServiceContext s) × (f : Frame s) × (σ ≡ serving_to s c f) × SessionAnswers c r f τ

  refined :
      (r : Request s) (σ τ : Session s) (o : Option (ServiceContext s))
      → σ.service.context ≡ o
      → OnContext s ⊥ (IsValid s) o
      → EndsIn s (perform s r σ) τ
      → Refines r σ τ
  refined r σ τ none h v e = absurd v
  refined r σ τ (some c) h v e =
      let (f, same, valid) = queue_frame σ c c.event_queue h v in
      (
        c,
        f,
        same,
        EndsIn-Leaves s (SessionAnswers c r f) (perform s r (serving_to s c f)) τ
            (subst (λ ρ. EndsIn s (perform s r ρ) τ) same e) (perform-Answers r c f valid),
      )

  -- From a new service, whatever a client has done before, each request that returns or throws does
  -- what its specification says of the agenda of the queue and of the event of the client, and
  -- changes nothing of the service but its queue. `popEvent` takes the earliest event away, if there
  -- is one. `run` takes the earliest events away, one after another, up to and including the first
  -- break point or the first event whose type has no progress status, or all of them if there is
  -- neither; no event at all if `BKG_REQ` is `BRK_PT`. `select` does so with the first
  -- event of the date-time asked for in place of the break point, if there is an event at the time stamp of the date-time, and changes
  -- nothing otherwise; it takes none away for `DEFAULT_EVENT_OLDEST_DATETIME`. These three hand over
  -- the last event taken away, and leave the same types with a progress status. `addEvent` moves the
  -- event to the first free one of the time stamps that it is postponed to, and enters it there.
  -- `buildSampleQueue` enters its four events so, one after another; `reset` clears the agenda; the
  -- updates of the statuses leave it as it is, and every other request changes nothing at all.
  pub fresh-Reach-Refines :
      (stdair : s.Service) (own : Bool) (e : Event) (v : Service s) (σ τ : Session s)
      (r : Request s)
      → new_service s stdair own ≡ done tt v
      → Reach s (record { service = v; event = e }) σ
      → EndsIn s (perform s r σ) τ
      → Refines r σ τ
  fresh-Reach-Refines stdair own e v σ τ r made reached ends =
      refined r σ τ σ.service.context refl (fresh-Reach-IsValid s stdair own e v σ made reached)
        ends
