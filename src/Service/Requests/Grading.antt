-- ===== src/Service/Requests/Grading.antt =====
-- sevmgr/service/SEVMGR_Service.cpp: each request and a family of predicates of the queue, by the
-- number of events that the request adds.
use sevmgr.Prelude.{
  sym, subst, inl, inr, ℕ, ◌+◌, Option, List, [], ◌∷◌, Exec, Leaves, Keeps, Leads, Leads-bind,
  ◌>>=◌, pure, arith, gets, Keeps-bind, Keeps-pure, Keeps-dereference,
}
use sevmgr.Stdair.{Stdair}
use sevmgr.EventQueue.{EventQueue, Frame}
use sevmgr.EventQueue.Statuses.{
  get_status, get_expected_total_nb_of_events, get_actual_total_nb_of_events,
}
use sevmgr.JsonExport.{export_event, export_events, json_export_event_queue}
use sevmgr.EventQueueManager
use sevmgr.EventQueueManager.Grading.{
  OnFrame, IsGraded, run-Keeps, select-Keeps, command_pop-Keeps, command_add-Leads, reset-Keeps,
  add_status-Keeps, update_status-Keeps, build_sample_queue-Leads,
}
use sevmgr.Service
use sevmgr.Service.{
  Service, Session, ServiceContext, on_event_queue, on_frame, on_service, get_service_context,
  run_on_queue, run_on_frame,
}
use sevmgr.Service.Keeping.{
  OnQueue, OnService, OnSession, context-Leads, queue-Leads, frame-Leads, service-Leads,
  run_on_queue-Leaves,
}
use sevmgr.Service.Requests.{
  Request, perform, pops, runs, selects, adds, resets, adds_status, updates_status, builds_sample,
  asks_done, asks_progress, asks_size, asks_expected, asks_expected_of, asks_actual, asks_actual_of,
  asks_status, asks_status_of, asks_key, asks_list, asks_list_of, asks_queue, asks_booking,
  asks_stdair, exports_queue, exports_event, handles_json, json_handler_cases,
}

pub drop-Leads :
    {S A : Type 0} {P Q : S → Type 0} (m : Exec S A) → Leads P Q m → Leads P Q (m >>= λ _. pure tt)
drop-Leads m k = Leads-bind m (λ _. pure tt) (λ s h. h) k λ _. Keeps-pure tt

module _ (s : Stdair) where
  open s use {Event, Moment}

  -- The number of additions after a request, from the number before.
  abbrev pub after : Request s → ℕ → ℕ
  after pops a = a
  after runs a = a
  after (selects time) a = a
  after adds a = a + 1
  after resets a = a
  after (adds_status k n) a = a
  after (updates_status k n) a = a
  after builds_sample a = a + 4
  after asks_done a = a
  after (asks_progress k) a = a
  after asks_size a = a
  after asks_expected a = a
  after (asks_expected_of k) a = a
  after asks_actual a = a
  after (asks_actual_of k) a = a
  after asks_status a = a
  after (asks_status_of k) a = a
  after asks_key a = a
  after asks_list a = a
  after (asks_list_of k) a = a
  after asks_queue a = a
  after (asks_booking b) a = a
  after asks_stdair a = a
  after (exports_queue k) a = a
  after (exports_event e) a = a
  after (handles_json text) a = a

  -- Methods that only read keep every predicate.
  module _ {P : EventQueue s → Type 0} where
    export_event-Keeps :
        (service : Option s.Service) (k : ℕ) (e : Event) (tree : s.Tree)
        → Keeps P (export_event s {S = EventQueue s} service k e tree)
    unfolding export_event
    export_event-Keeps service k e tree = record { at = λ q h. ground arith }

    export_events-Keeps :
        (service : Option s.Service) (k : ℕ) (l : List (ℕ × Event)) (tree : s.Tree)
        → Keeps P (export_events s {S = EventQueue s} service k l tree)
    unfolding export_events
    export_events-Keeps service k [] tree = Keeps-pure tree
    export_events-Keeps service k ((t, e) ∷ l) tree =
        Keeps-bind _ _ (export_event-Keeps service k e tree)
          λ tree'. export_events-Keeps service k l tree'

    pub export_queue-Keeps :
        (service : Option s.Service) (k : ℕ) → Keeps P (json_export_event_queue s service k)
    unfolding json_export_event_queue
    export_queue-Keeps service k =
        Keeps-bind _ _
          (record { at = λ q. (export_events-Keeps service k q.event_list s.empty_tree).at q })
          λ events. Keeps-pure _

    pub status-Keeps : (k : ℕ) → Keeps P (get_status s k)
    unfolding get_status
    status-Keeps k = record { at = λ q v. ground arith }

    pub expected-Keeps : (k : ℕ) → Keeps P (get_expected_total_nb_of_events s k)
    unfolding get_expected_total_nb_of_events
    expected-Keeps k = record { at = λ q v. ground arith }

    pub actual-Keeps : (k : ℕ) → Keeps P (get_actual_total_nb_of_events s k)
    unfolding get_actual_total_nb_of_events
    actual-Keeps k = record { at = λ q v. ground arith }

module _ {s : Stdair} {P : ℕ → EventQueue s → Type 0} (graded : IsGraded s P) (E : Type 0) where
  open s use {Event, Moment}

  -- A predicate of the queue of the session, by the number of additions.
  abbrev At : ℕ → Session s → Type 0
  At a = OnSession s E (P a)

  frame-Keeps :
      {A : Type 0} (a : ℕ) (m : Exec (Frame s) A)
      → Keeps (OnFrame s (P a)) m
      → Keeps (At a) (on_frame s m)
  frame-Keeps a m k = frame-Leads s E (P a) (P a) m k

  queue-Keeps :
      {A : Type 0} (a : ℕ) (m : Exec (EventQueue s) A)
      → Keeps (P a) m
      → Keeps (At a) (on_service s (on_event_queue s m))
  queue-Keeps a m k = service-Leads s E (P a) (P a) _ (queue-Leads s E (P a) (P a) m k)

  asks-Keeps :
      {A : Type 0} (a : ℕ) (m : Exec (EventQueue s) A)
      → Keeps (P a) m
      → Keeps (At a) (on_service s (on_event_queue s m >>= λ _. pure tt))
  asks-Keeps a m k =
      service-Leads s E (P a) (P a) _ (drop-Leads _ (queue-Leads s E (P a) (P a) m k))

  -- A request that works on the context.
  context-Keeps :
      {A : Type 0} (a : ℕ) (m : ServiceContext s → Exec (Service s) A)
      → ((c : ServiceContext s) (v : Service s)
          → OnQueue s E (P a) c.event_queue
          → OnService s E (P a) v
          → Leaves (OnService s E (P a)) (m c v))
      → Keeps (At a) (on_service s ((get_service_context s >>= m) >>= λ _. pure tt))
  context-Keeps a m k =
      service-Leads s E (P a) (P a) _ (drop-Leads _ (context-Leads s E (P a) (P a) m k))

  read-Keeps : {A : Type 0} (a : ℕ) (f : EventQueue s → A) → Keeps (P a) (gets f)
  read-Keeps a f = record { at = λ q h. h }

  -- A text is refused, or asks for the events.
  json_handler-Keeps :
      (a : ℕ) (text : List ℕ) → Keeps (OnService s E (P a)) (Service.json_handler s text)
  unfolding Service.json_export_event_queue
  json_handler-Keeps a text = record {
    at = λ v h. elim (json_handler_cases s text v) [
      | inl (answer, answered) ↦ subst (Leaves (OnService s E (P a))) (sym answered) h
      | inr (k, listed) ↦ subst (Leaves (OnService s E (P a))) (sym listed) (
          (context-Leads s E (P a) (P a) _ λ c v h w.
              run_on_queue-Leaves s E (P a) (P a) _ c c.event_queue v
                (export_queue-Keeps s c.stdair_service k) h).at
            v h)
    ];
  }

  -- Every request, also one that throws.
  pub perform-Leads : (r : Request s) (a : ℕ) → Leads (At a) (At (after s r a)) (perform s r)
  unfolding perform Service.pop_event Service.run Service.select Service.add_event Service.reset
      Service.add_status Service.update_status Service.build_sample_queue Service.is_queue_done
      Service.has_progress_status Service.get_queue_size Service.get_expected_total_number
      Service.get_expected_total_number_of Service.get_actual_total_number
      Service.get_actual_total_number_of Service.get_status Service.get_status_of
      Service.describe_key Service.list Service.list_of Service.get_event_queue
      Service.build_sample_booking_request Service.get_stdair_service
      Service.json_export_event_queue Service.json_export_event
      EventQueueManager.get_expected_total_number_of EventQueueManager.get_actual_total_number_of
      EventQueueManager.get_status_of EventQueueManager.build_sample_booking_request
  perform-Leads pops a = drop-Leads _ (frame-Keeps a _ (command_pop-Keeps graded a))
  perform-Leads runs a = frame-Keeps a _ (run-Keeps graded a)
  perform-Leads (selects time) a = drop-Leads _ (frame-Keeps a _ (select-Keeps graded a time))
  perform-Leads adds a = frame-Leads s E (P a) (P (a + 1)) _ (command_add-Leads graded a)
  perform-Leads resets a = queue-Keeps a _ (reset-Keeps graded a)
  perform-Leads (adds_status k n) a = queue-Keeps a _ (add_status-Keeps graded a k n)
  perform-Leads (updates_status k n) a = queue-Keeps a _ (update_status-Keeps graded a k n)
  perform-Leads builds_sample a = service-Leads s E (P a) (P (a + 4)) _ (
      context-Leads s E (P a) (P (a + 4)) _ λ c v h w.
        run_on_queue-Leaves s E (P a) (P (a + 4)) _ c c.event_queue v
          (build_sample_queue-Leads graded a c.stdair_service) h)
  perform-Leads asks_done a = asks-Keeps a _ (read-Keeps a _)
  perform-Leads (asks_progress k) a = asks-Keeps a _ (read-Keeps a _)
  perform-Leads asks_size a = asks-Keeps a _ (read-Keeps a _)
  perform-Leads asks_expected a = asks-Keeps a _ (read-Keeps a _)
  perform-Leads (asks_expected_of k) a = asks-Keeps a _ (expected-Keeps s k)
  perform-Leads asks_actual a = asks-Keeps a _ (read-Keeps a _)
  perform-Leads (asks_actual_of k) a = asks-Keeps a _ (actual-Keeps s k)
  perform-Leads asks_status a = asks-Keeps a _ (read-Keeps a _)
  perform-Leads (asks_status_of k) a = asks-Keeps a _ (status-Keeps s k)
  perform-Leads asks_key a = asks-Keeps a _ (read-Keeps a _)
  perform-Leads asks_list a = asks-Keeps a _ (read-Keeps a _)
  perform-Leads (asks_list_of k) a = asks-Keeps a _ (read-Keeps a _)
  perform-Leads asks_queue a = asks-Keeps a _ (read-Keeps a _)
  perform-Leads (asks_booking b) a =
      context-Keeps a _
        λ c v h w. (Keeps-bind _ _ (Keeps-dereference c.stdair_service) λ x. Keeps-pure _).at v w
  perform-Leads asks_stdair a =
      context-Keeps a _ λ c v h w. (Keeps-dereference c.stdair_service).at v w
  perform-Leads (exports_queue k) a = context-Keeps a _ λ c v h w.
      run_on_queue-Leaves s E (P a) (P a) _ c c.event_queue v
        (export_queue-Keeps s c.stdair_service k) h
  perform-Leads (exports_event e) a =
      context-Keeps a _
        λ c v h w. (Keeps-bind _ _ (Keeps-dereference c.stdair_service) λ x. Keeps-pure _).at v w
  perform-Leads (handles_json text) a =
      service-Leads s E (P a) (P a) _ (drop-Leads _ (json_handler-Keeps a text))
