-- ===== src/Service.antt =====
-- sevmgr/SEVMGR_Service.hpp, sevmgr/service/SEVMGR_Service.cpp and SEVMGR_ServiceContext: the
-- service, which checks that it is initialised and hands each call on to the command. The logging
-- and database parameters of the constructors serve to make the StdAir service, which is an
-- argument here.
pub mod Requests
pub mod Keeping
pub mod Contexts
pub mod Serving
pub mod Bounds
pub mod Refinement
pub mod Store
use sevmgr.Prelude.{
  ℕ, Bool, true, false, Option, none, some, List, [], ◌∷◌, ◌++◌, ℤ, Exec, Result, done, raised,
  aborted, undefined, diverged, non_initialised_service, pure, throw, ◌>>=◌, ◌>>◌, gets, modify,
  zoom, zoom_result, dereference, codes, ◌==◌, if◌then◌else◌,
}
use sevmgr.Stdair.{Stdair}
use sevmgr.EventQueue.{EventQueue, Frame, new_event_queue, default_event_queue_id}
use sevmgr.EventQueueManager
use sevmgr.JsonExport.{json_export_event_queue as export_event_queue}

module _ (s : Stdair) where
  open s use {
    Event, Status, StatusSet, Moment, Booking, last_value, json_import_command,
    json_import_event_type, event_list_command, get_command_label, json_export_event_object,
  }

  -- `SEVMGR_ServiceContext`. A pointer that may be null is an option.
  pub record ServiceContext : Type 0 where
    pub stdair_service : Option s.Service
    pub own_stdair_service : Bool
    pub event_queue : Option (EventQueue s)

  -- `SEVMGR_Service`, and the service beside the `EventStruct` that its caller passes by reference.
  pub record Service : Type 0 where
    pub context : Option ServiceContext

  pub record Session : Type 0 where
    pub service : Service
    pub event : Event

  -- The constructor of the context makes the queue, with the key "EQ01". The flag has no value yet;
  -- it is set before it is read.
  unfoldable pub new_service_context : ServiceContext
  new_service_context = record {
    stdair_service = none;
    own_stdair_service = false;
    event_queue = some (new_event_queue s (default_event_queue_id s));
  }

  unfoldable pub set_stdair_service : Option s.Service → Bool → ServiceContext → ServiceContext
  set_stdair_service service own c = record c { stdair_service = service; own_stdair_service = own }

  unfoldable pub init_service_context : Service → Service
  unfolding new_service_context
  init_service_context v = record v { context = some new_service_context }

  unfoldable pub add_stdair_service : Option s.Service → Bool → Exec Service (Unit {0})
  add_stdair_service service own v = elim v.context [
    | none ↦ aborted
    | some c ↦ done tt (record v { context = some (set_stdair_service service own c) })
  ]

  -- The constructors: the service owns the StdAir service that it makes, and not one that it is
  -- given.
  unfoldable pub new_service : s.Service → Bool → Result Service (Unit {0})
  unfolding init_service_context add_stdair_service set_stdair_service
  new_service service own =
      add_stdair_service (some service) own (init_service_context (record { context = none }))

  -- `SEVMGR_ServiceContext::reset`, and `finalise`, which the destructor calls.
  unfoldable pub reset_context : ServiceContext → ServiceContext
  reset_context c = record c { stdair_service = none }

  unfoldable pub finalise : Exec Service (Unit {0})
  unfolding reset_context
  finalise v = elim v.context [
    | none ↦ aborted
    | some c ↦ done tt (record v { context = some (reset_context c) })
  ]

  -- "Retrieve the SEvMgr service context": every method begins so.
  unfoldable pub get_service_context : Exec Service ServiceContext
  get_service_context v = elim v.context [
    | none ↦ raised non_initialised_service v
    | some c ↦ done c v
  ]

  -- `SEVMGR_ServiceContext::getEventQueue`, and a method run on the queue.
  abbrev pub put_queue : Service → ServiceContext → EventQueue s → Service
  put_queue v c q = record v { context = some (record c { event_queue = some q }) }

  abbrev pub run_on_queue :
      {A : Type 0} → Exec (EventQueue s) A → ServiceContext → Option (EventQueue s) → Exec Service A
  run_on_queue m c none v = aborted
  run_on_queue m c (some q) v = zoom_result (λ _ q'. put_queue v c q') v (m q)

  unfoldable pub on_event_queue : {A : Type 0} → Exec (EventQueue s) A → Exec Service A
  unfolding get_service_context
  on_event_queue m = do c ← get_service_context; run_on_queue m c c.event_queue

  -- The queue behind the reference that is returned, as it is then.
  unfoldable pub get_event_queue : Exec Service (EventQueue s)
  unfolding on_event_queue
  get_event_queue = on_event_queue (gets (λ q. q))

  unfoldable pub is_queue_done : Exec Service Bool
  unfolding on_event_queue
  is_queue_done = on_event_queue (gets (EventQueueManager.is_queue_done s))

  unfoldable pub has_progress_status : ℕ → Exec Service Bool
  unfolding on_event_queue
  has_progress_status k = on_event_queue (gets (EventQueueManager.has_progress_status s k))

  unfoldable pub get_queue_size : Exec Service ℤ
  unfolding on_event_queue
  get_queue_size = on_event_queue (gets (EventQueueManager.get_queue_size s))

  unfoldable pub reset : Exec Service (Unit {0})
  unfolding on_event_queue
  reset = on_event_queue (EventQueueManager.reset s)

  unfoldable pub update_status : ℕ → ℤ → Exec Service (Unit {0})
  unfolding on_event_queue
  update_status k n = on_event_queue (EventQueueManager.update_status s k n)

  unfoldable pub add_status : ℕ → ℤ → Exec Service (Unit {0})
  unfolding on_event_queue
  add_status k n = on_event_queue (EventQueueManager.add_status s k n)

  unfoldable pub get_expected_total_number : Exec Service ℤ
  unfolding on_event_queue
  get_expected_total_number = on_event_queue (gets (EventQueueManager.get_expected_total_number s))

  unfoldable pub get_expected_total_number_of : ℕ → Exec Service ℤ
  unfolding on_event_queue
  get_expected_total_number_of k =
      on_event_queue (EventQueueManager.get_expected_total_number_of s k)

  unfoldable pub get_actual_total_number : Exec Service ℤ
  unfolding on_event_queue
  get_actual_total_number = on_event_queue (gets (EventQueueManager.get_actual_total_number s))

  unfoldable pub get_actual_total_number_of : ℕ → Exec Service ℤ
  unfolding on_event_queue
  get_actual_total_number_of k = on_event_queue (EventQueueManager.get_actual_total_number_of s k)

  unfoldable pub get_status : Exec Service Status
  unfolding on_event_queue
  get_status = on_event_queue (gets (EventQueueManager.get_status s))

  unfoldable pub get_status_of : ℕ → Exec Service Status
  unfolding on_event_queue
  get_status_of k = on_event_queue (EventQueueManager.get_status_of s k)

  unfoldable pub describe_key : Exec Service (List ℕ)
  unfolding on_event_queue
  describe_key = on_event_queue (gets (EventQueueManager.describe_key s))

  unfoldable pub list : Exec Service (List ℕ)
  unfolding on_event_queue
  list = on_event_queue (gets (EventQueueManager.list s))

  unfoldable pub list_of : ℕ → Exec Service (List ℕ)
  unfolding on_event_queue
  list_of k = on_event_queue (gets (λ q. EventQueueManager.list_of s q k))

  unfoldable pub get_stdair_service : Exec Service s.Service
  unfolding get_service_context
  get_stdair_service = do c ← get_service_context; dereference c.stdair_service

  unfoldable pub build_sample_booking_request : Bool → Exec Service Booking
  unfolding get_service_context
  build_sample_booking_request is_for_crs = do
    c ← get_service_context
    EventQueueManager.build_sample_booking_request s c.stdair_service is_for_crs

  unfoldable pub build_sample_queue : Exec Service (Unit {0})
  unfolding get_service_context
  build_sample_queue = do
    c ← get_service_context
    run_on_queue (EventQueueManager.build_sample_queue s c.stdair_service) c c.event_queue

  -- `jsonExportEventQueue`, whose default argument is `LAST_VALUE`.
  unfoldable pub json_export_event_queue : ℕ → Exec Service (List ℕ)
  unfolding get_service_context
  json_export_event_queue k = do
    c ← get_service_context
    run_on_queue (export_event_queue s c.stdair_service k) c c.event_queue

  unfoldable pub json_export_event : Event → Exec Service (List ℕ)
  unfolding get_service_context
  json_export_event e = do
    c ← get_service_context
    stdair ← dereference c.stdair_service
    pure (json_export_event_object stdair e)

  -- The event type is the one that the text names, or `LAST_VALUE`.
  abbrev pub or_last_value : Option ℕ → ℕ
  or_last_value none = last_value
  or_last_value (some k) = k

  -- The answers to a text that is not understood, and to a command that is not handled.
  abbrev pub wrong_text : List ℕ
  wrong_text =
      codes "{\"error\": \"Wrong JSON-ified string: " ++ codes "the command is not understood.\"}"

  abbrev pub unhandled_text : ℕ → List ℕ
  unhandled_text command =
      codes "{\"error\": \"The command '"
      ++ (get_command_label command ++ codes "' is not handled by the DSim service.\"}")

  unfoldable pub json_handler : List ℕ → Exec Service (List ℕ)
  unfolding json_export_event_queue
  json_handler text v = elim (json_import_command text) [
    | none ↦ done wrong_text v
    | some command ↦
        if command == event_list_command
        then json_export_event_queue (or_last_value (json_import_event_type text)) v
        else done (unhandled_text command) v
  ]

  -- A method of the queue with the event of the caller, run on the session.
  abbrev pub put_frame : Session → ServiceContext → Frame s → Session
  put_frame σ c f = record { service = put_queue σ.service c f.queue; event = f.event }

  abbrev pub run_on_frame :
      {A : Type 0} → Exec (Frame s) A → ServiceContext → Option (EventQueue s) → Exec Session A
  run_on_frame m c none σ = aborted
  run_on_frame m c (some q) σ =
      zoom_result (λ _ f. put_frame σ c f) σ (m (record { queue = q; event = σ.event }))

  abbrev pub on_service : {A : Type 0} → Exec Service A → Exec Session A
  on_service = zoom (λ σ. σ.service) (λ σ v. record σ { service = v })

  unfoldable pub on_frame : {A : Type 0} → Exec (Frame s) A → Exec Session A
  unfolding get_service_context
  on_frame m = do c ← on_service get_service_context; run_on_frame m c c.event_queue

  unfoldable pub pop_event : Exec Session StatusSet
  unfolding on_frame
  pop_event = on_frame (EventQueueManager.pop_event s)

  unfoldable pub run : Exec Session (Unit {0})
  unfolding on_frame
  run = on_frame (EventQueueManager.run s)

  unfoldable pub select : Moment → Exec Session Bool
  unfolding on_frame
  select time = on_frame (EventQueueManager.select s time)

  unfoldable pub add_event : Exec Session (Unit {0})
  unfolding on_frame
  add_event = on_frame (EventQueueManager.add_event s)
