-- ===== src/Service/Requests.antt =====
-- sevmgr/service/SEVMGR_Service.cpp: the calls that a client makes, one after another.
pub mod Grading
pub mod Histories
use sevmgr.Prelude.{
  Bool-cases, Option-cases, ◌==◌, ◌⊎◌, inl, inr, ℕ, ◌≡◌, refl, Bool, Option, none, some, List, ℤ,
  Exec, Result, done, raised, aborted, undefined, diverged, non_initialised_service, Leaves,
  Leaves-bind, Keeps, ◌>>=◌, ◌>>◌, pure, bind_result, zoom_result, arith, gets, dereference,
  Keeps-bind, Keeps-pure, Keeps-dereference, zoom,
}
use sevmgr.Stdair.{Stdair}
use sevmgr.EventQueue.{EventQueue, Frame}
use sevmgr.EventQueueManager
use sevmgr.Service
use sevmgr.Service.{
  Service, Session, ServiceContext, on_event_queue, on_frame, on_service, get_service_context,
  run_on_queue, run_on_frame, put_queue, put_frame, new_service, wrong_text, unhandled_text,
  or_last_value,
}

module _ (s : Stdair) where
  open s use {Event, Moment}

  -- The calls of the public methods: those that may change the state, then those that read it.
  pub data Request : Type 0 where
    pops : Request
    runs : Request
    selects : Moment → Request
    adds : Request
    resets : Request
    adds_status : ℕ → ℤ → Request
    updates_status : ℕ → ℤ → Request
    builds_sample : Request
    asks_done : Request
    asks_progress : ℕ → Request
    asks_size : Request
    asks_expected : Request
    asks_expected_of : ℕ → Request
    asks_actual : Request
    asks_actual_of : ℕ → Request
    asks_status : Request
    asks_status_of : ℕ → Request
    asks_key : Request
    asks_list : Request
    asks_list_of : ℕ → Request
    asks_queue : Request
    asks_booking : Bool → Request
    asks_stdair : Request
    exports_queue : ℕ → Request
    exports_event : Event → Request
    handles_json : List ℕ → Request

  abbrev forget : {S A : Type 0} → Exec S A → Exec S (Unit {0})
  forget m = m >>= λ _. pure tt

  unfoldable pub perform : Request → Exec (Session s) (Unit {0})
  perform pops = forget (Service.pop_event s)
  perform runs = Service.run s
  perform (selects time) = forget (Service.select s time)
  perform adds = Service.add_event s
  perform resets = on_service s (Service.reset s)
  perform (adds_status k n) = on_service s (Service.add_status s k n)
  perform (updates_status k n) = on_service s (Service.update_status s k n)
  perform builds_sample = on_service s (Service.build_sample_queue s)
  perform asks_done = on_service s (forget (Service.is_queue_done s))
  perform (asks_progress k) = on_service s (forget (Service.has_progress_status s k))
  perform asks_size = on_service s (forget (Service.get_queue_size s))
  perform asks_expected = on_service s (forget (Service.get_expected_total_number s))
  perform (asks_expected_of k) = on_service s (forget (Service.get_expected_total_number_of s k))
  perform asks_actual = on_service s (forget (Service.get_actual_total_number s))
  perform (asks_actual_of k) = on_service s (forget (Service.get_actual_total_number_of s k))
  perform asks_status = on_service s (forget (Service.get_status s))
  perform (asks_status_of k) = on_service s (forget (Service.get_status_of s k))
  perform asks_key = on_service s (forget (Service.describe_key s))
  perform asks_list = on_service s (forget (Service.list s))
  perform (asks_list_of k) = on_service s (forget (Service.list_of s k))
  perform asks_queue = on_service s (forget (Service.get_event_queue s))
  perform (asks_booking b) = on_service s (forget (Service.build_sample_booking_request s b))
  perform asks_stdair = on_service s (forget (Service.get_stdair_service s))
  perform (exports_queue k) = on_service s (forget (Service.json_export_event_queue s k))
  perform (exports_event e) = on_service s (forget (Service.json_export_event s e))
  perform (handles_json text) = on_service s (forget (Service.json_handler s text))

  -- A text is answered by another one, or asks for the events of a type.
  pub json_handler_cases :
      (text : List ℕ) (v : Service s)
      → ((answer : List ℕ) × (Service.json_handler s text v ≡ done answer v))
        ⊎ ((k : ℕ) × (Service.json_handler s text v ≡ Service.json_export_event_queue s k v))
  unfolding Service.json_handler
  json_handler_cases text v = elim (Option-cases (s.json_import_command text)) [
    | inl missing ↦ inl (wrong_text s, ground (arith, missing))
    | inr (command, found) ↦ elim (Bool-cases (command == s.event_list_command)) [
      | inl events ↦
          inr (or_last_value s (s.json_import_event_type text), ground (arith, found, events))
      | inr other ↦ inl (unhandled_text s command, ground (arith, found, other))
    ]
  ]
