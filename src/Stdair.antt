-- ===== src/Stdair.antt =====
-- The types and methods of the StdAir library (`stdair::`), and of the Boost date-times that it
-- passes on and its property trees, which the code calls. They are not part of the repository: the
-- model takes them as an argument, and what a theorem relies on is a law of Stdair/Laws.antt.
pub mod Laws
use sevmgr.Prelude.{ℕ, Bool, Option, List, ℤ}

pub record Stdair : Type 1 where
  -- `EventStruct`. An enumerator of `EventType::EN_EventType` is read as its integer value, and a
  -- 64-bit time stamp (`LongDuration_T`, milliseconds) as its value plus 2^63, so that both have
  -- the order of ℕ.
  pub Event : Type 0
  pub get_event_type : Event → ℕ
  pub get_event_time_stamp : Event → ℕ
  pub increment_event_time_stamp : Event → Event
  pub describe : Event → List ℕ
  -- `EventType::BKG_REQ`, `BRK_PT`, `LAST_VALUE` and `getLabel`.
  pub bkg_req : ℕ
  pub brk_pt : ℕ
  pub last_value : ℕ
  pub get_label : ℕ → List ℕ
  -- `ProgressStatus`: its constructor from the expected and the actual number, the one from a total
  -- for both, its accessors, `operator++`, `reset()` and `progress()`; `DEFAULT_PROGRESS_STATUS`.
  pub Status : Type 0
  pub new_status : ℤ → ℤ → Status
  pub new_status_of_total : ℤ → Status
  pub default_progress_status : ℤ
  pub get_current_nb : Status → ℤ
  pub get_expected_nb : Status → ℤ
  pub get_actual_nb : Status → ℤ
  pub set_current_nb : ℤ → Status → Status
  pub set_expected_nb : ℤ → Status → Status
  pub set_actual_nb : ℤ → Status → Status
  pub increment : Status → Status
  pub reset_status : Status → Status
  -- `ProgressStatusSet`.
  pub StatusSet : Type 0
  pub new_status_set : ℕ → StatusSet
  pub set_type_specific_status : Status → StatusSet → StatusSet
  pub set_overall_status : Status → StatusSet → StatusSet
  -- `NbOfEvents_T`, a `double`: the conversions, `std::floor` and the addition. A conversion to
  -- `int` of a value that does not fit is undefined behaviour, and gives `none`.
  pub Real : Type 0
  pub real_of_count : ℤ → Real
  pub floor : Real → Real
  pub add_real : Real → Real → Real
  pub count_of_real : Real → Option ℤ
  pub progress : Status → Real
  -- `DateTime_T` and `Duration_T`: the comparison, the difference and `total_milliseconds()`, which
  -- is shifted by 2^63 as the time stamps are; `DEFAULT_EVENT_OLDEST_DATETIME`.
  pub Moment : Type 0
  pub Span : Type 0
  pub default_event_oldest_date_time : Moment
  pub minus_moment : Moment → Moment → Span
  pub total_milliseconds : Span → ℕ
  pub moment_eq : Moment → Moment → Bool
  pub get_event_time : Event → Moment
  -- `STDAIR_Service`, and what the sample queue is made of: `buildSampleBookingRequest`, the
  -- date-time of a year, month and day at midnight, and the constructors of `EventStruct`.
  pub Service : Type 0
  pub Booking : Type 0
  pub build_sample_booking_request : Service → Bool → Booking
  pub midnight : ℕ → ℕ → ℕ → Moment
  pub booking_event : ℕ → Booking → Event
  pub break_point_event : ℕ → Moment → Event
  -- JSON: `STDAIR_Service::jsonExportEventObject`; `BomJSONImport::jsonImportCommand` and
  -- `jsonImportEventType`, `none` if they return false; `JSonCommand::EVENT_LIST` and `getLabel`.
  pub json_export_event_object : Service → Event → List ℕ
  pub json_import_command : List ℕ → Option ℕ
  pub json_import_event_type : List ℕ → Option ℕ
  pub event_list_command : ℕ
  pub get_command_label : ℕ → List ℕ
  -- Boost's property trees: the empty tree, `push_back` of a key and a tree, `add_child`, and the
  -- JSON reader, which fails by an exception, and writer.
  pub Tree : Type 0
  pub empty_tree : Tree
  pub push_back : List ℕ → Tree → Tree → Tree
  pub add_child : List ℕ → Tree → Tree → Tree
  pub read_json : List ℕ → Option Tree
  pub write_json : Tree → List ℕ
