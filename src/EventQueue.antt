-- ===== src/EventQueue.antt =====
-- sevmgr/bom/EventQueue.hpp and EventQueue.cpp: the state of an event queue, its constructors and
-- the accessors of its overall status. The parent pointer and the map of children, which no method
-- of the class reads but their accessors, are left out.
pub mod Statuses
pub mod Events
pub mod Display
pub mod Validity
pub mod Refinement
pub mod Totals
pub mod Balance
pub mod Bounds
use sevmgr.Prelude.{int_of_size, ℕ, Bool, List, [], ◌∷◌, ℤ, length, is_empty, Exec, aborted}
use sevmgr.OrderedMap.{map_values}
use sevmgr.Stdair.{Stdair}

module _ (s : Stdair) where
  open s use {
    Event, Status, new_status, default_progress_status, get_current_nb, get_expected_nb,
    get_actual_nb, set_current_nb, set_expected_nb, set_actual_nb, reset_status, Real, progress,
  }

  pub record EventQueue : Type 0 where
    pub key : List ℕ
    pub event_list : List (ℕ × Event)
    pub progress_status : Status
    pub progress_status_map : List (ℕ × Status)

  -- A queue beside the `EventStruct` that a caller passes by reference.
  pub record Frame : Type 0 where
    pub queue : EventQueue
    pub event : Event

  unfoldable pub new_event_queue : List ℕ → EventQueue
  new_event_queue key = record {
    key = key;
    event_list = [];
    progress_status = new_status default_progress_status default_progress_status;
    progress_status_map = [];
  }

  -- The default constructor; `DEFAULT_EVENT_QUEUE_ID` is "EQ01".
  abbrev pub default_event_queue_id : List ℕ
  default_event_queue_id = b'E' ∷ b'Q' ∷ b'0' ∷ b'1' ∷ []

  unfoldable pub new_default_event_queue : EventQueue
  unfolding new_event_queue
  new_default_event_queue = new_event_queue default_event_queue_id

  -- The copy constructor fails.
  unfoldable pub copy_event_queue : EventQueue → Exec EventQueue EventQueue
  copy_event_queue other q = aborted

  unfoldable pub get_key : EventQueue → List ℕ
  get_key q = q.key

  unfoldable pub get_event_list : EventQueue → List (ℕ × Event)
  get_event_list q = q.event_list

  unfoldable pub get_overall_status : EventQueue → Status
  get_overall_status q = q.progress_status

  unfoldable pub get_overall_current_nb : EventQueue → ℤ
  get_overall_current_nb q = get_current_nb q.progress_status

  unfoldable pub get_overall_expected_nb : EventQueue → ℤ
  get_overall_expected_nb q = get_expected_nb q.progress_status

  unfoldable pub get_overall_actual_nb : EventQueue → ℤ
  get_overall_actual_nb q = get_actual_nb q.progress_status

  unfoldable pub set_overall : Status → EventQueue → EventQueue
  set_overall p q = record q { progress_status = p }

  unfoldable pub set_overall_counts : ℤ → ℤ → ℤ → EventQueue → EventQueue
  set_overall_counts current expected actual q = record q {
    progress_status =
        set_actual_nb actual (set_expected_nb expected (set_current_nb current q.progress_status));
  }

  unfoldable pub set_overall_progress : ℤ → ℤ → EventQueue → EventQueue
  set_overall_progress current actual q = record q {
    progress_status = set_actual_nb actual (set_current_nb current q.progress_status);
  }

  unfoldable pub set_overall_current_nb : ℤ → EventQueue → EventQueue
  set_overall_current_nb current q = record q {
    progress_status = set_current_nb current q.progress_status;
  }

  unfoldable pub set_overall_expected_nb : ℤ → EventQueue → EventQueue
  set_overall_expected_nb expected q = record q {
    progress_status = set_expected_nb expected q.progress_status;
  }

  unfoldable pub calculate_overall_progress : EventQueue → Real
  calculate_overall_progress q = progress q.progress_status

  unfoldable pub get_queue_size : EventQueue → ℤ
  get_queue_size q = int_of_size (length q.event_list)

  unfoldable pub is_queue_empty : EventQueue → Bool
  is_queue_empty q = is_empty q.event_list

  unfoldable pub is_queue_done : EventQueue → Bool
  is_queue_done q = is_empty q.event_list

  unfoldable pub reset : EventQueue → EventQueue
  reset q = record q {
    progress_status = reset_status q.progress_status;
    event_list = [];
    progress_status_map = map_values reset_status q.progress_status_map;
  }
