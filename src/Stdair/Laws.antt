-- ===== src/Stdair/Laws.antt =====
-- What the code relies on of StdAir, as its documentation and the comments of the code put it. Each
-- record is a hypothesis of the theorems that use it.
use sevmgr.Prelude.{ℕ, ◌+◌, ◌<◌, ◌^◌, ◌≡◌, none, some, if◌then◌else◌, ℤ, pos, ◌+ℤ◌, fits_int, IsInt}
use sevmgr.Stdair.{Stdair}

module _ (s : Stdair) where
  open s use {
    Event, Status, Real, get_event_type, get_event_time_stamp, increment_event_time_stamp,
    new_status, new_status_of_total, default_progress_status, get_current_nb, get_expected_nb,
    get_actual_nb, set_current_nb, set_expected_nb, set_actual_nb, increment, reset_status,
    real_of_count, floor, add_real, count_of_real,
  }

  -- The next free time stamp is one millisecond later, as long as it fits 64 bits; the event is
  -- otherwise the same.
  pub record EventLaws : Type 0 where
    pub increment_stamp :
        (e : Event)
        → get_event_time_stamp e + 1 < 2 ^ 64
        → get_event_time_stamp (increment_event_time_stamp e) ≡ get_event_time_stamp e + 1
    pub increment_type :
        (e : Event) → get_event_type (increment_event_time_stamp e) ≡ get_event_type e
    -- An event has the type that its constructor is given.
    pub booking_type : (k : ℕ) (b : s.Booking) → get_event_type (s.booking_event k b) ≡ k
    pub break_point_type : (k : ℕ) (t : s.Moment) → get_event_type (s.break_point_event k t) ≡ k

  -- A progress status is three counters.
  pub record StatusLaws : Type 0 where
    pub default_zero : default_progress_status ≡ pos 0
    pub new_current : (n k : ℤ) → get_current_nb (new_status n k) ≡ pos 0
    pub new_expected : (n k : ℤ) → get_expected_nb (new_status n k) ≡ n
    pub new_actual : (n k : ℤ) → get_actual_nb (new_status n k) ≡ k
    pub total_current : (n : ℤ) → get_current_nb (new_status_of_total n) ≡ pos 0
    pub total_expected : (n : ℤ) → get_expected_nb (new_status_of_total n) ≡ n
    pub total_actual : (n : ℤ) → get_actual_nb (new_status_of_total n) ≡ n
    pub set_current : (n : ℤ) (p : Status) → get_current_nb (set_current_nb n p) ≡ n
    pub set_current_expected :
        (n : ℤ) (p : Status) → get_expected_nb (set_current_nb n p) ≡ get_expected_nb p
    pub set_current_actual :
        (n : ℤ) (p : Status) → get_actual_nb (set_current_nb n p) ≡ get_actual_nb p
    pub set_expected : (n : ℤ) (p : Status) → get_expected_nb (set_expected_nb n p) ≡ n
    pub set_expected_current :
        (n : ℤ) (p : Status) → get_current_nb (set_expected_nb n p) ≡ get_current_nb p
    pub set_expected_actual :
        (n : ℤ) (p : Status) → get_actual_nb (set_expected_nb n p) ≡ get_actual_nb p
    pub set_actual : (n : ℤ) (p : Status) → get_actual_nb (set_actual_nb n p) ≡ n
    pub set_actual_current :
        (n : ℤ) (p : Status) → get_current_nb (set_actual_nb n p) ≡ get_current_nb p
    pub set_actual_expected :
        (n : ℤ) (p : Status) → get_expected_nb (set_actual_nb n p) ≡ get_expected_nb p
    pub increment_current :
        (p : Status)
        → IsInt (get_current_nb p +ℤ pos 1)
        → get_current_nb (increment p) ≡ get_current_nb p +ℤ pos 1
    pub increment_expected : (p : Status) → get_expected_nb (increment p) ≡ get_expected_nb p
    pub increment_actual : (p : Status) → get_actual_nb (increment p) ≡ get_actual_nb p
    -- "Reset only the current number of events, not the expected one".
    pub reset_current : (p : Status) → get_current_nb (reset_status p) ≡ pos 0
    pub reset_expected : (p : Status) → get_expected_nb (reset_status p) ≡ get_expected_nb p

  -- A `double` holds every `int`, and the sum of two, exactly.
  pub record RealLaws : Type 0 where
    pub count_of_floor : (n : ℤ) → IsInt n → count_of_real (floor (real_of_count n)) ≡ some n
    pub count_of_sum :
        (n k : ℤ)
        → IsInt n
        → IsInt k
        → count_of_real (add_real (real_of_count n) (real_of_count k))
          ≡ (if fits_int (n +ℤ k) then some (n +ℤ k) else none)
