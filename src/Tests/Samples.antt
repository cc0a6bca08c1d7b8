-- ===== src/Tests/Samples.antt =====
-- A small StdAir: an event is its type, its time stamp and its date-time in milliseconds, a
-- progress status three integers, and a `double` an integer.
use sevmgr.Prelude.{
  done, true, false, ℕ, ◌+◌, ◌-◌, ◌*◌, ◌^◌, ◌==◌, ◌≡◌, refl, Option, none, some, List, [], ◌∷◌,
  ◌++◌, ℤ, pos, ◌+ℤ◌, fits_int, IsInt, if◌then◌else◌, codes,
}
use sevmgr.CommandLine.{Variables, ProgramOptions}
use sevmgr.Stdair.{Stdair}
use sevmgr.Stdair.Laws.{EventLaws, StatusLaws, RealLaws}
use sevmgr.EventQueue.{EventQueue, Frame}
use sevmgr.Service.{ServiceContext}

pub record SampleEvent : Type 0 where
  pub kind : ℕ
  pub stamp : ℕ
  pub time : ℕ

pub record SampleStatus : Type 0 where
  pub current : ℤ
  pub expected : ℤ
  pub actual : ℤ

abbrev pub int_of : ℤ → Option ℤ
int_of n = if fits_int n then some n else none

abbrev pub days : ℕ → ℕ → ℕ → ℕ
days y m d = ((y * 12 + m) * 31 + d) * 86_400_000

abbrev pub event_at : ℕ → ℕ → SampleEvent
event_at k time = record { kind = k; stamp = time - days 2010 1 1 + 2 ^ 63; time = time }

abbrev pub stdair : Stdair
stdair = record {
  Event = SampleEvent;
  get_event_type = λ e. e.kind;
  get_event_time_stamp = λ e. e.stamp;
  increment_event_time_stamp = λ e. record e { stamp = e.stamp + 1 };
  describe = λ e. b'#' ∷ [];
  bkg_req = 0;
  brk_pt = 7;
  last_value = 8;
  get_label = λ k. codes "Type";
  Status = SampleStatus;
  new_status = λ n k. record { current = pos 0; expected = n; actual = k };
  new_status_of_total = λ n. record { current = pos 0; expected = n; actual = n };
  default_progress_status = pos 0;
  get_current_nb = λ p. p.current;
  get_expected_nb = λ p. p.expected;
  get_actual_nb = λ p. p.actual;
  set_current_nb = λ n p. record p { current = n };
  set_expected_nb = λ n p. record p { expected = n };
  set_actual_nb = λ n p. record p { actual = n };
  increment = λ p. record p { current = p.current +ℤ pos 1 };
  reset_status = λ p. record p { current = pos 0 };
  StatusSet = ℕ × SampleStatus × SampleStatus;
  new_status_set = λ k. (k, no_status, no_status);
  set_type_specific_status = λ p t. (t.0, p, t.2);
  set_overall_status = λ p t. (t.0, t.1, p);
  Real = ℤ;
  real_of_count = λ n. n;
  floor = λ x. x;
  add_real = λ x y. x +ℤ y;
  count_of_real = int_of;
  progress = λ p. p.current;
  Moment = ℕ;
  Span = ℕ;
  default_event_oldest_date_time = days 2010 1 1;
  minus_moment = λ a b. a - b;
  total_milliseconds = λ d. d + 2 ^ 63;
  moment_eq = λ a b. a == b;
  get_event_time = λ e. e.time;
  Service = Unit {0};
  Booking = ℕ;
  build_sample_booking_request = λ _ b. if b then days 2010 1 22 else days 2011 5 15;
  midnight = days;
  booking_event = event_at;
  break_point_event = event_at;
  json_export_event_object = λ _ e. if e.kind == 7 then [] else b'{' ∷ [];
  json_import_command = λ text. elim text [ [] ↦ none | c ∷ r ↦ some c ];
  json_import_event_type = λ text. none;
  event_list_command = 1;
  get_command_label = λ c. codes "command";
  Tree = List ℕ;
  empty_tree = [];
  push_back = λ k t acc. acc ++ t;
  add_child = λ k t acc. acc ++ (k ++ t);
  read_json = λ text. some text;
  write_json = λ t. t;
}
  where
    no_status : SampleStatus
    no_status = record { current = pos 0; expected = pos 0; actual = pos 0 }

pub events : EventLaws stdair
events = record {
  increment_stamp = λ e h. refl;
  increment_type = λ e. refl;
  booking_type = λ k b. refl;
  break_point_type = λ k t. refl;
}

pub statuses : StatusLaws stdair
statuses = record {
  default_zero = refl;
  new_current = λ n k. refl;
  new_expected = λ n k. refl;
  new_actual = λ n k. refl;
  total_current = λ n. refl;
  total_expected = λ n. refl;
  total_actual = λ n. refl;
  set_current = λ n p. refl;
  set_current_expected = λ n p. refl;
  set_current_actual = λ n p. refl;
  set_expected = λ n p. refl;
  set_expected_current = λ n p. refl;
  set_expected_actual = λ n p. refl;
  set_actual = λ n p. refl;
  set_actual_current = λ n p. refl;
  set_actual_expected = λ n p. refl;
  increment_current = λ p h. refl;
  increment_expected = λ p. refl;
  increment_actual = λ p. refl;
  reset_current = λ p. refl;
  reset_expected = λ p. refl;
}

int_of-IsInt : (n : ℤ) → IsInt n → int_of n ≡ some n
int_of-IsInt n h = rw h

pub reals : RealLaws stdair
reals = record { count_of_floor = int_of-IsInt; count_of_sum = λ n k h₁ h₂. refl }

abbrev pub status : ℕ → ℕ → SampleStatus
status n k = record { current = pos n; expected = pos k; actual = pos k }

-- Two booking requests and a break point, in three consecutive milliseconds.
abbrev pub first_event : SampleEvent
first_event = record { kind = 0; stamp = 10; time = 10 }

abbrev pub second_event : SampleEvent
second_event = record { kind = 0; stamp = 11; time = 10 }

abbrev pub break_point : SampleEvent
break_point = record { kind = 7; stamp = 12; time = 12 }

abbrev pub queue : EventQueue stdair
queue = record {
  key = codes "EQ01";
  event_list = (10, first_event) ∷ (11, second_event) ∷ (12, break_point) ∷ [];
  progress_status = status 1 5;
  progress_status_map = (0, status 1 3) ∷ (7, status 0 2) ∷ [];
}

abbrev pub new_event : SampleEvent
new_event = record { kind = 0; stamp = 10; time = 10 }

abbrev pub frame : Frame stdair
frame = record { queue = queue; event = new_event }

abbrev pub context : ServiceContext stdair
context = record { stdair_service = some tt; own_stdair_service = true; event_queue = some queue }

-- A command line without options.
abbrev pub only_log : Variables
only_log = record {
  help = false;
  version = false;
  prefix = false;
  log = some (codes "sevmgr_demo.log");
}

-- The constants of a build, and a parser that finds these options.
abbrev pub given : Variables → ProgramOptions
given vm = record {
  parse = λ _ _ _ _. done vm tt;
  describe = λ title _. title;
  package_name = codes "sevmgr";
  package_version = codes "1.00.0";
  prefix_dir = codes "/usr";
}
