-- ===== src/Shell/Platform.antt =====
-- What the shell uses of Boost and of StdAir beside `Stdair`: regular expressions, changes of case,
-- conversions of texts, and the two halves of a date-time.
use sevmgr.Prelude.{ℕ, Bool, Option, List}
use sevmgr.Stdair.{Stdair}

-- How a conversion of a text ends: by a value, by the exception `bad_month`, or by another one.
pub data Conversion (A : Type 0) : Type 0 where
  converted : A → Conversion A
  bad_month : Conversion A
  failed : Conversion A

pub record Platform (s : Stdair) : Type 1 where
  pub to_lower : List ℕ → List ℕ
  pub to_upper : List ℕ → List ℕ
  -- `regex_match (text, expression)`.
  pub regex_match : List ℕ → List ℕ → Bool
  -- The strings of the `match_results` that `regex_search` of a text leaves.
  pub regex_search : List ℕ → List ℕ → List (List ℕ)
  -- `boost::lexical_cast<unsigned short>`, `none` for `bad_lexical_cast`.
  pub lexical_cast : List ℕ → Option ℕ
  -- Dates and durations, as the halves of a date-time; their parts are values of `unsigned short`.
  pub Date : Type 0
  pub Duration : Type 0
  pub year : Date → ℕ
  pub month : Date → ℕ
  pub day : Date → ℕ
  pub hours : Duration → ℕ
  pub minutes : Duration → ℕ
  pub seconds : Duration → ℕ
  pub from_simple_string : List ℕ → Conversion Date
  pub duration_from_string : List ℕ → Conversion Duration
  pub date : s.Moment → Date
  pub time_of_day : s.Moment → Duration
  pub moment : Date → Duration → s.Moment
  -- What streams print of dates, durations and date-times; `EventType::getTypeLabelAsString`.
  pub print_date : Date → List ℕ
  pub print_duration : Duration → List ℕ
  pub print_moment : s.Moment → List ℕ
  pub get_type_label_as_string : ℕ → List ℕ
  -- `EventStruct ()`.
  pub default_event : s.Event
  -- `EventType (name)`, `none` for a `CodeConversionException`.
  pub event_type : List ℕ → Option ℕ
