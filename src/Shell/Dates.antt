-- ===== src/Shell/Dates.antt =====
-- sevmgr/ui/cmdline/sevmgr.cpp, `parseEventDateTime`: the date and the time that a user asks for.
pub mod Outcomes
use sevmgr.Prelude.{
  ℕ, zero, suc, ◌+◌, Bool, true, false, Option, none, some, List, [], ◌∷◌, ◌++◌, if◌then◌else◌, ltb,
  is_empty, codes, print_number, Exec, done, raised, undefined, bad_date,
}
use sevmgr.Stdair.{Stdair}
use sevmgr.Shell.Platform.{Platform, Conversion, converted, bad_month, failed}

-- `kMonthStr`, whose index is the number of the month less one; `none` is out of the array.
unfoldable pub month_name : ℕ → Option (List ℕ)
month_name n = entry n (
    codes "Jan"
    ∷ codes "Feb"
    ∷ codes "Mar"
    ∷ codes "Apr"
    ∷ codes "May"
    ∷ codes "Jun"
    ∷ codes "Jul"
    ∷ codes "Aug"
    ∷ codes "Sep"
    ∷ codes "Oct"
    ∷ codes "Nov"
    ∷ codes "Dec"
    ∷ [])
  where
    entry : ℕ → List (List ℕ) → Option (List ℕ)
    entry n [] = none
    entry zero (name ∷ names) = none
    entry (suc zero) (name ∷ names) = some name
    entry (suc (suc n)) (name ∷ names) = entry (suc n) names

-- What becomes of the token for the month.
pub data MonthReading : Type 0 where
  read : List ℕ → MonthReading
  refused : MonthReading
  out_of_bounds : MonthReading

abbrev pub named : Option (List ℕ) → MonthReading
named none = out_of_bounds
named (some name) = read name

abbrev pub month_expression : List ℕ
month_expression = codes "^(\\d{1,2})$"

-- The texts that are made of the parts.
abbrev pub date_text : ℕ → List ℕ → ℕ → List ℕ
date_text year month day =
    print_number year ++ (codes "-" ++ (month ++ (codes "-" ++ print_number day)))

abbrev pub time_text : ℕ → ℕ → ℕ → List ℕ
time_text hours minutes seconds =
    print_number hours
    ++ (codes ":" ++ (print_number minutes ++ (codes ":" ++ print_number seconds)))

-- A year of the current century in short.
abbrev pub in_full : ℕ → ℕ
in_full y = if ltb y 100 then y + 2000 else y

abbrev pub in_full_if_any : Option ℕ → Option ℕ
in_full_if_any none = none
in_full_if_any (some y) = some (in_full y)

module _ {s : Stdair} (p : Platform s) where
  -- The two variables of the caller.
  pub record Wanted : Type 0 where
    pub event_date : p.Date
    pub event_time : p.Duration

  -- A part that an empty token leaves as it is; `none` is a token that cannot be understood.
  unfoldable pub read_number : ℕ → List ℕ → Option ℕ
  read_number current token = if is_empty token then some current else p.lexical_cast token

  unfoldable pub read_year : ℕ → List ℕ → Option ℕ
  read_year current token =
      if is_empty token then some current else in_full_if_any (p.lexical_cast token)

  abbrev pub read_month_number : Option ℕ → MonthReading
  read_month_number none = refused
  read_month_number (some m) = if ltb 12 m then refused else named (month_name m)

  abbrev pub read_month_word : List ℕ → MonthReading
  read_month_word [] = refused
  read_month_word (c ∷ []) = refused
  read_month_word (c ∷ (c₁ ∷ [])) = refused
  read_month_word (c ∷ (c₁ ∷ (c₂ ∷ rest))) = read (p.to_upper (c ∷ []) ++ p.to_lower (c₁ ∷ c₂ ∷ []))

  unfoldable pub read_month : List ℕ → List ℕ → MonthReading
  read_month current token =
      if is_empty token
      then read current
      else if p.regex_match token month_expression
      then read_month_number (p.lexical_cast token)
      else read_month_word token

  unfoldable pub parse_seconds : ℕ → ℕ → List (List ℕ) → Exec Wanted (Unit {0})
  unfolding read_number
  parse_seconds h m [] w = done tt w
  parse_seconds h m (token ∷ tokens) w = elim (read_number (p.seconds w.event_time) token) [
    | none ↦ done tt w
    | some sec ↦ elim (p.duration_from_string (time_text h m sec)) [
      | converted time ↦ done tt (record w { event_time = time })
      | bad_month ↦ done tt w
      | failed ↦ raised bad_date w
    ]
  ]

  unfoldable pub parse_minutes : ℕ → List (List ℕ) → Exec Wanted (Unit {0})
  unfolding read_number
  parse_minutes h [] w = done tt w
  parse_minutes h (token ∷ tokens) w = elim (read_number (p.minutes w.event_time) token) [
    | none ↦ done tt w
    | some m ↦ parse_seconds h m tokens w
  ]

  unfoldable pub parse_hours : List (List ℕ) → Exec Wanted (Unit {0})
  unfolding read_number
  parse_hours [] w = done tt w
  parse_hours (token ∷ tokens) w = elim (read_number (p.hours w.event_time) token) [
    | none ↦ done tt w
    | some h ↦ parse_minutes h tokens w
  ]

  unfoldable pub parse_day : ℕ → List ℕ → List (List ℕ) → Exec Wanted (Unit {0})
  unfolding read_number
  parse_day y m [] w = done tt w
  parse_day y m (token ∷ tokens) w = elim (read_number (p.day w.event_date) token) [
    | none ↦ done tt w
    | some d ↦ elim (p.from_simple_string (date_text y m d)) [
      | converted date ↦ parse_hours tokens (record w { event_date = date })
      | bad_month ↦ done tt w
      | failed ↦ raised bad_date w
    ]
  ]

  -- With no token for the month the iterator is moved beyond the end.
  unfoldable pub parse_month : ℕ → List ℕ → List (List ℕ) → Exec Wanted (Unit {0})
  unfolding read_month
  parse_month y name [] w = undefined
  parse_month y name (token ∷ tokens) w = elim (read_month name token) [
    | read month ↦ parse_day y month tokens w
    | refused ↦ done tt w
    | out_of_bounds ↦ undefined
  ]

  unfoldable pub parse_year : List ℕ → List (List ℕ) → Exec Wanted (Unit {0})
  unfolding read_year
  parse_year name [] w = done tt w
  parse_year name (token ∷ tokens) w = elim (read_year (p.year w.event_date) token) [
    | none ↦ done tt w
    | some y ↦ parse_month y name tokens w
  ]

  unfoldable pub parse_event_date_time : List (List ℕ) → Exec Wanted (Unit {0})
  unfolding month_name
  parse_event_date_time tokens w = elim (month_name (p.month w.event_date)) [
    | none ↦ undefined
    | some name ↦ parse_year name tokens w
  ]
