-- ===== src/Tests/Terminal.antt =====
-- A small platform for the shell: dates and durations are their three numbers, texts are split at a
-- separator, and only the day of a date is tested.
use sevmgr.Prelude.{
  ℕ, ◌+◌, ◌-◌, ◌*◌, ◌/◌, ◌%◌, Bool, true, false, ◌&&◌, Option, none, some, List, [], ◌∷◌, map, ◌==◌,
  leb, ltb, if◌then◌else◌, is_empty, length, codes,
}
use sevmgr.Shell.Platform.{Platform, Conversion, converted, bad_month, failed}
use sevmgr.Tests.Samples.{stdair, days, new_event}

-- The pieces of a text between separators.
abbrev more_of : ℕ → List (List ℕ) → List (List ℕ)
more_of c [] = (c ∷ []) ∷ []
more_of c (piece ∷ pieces) = (c ∷ piece) ∷ pieces

abbrev pieces_of : ℕ → List ℕ → List (List ℕ)
pieces_of sep [] = [] ∷ []
pieces_of sep (c ∷ text) =
    let rest = pieces_of sep text in if c == sep then [] ∷ rest else more_of c rest

abbrev is_digit : ℕ → Bool
is_digit c = leb b'0' c && leb c b'9'

abbrev all_digits : List ℕ → Bool
all_digits [] = true
all_digits (c ∷ text) = let rest = all_digits text in is_digit c && rest

abbrev number_from : ℕ → List ℕ → ℕ
number_from n [] = n
number_from n (c ∷ text) = number_from (n * 10 + (c - b'0')) text

abbrev cast : List ℕ → Option ℕ
cast text =
    if is_empty text then none else if all_digits text then some (number_from 0 text) else none

abbrev same : List ℕ → List ℕ → Bool
same [] [] = true
same [] (c ∷ b) = false
same (c ∷ a) [] = false
same (c ∷ a) (c' ∷ b) = let rest = same a b in c == c' && rest

abbrev position : ℕ → List ℕ → List (List ℕ) → Option ℕ
position n name [] = none
position n name (m ∷ names) =
    let rest = position (n + 1) name names in if same name m then some n else rest

abbrev month_of : List ℕ → Option ℕ
month_of name = position 1 name (
    codes "Jan"
    ∷ codes "Feb"
    ∷ codes "Mar"
    ∷ codes "Apr"
    ∷ codes "May"
    ∷ codes "Jun"
    ∷ codes "Jul"
    ∷ codes "Aug"
    ∷ codes "Sep"
    ∷ codes "Oct"
    ∷ codes "Nov"
    ∷ codes "Dec"
    ∷ [])

abbrev date_of_parts : Option ℕ → Option ℕ → Option ℕ → Conversion (ℕ × ℕ × ℕ)
date_of_parts y none d = bad_month
date_of_parts none (some m) d = failed
date_of_parts (some y) (some m) none = failed
date_of_parts (some y) (some m) (some d) = if leb d 31 then converted (y, m, d) else failed

abbrev date_of : List (List ℕ) → Conversion (ℕ × ℕ × ℕ)
date_of (y ∷ (m ∷ (d ∷ []))) = date_of_parts (cast y) (month_of m) (cast d)
date_of pieces = failed

abbrev time_of_parts : Option ℕ → Option ℕ → Option ℕ → Conversion (ℕ × ℕ × ℕ)
time_of_parts (some h) (some m) (some sec) = converted (h, m, sec)
time_of_parts h m sec = failed

abbrev time_of : List (List ℕ) → Conversion (ℕ × ℕ × ℕ)
time_of (h ∷ (m ∷ (sec ∷ []))) = time_of_parts (cast h) (cast m) (cast sec)
time_of pieces = failed

-- The month and the day of a date-time of the sample StdAir count from 1.
abbrev date_at : ℕ → ℕ × ℕ × ℕ
date_at t = let n = t / 86_400_000 - 1 in let q = n / 31 - 1 in (q / 12, q % 12 + 1, n % 31 + 1)

abbrev time_at : ℕ → ℕ × ℕ × ℕ
time_at t = let n = t % 86_400_000 / 1000 in (n / 3600, n / 60 % 60, n % 60)

abbrev pub platform : Platform stdair
platform = record {
  to_lower = map (λ c. if leb b'A' c && leb c b'Z' then c + 32 else c);
  to_upper = map (λ c. if leb b'a' c && leb c b'z' then c - 32 else c);
  regex_match = λ text e. ltb (length text) 3 && all_digits text;
  regex_search = λ e line. line ∷ pieces_of b' ' line;
  lexical_cast = cast;
  Date = ℕ × ℕ × ℕ;
  Duration = ℕ × ℕ × ℕ;
  year = λ d. d.0;
  month = λ d. d.1;
  day = λ d. d.2;
  hours = λ t. t.0;
  minutes = λ t. t.1;
  seconds = λ t. t.2;
  from_simple_string = λ text. date_of (pieces_of b'-' text);
  duration_from_string = λ text. time_of (pieces_of b':' text);
  date = date_at;
  time_of_day = time_at;
  moment = λ d t. days d.0 d.1 d.2 + ((t.0 * 60 + t.1) * 60 + t.2) * 1000;
  print_date = λ d. codes "2011-May-14";
  print_duration = λ t. codes "00:00:00";
  print_moment = λ t. codes "2011-May-14 00:00:00";
  get_type_label_as_string = λ k. codes "B";
  default_event = new_event;
  event_type = λ name. if same name (codes "BreakPoint") then some 7 else none;
}
