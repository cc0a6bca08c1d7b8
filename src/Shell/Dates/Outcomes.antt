-- ===== src/Shell/Dates/Outcomes.antt =====
-- sevmgr/ui/cmdline/sevmgr.cpp, `parseEventDateTime`: what it makes of the tokens of a line.
use sevmgr.Prelude.{ℕ, ◌≤◌, ◌≡◌, refl, ◌∙◌, true, some, List, [], ◌∷◌, arith, done, undefined}
use sevmgr.Stdair.{Stdair}
use sevmgr.Shell.Platform.{Platform, converted}
use sevmgr.Shell.Dates.{
  Wanted, month_name, month_expression, date_text, time_text, in_full, read, read_number, read_year,
  read_month, parse_seconds, parse_minutes, parse_hours, parse_day, parse_month, parse_year,
  parse_event_date_time,
}

module _ {s : Stdair} (p : Platform s) where
  parse_hours-all :
      (th tm ts : List ℕ) (more : List (List ℕ)) (w : Wanted p) (h m sec : ℕ) (time : p.Duration)
      → read_number p (p.hours w.event_time) th ≡ some h
      → read_number p (p.minutes w.event_time) tm ≡ some m
      → read_number p (p.seconds w.event_time) ts ≡ some sec
      → p.duration_from_string (time_text h m sec) ≡ converted time
      → parse_hours p (th ∷ (tm ∷ (ts ∷ more))) w ≡ done tt (record w { event_time = time })
  unfolding parse_hours parse_minutes parse_seconds
  parse_hours-all th tm ts more w h m sec time eh em es et = ground (arith, eh, em, es, et)

  parse_event_date_time-date :
      (ty tm td : List ℕ) (more : List (List ℕ)) (w : Wanted p) (y d : ℕ) (now month : List ℕ)
      (date : p.Date)
      → month_name (p.month w.event_date) ≡ some now
      → read_year p (p.year w.event_date) ty ≡ some y
      → read_month p now tm ≡ read month
      → read_number p (p.day w.event_date) td ≡ some d
      → p.from_simple_string (date_text y month d) ≡ converted date
      → parse_event_date_time p (ty ∷ (tm ∷ (td ∷ more))) w
        ≡ parse_hours p more (record w { event_date = date })
  unfolding parse_event_date_time parse_year parse_month parse_day
  parse_event_date_time-date ty tm td more w y d now month date en ey em ed et =
      ground (arith, en, ey, em, ed, et)

  month_of_digits :
      (now : List ℕ) (c : ℕ) (tm : List ℕ) (m : ℕ) (month : List ℕ)
      → p.regex_match (c ∷ tm) month_expression ≡ true
      → p.lexical_cast (c ∷ tm) ≡ some m
      → m ≤ 12
      → month_name m ≡ some month
      → read_month p now (c ∷ tm) ≡ read month
  unfolding read_month
  month_of_digits now c tm m month digits cast le name = ground (arith, digits, cast, le, name)

  number_of_digits :
      (current c : ℕ) (token : List ℕ) (n : ℕ)
      → p.lexical_cast (c ∷ token) ≡ some n
      → read_number p current (c ∷ token) ≡ some n
  unfolding read_number
  number_of_digits current c token n cast = ground (arith, cast)

  year_of_digits :
      (current c : ℕ) (token : List ℕ) (n : ℕ)
      → p.lexical_cast (c ∷ token) ≡ some n
      → read_year p current (c ∷ token) ≡ some (in_full n)
  unfolding read_year
  year_of_digits current c token n cast = ground (arith, cast)

  -- Six numbers, none of them an empty token, are taken for a year (of this century, when it is
  -- below 100), a month from 1 to 12, a day, hours, minutes and seconds: the date and the time
  -- become those that Boost reads from the texts made of them, whatever tokens follow. The month of
  -- the date before must be one of the twelve.
  pub parse_event_date_time_numbers :
      (cy cm cd ch cn cs : ℕ) (ty tm td th tn ts : List ℕ) (more : List (List ℕ)) (w : Wanted p)
      (y m d h n sec : ℕ) (now month : List ℕ) (date : p.Date) (time : p.Duration)
      → month_name (p.month w.event_date) ≡ some now
      → p.lexical_cast (cy ∷ ty) ≡ some y
      → p.regex_match (cm ∷ tm) month_expression ≡ true
      → p.lexical_cast (cm ∷ tm) ≡ some m
      → m ≤ 12
      → month_name m ≡ some month
      → p.lexical_cast (cd ∷ td) ≡ some d
      → p.lexical_cast (ch ∷ th) ≡ some h
      → p.lexical_cast (cn ∷ tn) ≡ some n
      → p.lexical_cast (cs ∷ ts) ≡ some sec
      → p.from_simple_string (date_text (in_full y) month d) ≡ converted date
      → p.duration_from_string (time_text h n sec) ≡ converted time
      → parse_event_date_time p
          ((cy ∷ ty) ∷ (cm ∷ tm) ∷ (cd ∷ td) ∷ (ch ∷ th) ∷ (cn ∷ tn) ∷ (cs ∷ ts) ∷ more)
          w
        ≡ done tt (record { event_date = date; event_time = time })
  parse_event_date_time_numbers cy cm cd ch cn cs ty tm td th tn ts more w y m d h n sec now month
        date time en ey digits em le name ed eh ei es edate etime =
      parse_event_date_time-date (cy ∷ ty) (cm ∷ tm) (cd ∷ td) _ w (in_full y) d now month date en
        (year_of_digits _ cy ty y ey) (month_of_digits now cm tm m month digits em le name)
        (number_of_digits _ cd td d ed) edate
      ∙ parse_hours-all (ch ∷ th) (cn ∷ tn) (cs ∷ ts) more (record w { event_date = date }) h n sec
          time (number_of_digits _ ch th h eh) (number_of_digits _ cn tn n ei)
          (number_of_digits _ cs ts sec es) etime

  -- Six empty tokens, whatever follows them, leave the date and the time as they are, if these are
  -- what Boost reads from the texts made of their own parts, and the month is one of the twelve.
  pub parse_event_date_time_empty :
      (more : List (List ℕ)) (w : Wanted p) (now : List ℕ)
      → month_name (p.month w.event_date) ≡ some now
      → p.from_simple_string (date_text (p.year w.event_date) now (p.day w.event_date))
        ≡ converted w.event_date
      → p.duration_from_string
          (time_text (p.hours w.event_time) (p.minutes w.event_time) (p.seconds w.event_time))
        ≡ converted w.event_time
      → parse_event_date_time p ([] ∷ [] ∷ [] ∷ [] ∷ [] ∷ [] ∷ more) w ≡ done tt w
  unfolding read_year read_month read_number
  parse_event_date_time_empty more w now en edate etime =
      parse_event_date_time-date [] [] [] _ w _ _ now now w.event_date en refl refl refl edate
      ∙ parse_hours-all [] [] [] more w _ _ _ w.event_time refl refl refl etime

  -- The month number 0 is not refused, and the array of the names is read in front of its start:
  -- the behaviour is undefined. The month must be in digits, a year must be understood before it,
  -- and the month of the date before must be one of the twelve.
  pub parse_event_date_time_month_zero :
      (ty : List ℕ) (c : ℕ) (tm : List ℕ) (more : List (List ℕ)) (w : Wanted p) (y : ℕ)
      (now : List ℕ)
      → month_name (p.month w.event_date) ≡ some now
      → read_year p (p.year w.event_date) ty ≡ some y
      → p.regex_match (c ∷ tm) month_expression ≡ true
      → p.lexical_cast (c ∷ tm) ≡ some 0
      → parse_event_date_time p (ty ∷ (c ∷ tm) ∷ more) w ≡ undefined
  unfolding parse_event_date_time parse_year parse_month read_month month_name
  parse_event_date_time_month_zero ty c tm more w y now en ey digits zero_month =
      ground (arith, en, ey, digits, zero_month)
