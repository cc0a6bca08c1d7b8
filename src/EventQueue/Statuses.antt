-- ===== src/EventQueue/Statuses.antt =====
-- sevmgr/bom/EventQueue.cpp: the progress statuses by event type.
use sevmgr.Prelude.{
  ℕ, Bool, Option, none, some, ℤ, is_some, if◌then◌else◌, Exec, done, raised, aborted, undefined,
  event_queue_exception, event_exception, pure, ◌>>=◌, ◌>>◌, gets, modify, add_count, sub_count,
}
use sevmgr.OrderedMap.{find, insert, update}
use sevmgr.Stdair.{Stdair}
use sevmgr.EventQueue.{EventQueue}

module _ (s : Stdair) where
  open s use {
    Event, Status, new_status_of_total, get_current_nb, get_expected_nb, get_actual_nb,
    set_current_nb, set_expected_nb, set_actual_nb, Real, real_of_count, floor, add_real,
    count_of_real, progress,
  }

  -- A method of the class.
  abbrev pub Method : Type 0 → Type 0
  Method A = Exec (EventQueue s) A

  unfoldable pub has_progress_status : ℕ → EventQueue s → Bool
  has_progress_status k q = is_some (find k q.progress_status_map)

  -- A missing status is a failed assertion in some getters and an exception in others.
  abbrev found_or_abort : {A : Type 0} → (Status → A) → Option Status → Method A
  found_or_abort f none q = aborted
  found_or_abort f (some p) q = done (f p) q

  abbrev found_or_throw : {A : Type 0} → (Status → A) → Option Status → Method A
  found_or_throw f none q = raised event_queue_exception q
  found_or_throw f (some p) q = done (f p) q

  unfoldable pub get_current_nb_of_events : ℕ → Method ℤ
  get_current_nb_of_events k q = found_or_abort get_current_nb (find k q.progress_status_map) q

  unfoldable pub get_expected_total_nb_of_events : ℕ → Method ℤ
  get_expected_total_nb_of_events k q =
      found_or_throw get_expected_nb (find k q.progress_status_map) q

  unfoldable pub get_actual_total_nb_of_events : ℕ → Method ℤ
  get_actual_total_nb_of_events k q = found_or_abort get_actual_nb (find k q.progress_status_map) q

  unfoldable pub get_status : ℕ → Method Status
  get_status k q = found_or_throw (λ p. p) (find k q.progress_status_map) q

  unfoldable pub calculate_progress : ℕ → Method Real
  calculate_progress k q = found_or_abort progress (find k q.progress_status_map) q

  -- The new status replaces one that is there; else nothing happens.
  unfoldable pub set_status : ℕ → Status → Method (Unit {0})
  set_status k p q = elim (find k q.progress_status_map) [
    | none ↦ done tt q
    | some _ ↦ done tt (record q { progress_status_map = update k p q.progress_status_map })
  ]

  unfoldable pub store_status : ℕ → Status → Method (Unit {0})
  store_status k p = modify λ q. record q { progress_status_map = update k p q.progress_status_map }

  unfoldable pub insert_status : ℕ → Status → Method (Unit {0})
  insert_status k p q =
      let (m, inserted) = insert k p q.progress_status_map in
      if inserted then done tt (record q { progress_status_map = m }) else raised event_exception q

  -- `updateStatus (type, ProgressStatus)`: the current number is replaced, the totals are added to.
  unfoldable pub update_status : ℕ → Status → Method (Unit {0})
  unfolding store_status insert_status
  update_status k i q = elim (find k q.progress_status_map) [
    | none ↦ insert_status k i q
    | some p ↦
        (do
          let p₁ = set_current_nb (get_current_nb i) p
          expected ← add_count (get_expected_nb p₁) (get_expected_nb i)
          let p₂ = set_expected_nb expected p₁
          actual ← add_count (get_actual_nb p₂) (get_actual_nb i)
          store_status k (set_actual_nb actual p₂))
          q
  ]

  -- `static_cast<Count_T>`.
  abbrev pub to_count : Real → Method ℤ
  to_count x q = elim (count_of_real x) [ none ↦ undefined | some n ↦ done n q ]

  -- The overall totals after `addStatus`, in the arithmetic of `double`.
  unfoldable pub add_overall : Real → Method (Unit {0})
  add_overall x = do
    p ← gets (λ q. q.progress_status)
    expected ← to_count (add_real (real_of_count (get_expected_nb p)) x)
    let p₁ = set_expected_nb expected p
    actual ← to_count (add_real (real_of_count (get_actual_nb p₁)) x)
    modify λ q. record q { progress_status = set_actual_nb actual p₁ }

  unfoldable pub add_status : ℕ → Real → Method (Unit {0})
  unfolding add_overall
  add_status k x = do n ← to_count (floor x); update_status k (new_status_of_total n); add_overall x

  -- `updateStatus (type, NbOfEvents_T)`: the actual total of a type that has a status.
  unfoldable pub update_status_nb : ℕ → Real → Method (Unit {0})
  unfolding store_status
  update_status_nb k x = do
    n ← to_count (floor x)
    found ← gets (λ q. find k q.progress_status_map)
    elim found [
      | none ↦ pure tt
      | some p ↦ do
        overall ← gets (λ q. q.progress_status)
        old ← to_count (floor (real_of_count (get_actual_nb p)))
        delta ← sub_count n old
        actual ← add_count (get_actual_nb overall) delta
        modify λ q. record q { progress_status = set_actual_nb actual overall }
        store_status k (set_actual_nb n p)
    ]
