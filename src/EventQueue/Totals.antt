-- ===== src/EventQueue/Totals.antt =====
-- sevmgr/bom/EventQueue.cpp: what `addStatus` does to the counts, in closed form.
pub mod Updates
use sevmgr.Prelude.{
  bind_result-done, ℕ, ◌≡◌, refl, ap, ◌∙◌, inl, inr, Option, none, some, arith, ◌==◌, if◌then◌else◌,
  ℤ, pos, ◌+ℤ◌, ◌-ℤ◌, IsInt, int_laws, done, Option-cases, bind_result, ◌>>◌,
}
use sevmgr.OrderedMap.{find, insert, update}
use sevmgr.OrderedMap.Order.{IsOrdered, find-update}
use sevmgr.OrderedMap.Insertion.{insert_flag, find-insert}
use sevmgr.Stdair.{Stdair}
use sevmgr.Stdair.Laws.{StatusLaws, RealLaws}
use sevmgr.EventQueue.{EventQueue}
use sevmgr.EventQueue.Statuses.{
  update_status, insert_status, store_status, add_status, add_overall, update_status_nb, to_count,
}

zero_add : (n : ℤ) → pos 0 +ℤ n ≡ n
zero_add n = omega int_laws

module _ (s : Stdair) where
  open s use {
    Event, Status, new_status_of_total, get_current_nb, get_expected_nb, get_actual_nb,
    set_current_nb, set_expected_nb, set_actual_nb, Real, real_of_count, floor, add_real,
    count_of_real,
  }

  -- A number of the status of a type, 0 if there is none.
  abbrev pub number_of : (Status → ℤ) → Option Status → ℤ
  number_of f none = pos 0
  number_of f (some p) = f p

  -- The status that `updateStatus` leaves for a type.
  unfoldable pub merged : Status → Option Status → Status
  merged i none = i
  merged i (some p) =
      let p₁ = set_current_nb (get_current_nb i) p in
      let p₂ = set_expected_nb (get_expected_nb p₁ +ℤ get_expected_nb i) p₁ in
      set_actual_nb (get_actual_nb p₂ +ℤ get_actual_nb i) p₂

  -- The map of the statuses with one written.
  unfoldable pub written : ℕ → Status → EventQueue s → EventQueue s
  written k p q = elim (find k q.progress_status_map) [
    | none ↦ record q { progress_status_map = (insert k p q.progress_status_map).0 }
    | some _ ↦ record q { progress_status_map = update k p q.progress_status_map }
  ]

  pub find-written :
      (k j : ℕ) (p : Status) (q : EventQueue s)
      → IsOrdered q.progress_status_map
      → find j (written k p q).progress_status_map
        ≡ (if k == j then some p else find j q.progress_status_map)
  unfolding written
  find-written k j p q o = ground (
    arith,
    insert_flag k p q.progress_status_map o,
    find-insert k j p q.progress_status_map o,
    find-update k j p q.progress_status_map,
  )

  pub written-progress :
      (k : ℕ) (p : Status) (q : EventQueue s) → (written k p q).progress_status ≡ q.progress_status
  unfolding written
  written-progress k p q = ground arith

  pub written-events :
      (k : ℕ) (p : Status) (q : EventQueue s) → (written k p q).event_list ≡ q.event_list
  unfolding written
  written-events k p q = ground arith

  -- The overall totals, each larger by `n`.
  unfoldable pub with_totals : ℤ → EventQueue s → EventQueue s
  with_totals n q =
      let p = set_expected_nb (get_expected_nb q.progress_status +ℤ n) q.progress_status in
      record q { progress_status = set_actual_nb (get_actual_nb p +ℤ n) p }

  module _ (laws : StatusLaws s) where
    pub update_status-written :
        (k : ℕ) (i : Status) (q : EventQueue s)
        → IsOrdered q.progress_status_map
        → IsInt (number_of get_expected_nb (find k q.progress_status_map) +ℤ get_expected_nb i)
        → IsInt (number_of get_actual_nb (find k q.progress_status_map) +ℤ get_actual_nb i)
        → update_status s k i q ≡ done tt (written k (merged i (find k q.progress_status_map)) q)
    unfolding update_status written merged insert_status store_status
    update_status-written k i q o fits_expected fits_actual =
        elim (Option-cases (find k q.progress_status_map)) [
          | inl e ↦ ground (arith, e, insert_flag k i q.progress_status_map o)
          | inr (p, e) ↦
              let p₁ = set_current_nb (get_current_nb i) p in
              let total = get_expected_nb p₁ +ℤ get_expected_nb i in
              ground (
                arith,
                e,
                laws.set_current_expected (get_current_nb i) p,
                laws.set_current_actual (get_current_nb i) p,
                laws.set_expected_actual total p₁,
              )
        ]

    pub merged_current :
        (i : Status) (o : Option Status) → get_current_nb (merged i o) ≡ get_current_nb i
    unfolding merged
    merged_current i none = refl
    merged_current i (some p) =
        simp (laws.set_actual_current, laws.set_expected_current, laws.set_current)

    pub merged_expected :
        (i : Status) (o : Option Status)
        → get_expected_nb (merged i o) ≡ number_of get_expected_nb o +ℤ get_expected_nb i
    unfolding merged
    merged_expected i none = omega int_laws
    merged_expected i (some p) =
        simp (laws.set_actual_expected, laws.set_expected, laws.set_current_expected)

    pub merged_actual :
        (i : Status) (o : Option Status)
        → get_actual_nb (merged i o) ≡ number_of get_actual_nb o +ℤ get_actual_nb i
    unfolding merged
    merged_actual i none = omega int_laws
    merged_actual i (some p) =
        simp (laws.set_actual, laws.set_expected_actual, laws.set_current_actual)

    add_overall-run :
        (n : ℤ) (q : EventQueue s)
        → RealLaws s
        → IsInt n
        → IsInt (get_expected_nb q.progress_status)
        → IsInt (get_actual_nb q.progress_status)
        → IsInt (get_expected_nb q.progress_status +ℤ n)
        → IsInt (get_actual_nb q.progress_status +ℤ n)
        → add_overall s (real_of_count n) q ≡ done tt (with_totals n q)
    unfolding add_overall with_totals
    add_overall-run n q reals fits fits_expected fits_actual fits_sum₁ fits_sum₂ =
        let p = q.progress_status in
        ground (
          arith,
          reals.count_of_sum (get_expected_nb p) n fits_expected fits,
          reals.count_of_sum (get_actual_nb p) n fits_actual fits,
          laws.set_expected_actual (get_expected_nb p +ℤ n) p,
        )

    -- The queue that `addStatus` leaves.
    abbrev pub with_status : ℕ → ℤ → EventQueue s → EventQueue s
    with_status k n q =
        with_totals n (written k (merged (new_status_of_total n) (find k q.progress_status_map)) q)

    pub add_status-run :
        (k : ℕ) (n : ℤ) (q : EventQueue s)
        → RealLaws s
        → IsOrdered q.progress_status_map
        → IsInt n
        → IsInt (get_expected_nb q.progress_status)
        → IsInt (get_actual_nb q.progress_status)
        → IsInt (number_of get_expected_nb (find k q.progress_status_map) +ℤ n)
        → IsInt (number_of get_actual_nb (find k q.progress_status_map) +ℤ n)
        → IsInt (get_expected_nb q.progress_status +ℤ n)
        → IsInt (get_actual_nb q.progress_status +ℤ n)
        → add_status s k (real_of_count n) q ≡ done tt (with_status k n q)
    unfolding add_status
    add_status-run k n q reals o fits fits_e fits_a fits_te fits_ta fits_se fits_sa =
        let i = new_status_of_total n in
        let m = merged i (find k q.progress_status_map) in
        let same = written-progress k m q in
        bind_result-done _ _ (counted_floor n q fits) (
          bind_result-done _ _
            (update_status-written k i q o (rw laws.total_expected fits_te)
              (rw laws.total_actual fits_ta))
            (add_overall-run n (written k m q) reals fits (rw same fits_e) (rw same fits_a)
              (rw same fits_se) (rw same fits_sa)))
      where
        counted_floor :
            (n : ℤ) (q : EventQueue s) → IsInt n → to_count s (floor (real_of_count n)) q ≡ done n q
        counted_floor n q fits = ground (arith, reals.count_of_floor n fits)

    -- `addStatus` of an integer `n` gives the type a status with `n` more expected and `n` more
    -- actual events, and adds `n` to both overall totals. The current number of the type is set to
    -- 0, also when it was not 0; the overall current number, the events and the statuses of the
    -- other types stay. The sums must fit `int`, and the statuses must be in the order of their
    -- types. `StatusLaws` and `RealLaws` are assumed.
    pub add_status_totals :
        (k : ℕ) (n : ℤ) (q : EventQueue s)
        → RealLaws s
        → IsOrdered q.progress_status_map
        → IsInt n
        → IsInt (get_expected_nb q.progress_status)
        → IsInt (get_actual_nb q.progress_status)
        → IsInt (number_of get_expected_nb (find k q.progress_status_map) +ℤ n)
        → IsInt (number_of get_actual_nb (find k q.progress_status_map) +ℤ n)
        → IsInt (get_expected_nb q.progress_status +ℤ n)
        → IsInt (get_actual_nb q.progress_status +ℤ n)
        → (q' : EventQueue s) × (p : Status) × (add_status s k (real_of_count n) q ≡ done tt q')
          × ((j : ℕ)
              → find j q'.progress_status_map
                ≡ (if k == j then some p else find j q.progress_status_map))
          × (get_current_nb p ≡ pos 0)
          × (get_expected_nb p ≡ number_of get_expected_nb (find k q.progress_status_map) +ℤ n)
          × (get_actual_nb p ≡ number_of get_actual_nb (find k q.progress_status_map) +ℤ n)
          × (get_expected_nb q'.progress_status ≡ get_expected_nb q.progress_status +ℤ n)
          × (get_actual_nb q'.progress_status ≡ get_actual_nb q.progress_status +ℤ n)
          × (get_current_nb q'.progress_status ≡ get_current_nb q.progress_status)
          × (q'.event_list ≡ q.event_list)
    unfolding with_totals
    add_status_totals k n q reals o fits fits_e fits_a fits_te fits_ta fits_se fits_sa =
        let i = new_status_of_total n in
        let found = find k q.progress_status_map in
        let p = merged i found in
        let same = written-progress k p q in
        (
          with_status k n q,
          p,
          add_status-run k n q reals o fits fits_e fits_a fits_te fits_ta fits_se fits_sa,
          λ j. find-written k j p q o,
          merged_current i found ∙ laws.total_current n,
          merged_expected i found
              ∙ ap (◌+ℤ◌ (number_of get_expected_nb found)) (laws.total_expected n),
          merged_actual i found ∙ ap (◌+ℤ◌ (number_of get_actual_nb found)) (laws.total_actual n),
          simp (laws.set_actual_expected, laws.set_expected, same),
          simp (laws.set_actual, laws.set_expected_actual, same),
          simp (laws.set_actual_current, laws.set_expected_current, same),
          written-events k p q,
        )
