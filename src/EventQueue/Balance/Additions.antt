-- ===== src/EventQueue/Balance/Additions.antt =====
-- sevmgr/bom/EventQueue.cpp: `addStatus` and the balance of the counts.
use sevmgr.Prelude.{ℕ, ◌≡◌, sym, ap, ◌∙◌, ℤ, pos, ◌+ℤ◌, IsInt, done}
use sevmgr.OrderedMap.{find}
use sevmgr.OrderedMap.Order.{IsOrdered}
use sevmgr.Stdair.{Stdair}
use sevmgr.Stdair.Laws.{StatusLaws, RealLaws}
use sevmgr.EventQueue.{EventQueue}
use sevmgr.EventQueue.Statuses.{add_status}
use sevmgr.EventQueue.Totals.{
  number_of, merged, written-progress, with_status, with_totals, add_status-run, merged_current,
  merged_expected, merged_actual,
}
use sevmgr.EventQueue.Balance.{sum_by, sum_by-written, Sums, IsBalanced, Sums_shift, add_zero}

forget : (a b v w t u : ℤ) → b +ℤ v ≡ a +ℤ w → w ≡ pos 0 → u ≡ t → a ≡ t → b +ℤ v ≡ u
forget a b v w t u h₁ h₂ h₃ h₄ = h₁ ∙ ap (◌+ℤ◌ a) h₂ ∙ add_zero a ∙ h₄ ∙ sym h₃

module _ (s : Stdair) (laws : StatusLaws s) where
  open s use {
    Event, Status, new_status_of_total, get_current_nb, get_expected_nb, get_actual_nb,
    real_of_count,
  }

  -- `addStatus` of an integer on a balanced queue keeps the overall expected and actual totals
  -- equal to the sums over the event types. The sum of the current numbers falls behind the overall
  -- current number by the current number that the type had before. The sums must fit `int`, and the
  -- statuses must be in the order of their types. `StatusLaws` and `RealLaws` are assumed.
  pub add_status_balance :
      (k : ℕ) (n : ℤ) (q : EventQueue s)
      → RealLaws s
      → IsOrdered q.progress_status_map
      → IsInt n
      → IsInt (get_expected_nb q.progress_status)
      → IsInt (get_actual_nb q.progress_status)
      → IsInt (number_of s get_expected_nb (find k q.progress_status_map) +ℤ n)
      → IsInt (number_of s get_actual_nb (find k q.progress_status_map) +ℤ n)
      → IsInt (get_expected_nb q.progress_status +ℤ n)
      → IsInt (get_actual_nb q.progress_status +ℤ n)
      → IsBalanced s q
      → (q' : EventQueue s) × (add_status s k (real_of_count n) q ≡ done tt q')
        × Sums s get_expected_nb q'
        × Sums s get_actual_nb q'
        × (sum_by get_current_nb q'.progress_status_map
              +ℤ number_of s get_current_nb (find k q.progress_status_map)
            ≡ get_current_nb q'.progress_status)
  unfolding with_totals
  add_status_balance k n q reals o fits fits_e fits_a fits_te fits_ta fits_se fits_sa b =
      let i = new_status_of_total n in
      let found = find k q.progress_status_map in
      let p = merged s i found in
      let same = written-progress s k p q in
      (
        with_status s laws k n q,
        add_status-run s laws k n q reals o fits fits_e fits_a fits_te fits_ta fits_se fits_sa,
        Sums_shift _ _ _ _ _ _ n (sum_by-written s get_expected_nb k p q o)
            (merged_expected s laws i found
              ∙ ap (◌+ℤ◌ (number_of s get_expected_nb found)) (laws.total_expected n))
            (simp (laws.set_actual_expected, laws.set_expected, same)) b.expected,
        Sums_shift _ _ _ _ _ _ n (sum_by-written s get_actual_nb k p q o)
            (merged_actual s laws i found
              ∙ ap (◌+ℤ◌ (number_of s get_actual_nb found)) (laws.total_actual n))
            (simp (laws.set_actual, laws.set_expected_actual, same)) b.actual,
        forget _ _ _ _ _ _ (sum_by-written s get_current_nb k p q o)
            (merged_current s laws i found ∙ laws.total_current n)
            (simp (laws.set_actual_current, laws.set_expected_current, same)) b.current,
      )
