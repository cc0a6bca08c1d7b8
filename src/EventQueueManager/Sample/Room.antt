-- ===== src/EventQueueManager/Sample/Room.antt =====
-- sevmgr/command/EventQueueManager.cpp, `buildSampleQueue` on a queue that has been used: the
-- totals and how large they may be.
pub mod Kept
use sevmgr.Prelude.{
  ◌⊎◌, Bool, false, ℕ, ◌+◌, ◌<◌, ◌≤◌, ◌≡◌, refl, sym, ap, subst, ◌∙◌, inl, inr, true, Option, none,
  some, List, [], ◌∷◌, arith, ◌==◌, is_some, if◌then◌else◌, ℤ, pos, ◌+ℤ◌, IsInt, fits_int, done,
  Leaves, ==→eq, Bool-cases,
}
use sevmgr.OrderedMap.{find, update, map_values}
use sevmgr.OrderedMap.Order.{IsOrdered, find-update, update-IsOrdered, map_values-IsOrdered}
use sevmgr.Stdair.{Stdair}
use sevmgr.Stdair.Laws.{StatusLaws, RealLaws}
use sevmgr.EventQueue.{EventQueue, reset}
use sevmgr.EventQueue.Validity.{IsValid, add_status-IsValid}
use sevmgr.EventQueue.Totals.{number_of, add_status_totals}
use sevmgr.EventQueueManager.{add_status}
use sevmgr.EventQueueManager.Popping.{counted_for, counted_in}
use sevmgr.EventQueueManager.Runs.{increments}
use sevmgr.EventQueueManager.Types.{types_after}
use sevmgr.EventQueueManager.Counting.{increments_expected, increments_actual}

-- A number that is not negative, and not above a bound.
abbrev pub IsSmall : ℕ → ℤ → Type 0
IsSmall bound a = (n : ℕ) × (a ≡ pos n) × (n ≤ bound)

IsSmall-IsInt : (bound : ℕ) (a : ℤ) → bound < 2147483648 → IsSmall bound a → IsInt a
unfolding fits_int
IsSmall-IsInt bound a fits (n, h, le) = rw h (ground arith)

two_more : (n : ℕ) → pos n +ℤ pos 2 ≡ pos (n + 2)
unfolding ◌+ℤ◌
two_more n = ground arith

IsSmall-two : (bound : ℕ) (a : ℤ) → IsSmall bound a → IsSmall (bound + 2) (a +ℤ pos 2)
IsSmall-two bound a (n, h, le) = (n + 2, ap (λ b. b +ℤ pos 2) h ∙ two_more n, omega arith)

IsSmall-widen : (b c : ℕ) (a : ℤ) → b ≤ c → IsSmall b a → IsSmall c a
IsSmall-widen b c a le (n, h, small) = (n, h, omega arith)

module _ (s : Stdair) where
  open s use {
    Event, Status, get_event_type, get_expected_nb, get_actual_nb, real_of_count, increment,
    reset_status,
  }

  -- No total is above the bound.
  pub record HasRoom (bound : ℕ) (q : EventQueue s) : Type 0 where
    pub types_in_order : IsOrdered q.progress_status_map
    pub expected : IsSmall bound (get_expected_nb q.progress_status)
    pub actual : IsSmall bound (get_actual_nb q.progress_status)
    pub type_expected :
        (k : ℕ) → IsSmall bound (number_of s get_expected_nb (find k q.progress_status_map))
    pub type_actual :
        (k : ℕ) → IsSmall bound (number_of s get_actual_nb (find k q.progress_status_map))

  -- A type written among the others.
  written-IsSmall :
      (bound k j : ℕ) (n : Status → ℤ) (p : Status) (o o' : Option Status)
      → o' ≡ (if k == j then some p else o)
      → IsSmall (bound + 2) (n p)
      → IsSmall bound (number_of s n o)
      → IsSmall (bound + 2) (number_of s n o')
  written-IsSmall bound k j n p o o' h small_p small = elim (Bool-cases (k == j)) [
    | inl same ↦ let e : o' ≡ some p = ground (arith, h, same) in rw e small_p
    | inr other ↦
        let e : o' ≡ o = ground (arith, h, other) in
        rw e (IsSmall-widen bound (bound + 2) (number_of s n o) (omega arith) small)
  ]

  pub add_status-HasRoom :
      (k bound : ℕ) (q : EventQueue s)
      → StatusLaws s
      → RealLaws s
      → IsValid s q
      → HasRoom bound q
      → bound + 2 < 2147483648
      → (q' : EventQueue s) × (add_status s k (pos 2) q ≡ done tt q')
        × IsValid s q'
        × HasRoom (bound + 2) q'
        × (q'.event_list ≡ q.event_list)
        × (is_some (find k q'.progress_status_map) ≡ true)
        × ((j : ℕ)
            → is_some (find j q.progress_status_map) ≡ true
            → is_some (find j q'.progress_status_map) ≡ true)
  unfolding add_status
  add_status-HasRoom k bound q laws reals v room fits =
      let int = IsSmall-IsInt bound in
      let (q', p, run, types, current_k, expected_k, actual_k, expected, actual, current, events) =
        add_status_totals s laws k (pos 2) q reals v.types_in_order
          (IsSmall-IsInt 2 (pos 2) (omega arith) (2, refl, omega arith))
          (IsSmall-IsInt bound _ (omega arith) room.expected)
          (IsSmall-IsInt bound _ (omega arith) room.actual)
          (IsSmall-IsInt (bound + 2) _ fits (IsSmall-two bound _ (room.type_expected k)))
          (IsSmall-IsInt (bound + 2) _ fits (IsSmall-two bound _ (room.type_actual k)))
          (IsSmall-IsInt (bound + 2) _ fits (IsSmall-two bound _ room.expected))
          (IsSmall-IsInt (bound + 2) _ fits (IsSmall-two bound _ room.actual)) in
      let valid =
        subst (Leaves (IsValid s)) run (add_status-IsValid s k (real_of_count (pos 2)) q v) in
      (
        q',
        run,
        valid,
        record {
          types_in_order = valid.types_in_order;
          expected = subst (IsSmall (bound + 2)) (sym expected) (IsSmall-two bound _ room.expected);
          actual = subst (IsSmall (bound + 2)) (sym actual) (IsSmall-two bound _ room.actual);
          type_expected = λ j.
              written-IsSmall bound k j get_expected_nb p _ _ (types j)
                (subst (IsSmall (bound + 2)) (sym expected_k)
                  (IsSmall-two bound _ (room.type_expected k)))
                (room.type_expected j);
          type_actual = λ j.
              written-IsSmall bound k j get_actual_nb p _ _ (types j)
                (subst (IsSmall (bound + 2)) (sym actual_k)
                  (IsSmall-two bound _ (room.type_actual k)))
                (room.type_actual j);
        },
        events,
        ground (arith, types k),
        λ j h. ground (arith, types j, h),
      )
