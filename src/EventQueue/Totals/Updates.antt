-- ===== src/EventQueue/Totals/Updates.antt =====
-- sevmgr/bom/EventQueue.cpp: `updateStatus` of a number, in closed form.
use sevmgr.Prelude.{ℕ, ◌≡◌, refl, some, arith, ℤ, ◌+ℤ◌, ◌-ℤ◌, IsInt, done}
use sevmgr.OrderedMap.{find, update}
use sevmgr.Stdair.{Stdair}
use sevmgr.Stdair.Laws.{StatusLaws, RealLaws}
use sevmgr.EventQueue.{EventQueue}
use sevmgr.EventQueue.Statuses.{store_status, update_status_nb}

module _ (s : Stdair) (laws : StatusLaws s) where
  open s use {
    Event, Status, get_current_nb, get_expected_nb, get_actual_nb, set_actual_nb, real_of_count,
  }

  -- `updateStatus` of an integer `n` for a type that has a status sets the actual total of the
  -- type to `n`, and moves the overall actual total by the difference; every other number stays.
  -- The difference and the new overall total must fit `int`. `StatusLaws` and `RealLaws` are
  -- assumed.
  pub update_status_nb_totals :
      (k : ℕ) (n : ℤ) (p : Status) (q : EventQueue s)
      → RealLaws s
      → find k q.progress_status_map ≡ some p
      → IsInt n
      → IsInt (get_actual_nb p)
      → IsInt (n -ℤ get_actual_nb p)
      → IsInt (get_actual_nb q.progress_status +ℤ (n -ℤ get_actual_nb p))
      → (q' : EventQueue s) × (p' : Status) × (update_status_nb s k (real_of_count n) q
          ≡ done tt q')
        × (q'.progress_status_map ≡ update k p' q.progress_status_map)
        × (get_actual_nb p' ≡ n)
        × (get_current_nb p' ≡ get_current_nb p)
        × (get_expected_nb p' ≡ get_expected_nb p)
        × (get_actual_nb q'.progress_status
            ≡ get_actual_nb q.progress_status +ℤ (n -ℤ get_actual_nb p))
        × (get_current_nb q'.progress_status ≡ get_current_nb q.progress_status)
        × (get_expected_nb q'.progress_status ≡ get_expected_nb q.progress_status)
        × (q'.event_list ≡ q.event_list)
  unfolding update_status_nb store_status
  update_status_nb_totals k n p q reals found fits fits_old fits_delta fits_sum =
      let total = get_actual_nb q.progress_status +ℤ (n -ℤ get_actual_nb p) in
      (
        record q {
          progress_status = set_actual_nb total q.progress_status;
          progress_status_map = update k (set_actual_nb n p) q.progress_status_map;
        },
        set_actual_nb n p,
        ground
            (arith, reals.count_of_floor n fits, reals.count_of_floor (get_actual_nb p) fits_old),
        refl,
        laws.set_actual n p,
        laws.set_actual_current n p,
        laws.set_actual_expected n p,
        laws.set_actual total q.progress_status,
        laws.set_actual_current total q.progress_status,
        laws.set_actual_expected total q.progress_status,
        refl,
      )
