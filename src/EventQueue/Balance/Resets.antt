-- ===== src/EventQueue/Balance/Resets.antt =====
-- sevmgr/bom/EventQueue.cpp: `reset` and the counts.
use sevmgr.Prelude.{ℕ, ◌≡◌, refl, sym, ◌∙◌, true, List, [], ◌∷◌, arith, ℤ, pos}
use sevmgr.OrderedMap.{find, map_values}
use sevmgr.OrderedMap.Order.{is_some-find-map_values}
use sevmgr.Stdair.{Stdair}
use sevmgr.Stdair.Laws.{StatusLaws}
use sevmgr.EventQueue.{EventQueue, reset, is_queue_done}
use sevmgr.EventQueue.Statuses.{has_progress_status}
use sevmgr.EventQueue.Totals.{number_of}
use sevmgr.EventQueue.Balance.{sum_by, sum_by-map_values, sum_by-zero, Sums}

module _ (s : Stdair) where
  open s use {Status, get_current_nb, get_expected_nb, reset_status}

  number_of-map_values :
      (f : Status → ℤ) (g : Status → Status) (k : ℕ) (m : List (ℕ × Status))
      → ((p : Status) → f (g p) ≡ f p)
      → number_of s f (find k (map_values g m)) ≡ number_of s f (find k m)
  unfolding find map_values
  number_of-map_values f g k [] h = refl
  number_of-map_values f g k ((j, p) ∷ m) h = ground (arith, h p, number_of-map_values f g k m h)

  number_of_zero :
      (f : Status → ℤ) (g : Status → Status) (k : ℕ) (m : List (ℕ × Status))
      → ((p : Status) → f (g p) ≡ pos 0)
      → number_of s f (find k (map_values g m)) ≡ pos 0
  unfolding find map_values
  number_of_zero f g k [] h = refl
  number_of_zero f g k ((j, p) ∷ m) h = ground (arith, h p, number_of_zero f g k m h)

  -- After `reset` the queue is done. Exactly the event types that had a status still have one, each
  -- with the current number 0 and the expected total that it had; so has the queue as a whole. The
  -- overall current number is then the sum of those of the types, whatever it was before, and the
  -- sum of the expected totals stays. `StatusLaws` are assumed.
  pub reset_restarts :
      (q : EventQueue s)
      → StatusLaws s
      → (is_queue_done s (reset s q) ≡ true)
        × ((k : ℕ) → has_progress_status s k (reset s q) ≡ has_progress_status s k q)
        × ((k : ℕ) → number_of s get_current_nb (find k (reset s q).progress_status_map) ≡ pos 0)
        × ((k : ℕ)
            → number_of s get_expected_nb (find k (reset s q).progress_status_map)
              ≡ number_of s get_expected_nb (find k q.progress_status_map))
        × (get_current_nb (reset s q).progress_status ≡ pos 0)
        × (get_expected_nb (reset s q).progress_status ≡ get_expected_nb q.progress_status)
        × Sums s get_current_nb (reset s q)
        × (sum_by get_expected_nb (reset s q).progress_status_map
            ≡ sum_by get_expected_nb q.progress_status_map)
  unfolding reset is_queue_done has_progress_status
  reset_restarts q laws = (
    refl,
    λ k. is_some-find-map_values reset_status k q.progress_status_map,
    λ k. number_of_zero get_current_nb reset_status k q.progress_status_map laws.reset_current,
    λ k.
        number_of-map_values get_expected_nb reset_status k q.progress_status_map
          laws.reset_expected,
    laws.reset_current q.progress_status,
    laws.reset_expected q.progress_status,
    sum_by-zero get_current_nb reset_status q.progress_status_map laws.reset_current
        ∙ sym (laws.reset_current q.progress_status),
    sum_by-map_values get_expected_nb reset_status q.progress_status_map laws.reset_expected,
  )
