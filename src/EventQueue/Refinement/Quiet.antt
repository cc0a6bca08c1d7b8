-- ===== src/EventQueue/Refinement/Quiet.antt =====
-- sevmgr/bom/EventQueue.cpp: methods that throw nothing on a queue that is in order.
use sevmgr.Prelude.{
  ℕ, zero, suc, Bool, true, false, not, ◌==◌, arith, Returns-bind, IsQuiet, length, assert_that,
  pure, ◌>>◌, inl, inr, Option-cases,
}
use sevmgr.OrderedMap.{find, insert}
use sevmgr.OrderedMap.Order.{IsOrdered}
use sevmgr.OrderedMap.Insertion.{insert_flag}
use sevmgr.Stdair.{Stdair}
use sevmgr.EventQueue.{EventQueue, Frame}
use sevmgr.EventQueue.Statuses.{update_status, add_status, to_count, add_overall, insert_status}
use sevmgr.EventQueue.Events.{try_insert, insert_loop, add_event, idx}

module _ (s : Stdair) where
  open s use {get_event_time_stamp}

  insert_loop-IsQuiet : (fuel : ℕ) (b : Bool) (f : Frame s) → IsQuiet (insert_loop s fuel b f)
  unfolding insert_loop try_insert
  insert_loop-IsQuiet zero b f = tt
  insert_loop-IsQuiet (suc fuel) true f = tt
  insert_loop-IsQuiet (suc fuel) false f = insert_loop-IsQuiet fuel _ _

  pub add_event-IsQuiet : (f : Frame s) → IsQuiet (add_event s f)
  unfolding add_event try_insert
  add_event-IsQuiet f =
      let l = f.queue.event_list in
      let (m, inserted) = insert (get_event_time_stamp f.event) f.event l in
      Returns-bind (λ _. Unit {0}) (λ _. Unit {0})
        (insert_loop s (suc (length l)) inserted
          (record f { queue = record f.queue { event_list = m } }))
        (λ b. assert_that (not (idx == 1000)) >> pure b) (insert_loop-IsQuiet (suc (length l)) _ _)
        λ b g h. tt

  to_count-IsQuiet : (x : s.Real) (q : EventQueue s) → IsQuiet (to_count s x q)
  to_count-IsQuiet x q = ground arith

  add_overall-IsQuiet : (x : s.Real) (q : EventQueue s) → IsQuiet (add_overall s x q)
  unfolding add_overall
  add_overall-IsQuiet x q = ground arith

  -- The insertion of the status of a type that has none succeeds.
  update_status-IsQuiet :
      (k : ℕ) (p : s.Status) (q : EventQueue s)
      → IsOrdered q.progress_status_map
      → IsQuiet (update_status s k p q)
  unfolding update_status insert_status
  update_status-IsQuiet k p q o = elim (Option-cases (find k q.progress_status_map)) [
    | inl missing ↦ ground (arith, missing, insert_flag k p q.progress_status_map o)
    | inr (w, found) ↦ ground (arith, found)
  ]

  pub add_status-IsQuiet :
      (k : ℕ) (x : s.Real) (q : EventQueue s)
      → IsOrdered q.progress_status_map
      → IsQuiet (add_status s k x q)
  unfolding add_status
  add_status-IsQuiet k x q o =
      Returns-bind (λ q'. IsOrdered q'.progress_status_map) (λ _. Unit {0})
        (to_count s (s.floor x) q)
        (λ n. update_status s k (s.new_status_of_total n) >> add_overall s x) (ground (arith, o))
        λ n q₁ h.
          Returns-bind (λ _. Unit {0}) (λ _. Unit {0})
            (update_status s k (s.new_status_of_total n) q₁) (λ _. add_overall s x)
            (update_status-IsQuiet k (s.new_status_of_total n) q₁ h)
            λ _ q₂ h₂. add_overall-IsQuiet x q₂
