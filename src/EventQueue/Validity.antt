-- ===== src/EventQueue/Validity.antt =====
-- sevmgr/bom/EventQueue.cpp: the invariant of an event queue, for which both maps are in order and
-- each event stands under its own time stamp, and the methods.
use sevmgr.Prelude.{
  ℕ, zero, suc, ◌≡◌, refl, Bool, true, false, not, List, [], ◌∷◌, arith, ◌==◌, inl, inr, List-cases,
  subst, Leaves, Leaves-bind, ◌>>=◌, ◌>>◌, pure, assert_that, length,
}
use sevmgr.OrderedMap.{insert}
use sevmgr.OrderedMap.Order.{
  IsOrdered, Above-IsOrdered, insert-IsOrdered, update-IsOrdered, map_values-IsOrdered,
}
use sevmgr.Stdair.{Stdair}
use sevmgr.EventQueue.{EventQueue, Frame, new_event_queue, reset}
use sevmgr.EventQueue.Statuses.{update_status, add_status, update_status_nb, to_count, add_overall}
use sevmgr.EventQueue.Events.{
  count_pop, take_event, pop_event, pop_event-nil, pop_event-cons, try_insert, insert_loop,
  add_event, idx,
}

module _ (s : Stdair) where
  open s use {Event, Status, get_event_type, get_event_time_stamp, reset_status}

  abbrev pub IsStamped : List (ℕ × Event) → Type 0
  IsStamped [] = Unit {0}
  IsStamped ((t, e) ∷ m) = (get_event_time_stamp e ≡ t) × IsStamped m

  pub record IsValid (q : EventQueue s) : Type 0 where
    pub in_order : IsOrdered q.event_list
    pub stamped : IsStamped q.event_list
    pub types_in_order : IsOrdered q.progress_status_map

  pub insert-IsStamped :
      (e : Event) (m : List (ℕ × Event))
      → IsStamped m
      → IsStamped (insert (get_event_time_stamp e) e m).0
  unfolding insert
  insert-IsStamped e [] h = (refl, tt)
  insert-IsStamped e ((t, e') ∷ m) h = ground (arith, insert-IsStamped e m h.1)

  pub new_event_queue-IsValid : (key : List ℕ) → IsValid (new_event_queue s key)
  unfolding new_event_queue
  new_event_queue-IsValid key = record { in_order = tt; stamped = tt; types_in_order = tt }

  pub reset-IsValid : (q : EventQueue s) → IsValid q → IsValid (reset s q)
  unfolding reset
  reset-IsValid q v = record {
    in_order = tt;
    stamped = tt;
    types_in_order = map_values-IsOrdered reset_status q.progress_status_map v.types_in_order;
  }

  pub update_status-IsValid :
      (k : ℕ) (p : Status) (q : EventQueue s) → IsValid q → Leaves IsValid (update_status s k p q)
  unfolding update_status
  update_status-IsValid k p q v = grind (arith, insert-IsOrdered, update-IsOrdered)

  pub update_status_nb-IsValid :
      (k : ℕ) (x : s.Real) (q : EventQueue s)
      → IsValid q
      → Leaves IsValid (update_status_nb s k x q)
  unfolding update_status_nb
  update_status_nb-IsValid k x q v = grind (arith, update-IsOrdered)

  add_overall-IsValid :
      (x : s.Real) (q : EventQueue s) → IsValid q → Leaves IsValid (add_overall s x q)
  unfolding add_overall
  add_overall-IsValid x q v = ground arith

  to_count-IsValid : (x : s.Real) (q : EventQueue s) → IsValid q → Leaves IsValid (to_count s x q)
  to_count-IsValid x q v = ground arith

  pub add_status-IsValid :
      (k : ℕ) (x : s.Real) (q : EventQueue s) → IsValid q → Leaves IsValid (add_status s k x q)
  unfolding add_status
  add_status-IsValid k x q v =
      Leaves-bind IsValid (to_count s (s.floor x) q)
        (λ n. update_status s k (s.new_status_of_total n) >> add_overall s x)
        (to_count-IsValid (s.floor x) q v)
        λ n q₁ v₁.
          Leaves-bind IsValid (update_status s k (s.new_status_of_total n) q₁)
            (λ _. add_overall s x) (update_status-IsValid k (s.new_status_of_total n) q₁ v₁)
            λ _ q₂ v₂. add_overall-IsValid x q₂ v₂

  -- The queue of a frame is valid.
  abbrev pub FrameIsValid : Frame s → Type 0
  FrameIsValid f = IsValid f.queue

  try_insert-IsValid : (f : Frame s) → FrameIsValid f → Leaves FrameIsValid (try_insert s f)
  unfolding try_insert
  try_insert-IsValid f v = record {
    in_order =
        insert-IsOrdered (get_event_time_stamp f.event) f.event f.queue.event_list v.in_order;
    stamped = insert-IsStamped f.event f.queue.event_list v.stamped;
    types_in_order = v.types_in_order;
  }

  insert_loop-IsValid :
      (fuel : ℕ) (b : Bool) (f : Frame s)
      → FrameIsValid f
      → Leaves FrameIsValid (insert_loop s fuel b f)
  unfolding insert_loop
  insert_loop-IsValid zero b f v = tt
  insert_loop-IsValid (suc fuel) true f v = v
  insert_loop-IsValid (suc fuel) false f v =
      let e = s.increment_event_time_stamp f.event in
      let g : Frame s = record f { event = e } in
      Leaves-bind FrameIsValid (try_insert s g) (insert_loop s fuel) (try_insert-IsValid g v)
        (insert_loop-IsValid fuel)

  pub add_event-IsValid : (f : Frame s) → FrameIsValid f → Leaves FrameIsValid (add_event s f)
  unfolding add_event
  add_event-IsValid f v =
      Leaves-bind FrameIsValid (try_insert s f)
        (λ first. insert_loop s (suc (length f.queue.event_list)) first >>= λ b.
          assert_that (not (idx == 1000)) >> pure b)
        (try_insert-IsValid f v)
        λ first g w.
          Leaves-bind FrameIsValid (insert_loop s (suc (length f.queue.event_list)) first g)
            (λ b. assert_that (not (idx == 1000)) >> pure b)
            (insert_loop-IsValid (suc (length f.queue.event_list)) first g w) λ b h u. u

  count_pop-IsValid : (k : ℕ) (f : Frame s) → FrameIsValid f → Leaves FrameIsValid (count_pop s k f)
  unfolding count_pop
  count_pop-IsValid k f v = grind (arith, update-IsOrdered)

  pub take_event-IsValid :
      (t : ℕ) (e : Event) (rest : List (ℕ × Event)) (f : Frame s)
      → f.queue.event_list ≡ (t, e) ∷ rest
      → FrameIsValid f
      → FrameIsValid (take_event s e rest f)
  unfolding take_event
  take_event-IsValid t e rest f h v = record {
    in_order = Above-IsOrdered t rest (subst IsOrdered h v.in_order);
    stamped = (subst IsStamped h v.stamped).1;
    types_in_order = v.types_in_order;
  }

  pub pop_event-IsValid : (f : Frame s) → FrameIsValid f → Leaves FrameIsValid (pop_event s f)
  pop_event-IsValid f v = elim (List-cases f.queue.event_list) [
    | inl empty ↦ rw (pop_event-nil s f empty) v
    | inr ((t, e), rest, h) ↦ rw (pop_event-cons s f t e rest h) (
        count_pop-IsValid (get_event_type e) (take_event s e rest f)
          (take_event-IsValid t e rest f h v))
  ]
