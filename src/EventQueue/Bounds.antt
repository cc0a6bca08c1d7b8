-- ===== src/EventQueue/Bounds.antt =====
-- sevmgr/bom/EventQueue.cpp: how the number of current events and the size of the queue are bounded
-- by the number of additions.
use sevmgr.Prelude.{
  ℕ, zero, suc, ◌+◌, ◌≤◌, ◌<◌, ◌≡◌, refl, sym, ap, ◌∙◌, inl, inr, subst, Bool, true, false, not,
  List, ◌∷◌, length, arith, ℤ, pos, ◌+ℤ◌, IsInt, fits_int, Exec, done, undefined, Leaves,
  Leaves-bind, Leads, ◌>>=◌, ◌>>◌, pure, assert_that, List-cases, Option-cases, ◌==◌, count_up,
  ◌-ℤ◌, bind_result, if◌then◌else◌,
}
use sevmgr.OrderedMap.{insert, find}
use sevmgr.OrderedMap.Insertion.{insert_taken, length-insert}
use sevmgr.Stdair.{Stdair}
use sevmgr.Stdair.Laws.{StatusLaws}
use sevmgr.EventQueue.{EventQueue, Frame, new_event_queue, reset}
use sevmgr.EventQueue.Statuses.{update_status, add_status, update_status_nb, to_count, add_overall}
use sevmgr.EventQueue.Events.{
  count_pop, take_event, pop_event, pop_event-nil, pop_event-cons, try_insert, insert_loop,
  add_event, idx,
}

module _ (s : Stdair) where
  open s use {Event, Status, get_current_nb, get_event_type, get_event_time_stamp}

  -- The events that are played and those that wait are `a` at most.
  abbrev pub CountsWithin : ℕ → Status → List (ℕ × Event) → Type 0
  CountsWithin a p l = (n : ℕ) × (get_current_nb p ≡ pos n) × (n + length l ≤ a)

  pub record IsWithin (a : ℕ) (q : EventQueue s) : Type 0 where
    pub counts : CountsWithin a q.progress_status q.event_list

  abbrev pub FrameIsWithin : ℕ → Frame s → Type 0
  FrameIsWithin a f = IsWithin a f.queue

  pub widen : (a b : ℕ) (q : EventQueue s) → a ≤ b → IsWithin a q → IsWithin b q
  widen a b q h w = record { counts = (w.counts.0, w.counts.1, omega (arith, w.counts.2)) }

  -- `insert` puts one entry more in the list if it succeeds, and none if not.
  abbrev Tried : ℕ → Bool → Frame s → Type 0
  Tried a true f = FrameIsWithin (a + 1) f
  Tried a false f = FrameIsWithin a f

  tried :
      (a : ℕ) (b : Bool) (l : List (ℕ × Event)) (f : Frame s)
      → FrameIsWithin a f
      → (b ≡ true → length l ≡ length f.queue.event_list + 1)
      → (b ≡ false → l ≡ f.queue.event_list)
      → Tried a b (record f { queue = record f.queue { event_list = l } })
  tried a true l f w grows same = record {
    counts = (w.counts.0, w.counts.1, omega (arith, w.counts.2, grows refl));
  }
  tried a false l f w grows same = record {
    counts = (w.counts.0, w.counts.1, omega (arith, w.counts.2, ap length (same refl)));
  }

  insert_loop-Leaves :
      (a fuel : ℕ) (b : Bool) (f : Frame s)
      → Tried a b f
      → Leaves (FrameIsWithin (a + 1)) (insert_loop s fuel b f)
  unfolding insert_loop try_insert
  insert_loop-Leaves a zero b f w = tt
  insert_loop-Leaves a (suc fuel) true f w = w
  insert_loop-Leaves a (suc fuel) false f w =
      let e = s.increment_event_time_stamp f.event in
      let g : Frame s = record f { event = e } in
      let (l, b) = insert (get_event_time_stamp e) e f.queue.event_list in
      insert_loop-Leaves a fuel b (record g { queue = record g.queue { event_list = l } })
        (tried a b l g w (length-insert (get_event_time_stamp e) e f.queue.event_list)
          (insert_taken (get_event_time_stamp e) e f.queue.event_list))

  pub add_event-Leads : (a : ℕ) → Leads (FrameIsWithin a) (FrameIsWithin (a + 1)) (add_event s)
  unfolding add_event try_insert
  add_event-Leads a = record {
    at = λ f w.
        let k = get_event_time_stamp f.event in
        let (l, b) = insert k f.event f.queue.event_list in
        let g : Frame s = record f { queue = record f.queue { event_list = l } } in
        Leaves-bind (FrameIsWithin (a + 1)) (insert_loop s (suc (length f.queue.event_list)) b g)
          (λ x. assert_that (not (idx == 1000)) >> pure x)
          (insert_loop-Leaves a (suc (length f.queue.event_list)) b g (
            tried a b l f w (length-insert k f.event f.queue.event_list)
              (insert_taken k f.event f.queue.event_list)))
          λ x h v. v;
  }

  count_pop-Leaves :
      (a k : ℕ) (f : Frame s) → FrameIsWithin a f → Leaves (FrameIsWithin a) (count_pop s k f)
  unfolding count_pop
  count_pop-Leaves a k f w = ground arith

  -- A conversion, and what follows it for each value.
  after_count :
      {A : Type 0} (Q : EventQueue s → Type 0) (x : s.Real) (f : ℤ → Exec (EventQueue s) A)
      (q : EventQueue s)
      → ((n : ℤ) → Leaves Q (f n q))
      → Leaves Q ((to_count s x >>= f) q)
  after_count Q x f q h = elim (Option-cases (s.count_of_real x)) [
    | inl e ↦ rw (e, to_count) tt
    | inr (n, e) ↦ rw (e, to_count) (h n)
  ]

  -- A sum or a difference of the type `int`, and what follows it.
  after_test :
      {A : Type 0} (Q : EventQueue s → Type 0) (b : Bool) (n : ℤ) (f : ℤ → Exec (EventQueue s) A)
      (q : EventQueue s)
      → Leaves Q (f n q)
      → Leaves Q (bind_result (if b then done n q else undefined) f)
  after_test Q true n f q h = h
  after_test Q false n f q h = tt

  update_status-Leaves :
      (a k : ℕ) (p : Status) (q : EventQueue s)
      → IsWithin a q
      → Leaves (IsWithin a) (update_status s k p q)
  unfolding update_status
  update_status-Leaves a k p q w = ground arith

  -- A status with the same current number.
  with_status :
      (a : ℕ) (p : Status) (m : List (ℕ × Status)) (q : EventQueue s)
      → get_current_nb p ≡ get_current_nb q.progress_status
      → IsWithin a q
      → IsWithin a (record q { progress_status = p; progress_status_map = m })
  with_status a p m q same w = record { counts = (w.counts.0, same ∙ w.counts.1, w.counts.2) }

  module _ (laws : StatusLaws s) where
    pub reset-IsWithin : (a : ℕ) (q : EventQueue s) → IsWithin a q → IsWithin a (reset s q)
    unfolding reset
    reset-IsWithin a q w = record {
      counts = (0, laws.reset_current q.progress_status, omega arith);
    }

    add_overall-Leaves :
        (a : ℕ) (x : s.Real) (q : EventQueue s)
        → IsWithin a q
        → Leaves (IsWithin a) (add_overall s x q)
    unfolding add_overall
    add_overall-Leaves a x q w = after_count (IsWithin a) _ _ q λ expected.
        after_count (IsWithin a) _ _ q λ actual.
          with_status a _ q.progress_status_map q
            (laws.set_actual_current actual _ ∙ laws.set_expected_current expected _) w

    pub add_status-Leaves :
        (a k : ℕ) (x : s.Real) (q : EventQueue s)
        → IsWithin a q
        → Leaves (IsWithin a) (add_status s k x q)
    unfolding add_status
    add_status-Leaves a k x q w =
        after_count (IsWithin a) (s.floor x)
          (λ n. update_status s k (s.new_status_of_total n) >> add_overall s x) q
          λ n.
            Leaves-bind (IsWithin a) (update_status s k (s.new_status_of_total n) q)
              (λ _. add_overall s x) (update_status-Leaves a k (s.new_status_of_total n) q w)
              λ _. add_overall-Leaves a x

    pub update_status_nb-Leaves :
        (a k : ℕ) (x : s.Real) (q : EventQueue s)
        → IsWithin a q
        → Leaves (IsWithin a) (update_status_nb s k x q)
    unfolding update_status_nb
    update_status_nb-Leaves a k x q w = after_count (IsWithin a) (s.floor x) _ q λ n.
        elim (Option-cases (find k q.progress_status_map)) [
          | inl e ↦ rw e w
          | inr (p, e) ↦ rw e (
              after_count (IsWithin a) _ _ q λ old.
                after_test (IsWithin a) (fits_int (n -ℤ old)) (n -ℤ old) _ q (
                  after_test (IsWithin a)
                    (fits_int (s.get_actual_nb q.progress_status +ℤ (n -ℤ old)))
                    (s.get_actual_nb q.progress_status +ℤ (n -ℤ old)) _ q
                    (with_status a _ _ q (laws.set_actual_current _ _) w)))
        ]

    -- The frame after a pop, with one event fewer in the list and one more counted.
    taken :
        (a t : ℕ) (e : Event) (rest : List (ℕ × Event)) (f : Frame s)
        → a < 2147483648
        → f.queue.event_list ≡ (t, e) ∷ rest
        → FrameIsWithin a f
        → FrameIsWithin a (take_event s e rest f)
    unfolding take_event
    taken a t e rest f fits h w =
        let (n, current, bound) = w.counts in
        let size : n + suc (length rest) ≤ a = omega (arith, bound, ap length h) in
        let (is_int, next) = count_up n (omega arith) in
        record {
          counts = (
            n + 1,
            laws.increment_current f.queue.progress_status
                  (subst (λ k. IsInt (k +ℤ pos 1)) (sym current) is_int)
                ∙ ap (λ k. k +ℤ pos 1) current
                ∙ next,
            omega (arith, size),
          );
        }

    pub pop_event-Leaves :
        (a : ℕ) (f : Frame s)
        → a < 2147483648
        → FrameIsWithin a f
        → Leaves (FrameIsWithin a) (pop_event s f)
    pop_event-Leaves a f fits w = elim (List-cases f.queue.event_list) [
      | inl empty ↦ rw (pop_event-nil s f empty) w
      | inr ((t, e), rest, h) ↦ rw (pop_event-cons s f t e rest h) (
          count_pop-Leaves a (get_event_type e) (take_event s e rest f)
            (taken a t e rest f fits h w))
    ]

  pub new_event_queue-IsWithin : (key : List ℕ) → StatusLaws s → IsWithin 0 (new_event_queue s key)
  unfolding new_event_queue
  new_event_queue-IsWithin key laws = record { counts = (0, laws.new_current _ _, omega arith) }
