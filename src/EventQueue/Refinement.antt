-- ===== src/EventQueue/Refinement.antt =====
-- What an event queue promises, whatever stands behind it: an agenda, which has at most one event
-- at each time stamp. `addEvent` enters an event at the first free time stamp, and `popEvent` takes
-- the earliest one away.
pub mod Steps
pub mod Quiet
pub mod Unchanged
use sevmgr.Prelude.{
  ℕ, ◌+◌, ◌-◌, ◌<◌, ◌≤◌, ◌^◌, ◌≡◌, refl, sym, ap, subst, ◌∙◌, true, not, Option, none, some, List,
  ◌∷◌, arith, ◌==◌, is_some, if◌then◌else◌, length, done,
}
use sevmgr.OrderedMap.{find, insert}
use sevmgr.OrderedMap.Order.{Above, IsOrdered, find_below}
use sevmgr.OrderedMap.Insertion.{insert_flag, length-insert, find-insert}
use sevmgr.Stdair.{Stdair}
use sevmgr.Stdair.Laws.{EventLaws}
use sevmgr.EventQueue.{EventQueue, Frame, get_queue_size}
use sevmgr.EventQueue.Events.{pop_event, add_event, take_event}
use sevmgr.EventQueue.Events.Insertion.{placed, postpone, add_event_first_free}
use sevmgr.EventQueue.Events.Types.{once, of_type, of_type-insert, postpone_type}
use sevmgr.EventQueue.Events.Popping.{popped, counted, progress_of, pop_event-found}
use sevmgr.EventQueue.Validity.{IsValid, IsStamped}

module _ (s : Stdair) where
  open s use {Event, Status, StatusSet, get_event_type, get_event_time_stamp, increment}

  -- The event at each time stamp.
  abbrev pub Agenda : Type 0
  Agenda = ℕ → Option Event

  abbrev pub agenda : EventQueue s → Agenda
  agenda q t = find t q.event_list

  -- The specification of an insertion: `b` is `a` with `e` at the first time stamp from `t` on that
  -- is free in `a`.
  pub record Enters (a b : Agenda) (t : ℕ) (e : Event) : Type 0 where
    pub not_earlier : t ≤ get_event_time_stamp e
    pub was_free : a (get_event_time_stamp e) ≡ none
    pub none_skipped : (i : ℕ) → t ≤ i → i < get_event_time_stamp e → is_some (a i) ≡ true
    pub entered : (i : ℕ) → b i ≡ (if get_event_time_stamp e == i then some e else a i)

  -- The specification of a removal: `e` is the earliest event of `a`, and `b` is `a` without it.
  pub record Removes (a b : Agenda) (e : Event) : Type 0 where
    pub was_there : a (get_event_time_stamp e) ≡ some e
    pub earliest : (i : ℕ) → i < get_event_time_stamp e → a i ≡ none
    pub left : (i : ℕ) → b i ≡ (if get_event_time_stamp e == i then none else a i)

  -- `addEvent` on a valid queue with room for its size in time stamps succeeds, and enters the
  -- caller's event, with its time stamp set to where it is entered, in the agenda of the queue. The
  -- list of events is one longer, with one event more of the type of the caller's, and the statuses
  -- of the queue stay.
  -- `EventLaws` are assumed.
  pub add_event-Enters :
      (f : Frame s)
      → EventLaws s
      → IsValid s f.queue
      → get_event_time_stamp f.event + length f.queue.event_list < 2 ^ 64
      → (g : Frame s) × (add_event s f ≡ done true g)
        × Enters (agenda f.queue) (agenda g.queue) (get_event_time_stamp f.event) g.event
        × (length g.queue.event_list ≡ length f.queue.event_list + 1)
        × (g.queue.progress_status ≡ f.queue.progress_status)
        × (g.queue.progress_status_map ≡ f.queue.progress_status_map)
        × ((k : ℕ)
            → of_type s k g.queue.event_list ≡ once s f.event k + of_type s k f.queue.event_list)
  unfolding placed get_queue_size
  add_event-Enters f laws v room =
      let (d, le, taken, free, stamp, run) = add_event_first_free s laws f v.in_order room in
      let e = postpone s d f.event in
      let t = get_event_time_stamp e in
      let free_at : find t f.queue.event_list ≡ none = rw stamp free in
      let flag : (insert t e f.queue.event_list).1 ≡ true =
        insert_flag t e f.queue.event_list v.in_order ∙ ap (λ o. not (is_some o)) free_at in
      (
        placed s d f,
        run,
        record {
          not_earlier = omega (arith, stamp);
          was_free = free_at;
          none_skipped = λ i h k.
              (let j = i - get_event_time_stamp f.event in
                let same : get_event_time_stamp f.event + j ≡ i = omega arith in
                subst (λ n. is_some (find n f.queue.event_list) ≡ true) same
                  (taken j (omega (arith, stamp))));
          entered = λ i. find-insert t i e f.queue.event_list v.in_order flag;
        },
        length-insert t e f.queue.event_list flag,
        refl,
        refl,
        λ k.
            of_type-insert s k t e f.queue.event_list flag
            ∙ ap (λ j. (if j == k then 1 else 0) + of_type s k f.queue.event_list)
                (postpone_type s laws d f.event),
      )

  pub Removes-head :
      (t : ℕ) (e : Event) (rest : List (ℕ × Event))
      → get_event_time_stamp e ≡ t
      → Above t rest
      → Removes (λ i. find i ((t, e) ∷ rest)) (λ i. find i rest) e
  unfolding find
  Removes-head t e rest stamp o = record {
    was_there = ground arith;
    earliest = λ i h. ground (arith, find_below i t rest o);
    left = λ i. ground (arith, find_below i t rest o);
  }

  -- `popEvent` on a valid queue whose first event has a type with a progress status succeeds, hands
  -- the caller the earliest event of the agenda and takes it away. Its list of
  -- events is one shorter.
  pub pop_event-Removes :
      (f : Frame s) (t : ℕ) (e : Event) (rest : List (ℕ × Event)) (p : Status)
      → IsValid s f.queue
      → f.queue.event_list ≡ (t, e) ∷ rest
      → find (get_event_type e) f.queue.progress_status_map ≡ some p
      → (ps : StatusSet) × (g : Frame s) × (pop_event s f ≡ done ps g)
        × Removes (agenda f.queue) (agenda g.queue) g.event
        × (length f.queue.event_list ≡ length g.queue.event_list + 1)
  unfolding counted take_event get_queue_size
  pop_event-Removes f t e rest p v h found = (
    progress_of s (get_event_type e) (increment p) (increment f.queue.progress_status),
    popped s e rest p f,
    pop_event-found s f t e rest p h found,
    subst (λ l. Removes (λ i. find i l) (agenda (popped s e rest p f).queue) e) (sym h)
        (Removes-head t e rest (subst (IsStamped s) h v.stamped).0 (subst IsOrdered h v.in_order)),
    omega (arith, ap length h),
  )
