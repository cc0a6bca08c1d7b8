-- ===== src/EventQueue/Events/Popping.antt =====
-- sevmgr/bom/EventQueue.cpp: `popEvent` by cases, a known event type and one without a progress
-- status.
use sevmgr.Prelude.{
  ℕ, ◌≡◌, ◌∙◌, none, some, List, ◌∷◌, arith, ◌==◌, if◌then◌else◌, pos, ◌+ℤ◌, IsInt, done, raised,
  event_queue_exception,
}
use sevmgr.OrderedMap.{find, update}
use sevmgr.OrderedMap.Order.{find-update}
use sevmgr.Stdair.{Stdair}
use sevmgr.Stdair.Laws.{StatusLaws}
use sevmgr.EventQueue.{Frame}
use sevmgr.EventQueue.Events.{count_pop, take_event, pop_event, pop_event-cons}

module _ (s : Stdair) where
  open s use {
    Event, Status, StatusSet, get_event_type, increment, set_overall_status,
    set_type_specific_status, new_status_set, get_current_nb, get_expected_nb, get_actual_nb,
  }

  -- The status of a type replaced by the next one.
  unfoldable pub counted : ℕ → Status → Frame s → Frame s
  counted k p f = record f {
    queue = record f.queue {
      progress_status_map = update k (increment p) f.queue.progress_status_map;
    };
  }

  -- What `popEvent` returns: the new status of the type and the new overall status.
  abbrev pub progress_of : ℕ → Status → Status → StatusSet
  progress_of k p overall =
      set_overall_status overall (set_type_specific_status p (new_status_set k))

  pub count_pop-found :
      (k : ℕ) (p : Status) (f : Frame s)
      → find k f.queue.progress_status_map ≡ some p
      → count_pop s k f ≡ done (progress_of k (increment p) f.queue.progress_status) (counted k p f)
  unfolding count_pop counted
  count_pop-found k p f h = ground arith

  pub count_pop-missing :
      (k : ℕ) (f : Frame s)
      → find k f.queue.progress_status_map ≡ none
      → count_pop s k f ≡ raised event_queue_exception f
  unfolding count_pop
  count_pop-missing k f h = ground arith

  -- The frame after an event of a known type is popped.
  abbrev pub popped : Event → List (ℕ × Event) → Status → Frame s → Frame s
  popped e rest p f = counted (get_event_type e) p (take_event s e rest f)

  pub pop_event-found :
      (f : Frame s) (t : ℕ) (e : Event) (rest : List (ℕ × Event)) (p : Status)
      → f.queue.event_list ≡ (t, e) ∷ rest
      → find (get_event_type e) f.queue.progress_status_map ≡ some p
      → pop_event s f
        ≡ done
            (progress_of (get_event_type e) (increment p) (increment f.queue.progress_status))
            (popped e rest p f)
  unfolding take_event
  pop_event-found f t e rest p h k =
      pop_event-cons s f t e rest h ∙ count_pop-found (get_event_type e) p (take_event s e rest f) k

  -- When the type of the first event has no progress status, `popEvent` throws, and by then the
  -- event is lost to the queue: it is out of the list, it is counted as a current event overall,
  -- and the caller's event is overwritten with it.
  pub pop_event_unknown_type :
      (f : Frame s) (t : ℕ) (e : Event) (rest : List (ℕ × Event))
      → f.queue.event_list ≡ (t, e) ∷ rest
      → find (get_event_type e) f.queue.progress_status_map ≡ none
      → pop_event s f
        ≡ raised event_queue_exception (record {
          queue = record f.queue {
            event_list = rest;
            progress_status = increment f.queue.progress_status;
          };
          event = e;
        })
  unfolding take_event
  pop_event_unknown_type f t e rest h k =
      pop_event-cons s f t e rest h ∙ count_pop-missing (get_event_type e) (take_event s e rest f) k

  -- A pop of an event of a known type adds one to the current number of that type and to the
  -- overall one, and changes no total; the statuses of the other types stay. The two numbers must
  -- not be at the end of the range of `int`. `StatusLaws` are assumed.
  pub pop_event_counts :
      (f : Frame s) (t : ℕ) (e : Event) (rest : List (ℕ × Event)) (p : Status)
      → StatusLaws s
      → f.queue.event_list ≡ (t, e) ∷ rest
      → find (get_event_type e) f.queue.progress_status_map ≡ some p
      → IsInt (get_current_nb p +ℤ pos 1)
      → IsInt (get_current_nb f.queue.progress_status +ℤ pos 1)
      → (ps : StatusSet) × (g : Frame s) × (p' : Status) × (pop_event s f ≡ done ps g)
        × ((k : ℕ)
            → find k g.queue.progress_status_map
              ≡ (if get_event_type e == k then some p' else find k f.queue.progress_status_map))
        × (get_current_nb p' ≡ get_current_nb p +ℤ pos 1)
        × (get_expected_nb p' ≡ get_expected_nb p)
        × (get_actual_nb p' ≡ get_actual_nb p)
        × (get_current_nb g.queue.progress_status ≡ get_current_nb f.queue.progress_status +ℤ pos 1)
        × (get_expected_nb g.queue.progress_status ≡ get_expected_nb f.queue.progress_status)
        × (get_actual_nb g.queue.progress_status ≡ get_actual_nb f.queue.progress_status)
  unfolding counted take_event
  pop_event_counts f t e rest p laws h found fits fits_overall = (
    progress_of (get_event_type e) (increment p) (increment f.queue.progress_status),
    popped e rest p f,
    increment p,
    pop_event-found f t e rest p h found,
    λ k.
        ground (
          arith,
          find-update (get_event_type e) k (increment p) f.queue.progress_status_map,
          found,
        ),
    laws.increment_current p fits,
    laws.increment_expected p,
    laws.increment_actual p,
    laws.increment_current f.queue.progress_status fits_overall,
    laws.increment_expected f.queue.progress_status,
    laws.increment_actual f.queue.progress_status,
  )
