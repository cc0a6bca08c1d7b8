-- ===== src/EventQueueManager/Refinement.antt =====
-- sevmgr/command/EventQueueManager.cpp: what the command may do to the agenda of a queue and to the
-- event of the caller, also when it throws.
pub mod Additions
use sevmgr.Prelude.{
  ◌⊎◌, is_some, Option-cases, ℕ, zero, suc, ◌≡◌, refl, sym, ap, subst, ◌∙◌, Bool, true, false, not,
  Option, none, some, List, [], ◌∷◌, arith, ◌==◌, ◌&&◌, is_empty, length, Exec, Result, done,
  raised, aborted, undefined, diverged, event_queue_exception, event_exception,
  non_initialised_service, json_parser_error, bad_date, Leaves, Leaves-bind, Leaves-chain,
  Leaves-weaken, Leaves-both, bind_result, assert_that, pure, inl, inr, Bool-cases, List-cases,
}
use sevmgr.Stdair.{Stdair}
use sevmgr.EventQueue.{EventQueue, Frame, is_queue_done}
use sevmgr.EventQueue.Events
use sevmgr.OrderedMap.{find}
use sevmgr.EventQueue.Events.{pop_event-nil, take_event}
use sevmgr.EventQueue.Events.Popping.{popped, counted, pop_event-found, pop_event_unknown_type}
use sevmgr.EventQueueManager.Selection.Outcomes.{stamp_of}
use sevmgr.EventQueue.Validity.{FrameIsValid, add_event-IsValid}
use sevmgr.EventQueue.Refinement.{Agenda, agenda}
use sevmgr.EventQueue.Refinement.Steps.{
  Same, PlaysFrom, PlaysFrom-same, PlaysFrom-next, PopsFirst, pop_event-PopsFirst, pop_event-types,
  types_of, IsClear, Adds, add_event-Adds,
}
use sevmgr.EventQueueManager
use sevmgr.EventQueueManager.Grading.{catch-Leaves}
use sevmgr.EventQueueManager.{
  run_loop, run, select_loop, select, catch_event_queue_exception, pop_event, add_event,
}

module _ (s : Stdair) where
  open s use {
    Event, Moment, StatusSet, get_event_type, get_event_time, brk_pt, bkg_req, moment_eq,
    default_event_oldest_date_time,
  }

  -- A frame behind the pop of an event.
  abbrev Pops : Frame s → Event → List (ℕ × Event) → Frame s → Type 0
  Pops f e rest g = PopsFirst s e rest g × (types_of s g ≡ types_of s f)

  pop_event-Pops :
      (f : Frame s) (t : ℕ) (e : Event) (rest : List (ℕ × Event))
      → FrameIsValid s f
      → f.queue.event_list ≡ (t, e) ∷ rest
      → Leaves (Pops f e rest) (Events.pop_event s f)
  pop_event-Pops f t e rest v h =
      Leaves-both (PopsFirst s e rest) (λ g. types_of s g ≡ types_of s f) (Events.pop_event s f)
        (pop_event-PopsFirst s f t e rest v h) (pop_event-types s f t e rest h)

  -- One round of a loop: an event is popped, and what follows plays on from there, unless the pop
  -- throws.
  round :
      {A : Type 0} (stop : Event → Bool) (f : Frame s) (x : ℕ × Event) (rest : List (ℕ × Event))
      (m : Exec (Frame s) A)
      → FrameIsValid s f
      → f.queue.event_list ≡ x ∷ rest
      → ((g : Frame s) → FrameIsValid s g → Leaves (PlaysFrom s (stop g.event) stop g) (m g))
      → Leaves (PlaysFrom s false stop f) (bind_result (Events.pop_event s f) (λ _. m))
  unfolding take_event counted
  round stop f (t, e) rest m v h k =
      elim (Option-cases (find (get_event_type e) f.queue.progress_status_map)) [
        | inl missing ↦
            let g = take_event s e rest f in
            let thrown = pop_event_unknown_type s f t e rest h missing in
            let (pops, types) =
              subst (Leaves (Pops f e rest)) thrown (pop_event-Pops f t e rest v h) in
            subst (λ r. Leaves (PlaysFrom s false stop f) (bind_result r (λ _. m))) (sym thrown)
              (PlaysFrom-next s true stop f g g t e rest v h pops types (ground (arith, missing))
                (PlaysFrom-same s true stop g (inl refl)))
        | inr (p, found) ↦
            let g = popped s e rest p f in
            let returned = pop_event-found s f t e rest p h found in
            let (pops, types) =
              subst (Leaves (Pops f e rest)) returned (pop_event-Pops f t e rest v h) in
            subst (λ r. Leaves (PlaysFrom s false stop f) (bind_result r (λ _. m))) (sym returned)
              (Leaves-weaken (PlaysFrom s (stop e) stop g) (PlaysFrom s false stop f) (m g)
                (λ h'.
                  PlaysFrom-next s (stop e) stop f g h' t e rest v h pops types
                    (ground (arith, found)))
                (k g pops.0))
      ]

  nothing_left : (f : Frame s) → f.queue.event_list ≡ [] → IsClear s (agenda s f.queue)
  unfolding find
  nothing_left f h i = ap (find i) h

  -- The loops end at an empty queue, or behind an event that passes the test.
  guarded :
      {A : Type 0} (stop : Event → Bool) (stopped : Bool) (l : List (ℕ × Event)) (f : Frame s)
      (m : Exec (Frame s) A) (a : A)
      → FrameIsValid s f
      → f.queue.event_list ≡ l
      → ((g : Frame s) → FrameIsValid s g → Leaves (PlaysFrom s (stop g.event) stop g) (m g))
      → Leaves (PlaysFrom s stopped stop f) (elim (not (is_empty l) && not stopped) [
        | true ↦ bind_result (Events.pop_event s f) (λ _. m)
        | false ↦ done a f
      ])
  guarded stop stopped [] f m a v h k = PlaysFrom-same s stopped stop f (inr (nothing_left f h))
  guarded stop true (x ∷ l) f m a v h k = PlaysFrom-same s true stop f (inl refl)
  guarded stop false (x ∷ l) f m a v h k = round stop f x l m v h k

  abbrev pub is_break : Event → Bool
  is_break e = get_event_type e == brk_pt

  run_loop-PlaysFrom :
      (fuel k : ℕ) (f : Frame s)
      → FrameIsValid s f
      → Leaves (PlaysFrom s (k == brk_pt) is_break f) (run_loop s fuel k f)
  unfolding run_loop is_queue_done
  run_loop-PlaysFrom zero k f v = tt
  run_loop-PlaysFrom (suc fuel) k f v =
      guarded is_break (k == brk_pt) f.queue.event_list f
        (λ g. run_loop s fuel (get_event_type g.event) g) tt v refl
        λ g w. run_loop-PlaysFrom fuel (get_event_type g.event) g w

  pub run-PlaysFrom :
      (f : Frame s)
      → FrameIsValid s f
      → Leaves (PlaysFrom s (bkg_req == brk_pt) is_break f) (run s f)
  unfolding run
  run-PlaysFrom f v = run_loop-PlaysFrom (suc (length f.queue.event_list)) bkg_req f v

  abbrev pub is_at : Moment → Event → Bool
  is_at time e = moment_eq (get_event_time e) time

  select_loop-PlaysFrom :
      (fuel : ℕ) (time last : Moment) (f : Frame s)
      → FrameIsValid s f
      → Leaves (PlaysFrom s (moment_eq last time) (is_at time) f) (select_loop s fuel time last f)
  unfolding select_loop is_queue_done
  select_loop-PlaysFrom zero time last f v = tt
  select_loop-PlaysFrom (suc fuel) time last f v =
      guarded (is_at time) (moment_eq last time) f.queue.event_list f
        (λ g. select_loop s fuel time (get_event_time g.event) g) last v refl
        λ g w. select_loop-PlaysFrom fuel time (get_event_time g.event) g w

  abbrev pub at_oldest : Moment → Bool
  at_oldest time = moment_eq default_event_oldest_date_time time

  asserted :
      {A : Type 0} (P : Frame s → Type 0) (b : Bool) (a : A) (f : Frame s)
      → P f
      → Leaves P (bind_result (assert_that b f) (λ _. pure a))
  asserted P true a f h = h
  asserted P false a f h = tt

  -- The specification of `select`: without an event at the time stamp of the date-time nothing
  -- happens, with one the events are played.
  abbrev pub Selects : Moment → Frame s → Frame s → Type 0
  Selects time f g =
      ((agenda s f.queue (stamp_of s time) ≡ none) × (f ≡ g))
      ⊎ ((is_some (agenda s f.queue (stamp_of s time)) ≡ true)
          × PlaysFrom s (at_oldest time) (is_at time) f g)

  selected :
      (o : Option Event) (time : Moment) (f : Frame s) (r : Result (Frame s) Moment)
      → agenda s f.queue (stamp_of s time) ≡ o
      → Leaves (PlaysFrom s (at_oldest time) (is_at time) f) r
      → Leaves (Selects time f) (elim (is_some o) [
        | false ↦ done false f
        | true ↦
            bind_result r
              (λ last g. bind_result (assert_that (moment_eq last time) g) (λ _. pure true))
      ])
  selected none time f r free h = inl (free, refl)
  selected (some e) time f r taken h =
      Leaves-chain (PlaysFrom s (at_oldest time) (is_at time) f) (Selects time f) r _
        (λ g p. inr (ap is_some taken, p)) h
        λ last g p.
          asserted (Selects time f) (moment_eq last time) true g (inr (ap is_some taken, p))

  pub select-Selects :
      (time : Moment) (f : Frame s) → FrameIsValid s f → Leaves (Selects time f) (select s time f)
  unfolding select Events.has_event_date_time
  select-Selects time f v = selected (agenda s f.queue (stamp_of s time)) time f _ refl (
      select_loop-PlaysFrom (suc (length f.queue.event_list)) time default_event_oldest_date_time f
        v)

  abbrev pub every : Event → Bool
  every e = true

  first_popped :
      (l : List (ℕ × Event)) (f : Frame s)
      → FrameIsValid s f
      → f.queue.event_list ≡ l
      → Leaves (PlaysFrom s false every f) (Events.pop_event s f)
  first_popped [] f v h =
      rw (pop_event-nil s f h) (PlaysFrom-same s false every f (inr (nothing_left f h)))
  first_popped ((t, e) ∷ rest) f v h =
      Leaves-weaken (Pops f e rest) (PlaysFrom s false every f) (Events.pop_event s f)
        (λ g (pops, types).
          PlaysFrom-next s true every f g g t e rest v h pops types refl
            (PlaysFrom-same s true every g (inl refl)))
        (pop_event-Pops f t e rest v h)

  pub pop_event-PlaysFrom :
      (f : Frame s) → FrameIsValid s f → Leaves (PlaysFrom s false every f) (pop_event s f)
  unfolding pop_event
  pop_event-PlaysFrom f v =
      catch-Leaves s (PlaysFrom s false every f) (Events.pop_event s f)
        (first_popped f.queue.event_list f v refl)

  pub command_add-Adds : (f : Frame s) → FrameIsValid s f → Leaves (Adds s f) (add_event s f)
  unfolding add_event
  command_add-Adds f v =
      Leaves-bind (Adds s f) (Events.add_event s f) (λ _. pure tt) (add_event-Adds s f v) λ _ g h. h
