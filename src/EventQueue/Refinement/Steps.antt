-- ===== src/EventQueue/Refinement/Steps.antt =====
-- sevmgr/bom/EventQueue.cpp: what a call may do to the agenda of a queue and to the event of the
-- caller, also when it throws.
use sevmgr.Prelude.{
  ◌||◌, ◌⊎◌, inl, inr, ℕ, zero, suc, ◌<◌, ◌≡◌, refl, sym, ap, subst, ◌∙◌, Bool, true, false, not,
  none, some, List, [], ◌∷◌, arith, ◌==◌, is_some, if◌then◌else◌, length, Leaves, Leaves-both,
  Leaves-weaken, assert_that, pure, ◌>>◌, Leaves-bind, Option-cases,
}
use sevmgr.OrderedMap.{find, insert}
use sevmgr.OrderedMap.Order.{IsOrdered, is_some-find-update}
use sevmgr.OrderedMap.Insertion.{insert_flag, insert_taken, find-insert}
use sevmgr.Stdair.{Stdair}
use sevmgr.EventQueue.{Frame}
use sevmgr.EventQueue.Events.{
  count_pop, take_event, pop_event, pop_event-cons, try_insert, insert_loop, add_event, idx,
}
use sevmgr.EventQueue.Events.Insertion.{postpone}
use sevmgr.EventQueue.Events.Popping.{count_pop-found, counted}
use sevmgr.EventQueue.Validity.{FrameIsValid, IsStamped, pop_event-IsValid}
use sevmgr.EventQueue.Refinement.{Agenda, agenda, Removes, Removes-head}

module _ (s : Stdair) where
  open s use {Event, get_event_time_stamp, increment_event_time_stamp, get_event_type}

  abbrev pub Same : Agenda s → Agenda s → Type 0
  Same a b = (i : ℕ) → b i ≡ a i

  -- The specification of events played one after another, each the earliest at its time.
  abbrev pub Plays : Agenda s → List Event → Agenda s → Type 0
  Plays a [] b = Same a b
  Plays a (e ∷ l) b = (c : Agenda s) × Removes s a c e × Plays c l b

  -- Nothing is played behind an event that passes the test.
  abbrev pub StopsAt : (Event → Bool) → List Event → Type 0
  StopsAt stop [] = Unit {0}
  StopsAt stop (e ∷ l) = (stop e ≡ true → l ≡ []) × StopsAt stop l

  abbrev pub IsClear : Agenda s → Type 0
  IsClear a = (i : ℕ) → a i ≡ none

  -- Events are played until one passes the test, if the playing has not stopped at the start, or
  -- until none is left.
  abbrev pub EndsAt : (Event → Bool) → Agenda s → Bool → List Event → Type 0
  EndsAt stop b stopped [] = (stopped ≡ true) ⊎ IsClear b
  EndsAt stop b stopped (e ∷ l) = EndsAt stop b (stop e) l

  -- The types that have a progress status.
  abbrev pub types_of : Frame s → ℕ → Bool
  types_of f k = is_some (find k f.queue.progress_status_map)

  -- The playing halts behind an event that passes the test, and behind one whose type has no
  -- progress status.
  abbrev pub halts : (Event → Bool) → (ℕ → Bool) → Event → Bool
  halts stop known e = stop e || not (known (get_event_type e))

  abbrev pub last_of : Event → List Event → Event
  last_of e [] = e
  last_of e (e' ∷ l) = last_of e' l

  -- The specification of a loop that plays events: `g` is `f` after the events were played up to
  -- the first one behind which the playing halts, or all of them, and the last one is handed to the
  -- caller.
  pub record PlaysFrom (stopped : Bool) (stop : Event → Bool) (f g : Frame s) : Type 0 where
    pub played : List Event
    pub none_behind : stopped ≡ true → played ≡ []
    pub stops : StopsAt (halts stop (types_of f)) played
    pub ends : EndsAt (halts stop (types_of f)) (agenda s g.queue) stopped played
    pub plays : Plays (agenda s f.queue) played (agenda s g.queue)
    pub current : g.event ≡ last_of f.event played
    pub types : types_of g ≡ types_of f

  pub PlaysFrom-same :
      (b : Bool) (stop : Event → Bool) (f : Frame s)
      → (b ≡ true) ⊎ IsClear (agenda s f.queue)
      → PlaysFrom b stop f f
  PlaysFrom-same b stop f ends = record {
    played = [];
    none_behind = λ h. refl;
    stops = tt;
    ends = ends;
    plays = λ i. refl;
    current = refl;
    types = refl;
  }

  -- The first event is popped, whatever its type.
  abbrev pub PopsFirst : Event → List (ℕ × Event) → Frame s → Type 0
  PopsFirst e rest g = FrameIsValid s g × ((g.event ≡ e) × (g.queue.event_list ≡ rest))

  count_pop-PopsFirst :
      (k : ℕ) (e : Event) (rest : List (ℕ × Event)) (f : Frame s)
      → f.event ≡ e
      → f.queue.event_list ≡ rest
      → Leaves (λ g. (g.event ≡ e) × (g.queue.event_list ≡ rest)) (count_pop s k f)
  unfolding count_pop
  count_pop-PopsFirst k e rest f h₁ h₂ = ground arith

  pub pop_event-PopsFirst :
      (f : Frame s) (t : ℕ) (e : Event) (rest : List (ℕ × Event))
      → FrameIsValid s f
      → f.queue.event_list ≡ (t, e) ∷ rest
      → Leaves (PopsFirst e rest) (pop_event s f)
  unfolding take_event
  pop_event-PopsFirst f t e rest v h =
      Leaves-both (FrameIsValid s) (λ g. (g.event ≡ e) × (g.queue.event_list ≡ rest))
        (pop_event s f) (pop_event-IsValid s f v)
        (rw (pop_event-cons s f t e rest h)
          (count_pop-PopsFirst (get_event_type e) e rest (take_event s e rest f) refl refl))

  -- The event that is popped from a valid queue is the earliest one.
  PopsFirst-Removes :
      (f g : Frame s) (t : ℕ) (e : Event) (rest : List (ℕ × Event))
      → FrameIsValid s f
      → f.queue.event_list ≡ (t, e) ∷ rest
      → PopsFirst e rest g
      → Removes s (agenda s f.queue) (agenda s g.queue) e
  PopsFirst-Removes f g t e rest v h p =
      subst (λ l. Removes s (λ i. find i l) (agenda s g.queue) e) (sym h)
        (subst (λ l. Removes s (λ i. find i ((t, e) ∷ rest)) (λ i. find i l) e) (sym p.1.1)
          (Removes-head s t e rest (subst (IsStamped s) h v.stamped).0
            (subst IsOrdered h v.in_order)))

  -- The same types have a progress status after a pop.
  count_pop-types :
      (k : ℕ) (f : Frame s) → Leaves (λ g. (j : ℕ) → types_of g j ≡ types_of f j) (count_pop s k f)
  unfolding count_pop counted
  count_pop-types k f = elim (Option-cases (find k f.queue.progress_status_map)) [
    | inl missing ↦ ground (arith, missing)
    | inr (p, found) ↦
        rw (count_pop-found s k p f found)
          λ j. is_some-find-update k j (s.increment p) f.queue.progress_status_map
  ]

  pub pop_event-types :
      (f : Frame s) (t : ℕ) (e : Event) (rest : List (ℕ × Event))
      → f.queue.event_list ≡ (t, e) ∷ rest
      → Leaves (λ g. types_of g ≡ types_of f) (pop_event s f)
  unfolding take_event
  pop_event-types f t e rest h = rw (pop_event-cons s f t e rest h) (
      Leaves-weaken _ _ (count_pop s (get_event_type e) (take_event s e rest f))
        (λ g same i j. same j i) (count_pop-types (get_event_type e) (take_event s e rest f)))

  -- An event popped, and those that are played then.
  pub PlaysFrom-next :
      (b : Bool) (stop : Event → Bool) (f g h : Frame s) (t : ℕ) (e : Event)
      (rest : List (ℕ × Event))
      → FrameIsValid s f
      → f.queue.event_list ≡ (t, e) ∷ rest
      → PopsFirst e rest g
      → types_of g ≡ types_of f
      → b ≡ halts stop (types_of f) e
      → PlaysFrom b stop g h
      → PlaysFrom false stop f h
  PlaysFrom-next b stop f g h t e rest v list p types halted w = record {
    played = e ∷ w.played;
    none_behind = λ x. absurd (ground arith);
    stops = (
      λ x. w.none_behind (halted ∙ x),
      subst (λ known. StopsAt (halts stop known) w.played) types w.stops,
    );
    ends =
        subst (λ b. EndsAt (halts stop (types_of f)) (agenda s h.queue) b w.played) halted
          (subst (λ known. EndsAt (halts stop known) (agenda s h.queue) b w.played) types w.ends);
    plays = (agenda s g.queue, PopsFirst-Removes f g t e rest v list p, w.plays);
    current = w.current ∙ ap (λ x. last_of x w.played) p.1.0;
    types = w.types ∙ types;
  }

  -- The specification of `addEvent`: the event is moved on from its time stamp to the first one
  -- that is free, one step after another, and entered there.
  pub record Arrives (a b : Agenda s) (e : Event) (d : ℕ) : Type 0 where
    pub was_free : a (get_event_time_stamp (postpone s d e)) ≡ none
    pub none_skipped : (i : ℕ) → i < d → is_some (a (get_event_time_stamp (postpone s i e))) ≡ true
    pub entered :
        (i : ℕ)
        → b i ≡ (if get_event_time_stamp (postpone s d e) == i then some (postpone s d e) else a i)

  abbrev pub Adds : Frame s → Frame s → Type 0
  Adds f g =
      (d : ℕ) × (g.event ≡ postpone s d f.event)
      × Arrives (agenda s f.queue) (agenda s g.queue) f.event d

  -- The frame after an attempt, with the list that it leaves.
  abbrev with_list : Frame s → List (ℕ × Event) → Frame s
  with_list f l = record f { queue = record f.queue { event_list = l } }

  abbrev moved_on : Frame s → List (ℕ × Event) → Frame s
  moved_on f l = record (with_list f l) { event = increment_event_time_stamp f.event }

  Adds-here :
      (f : Frame s)
      → IsOrdered f.queue.event_list
      → (insert (get_event_time_stamp f.event) f.event f.queue.event_list).1 ≡ true
      → Adds f (with_list f (insert (get_event_time_stamp f.event) f.event f.queue.event_list).0)
  unfolding postpone
  Adds-here f o h = (
    0,
    refl,
    record {
      was_free = ground (
        arith,
        insert_flag (get_event_time_stamp f.event) f.event f.queue.event_list o,
        h,
        Option-cases (find (get_event_time_stamp f.event) f.queue.event_list),
      );
      none_skipped = λ i small. absurd (omega arith);
      entered = λ i. find-insert (get_event_time_stamp f.event) i f.event f.queue.event_list o h;
    },
  )

  Adds-later :
      (f h : Frame s) (l : List (ℕ × Event))
      → is_some (agenda s f.queue (get_event_time_stamp f.event)) ≡ true
      → l ≡ f.queue.event_list
      → Adds (moved_on f l) h
      → Adds f h
  unfolding postpone
  Adds-later f h l taken same (d, current, arrives) = (
    suc d,
    current,
    record {
      was_free =
          sym (ap (find (get_event_time_stamp (postpone s (suc d) f.event))) same)
          ∙ arrives.was_free;
      none_skipped = skipped;
      entered = λ i.
          arrives.entered i
          ∙ ap
              (λ m.
                if get_event_time_stamp (postpone s (suc d) f.event) == i
                then some (postpone s (suc d) f.event)
                else find i m)
              same;
    },
  )
    where
      skipped :
          (i : ℕ)
          → i < suc d
          → is_some (agenda s f.queue (get_event_time_stamp (postpone s i f.event))) ≡ true
      skipped zero small = taken
      skipped (suc i) small =
          ap (λ m. is_some (find (get_event_time_stamp (postpone s (suc i) f.event)) m)) (sym same)
          ∙ arrives.none_skipped i (omega arith)

  -- The loop, after an attempt that succeeded or failed.
  abbrev Attempted : Bool → Frame s → List (ℕ × Event) → Type 0
  Attempted true f l = Adds f (with_list f l)
  Attempted false f l =
      (is_some (agenda s f.queue (get_event_time_stamp f.event)) ≡ true) × (l ≡ f.queue.event_list)

  attempted :
      (b : Bool) (f : Frame s)
      → IsOrdered f.queue.event_list
      → (insert (get_event_time_stamp f.event) f.event f.queue.event_list).1 ≡ b
      → Attempted b f (insert (get_event_time_stamp f.event) f.event f.queue.event_list).0
  attempted true f o h = Adds-here f o h
  attempted false f o h = (
    ground (
      arith,
      insert_flag (get_event_time_stamp f.event) f.event f.queue.event_list o,
      h,
      Option-cases (find (get_event_time_stamp f.event) f.queue.event_list),
    ),
    insert_taken (get_event_time_stamp f.event) f.event f.queue.event_list h,
  )

  insert_loop-Adds :
      (fuel : ℕ) (b : Bool) (f : Frame s) (l : List (ℕ × Event))
      → IsOrdered f.queue.event_list
      → Attempted b f l
      → Leaves (Adds f) (insert_loop s fuel b (with_list f l))
  unfolding insert_loop try_insert
  insert_loop-Adds zero b f l o h = tt
  insert_loop-Adds (suc fuel) true f l o h = h
  insert_loop-Adds (suc fuel) false f l o h =
      let e = increment_event_time_stamp f.event in
      Leaves-weaken (Adds (moved_on f l)) (Adds f) _ (λ g. Adds-later f g l h.0 h.1)
        (insert_loop-Adds fuel (insert (get_event_time_stamp e) e l).1 (moved_on f l)
          (insert (get_event_time_stamp e) e l).0 (subst IsOrdered (sym h.1) o)
          (attempted _ (moved_on f l) (subst IsOrdered (sym h.1) o) refl))

  pub add_event-Adds : (f : Frame s) → FrameIsValid s f → Leaves (Adds f) (add_event s f)
  unfolding add_event try_insert
  add_event-Adds f v =
      let k = get_event_time_stamp f.event in
      let l = f.queue.event_list in
      Leaves-bind (Adds f)
        (insert_loop s (suc (length l)) (insert k f.event l).1 (with_list f (insert k f.event l).0))
        (λ b. assert_that (not (idx == 1000)) >> pure b)
        (insert_loop-Adds (suc (length l)) _ f _ v.in_order (attempted _ f v.in_order refl))
        λ b g a. a
