-- ===== src/EventQueueManager/Runs.antt =====
-- sevmgr/command/EventQueueManager.cpp, `run`: one round of the loop, and stretches of rounds.
pub mod Breaks
use sevmgr.Prelude.{
  ℕ, zero, suc, ◌+◌, ◌≤◌, ◌<◌, ◌≡◌, ◌≢◌, inl, inr, refl, sym, ap, subst, ◌∙◌, Bool, true, false,
  not, ◌&&◌, Option, none, some, List, [], ◌∷◌, ◌++◌, arith, ◌==◌, is_some, is_empty, length,
  length-append, if◌then◌else◌, Option-cases, Result, done, raised, event_queue_exception,
  bind_result, eq→==,
}
use sevmgr.OrderedMap.{find, update}
use sevmgr.OrderedMap.Order.{is_some-find-update}
use sevmgr.Stdair.{Stdair}
use sevmgr.EventQueue.{EventQueue, Frame, is_queue_done}
use sevmgr.EventQueue.Events
use sevmgr.EventQueue.Events.{take_event}
use sevmgr.EventQueue.Events.Popping.{
  popped, counted, pop_event-found, progress_of, pop_event_unknown_type,
}
use sevmgr.EventQueueManager.{run_loop, run}

module _ (s : Stdair) where
  open s use {Event, Status, StatusSet, get_event_type, bkg_req, brk_pt, increment}

  -- Every event has a type with a progress status.
  abbrev pub IsKnown : List (ℕ × Status) → List (ℕ × Event) → Type 0
  IsKnown m [] = Unit {0}
  IsKnown m ((t, e) ∷ l) = (is_some (find (get_event_type e) m) ≡ true) × IsKnown m l

  pub IsKnown-update :
      (k : ℕ) (p : Status) (m : List (ℕ × Status)) (l : List (ℕ × Event))
      → IsKnown m l
      → IsKnown (update k p m) l
  IsKnown-update k p m [] h = tt
  IsKnown-update k p m ((t, e) ∷ l) h =
      (is_some-find-update k (get_event_type e) p m ∙ h.0, IsKnown-update k p m l h.1)

  -- No event is a break point.
  abbrev pub HasNoBreak : List (ℕ × Event) → Type 0
  HasNoBreak [] = Unit {0}
  HasNoBreak ((t, e) ∷ l) = (get_event_type e ≢ brk_pt) × HasNoBreak l

  -- `operator++` applied `n` times.
  unfoldable pub increments : ℕ → Status → Status
  increments zero p = p
  increments (suc n) p = increments n (increment p)

  -- The last event of a list, or the given one if the list is empty.
  unfoldable pub last_event : Event → List (ℕ × Event) → Event
  last_event e [] = e
  last_event e ((t, e') ∷ l) = last_event e' l

  pub find_known :
      (m : List (ℕ × Status)) (k : ℕ)
      → is_some (find k m) ≡ true
      → (p : Status) × (find k m ≡ some p)
  find_known m k h = elim (Option-cases (find k m)) [
    | inl e ↦ absurd (ground arith)
    | inr found ↦ found
  ]

  -- One round of the loop.
  pub run_loop-step :
      (fuel k : ℕ) (f : Frame s) (t : ℕ) (e : Event) (rest : List (ℕ × Event)) (p : Status)
      → k ≢ brk_pt
      → f.queue.event_list ≡ (t, e) ∷ rest
      → find (get_event_type e) f.queue.progress_status_map ≡ some p
      → run_loop s (suc fuel) k f ≡ run_loop s fuel (get_event_type e) (popped s e rest p f)
  unfolding run_loop is_queue_done counted take_event
  run_loop-step fuel k f t e rest p other h found =
      ground (arith, h, other, pop_event-found s f t e rest p h found)

  -- The fuel that is left, and that the events of a list take.
  unfoldable pub spent : List (ℕ × Event) → ℕ → ℕ
  spent [] fuel = fuel
  spent (x ∷ l) fuel = suc (spent l fuel)

  pub spent-eq : (l : List (ℕ × Event)) (fuel : ℕ) → spent l fuel ≡ length l + fuel
  unfolding spent
  spent-eq [] fuel = omega arith
  spent-eq (x ∷ l) fuel = omega (arith, spent-eq l fuel)

  -- `g` is `f` after the events of `l` were popped, and `rest` is what is left.
  pub record Played (f g : Frame s) (l rest : List (ℕ × Event)) : Type 0 where
    pub remaining : g.queue.event_list ≡ rest
    pub current : g.event ≡ last_event f.event l
    pub progress : g.queue.progress_status ≡ increments (length l) f.queue.progress_status
    pub types :
        (j : ℕ)
        → is_some (find j g.queue.progress_status_map)
          ≡ is_some (find j f.queue.progress_status_map)

  pub Played-cons :
      (f g : Frame s) (t : ℕ) (e : Event) (l rest after : List (ℕ × Event)) (p : Status)
      → Played (popped s e after p f) g l rest
      → Played f g ((t, e) ∷ l) rest
  unfolding counted take_event last_event increments
  Played-cons f g t e l rest after p pl = record {
    remaining = pl.remaining;
    current = pl.current;
    progress = pl.progress;
    types = λ j.
        pl.types j
        ∙ is_some-find-update (get_event_type e) j (increment p) f.queue.progress_status_map;
  }

  -- The loop plays a stretch of events without a break point.
  pub run_loop-plays :
      (fuel k : ℕ) (f : Frame s) (l rest : List (ℕ × Event))
      → k ≢ brk_pt
      → f.queue.event_list ≡ l ++ rest
      → HasNoBreak l
      → IsKnown f.queue.progress_status_map l
      → (g : Frame s) × (k' : ℕ) × (k' ≢ brk_pt)
        × (run_loop s (spent l fuel) k f ≡ run_loop s fuel k' g)
        × Played f g l rest
  unfolding spent last_event increments counted take_event
  run_loop-plays fuel k f [] rest other h no_break known = (
    f,
    k,
    other,
    refl,
    record { remaining = h; current = refl; progress = refl; types = λ j. refl },
  )
  run_loop-plays fuel k f ((t, e) ∷ l) rest other h no_break known =
      let (p, found) = find_known f.queue.progress_status_map (get_event_type e) known.0 in
      let f' = popped s e (l ++ rest) p f in
      let (g, k', other', run, played) =
        run_loop-plays fuel (get_event_type e) f' l rest no_break.0 refl no_break.1
          (IsKnown-update (get_event_type e) (increment p) f.queue.progress_status_map l known.1) in
      (
        g,
        k',
        other',
        run_loop-step (spent l fuel) k f t e (l ++ rest) p other h found ∙ run,
        Played-cons f g t e l rest (l ++ rest) p played,
      )
