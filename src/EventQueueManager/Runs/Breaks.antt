-- ===== src/EventQueueManager/Runs/Breaks.antt =====
-- sevmgr/command/EventQueueManager.cpp, `run`: where it stops.
use sevmgr.Prelude.{
  ℕ, zero, suc, ◌≡◌, ◌≢◌, refl, sym, ap, ◌∙◌, true, Option, none, some, List, [], ◌∷◌, ◌++◌, arith,
  is_some, length, length-append, done, raised, event_queue_exception,
}
use mathlib.Core.List.{append-nil}
use sevmgr.OrderedMap.{find}
use sevmgr.OrderedMap.Order.{is_some-find-update}
use sevmgr.Stdair.{Stdair}
use sevmgr.EventQueue.{Frame, is_queue_done}
use sevmgr.EventQueue.Events.{take_event}
use sevmgr.EventQueue.Events.Popping.{popped, counted, pop_event_unknown_type}
use sevmgr.EventQueueManager.{run_loop, run}
use sevmgr.EventQueueManager.Runs.{
  IsKnown, HasNoBreak, increments, last_event, find_known, run_loop-step, spent, spent-eq,
  run_loop-plays,
}

none_of_same : {A : Type 0} {o o' : Option A} → is_some o ≡ is_some o' → o' ≡ none → o ≡ none
none_of_same {o = none} h e = refl
none_of_same {o = some a} h e = absurd (ground arith)

module _ (s : Stdair) where
  open s use {Event, Status, get_event_type, bkg_req, brk_pt, increment}

  run_loop-break : (fuel : ℕ) (f : Frame s) → run_loop s (suc fuel) brk_pt f ≡ done tt f
  unfolding run_loop is_queue_done
  run_loop-break fuel f = ground arith

  run_loop-nil :
      (fuel k : ℕ) (f : Frame s) → f.queue.event_list ≡ [] → run_loop s (suc fuel) k f ≡ done tt f
  unfolding run_loop is_queue_done
  run_loop-nil fuel k f h = ground arith

  run_loop-unknown :
      (fuel k : ℕ) (f : Frame s) (t : ℕ) (e : Event) (rest : List (ℕ × Event))
      → k ≢ brk_pt
      → f.queue.event_list ≡ (t, e) ∷ rest
      → find (get_event_type e) f.queue.progress_status_map ≡ none
      → run_loop s (suc fuel) k f ≡ raised event_queue_exception (take_event s e rest f)
  unfolding run_loop is_queue_done take_event
  run_loop-unknown fuel k f t e rest other h missing =
      ground (arith, h, other, pop_event_unknown_type s f t e rest h missing)

  -- The fuel of `run`, split for a stretch of events.
  pub fuel_for :
      (f : Frame s) (l rest : List (ℕ × Event))
      → f.queue.event_list ≡ l ++ rest
      → suc (length f.queue.event_list) ≡ spent s l (suc (length rest))
  fuel_for f l rest h =
      omega (arith, ap length h, length-append l rest, spent-eq s l (suc (length rest)))

  pub increments-suc : (n : ℕ) (p : Status) → increment (increments s n p) ≡ increments s (suc n) p
  unfolding increments
  increments-suc zero p = refl
  increments-suc (suc n) p = increments-suc n (increment p)

  -- `run` stops behind the first break point: with the events before it played, none of which is a
  -- break point, it returns, the caller's event is the break point, the events behind it remain,
  -- the overall status has been incremented once for each event played, the break point included,
  -- and the types that have a progress status are the same. Each event up to the break point must
  -- have a type with a progress status, and `BKG_REQ` must differ from `BRK_PT`.
  pub run_stops_at_break :
      (f : Frame s) (before rest : List (ℕ × Event)) (t : ℕ) (b : Event)
      → bkg_req ≢ brk_pt
      → f.queue.event_list ≡ before ++ (t, b) ∷ rest
      → HasNoBreak s before
      → get_event_type b ≡ brk_pt
      → IsKnown s f.queue.progress_status_map before
      → is_some (find brk_pt f.queue.progress_status_map) ≡ true
      → (g : Frame s) × (run s f ≡ done tt g)
        × (g.event ≡ b)
        × (g.queue.event_list ≡ rest)
        × (g.queue.progress_status ≡ increments s (suc (length before)) f.queue.progress_status)
        × ((j : ℕ)
            → is_some (find j g.queue.progress_status_map)
              ≡ is_some (find j f.queue.progress_status_map))
  unfolding run counted take_event
  run_stops_at_break f before rest t b differ h no_break is_break known known_break =
      let (g, k, other, plays, played) =
        run_loop-plays s (suc (suc (length rest))) bkg_req f before ((t, b) ∷ rest) differ h
          no_break known in
      let (p, found) =
        find_known s g.queue.progress_status_map (get_event_type b)
          (rw is_break (played.types brk_pt ∙ known_break)) in
      let stopped = popped s b rest p g in
      (
        stopped,
        ap (λ n. run_loop s n bkg_req f) (fuel_for f before ((t, b) ∷ rest) h)
            ∙ plays
            ∙ run_loop-step s (suc (length rest)) k g t b rest p other played.remaining found
            ∙ ap (λ n. run_loop s (suc (length rest)) n stopped) is_break
            ∙ run_loop-break (length rest) stopped,
        refl,
        refl,
        ap increment played.progress ∙ increments-suc (length before) f.queue.progress_status,
        λ j.
            is_some-find-update (get_event_type b) j (increment p) g.queue.progress_status_map
            ∙ played.types j,
      )

  -- With no break point in the queue, `run` plays all events: it returns on an empty queue, the
  -- caller's event is the last one (as it was, if there was none), and the overall status has been
  -- incremented once for each event. Each event must have a type with a progress status, and
  -- `BKG_REQ` must differ from `BRK_PT`.
  pub run_plays_all :
      (f : Frame s)
      → bkg_req ≢ brk_pt
      → HasNoBreak s f.queue.event_list
      → IsKnown s f.queue.progress_status_map f.queue.event_list
      → (g : Frame s) × (run s f ≡ done tt g)
        × (g.event ≡ last_event s f.event f.queue.event_list)
        × (g.queue.event_list ≡ [])
        × (g.queue.progress_status
            ≡ increments s (length f.queue.event_list) f.queue.progress_status)
  unfolding run
  run_plays_all f differ no_break known =
      let l = f.queue.event_list in
      let h : l ≡ l ++ [] = sym (append-nil l) in
      let (g, k, _, plays, played) =
        run_loop-plays s (suc (length {A = ℕ × Event} [])) bkg_req f l [] differ h no_break known in
      (
        g,
        ap (λ n. run_loop s n bkg_req f) (fuel_for f l [] h)
            ∙ plays
            ∙ run_loop-nil _ k g played.remaining,
        played.current,
        played.remaining,
        played.progress,
      )

  -- When `run` comes to an event whose type has no progress status, with no break point before it,
  -- the exception goes to the caller of `run`: the events up to that one are gone from the queue,
  -- and the caller's event is that one. Each event before it must have a type with a progress
  -- status, and `BKG_REQ` must differ from `BRK_PT`.
  pub run_unknown_type :
      (f : Frame s) (before rest : List (ℕ × Event)) (t : ℕ) (e : Event)
      → bkg_req ≢ brk_pt
      → f.queue.event_list ≡ before ++ (t, e) ∷ rest
      → HasNoBreak s before
      → IsKnown s f.queue.progress_status_map before
      → find (get_event_type e) f.queue.progress_status_map ≡ none
      → (g : Frame s) × (run s f ≡ raised event_queue_exception g)
        × (g.event ≡ e)
        × (g.queue.event_list ≡ rest)
        × (g.queue.progress_status ≡ increments s (suc (length before)) f.queue.progress_status)
  unfolding run take_event
  run_unknown_type f before rest t e differ h no_break known missing =
      let (g, k, other, plays, played) =
        run_loop-plays s (suc (suc (length rest))) bkg_req f before ((t, e) ∷ rest) differ h
          no_break known in
      (
        take_event s e rest g,
        ap (λ n. run_loop s n bkg_req f) (fuel_for f before ((t, e) ∷ rest) h)
            ∙ plays
            ∙ run_loop-unknown (suc (length rest)) k g t e rest other played.remaining
                (none_of_same (played.types (get_event_type e)) missing),
        refl,
        refl,
        ap increment played.progress ∙ increments-suc (length before) f.queue.progress_status,
      )
