-- ===== src/EventQueueManager/Selection.antt =====
-- sevmgr/command/EventQueueManager.cpp, `select`: the rounds of its loop.
pub mod Outcomes
use sevmgr.Prelude.{
  ℕ, zero, suc, ◌≡◌, refl, ◌∙◌, Bool, true, false, not, Option, none, some, List, [], ◌∷◌, ◌++◌,
  arith, is_some, ap, length, done, aborted, bind_result, assert_that, pure, ◌>>◌, eq→==,
}
use sevmgr.OrderedMap.{find, update}
use sevmgr.Stdair.{Stdair}
use sevmgr.EventQueue.{EventQueue, Frame, is_queue_done}
use sevmgr.EventQueue.Events.{take_event, has_event_date_time}
use sevmgr.EventQueue.Events.Popping.{popped, counted, pop_event-found}
use sevmgr.EventQueueManager.{select_loop, select}
use sevmgr.EventQueueManager.Runs.{
  IsKnown, IsKnown-update, increments, last_event, find_known, spent, Played, Played-cons,
}

module _ (s : Stdair) where
  open s use {
    Event, Status, Moment, get_event_type, get_event_time, increment, moment_eq,
    default_event_oldest_date_time,
  }

  -- No event has the date-time.
  abbrev pub NoneAt : Moment → List (ℕ × Event) → Type 0
  NoneAt time [] = Unit {0}
  NoneAt time ((t, e) ∷ l) = (moment_eq (get_event_time e) time ≡ false) × NoneAt time l

  pub select_loop-step :
      (fuel : ℕ) (time last : Moment) (f : Frame s) (t : ℕ) (e : Event) (rest : List (ℕ × Event))
      (p : Status)
      → moment_eq last time ≡ false
      → f.queue.event_list ≡ (t, e) ∷ rest
      → find (get_event_type e) f.queue.progress_status_map ≡ some p
      → select_loop s (suc fuel) time last f
        ≡ select_loop s fuel time (get_event_time e) (popped s e rest p f)
  unfolding select_loop is_queue_done counted take_event
  select_loop-step fuel time last f t e rest p other h found =
      ground (arith, h, other, pop_event-found s f t e rest p h found)

  pub select_loop-hit :
      (fuel : ℕ) (time last : Moment) (f : Frame s)
      → moment_eq last time ≡ true
      → select_loop s (suc fuel) time last f ≡ done last f
  unfolding select_loop is_queue_done
  select_loop-hit fuel time last f h = ground arith

  pub select_loop-nil :
      (fuel : ℕ) (time last : Moment) (f : Frame s)
      → f.queue.event_list ≡ []
      → select_loop s (suc fuel) time last f ≡ done last f
  unfolding select_loop is_queue_done
  select_loop-nil fuel time last f h = ground arith

  -- The loop plays a stretch of events at other date-times.
  pub select_loop-plays :
      (fuel : ℕ) (time last : Moment) (f : Frame s) (l rest : List (ℕ × Event))
      → moment_eq last time ≡ false
      → f.queue.event_list ≡ l ++ rest
      → NoneAt time l
      → IsKnown s f.queue.progress_status_map l
      → (g : Frame s) × (last' : Moment) × (moment_eq last' time ≡ false)
        × (select_loop s (spent s l fuel) time last f ≡ select_loop s fuel time last' g)
        × Played s f g l rest
  unfolding spent last_event increments counted take_event
  select_loop-plays fuel time last f [] rest other h none_at known = (
    f,
    last,
    other,
    refl,
    record { remaining = h; current = refl; progress = refl; types = λ j. refl },
  )
  select_loop-plays fuel time last f ((t, e) ∷ l) rest other h none_at known =
      let (p, found) = find_known s f.queue.progress_status_map (get_event_type e) known.0 in
      let f' = popped s e (l ++ rest) p f in
      let (g, last', other', run, played) =
        select_loop-plays fuel time (get_event_time e) f' l rest none_at.0 refl none_at.1 (
          IsKnown-update s (get_event_type e) (increment p) f.queue.progress_status_map l
            known.1) in
      (
        g,
        last',
        other',
        select_loop-step (spent s l fuel) time last f t e (l ++ rest) p other h found ∙ run,
        Played-cons s f g t e l rest (l ++ rest) p played,
      )

  -- What `select` makes of the date-time at which its loop ends.
  pub select-run :
      (time last : Moment) (f g : Frame s)
      → has_event_date_time s time f.queue ≡ true
      → select_loop s (suc (length f.queue.event_list)) time default_event_oldest_date_time f
        ≡ done last g
      → select s time f ≡ bind_result (assert_that (moment_eq last time) g) (λ _. pure true)
  unfolding select
  select-run time last f g has run = ground arith
