-- ===== src/EventQueueManager/Selection/Outcomes.antt =====
-- sevmgr/command/EventQueueManager.cpp, `select`: how it ends.
use sevmgr.Prelude.{
  ℕ, suc, ◌≡◌, refl, sym, ap, ◌∙◌, true, false, List, [], ◌∷◌, ◌++◌, arith, is_some, length, done,
  aborted, bind_result, assert_that, pure,
}
use mathlib.Core.List.{append-nil}
use sevmgr.OrderedMap.{find}
use sevmgr.Stdair.{Stdair}
use sevmgr.EventQueue.{Frame}
use sevmgr.EventQueue.Events.{take_event, has_event_date_time}
use sevmgr.EventQueue.Events.Popping.{popped, counted}
use sevmgr.EventQueueManager.{select_loop, select}
use sevmgr.EventQueueManager.Runs.{IsKnown, increments, find_known}
use sevmgr.EventQueueManager.Runs.Breaks.{fuel_for, increments-suc}
use sevmgr.EventQueueManager.Selection.{
  NoneAt, select_loop-step, select_loop-hit, select_loop-nil, select_loop-plays, select-run,
}

module _ (s : Stdair) where
  open s use {
    Event, Status, Moment, get_event_type, get_event_time, increment, moment_eq,
    default_event_oldest_date_time, minus_moment, total_milliseconds,
  }

  -- The time stamp at which `hasEventDateTime` looks for a date-time.
  abbrev pub stamp_of : Moment → ℕ
  stamp_of time = total_milliseconds (minus_moment time default_event_oldest_date_time)

  find-append :
      (l rest : List (ℕ × Event)) (t : ℕ) (e : Event) → is_some (find t (l ++ (t, e) ∷ rest)) ≡ true
  unfolding find
  find-append [] rest t e = ground arith
  find-append ((u, e') ∷ l) rest t e = ground (arith, find-append l rest t e)

  -- `select` of a date-time plays the events before the first one that has it and stops there: it
  -- returns true, the caller's event is that one, and the events behind it remain; the overall
  -- status has been incremented once for each event played, that one included. The event must stand
  -- under the time stamp of its own date-time, which must not be `DEFAULT_EVENT_OLDEST_DATETIME`;
  -- the types of the events played must have progress statuses.
  pub select_finds :
      (time : Moment) (f : Frame s) (before rest : List (ℕ × Event)) (t : ℕ) (e : Event)
      → moment_eq default_event_oldest_date_time time ≡ false
      → f.queue.event_list ≡ before ++ (t, e) ∷ rest
      → stamp_of time ≡ t
      → NoneAt s time before
      → moment_eq (get_event_time e) time ≡ true
      → IsKnown s f.queue.progress_status_map before
      → is_some (find (get_event_type e) f.queue.progress_status_map) ≡ true
      → (g : Frame s) × (select s time f ≡ done true g)
        × (g.event ≡ e)
        × (g.queue.event_list ≡ rest)
        × (g.queue.progress_status ≡ increments s (suc (length before)) f.queue.progress_status)
  unfolding counted take_event has_event_date_time
  select_finds time f before rest t e later h at none_at hit known known_e =
      let (g, last, other, plays, played) =
        select_loop-plays s (suc (suc (length rest))) time default_event_oldest_date_time f before
          ((t, e) ∷ rest) later h none_at known in
      let (p, found) =
        find_known s g.queue.progress_status_map (get_event_type e)
          (played.types (get_event_type e) ∙ known_e) in
      let stopped = popped s e rest p g in
      (
        stopped,
        select-run s time (get_event_time e) f stopped (rw (at, h) (find-append before rest t e)) (
              ap (λ n. select_loop s n time default_event_oldest_date_time f)
                (fuel_for s f before ((t, e) ∷ rest) h)
              ∙ plays
              ∙ select_loop-step s (suc (length rest)) time last g t e rest p other played.remaining
                  found
              ∙ select_loop-hit s (length rest) time (get_event_time e) stopped hit)
            ∙ ap (λ b. bind_result (assert_that b stopped) (λ _. pure true)) hit,
        refl,
        refl,
        ap increment played.progress ∙ increments-suc s (length before) f.queue.progress_status,
      )

  -- When `select` is asked for a date-time whose time stamp is taken, but which no event of the
  -- queue has, it fails its last assertion. The date-time must not be `DEFAULT_EVENT_OLDEST_DATETIME`, and the types of
  -- the events must have progress statuses.
  pub select_aborts :
      (time : Moment) (f : Frame s)
      → moment_eq default_event_oldest_date_time time ≡ false
      → is_some (find (stamp_of time) f.queue.event_list) ≡ true
      → NoneAt s time f.queue.event_list
      → IsKnown s f.queue.progress_status_map f.queue.event_list
      → select s time f ≡ aborted
  unfolding has_event_date_time
  select_aborts time f later taken none_at known =
      let l = f.queue.event_list in
      let h : l ≡ l ++ [] = sym (append-nil l) in
      let (g, last, other, plays, played) =
        select_loop-plays s (suc (length {A = ℕ × Event} [])) time default_event_oldest_date_time f
          l [] later h none_at known in
      select-run s time last f g taken (
        ap (λ n. select_loop s n time default_event_oldest_date_time f) (fuel_for s f l [] h)
        ∙ plays
        ∙ select_loop-nil s _ time last g played.remaining)
      ∙ ap (λ b. bind_result (assert_that b g) (λ _. pure true)) other

  -- `select` of `DEFAULT_EVENT_OLDEST_DATETIME`, when its time stamp is taken, returns true and
  -- does nothing: the event stays in the queue, and the caller's event is not replaced.
  pub select_oldest :
      (time : Moment) (f : Frame s)
      → moment_eq default_event_oldest_date_time time ≡ true
      → is_some (find (stamp_of time) f.queue.event_list) ≡ true
      → select s time f ≡ done true f
  unfolding has_event_date_time
  select_oldest time f oldest taken =
      select-run s time default_event_oldest_date_time f f taken
        (select_loop-hit s (length f.queue.event_list) time default_event_oldest_date_time f oldest)
      ∙ ap (λ b. bind_result (assert_that b f) (λ _. pure true)) oldest
