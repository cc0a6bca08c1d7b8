-- ===== src/Tests/Command.antt =====
-- `run`, `select` and `popEvent` of the command on small queues.
use sevmgr.Prelude.{
  ℕ, ◌+◌, ◌≡◌, refl, true, some, [], ◌∷◌, ◌++◌, arith, codes, is_some, done, aborted,
}
use sevmgr.OrderedMap.{find}
use sevmgr.EventQueue.{Frame, EventQueue, new_event_queue}
use sevmgr.EventQueueManager.{run, select, pop_event, build_sample_queue}
use sevmgr.EventQueueManager.Sample.{build_sample_queue-Stage}
use sevmgr.EventQueueManager.Sample.Steps.{Stage, Waits}
use sevmgr.EventQueueManager.Runs.{increments, last_event}
use sevmgr.EventQueueManager.Runs.Breaks.{run_stops_at_break, run_plays_all}
use sevmgr.EventQueueManager.Selection.Outcomes.{select_finds, select_aborts, select_oldest}
use sevmgr.EventQueueManager.Popping.{reported, pop_event_returns, types_after_pop}
use sevmgr.JsonExport.{json_export_event_queue}
use sevmgr.JsonExport.Contents.{outcome, read_all, push_all, texts, asked_for, json_export_contents}
use sevmgr.Tests.Samples.{
  events, statuses, reals, stdair, days, event_at, status, SampleEvent, first_event, second_event,
  break_point, queue, new_event,
}

-- A booking request behind the break point.
abbrev last_event_of_day : SampleEvent
last_event_of_day = record { kind = 0; stamp = 20; time = 20 }

abbrev broken : Frame stdair
broken = record {
  queue = record queue {
    event_list =
        (10, first_event) ∷ (11, second_event) ∷ (12, break_point) ∷ (20, last_event_of_day) ∷ [];
  };
  event = new_event;
}

run_stops_at_break_example :
    (g : Frame stdair) × (run stdair broken ≡ done tt g)
    × (g.event ≡ break_point)
    × (g.queue.event_list ≡ (20, last_event_of_day) ∷ [])
    × (g.queue.progress_status ≡ increments stdair 3 (status 1 5))
    × ((j : ℕ)
        → is_some (find j g.queue.progress_status_map)
          ≡ is_some (find j broken.queue.progress_status_map))
unfolding find
run_stops_at_break_example =
    run_stops_at_break stdair broken ((10, first_event) ∷ (11, second_event) ∷ [])
      ((20, last_event_of_day) ∷ []) 12 break_point (omega arith) refl
      (omega arith, (omega arith, tt)) refl (refl, (refl, tt)) refl

abbrev unbroken : Frame stdair
unbroken = record {
  queue = record queue { event_list = (10, first_event) ∷ (11, second_event) ∷ [] };
  event = new_event;
}

run_plays_all_example :
    (g : Frame stdair) × (run stdair unbroken ≡ done tt g)
    × (g.event ≡ last_event stdair new_event ((10, first_event) ∷ (11, second_event) ∷ []))
    × (g.queue.event_list ≡ [])
    × (g.queue.progress_status ≡ increments stdair 2 (status 1 5))
unfolding find
run_plays_all_example =
    run_plays_all stdair unbroken (omega arith) (omega arith, (omega arith, tt)) (refl, (refl, tt))

-- No status was added for the break points.
abbrev forgotten : Frame stdair
forgotten = record {
  queue = record queue { progress_status_map = (0, status 1 3) ∷ [] };
  event = new_event;
}

-- Two booking requests of 2010-01-02 and 2010-01-03.
abbrev second_day : ℕ
second_day = days 2010 1 2

abbrev third_day : ℕ
third_day = days 2010 1 3

abbrev stamp_of_day : ℕ → ℕ
stamp_of_day time = (event_at 0 time).stamp

abbrev dated : Frame stdair
dated = record {
  queue = record queue {
    event_list =
        (stamp_of_day second_day, event_at 0 second_day)
        ∷ (stamp_of_day third_day, event_at 0 third_day)
        ∷ [];
  };
  event = new_event;
}

select_finds_example :
    (g : Frame stdair) × (select stdair third_day dated ≡ done true g)
    × (g.event ≡ event_at 0 third_day)
    × (g.queue.event_list ≡ [])
    × (g.queue.progress_status ≡ increments stdair 2 (status 1 5))
unfolding find
select_finds_example =
    select_finds stdair third_day dated ((stamp_of_day second_day, event_at 0 second_day) ∷ []) []
      (stamp_of_day third_day) (event_at 0 third_day) refl refl refl (refl, tt) refl (refl, tt) refl

-- An event that was moved one millisecond, to the time stamp of the date-time that is asked for.
abbrev moved : Frame stdair
moved = record {
  queue = record queue {
    event_list =
        (
          stamp_of_day second_day + 1,
          record (event_at 0 second_day) { stamp = stamp_of_day second_day + 1 },
        )
        ∷ [];
  };
  event = new_event;
}

select_aborts_example : select stdair (second_day + 1) moved ≡ aborted
unfolding find
select_aborts_example = select_aborts stdair (second_day + 1) moved refl refl (refl, tt) (refl, tt)

abbrev at_the_oldest : Frame stdair
at_the_oldest = record {
  queue = record queue {
    event_list = (stamp_of_day (days 2010 1 1), event_at 0 (days 2010 1 1)) ∷ [];
  };
  event = new_event;
}

select_oldest_example : select stdair (days 2010 1 1) at_the_oldest ≡ done true at_the_oldest
unfolding find
select_oldest_example = select_oldest stdair (days 2010 1 1) at_the_oldest refl refl

pop_event_returns_example :
    (ps : stdair.StatusSet) × (g : Frame stdair) × (pop_event stdair forgotten ≡ done ps g)
    × (g.queue.event_list ≡ (11, second_event) ∷ (12, break_point) ∷ [])
    × (g.event ≡ first_event)
    × (ps ≡ reported stdair forgotten.queue.event_list forgotten.queue)
    × (g.queue.progress_status ≡ increments stdair 1 forgotten.queue.progress_status)
    × (g.queue.progress_status_map
        ≡ types_after_pop stdair forgotten.queue.event_list forgotten.queue.progress_status_map)
unfolding increments
pop_event_returns_example = pop_event_returns stdair forgotten

json_export_contents_example :
    json_export_event_queue stdair (some tt) 0 queue
    ≡ outcome stdair
        (λ l. codes "events" ++ push_all stdair [] l)
        (read_all stdair (texts stdair tt (asked_for stdair 0 queue.event_list)))
        queue
json_export_contents_example = json_export_contents stdair tt 0 queue

build_sample_queue-Stage_example :
    (q : EventQueue stdair) × (build_sample_queue stdair
        (some tt)
        (new_event_queue stdair (codes "EQ01"))
      ≡ done tt q)
    × Stage stdair q 4 4
    × Waits stdair stdair.bkg_req 2 q
    × Waits stdair stdair.brk_pt 2 q
build_sample_queue-Stage_example =
    build_sample_queue-Stage stdair tt (codes "EQ01") events statuses reals (omega arith)
      (omega arith) (omega arith) (omega arith) (omega arith)
