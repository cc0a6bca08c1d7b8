-- ===== src/Tests/Demo.antt =====
-- The main loop of the demonstration on the sample queue.
use sevmgr.Prelude.{
  int_of_size, ◌+ℤ◌, fits_int, ◌≡◌, refl, [], ◌∷◌, arith, codes, pos, done, true, ◌++◌, new_line,
}
use sevmgr.OrderedMap.{find, insert, update}
use sevmgr.EventQueue.{EventQueue, new_event_queue, get_queue_size, is_queue_done}
use sevmgr.EventQueue.Statuses
use sevmgr.EventQueue.Events
use sevmgr.EventQueueManager
use sevmgr.EventQueueManager.Counting.{SampleIsPlayed}
use sevmgr.EventQueueManager.Types.{types_after}
use sevmgr.EventQueueManager.Runs.{increments}
use sevmgr.Service
use sevmgr.Service.{Service}
use sevmgr.Service.Serving.{serving, own_context}
use sevmgr.Demo.{main_loop, main}
use sevmgr.Demo.Options.{configuration_of, program, returned, played}
use sevmgr.Demo.Whole.{program_plays}
use sevmgr.Demo.Drain.{main_loop_drains}
use sevmgr.Tests.Samples.{
  given, only_log, events, statuses, reals, stdair, queue, new_event, status, context,
}

main_loop_drains_example :
    (q : EventQueue stdair) × (main_loop stdair new_event 4 (pos 1) (serving stdair context queue)
      ≡ done (pos 4) (serving stdair context q))
    × (q.event_list ≡ [])
    × (q.progress_status ≡ increments stdair 3 queue.progress_status)
    × (q.progress_status_map ≡ types_after stdair queue.event_list queue.progress_status_map)
unfolding increments
main_loop_drains_example = main_loop_drains stdair context queue new_event (omega arith)

-- What is left of the sample queue when its four events are played.
abbrev ended : Service stdair
ended = serving stdair context (record {
  key = codes "EQ01";
  event_list = [];
  progress_status = status 4 4;
  progress_status_map = (0, status 2 2) ∷ (7, status 2 2) ∷ [];
})

main_test : main stdair tt new_event ≡ done (pos 5) ended
unfolding main Service.new_service Service.build_sample_queue EventQueueManager.build_sample_queue
    Statuses.add_status fits_int Statuses.update_status find new_event_queue insert ◌+ℤ◌
    Events.add_event Events.insert_loop Service.get_queue_size Service.is_queue_done
    EventQueueManager.is_queue_done EventQueueManager.get_queue_size get_queue_size is_queue_done
    Service.pop_event EventQueueManager.pop_event Events.pop_event Events.pop_from Events.count_pop
    Events.take_event update int_of_size
main_test = refl

program_plays_example :
    (q : EventQueue stdair) × (program stdair (given only_log) new_event (done tt tt)
      ≡ done
          (played
            (configuration_of (given only_log) [] only_log).printed
            (configuration_of (given only_log) [] only_log).log_filename
            (done (pos 5) (serving stdair (own_context stdair tt) q)))
          tt)
    × (q.event_list ≡ [])
    × SampleIsPlayed stdair q
program_plays_example =
    program_plays stdair (given only_log) only_log new_event tt events statuses reals refl refl refl
      refl (omega arith) (omega arith) (omega arith) (omega arith) (omega arith)

-- The version is looked for after the help, and in front of the prefix.
version_first :
    program stdair
      (given (record only_log { version = true; prefix = true }))
      new_event
      (done tt tt)
    ≡ done (returned (codes "sevmgr, version 1.00.0" ++ new_line)) tt
unfolding program
version_first = refl
