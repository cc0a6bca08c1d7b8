-- ===== src/Shell/Whole.antt =====
-- sevmgr/ui/cmdline/sevmgr.cpp: the whole program, from the options to the end of a session.
use sevmgr.Prelude.{
  int_of_size, int_of_size_small, pos, bind_result-done, ℕ, ◌+◌, ◌<◌, ◌^◌, ◌≡◌, ◌≢◌, refl, ap, ◌∙◌,
  true, false, some, List, [], ◌∷◌, ◌++◌, length, arith, done, zoom_result, codes, Result,
}
use sevmgr.CommandLine.{Variables, ProgramOptions}
use sevmgr.Stdair.{Stdair}
use sevmgr.Stdair.Laws.{EventLaws, StatusLaws, RealLaws}
use sevmgr.EventQueue.{EventQueue, Frame, new_event_queue, default_event_queue_id, get_queue_size}
use sevmgr.EventQueueManager
use sevmgr.EventQueueManager.Popping.{tail, overall_after, pop_event_returns}
use sevmgr.EventQueueManager.Types.{types_after, types_after-tail}
use sevmgr.EventQueueManager.Runs.{increments}
use sevmgr.EventQueueManager.Counting.{SampleIsPlayed, sample_plays}
use sevmgr.EventQueueManager.Sample.{build_sample_queue-Stage}
use sevmgr.Service
use sevmgr.Service.{Service, Session, ServiceContext, new_service, on_service}
use sevmgr.Service.Serving.{
  serving, serving_to, own_context, build_sample_queue-serving, on_frame-serving,
}
use sevmgr.Service.Requests.Histories.{fresh, new_service-fresh}
use sevmgr.Shell.Platform.{Platform}
use sevmgr.Shell.Commands.{Reply, command_loop, start}
use sevmgr.Shell.Commands.Draining.{AreNext, shown, empties, command_loop_drains}
use sevmgr.Shell.Options.{
  cmdline_options, config_file_options, configuration_of, Program, program, held,
}

module _ {s : Stdair} (p : Platform s) where
  open s use {
    Event, StatusSet, get_event_time_stamp, bkg_req, brk_pt, increment, booking_event,
    break_point_event, midnight,
  }

  -- The session that `main` starts from, with a queue.
  abbrev first_frame : EventQueue s → Frame s
  first_frame q = record { queue = q; event = p.default_event }

  pop_event-serving :
      (c : ServiceContext s) (f g : Frame s) (ps : StatusSet)
      → EventQueueManager.pop_event s f ≡ done ps g
      → Service.pop_event s (serving_to s c f) ≡ done ps (serving_to s c g)
  unfolding Service.pop_event
  pop_event-serving c f g ps h = on_frame-serving s (EventQueueManager.pop_event s) c f g ps h

  start-run :
      (lines : List (List (List ℕ))) (c : ServiceContext s) (q q' : EventQueue s) (g : Frame s)
      (ps : StatusSet)
      → EventQueueManager.build_sample_queue s c.stdair_service q ≡ done tt q'
      → EventQueueManager.pop_event s (first_frame q') ≡ done ps g
      → start p lines (done tt (serving s c q)) ≡ command_loop p lines (serving_to s c g)
  start-run lines c q q' g ps built pop =
      bind_result-done _ _
        (ap (zoom_result (λ σ v. record σ { service = v }) (serving_to s c (first_frame q)))
          (build_sample_queue-serving s c q q' built))
        (bind_result-done _ _ (pop_event-serving c (first_frame q') g ps pop) refl)

  abbrev reported :
      ProgramOptions
      → Variables
      → Result (Session s) (List (Reply p))
      → Result (Unit {0}) (Program p)
  reported boost vm r =
      let configuration = configuration_of boost [] vm in
      done (held configuration.printed configuration.log_filename r) tt

  program-held :
      (boost : ProgramOptions) (vm : Variables) (stdair : s.Service) (lines : List (List (List ℕ)))
      → boost.parse cmdline_options (codes "copyright") (codes "sevmgr.cfg") config_file_options
        ≡ done vm tt
      → vm.help ≡ false
      → vm.version ≡ false
      → vm.prefix ≡ false
      → program p boost (done stdair tt) lines
        ≡ reported boost vm (start p lines (new_service s stdair true))
  unfolding program
  program-held boost vm stdair lines parsed help version prefix = ground arith

  -- When the parsers of options throw nothing and find none of the options that end it early, the
  -- shell starts with the four events of the sample queue, of which the first is the current one. A
  -- user who enters the command `next` at least three times, and nothing else, sees the other
  -- three, each once and in the order of the queue that `buildSampleQueue` makes; each further line
  -- is answered by the message for an empty queue, and the program comes to its end, with the
  -- current numbers of events equal to the expected and actual totals, 4 overall and 2 for each of
  -- `BKG_REQ` and `BRK_PT`. The StdAir service must have been made, each event of the sample must
  -- have a time stamp with room for three more, and `BKG_REQ` must differ from `BRK_PT`.
  -- `EventLaws`, `StatusLaws` and `RealLaws` are assumed.
  pub program_drains :
      (boost : ProgramOptions) (vm : Variables) (stdair : s.Service) (lines : List (List (List ℕ)))
      (n : ℕ)
      → EventLaws s
      → StatusLaws s
      → RealLaws s
      → boost.parse cmdline_options (codes "copyright") (codes "sevmgr.cfg") config_file_options
        ≡ done vm tt
      → vm.help ≡ false
      → vm.version ≡ false
      → vm.prefix ≡ false
      → bkg_req ≢ brk_pt
      → get_event_time_stamp (booking_event bkg_req (s.build_sample_booking_request stdair false))
          + 3
        < 2 ^ 64
      → get_event_time_stamp (booking_event bkg_req (s.build_sample_booking_request stdair true))
          + 3
        < 2 ^ 64
      → get_event_time_stamp (break_point_event brk_pt (midnight 2010 1 21)) + 3 < 2 ^ 64
      → get_event_time_stamp (break_point_event brk_pt (midnight 2011 5 14)) + 3 < 2 ^ 64
      → AreNext p lines
      → length lines ≡ 3 + n
      → (q : EventQueue s) × (g : Frame s) × (EventQueueManager.build_sample_queue s
            (some stdair)
            (new_event_queue s (default_event_queue_id s))
          ≡ done tt q)
        × (get_queue_size s q ≡ pos 4)
        × (program p boost (done stdair tt) lines
            ≡ done
                (held
                  (configuration_of boost [] vm).printed
                  (configuration_of boost [] vm).log_filename
                  (done
                    (shown p (tail q.event_list) ++ empties p n)
                    (serving_to s (own_context s stdair) g)))
                tt)
        × (g.queue.event_list ≡ [])
        × SampleIsPlayed s g.queue
  unfolding get_queue_size fresh increments
  program_drains boost vm stdair lines n events laws reals parsed help version prefix differ room₁
        room₂ room₃ room₄ nexts enough =
      let c = own_context s stdair in
      let q₀ = new_event_queue s (default_event_queue_id s) in
      let (q, built, stage, bookings, breaks) =
        build_sample_queue-Stage s stdair (default_event_queue_id s) events laws reals differ room₁
          room₂ room₃ room₄ in
      let (ps, f, pop, rest, current, _, overall, types) = pop_event_returns s (first_frame q) in
      let size : length f.queue.event_list ≡ 3 =
        ap length rest ∙ tail_size q.event_list stage.size in
      let (g, drained, last, empty, counted, types') =
        command_loop_drains p lines n c f nexts (omega arith) in
      (
        q,
        g,
        built,
        ap int_of_size stage.size ∙ int_of_size_small 4 (omega arith),
        program-held boost vm stdair lines parsed help version prefix
            ∙ ap (λ r. reported boost vm (start p lines r))
                (new_service-fresh s stdair true p.default_event)
            ∙ ap (reported boost vm) (
                start-run lines c q₀ q f ps built pop
                ∙ drained
                ∙ ap (λ l. done (shown p l ++ empties p n) (serving_to s c g)) rest),
        empty,
        sample_plays s laws q g.queue stage bookings breaks
            (counted
              ∙ ap (λ n. increments s n f.queue.progress_status) size
              ∙ ap (increments s 3)
                  (overall ∙ first_counted q.event_list q.progress_status stage.size))
            (types'
              ∙ ap (λ l. types_after s l f.queue.progress_status_map) rest
              ∙ ap (types_after s (tail q.event_list)) types
              ∙ types_after-tail s q.event_list q.progress_status_map),
      )
    where
      tail_size : (l : List (ℕ × Event)) → length l ≡ 4 → length (tail l) ≡ 3
      tail_size [] h = absurd (omega arith)
      tail_size (x ∷ l) h = omega arith

      first_counted :
          (l : List (ℕ × Event)) (p : s.Status) → length l ≡ 4 → overall_after s l p ≡ increment p
      first_counted [] p h = absurd (omega arith)
      first_counted (x ∷ l) p h = refl
