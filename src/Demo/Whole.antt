-- ===== src/Demo/Whole.antt =====
-- sevmgr/batches/sevmgr_demo.cpp: the whole program, from the options to the end of the main loop.
use sevmgr.Prelude.{
  pos_part, int_of_size_small, bind_result-done, refl, suc, ◌+◌, ◌<◌, ◌^◌, ◌≡◌, ◌≢◌, ap, ◌∙◌, true,
  false, [], ℤ, pos, length, codes, arith, Result, done, ◌>>◌, ◌>>=◌,
}
use sevmgr.CommandLine.{Variables, ProgramOptions}
use sevmgr.Stdair.{Stdair}
use sevmgr.Stdair.Laws.{EventLaws, StatusLaws, RealLaws}
use sevmgr.EventQueue.{EventQueue, new_event_queue, default_event_queue_id, get_queue_size}
use sevmgr.EventQueueManager
use sevmgr.EventQueueManager.Runs.{increments}
use sevmgr.EventQueueManager.Counting.{SampleIsPlayed, sample_plays}
use sevmgr.EventQueueManager.Sample.{build_sample_queue-Stage}
use sevmgr.Service
use sevmgr.Service.{
  Service, ServiceContext, new_service, new_service_context, run_on_queue, put_queue,
}
use sevmgr.Service.Serving.{
  serving, own_context, build_sample_queue-serving, get_queue_size-serving,
}
use sevmgr.Service.Requests.Histories.{fresh, new_service-fresh}
use sevmgr.Demo
use sevmgr.Demo.{main_loop}
use sevmgr.Demo.Drain.{main_loop_drains}
use sevmgr.Demo.Options.{
  cmdline_options, config_file_options, configuration_of, Program, program, played,
}

module _ (s : Stdair) where
  open s use {
    Event, get_event_time_stamp, bkg_req, brk_pt, booking_event, break_point_event, midnight,
  }

  -- `main` behind the constructor of the service.
  abbrev rest : Event → Service s → Result (Service s) ℤ
  rest e = do
    Service.build_sample_queue s
    size ← Service.get_queue_size s
    main_loop s e (suc (pos_part size)) (pos 1)

  rest-run :
      (c : ServiceContext s) (q q' : EventQueue s) (e : Event)
      → EventQueueManager.build_sample_queue s c.stdair_service q ≡ done tt q'
      → length q'.event_list < 2147483648
      → rest e (serving s c q) ≡ main_loop s e (suc (length q'.event_list)) (pos 1) (serving s c q')
  rest-run c q q' e h fits = bind_result-done _ _ (build_sample_queue-serving s c q q' h) (
      bind_result-done _ _ (get_queue_size-serving s c q') (
        ap (λ size. main_loop s e (suc (pos_part size)) (pos 1) (serving s c q'))
          (int_of_size_small (length q'.event_list) fits)))

  main-run :
      (stdair : s.Service) (e : Event)
      → Demo.main s stdair e
        ≡ rest e (serving s (own_context s stdair) (new_event_queue s (default_event_queue_id s)))
  unfolding Demo.main fresh
  main-run stdair e = bind_result-done _ _ (new_service-fresh s stdair true e) refl

  abbrev reported :
      ProgramOptions → Variables → Result (Service s) ℤ → Result (Unit {0}) (Program s)
  reported boost vm r =
      let configuration = configuration_of boost [] vm in
      done (played configuration.printed configuration.log_filename r) tt

  program-played :
      (boost : ProgramOptions) (vm : Variables) (e : Event) (stdair : s.Service)
      → boost.parse cmdline_options (codes "copyright") (codes "sevmgr.cfg") config_file_options
        ≡ done vm tt
      → vm.help ≡ false
      → vm.version ≡ false
      → vm.prefix ≡ false
      → program s boost e (done stdair tt) ≡ reported boost vm (Demo.main s stdair e)
  unfolding program
  program-played boost vm e stdair parsed help version prefix = ground arith

  -- When the parsers of options throw nothing and find none of the options that end it early, the
  -- demonstration makes its service, builds the sample queue and plays its four events: it always
  -- comes to the end of its main loop, with the counter, which starts at 1, at 5 and the queue
  -- empty; the current numbers of events are then equal to the expected and actual totals, 4
  -- overall and 2 for each of `BKG_REQ` and `BRK_PT`. The StdAir service must have been made, each
  -- event of the sample must have a time stamp with room for three more, and `BKG_REQ` must differ
  -- from `BRK_PT`. `EventLaws`, `StatusLaws` and `RealLaws` are assumed.
  pub program_plays :
      (boost : ProgramOptions) (vm : Variables) (e : Event) (stdair : s.Service)
      → EventLaws s
      → StatusLaws s
      → RealLaws s
      → boost.parse cmdline_options (codes "copyright") (codes "sevmgr.cfg") config_file_options
        ≡ done vm tt
      → vm.help ≡ false
      → vm.version ≡ false
      → vm.prefix ≡ false
      → bkg_req ≢ brk_pt
      → get_event_time_stamp (booking_event bkg_req (s.build_sample_booking_request stdair false))
          + 3
        < 2 ^ 64
      → get_event_time_stamp (booking_event bkg_req (s.build_sample_booking_request stdair true))
          + 3
        < 2 ^ 64
      → get_event_time_stamp (break_point_event brk_pt (midnight 2010 1 21)) + 3 < 2 ^ 64
      → get_event_time_stamp (break_point_event brk_pt (midnight 2011 5 14)) + 3 < 2 ^ 64
      → (q : EventQueue s) × (program s boost e (done stdair tt)
          ≡ done
              (played
                (configuration_of boost [] vm).printed
                (configuration_of boost [] vm).log_filename
                (done (pos 5) (serving s (own_context s stdair) q)))
              tt)
        × (q.event_list ≡ [])
        × SampleIsPlayed s q
  unfolding get_queue_size
  program_plays boost vm e stdair events status_laws reals parsed help version prefix differ room₁
        room₂ room₃ room₄ =
      let c = own_context s stdair in
      let q₀ = new_event_queue s (default_event_queue_id s) in
      let (q, built, stage, bookings, breaks) =
        build_sample_queue-Stage s stdair (default_event_queue_id s) events status_laws reals differ
          room₁ room₂ room₃ room₄ in
      let (q', drained, empty, counted, types) =
        main_loop_drains s c q e (omega (arith, stage.size)) in
      let overall : q'.progress_status ≡ increments s 4 q.progress_status =
        counted ∙ ap (λ n. increments s n q.progress_status) stage.size in
      let five : 1 + length q.event_list ≡ 5 = omega (arith, stage.size) in
      (
        q',
        program-played boost vm e stdair parsed help version prefix
            ∙ ap (reported boost vm) (
                main-run stdair e
                ∙ rest-run c q₀ q e built (omega (arith, stage.size))
                ∙ drained
                ∙ ap (λ n. done (pos n) (serving s c q')) five),
        empty,
        sample_plays s status_laws q q' stage bookings breaks overall types,
      )
