-- ===== src/Tests/Suite.antt =====
-- The test case on the small StdAir, with the days of Tests/Samples as the calendar.
use sevmgr.Prelude.{◌≡◌, refl, ℕ, ◌==◌, arith, inl, done}
use sevmgr.EventQueue.{EventQueue}
use sevmgr.EventQueueManager.Sample.Rebuilt.{InDateOrder}
use sevmgr.Service.Serving.{serving, own_context}
use sevmgr.EventQueueManagementTestSuite.{Calendar, passed, sevmgr_simple_simulation_test}
use sevmgr.EventQueueManagementTestSuite.Passing.{sevmgr_simple_simulation_test_passes}
use sevmgr.Tests.Samples.{events, statuses, reals, stdair, days, new_event}

abbrev calendar : Calendar stdair
calendar = record { Date = ℕ; date = days; date_of = λ t. t; date_eq = ◌==◌ }

in_date_order : InDateOrder stdair tt
in_date_order = record {
  break_first = omega arith;
  request_second = omega arith;
  break_third = omega arith;
  room = omega arith;
}

sevmgr_simple_simulation_test_passes_example :
    (q : EventQueue stdair) × (sevmgr_simple_simulation_test stdair calendar new_event tt
      ≡ done passed (serving stdair (own_context stdair tt) q))
sevmgr_simple_simulation_test_passes_example =
    sevmgr_simple_simulation_test_passes stdair tt calendar new_event events statuses reals
      in_date_order (omega arith) (λ p. inl refl) refl refl
