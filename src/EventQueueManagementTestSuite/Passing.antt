-- ===== src/EventQueueManagementTestSuite/Passing.antt =====
-- test/sevmgr/EventQueueManagementTestSuite.cpp: the test case, stage by stage.
use sevmgr.Prelude.{
  int_of_size_small, bind_result-done, ℕ, ◌+◌, ◌<◌, ◌≡◌, ◌≢◌, refl, ap, ◌∙◌, true, not, [], length,
  arith, done, eq→==,
}
use sevmgr.OrderedMap.{find}
use sevmgr.Stdair.{Stdair}
use sevmgr.Stdair.Laws.{EventLaws, StatusLaws, RealLaws}
use sevmgr.EventQueue
use sevmgr.EventQueue.{EventQueue, Frame, new_event_queue, default_event_queue_id}
use sevmgr.EventQueueManager.Sample.Room.{HasRoom}
use sevmgr.EventQueueManager.Sample.Room.Kept.{ResetsActual, popped-HasRoom, reset-HasRoom}
use sevmgr.EventQueueManager.Sample.Played.{stops_at_both, first_is_popped}
use sevmgr.EventQueueManager.Sample.Rebuilt.{
  InDateOrder, first_break, second_break, build_sample_queue_again,
}
use sevmgr.Service.{Service}
use sevmgr.Service.Serving.{
  serving, own_context, build_sample_queue-serving, is_queue_done-serving, is_queue_done-nil,
  is_queue_done-cons, get_queue_size-serving, reset-serving,
}
use sevmgr.Service.Requests.Histories.{fresh, new_service-fresh}
use sevmgr.Demo.Drain.{main_loop_drains}
use sevmgr.EventQueueManagementTestSuite.Calls.{
  run_into-serving, pop_event_into-serving, required, count_down,
}
use sevmgr.EventQueueManagementTestSuite.{
  Calendar, passed, break_points_test, first_event_test, played_test, sevmgr_simple_simulation_test,
}

module _ (s : Stdair) where
  open s use {Event, get_event_type, get_event_time, bkg_req, brk_pt}

  module _ (stdair : s.Service) (c : Calendar s) (e : Event) (events : EventLaws s)
      (laws : StatusLaws s) (reals : RealLaws s) (dates : InDateOrder s stdair)
      (differ : bkg_req ≢ brk_pt) where
    abbrev served : EventQueue s → Service s
    served = serving s (own_context s stdair)

    break_points_passes :
        (q : EventQueue s) (bound : ℕ)
        → HasRoom s bound q
        → q.event_list ≡ []
        → bound + 4 < 2147483648
        → c.date_eq (c.date_of (get_event_time (second_break s))) (c.date 2011 5 14) ≡ true
        → (q' : EventQueue s) × (break_points_test s c e (served q) ≡ done passed (served q'))
    unfolding break_points_test
    break_points_passes q bound room list fits day =
        let (q₁, built, _, list₁, bookings, breaks) =
          build_sample_queue_again s stdair dates events laws reals q bound room list fits in
        let (g₁, g₂, run₁, event₁, run₂, event₂) =
          stops_at_both s stdair e events differ q₁ list₁ bookings breaks in
        let first = ap get_event_type event₁ ∙ events.break_point_type brk_pt _ in
        let second = ap get_event_type event₂ ∙ events.break_point_type brk_pt _ in
        (
          g₂.queue,
          bind_result-done _ _ (build_sample_queue-serving s (own_context s stdair) q q₁ built) (
              bind_result-done _ _ (run_into-serving s (own_context s stdair) q₁ e g₁ run₁) (
                required s _ _ _ (eq→== _ _ first) (
                  bind_result-done _ _
                    (run_into-serving s (own_context s stdair) g₁.queue g₁.event g₂ run₂)
                    (required s _ _ _ (eq→== _ _ second) (
                      required s _ _ _
                        (ap (λ b. c.date_eq (c.date_of (get_event_time b)) (c.date 2011 5 14))
                            event₂
                          ∙ day)
                        refl))))),
        )

    module _ (resets : ResetsActual s)
        (day₁ : c.date_eq (c.date_of (get_event_time (first_break s))) (c.date 2010 1 21) ≡ true)
        (day₂ : c.date_eq (c.date_of (get_event_time (second_break s))) (c.date 2011 5 14)
          ≡ true) where
      first_event_passes :
          (q : EventQueue s) (bound : ℕ)
          → HasRoom s bound q
          → q.event_list ≡ []
          → bound + 8 < 2147483648
          → (q' : EventQueue s) × (first_event_test s c e (served q) ≡ done passed (served q'))
      unfolding first_event_test EventQueue.reset
      first_event_passes q bound room list fits =
          let (q₁, built, room₁, list₁, _, _) =
            build_sample_queue_again s stdair dates events laws reals q bound room list
              (omega arith) in
          let (ps, g, pop, event, room₂) =
            first_is_popped s stdair e laws q₁ (bound + 4) room₁ list₁ in
          let empty = EventQueue.reset s g.queue in
          let (q₂, passes) =
            break_points_passes empty (bound + 4)
              (reset-HasRoom s (bound + 4) g.queue laws resets room₂) refl (omega arith) day₂ in
          (
            q₂,
            bind_result-done _ _ (build_sample_queue-serving s (own_context s stdair) q q₁ built) (
                bind_result-done _ _ (pop_event_into-serving s (own_context s stdair) q₁ e ps g pop)
                  (required s _ _ _
                    (ap (λ b. c.date_eq (c.date_of (get_event_time b)) (c.date 2010 1 21)) event
                      ∙ day₁)
                    (bind_result-done _ _ (reset-serving s (own_context s stdair) g.queue) (
                      bind_result-done _ _ (is_queue_done-serving s (own_context s stdair) empty)
                        (required s _ _ _ (is_queue_done-nil s empty refl) passes))))),
          )

      played_passes :
          (q : EventQueue s) (bound : ℕ)
          → HasRoom s bound q
          → q.event_list ≡ []
          → bound + 12 < 2147483648
          → (q' : EventQueue s) × (played_test s c e (served q) ≡ done passed (served q'))
      unfolding played_test
      played_passes q bound room list fits =
          let (q₁, built, room₁, list₁, _, _) =
            build_sample_queue_again s stdair dates events laws reals q bound room list
              (omega arith) in
          let four : length q₁.event_list ≡ 4 = ap length list₁ in
          let (q₂, plays, empty, overall, types) =
            main_loop_drains s (own_context s stdair) q₁ e (omega (arith, four)) in
          let room₂ =
            popped-HasRoom s (bound + 4) (length q₁.event_list) q₁.event_list q₁ q₂ laws room₁
              overall types in
          let (q₃, passes) = first_event_passes q₂ (bound + 4) room₂ empty (omega arith) in
          (
            q₃,
            bind_result-done _ _ (build_sample_queue-serving s (own_context s stdair) q q₁ built) (
                bind_result-done _ _
                  (get_queue_size-serving s (own_context s stdair) q₁
                    ∙ ap (λ n. done n (served q₁))
                        (int_of_size_small (length q₁.event_list) (omega (arith, four))))
                  (bind_result-done _ _ (is_queue_done-serving s (own_context s stdair) q₁) (
                    required s _ _ _ (ap not (is_queue_done-cons s q₁ _ _ list₁)) (
                      bind_result-done _ _ plays (
                        bind_result-done _ _
                          (count_down s (length q₁.event_list) (served q₂) (omega (arith, four)))
                          (required s _ _ _ (eq→== (length q₁.event_list) _ refl) (
                            bind_result-done _ _ (is_queue_done-serving s (own_context s stdair) q₂)
                              (required s _ _ _ (is_queue_done-nil s q₂ empty) passes)))))))),
          )

      new_event_queue-HasRoom : HasRoom s 0 (new_event_queue s (default_event_queue_id s))
      unfolding new_event_queue find
      new_event_queue-HasRoom = record {
        types_in_order = tt;
        expected = (0, laws.new_expected _ _ ∙ laws.default_zero, omega arith);
        actual = (0, laws.new_actual _ _ ∙ laws.default_zero, omega arith);
        type_expected = λ k. (0, refl, omega arith);
        type_actual = λ k. (0, refl, omega arith);
      }

      -- The test case `sevmgr_simple_simulation_test` passes: the sample queue is built three
      -- times, its loop ends, every check that it makes holds and no exception leaves it, whatever
      -- event an `EventStruct` starts with. The time stamps of the four events must have the order
      -- of their dates, with room for three more behind the last; `BKG_REQ` must differ from
      -- `BRK_PT`; the calendar must find the two dates in the date-times of the break points; and a
      -- reset of a progress status must keep the actual number or set it to 0. `EventLaws`,
      -- `StatusLaws` and `RealLaws` are assumed.
      pub sevmgr_simple_simulation_test_passes :
          (q : EventQueue s) × (sevmgr_simple_simulation_test s c e stdair ≡ done passed (served q))
      unfolding sevmgr_simple_simulation_test fresh new_event_queue
      sevmgr_simple_simulation_test_passes =
          let q₀ = new_event_queue s (default_event_queue_id s) in
          let (q, passes) = played_passes q₀ 0 new_event_queue-HasRoom refl (omega arith) in
          (
            q,
            bind_result-done _ _ (new_service-fresh s stdair true e) (
                bind_result-done _ _ (is_queue_done-serving s (own_context s stdair) q₀)
                  (required s _ _ _ (is_queue_done-nil s q₀ refl) passes)),
          )
