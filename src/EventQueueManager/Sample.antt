-- ===== src/EventQueueManager/Sample.antt =====
-- sevmgr/command/EventQueueManager.cpp, `buildSampleQueue`: its steps on a new queue.
pub mod Steps
pub mod Room
pub mod Rebuilt
pub mod Played
use sevmgr.Prelude.{
  bind_result-done, ℕ, ◌+◌, ◌<◌, ◌^◌, ◌≡◌, ◌≢◌, refl, sym, ap, subst, ◌∙◌, true, false, Option,
  none, some, List, arith, ◌==◌, if◌then◌else◌, ℤ, pos, ◌+ℤ◌, IsInt, fits_int, length, Result, Exec,
  done, bind_result, Leaves, pure,
}
use sevmgr.OrderedMap.{find}
use sevmgr.Stdair.{Stdair}
use sevmgr.Stdair.Laws.{EventLaws, StatusLaws, RealLaws}
use sevmgr.EventQueue.{EventQueue, Frame, new_event_queue, get_queue_size}
use sevmgr.EventQueue.Events
use sevmgr.EventQueue.Validity.{
  IsValid, FrameIsValid, add_event-IsValid, add_status-IsValid, new_event_queue-IsValid,
}
use sevmgr.EventQueue.Events.Types.{once, of_type}
use sevmgr.EventQueueManager.Types.{HasTypeCounts}
use sevmgr.EventQueue.Refinement.{add_event-Enters}
use sevmgr.EventQueue.Totals.{number_of, add_status_totals}
use sevmgr.EventQueueManager
use sevmgr.EventQueueManager.{discard_event, add_local_event, add_status, build_sample_queue}
use sevmgr.EventQueueManager.Sample.Steps.{
  Stage, Waits, once_same, once_other, add_local_event-Stage, add_status-Stage,
  new_event_queue-Stage, no_events, other_counts, no_types, other_type, two_added,
}

module _ (s : Stdair) where
  open s use {
    Event, Status, get_event_time_stamp, get_current_nb, get_expected_nb, get_actual_nb, bkg_req,
    brk_pt, booking_event, break_point_event, midnight, real_of_count,
  }

  -- `buildSampleQueue` on a new queue succeeds: it leaves four events that are still to be played,
  -- in a valid queue, with 4 in the overall expected and actual totals; two are of the type
  -- `BKG_REQ` and two of `BRK_PT`, and each type has a status with the current number 0 and the
  -- totals 2. There must be a StdAir service, each event must have a time stamp with room for three
  -- more, and `BKG_REQ` must differ from `BRK_PT`. `EventLaws`, `StatusLaws` and `RealLaws` are
  -- assumed.
  pub build_sample_queue-Stage :
      (stdair : s.Service) (key : List ℕ)
      → EventLaws s
      → StatusLaws s
      → RealLaws s
      → bkg_req ≢ brk_pt
      → get_event_time_stamp (booking_event bkg_req (s.build_sample_booking_request stdair false))
          + 3
        < 2 ^ 64
      → get_event_time_stamp (booking_event bkg_req (s.build_sample_booking_request stdair true))
          + 3
        < 2 ^ 64
      → get_event_time_stamp (break_point_event brk_pt (midnight 2010 1 21)) + 3 < 2 ^ 64
      → get_event_time_stamp (break_point_event brk_pt (midnight 2011 5 14)) + 3 < 2 ^ 64
      → (q : EventQueue s) × (build_sample_queue s (some stdair) (new_event_queue s key)
          ≡ done tt q)
        × Stage s q 4 4
        × Waits s bkg_req 2 q
        × Waits s brk_pt 2 q
  unfolding build_sample_queue
  build_sample_queue-Stage stdair key events laws reals differ room₁ room₂ room₃ room₄ =
      let booking = booking_event bkg_req (s.build_sample_booking_request stdair false) in
      let first_break = break_point_event brk_pt (midnight 2010 1 21) in
      let second_break = break_point_event brk_pt (midnight 2011 5 14) in
      let booking_for_crs = booking_event bkg_req (s.build_sample_booking_request stdair true) in
      let (q₁, p₁, run₁, st₁, types, counts₁, list₁) =
        add_status-Stage s bkg_req (new_event_queue s key) 0 0 laws reals
          (new_event_queue-Stage s key laws) (no_types s bkg_req key) (omega arith) in
      let (q₂, run₂, st₂, same₂, of₂) =
        add_local_event-Stage s booking q₁ 0 2 events st₁ (omega arith) in
      let (q₃, run₃, st₃, same₃, of₃) =
        add_local_event-Stage s booking_for_crs q₂ 1 2 events st₂ (omega arith) in
      let (q₄, p₄, run₄, st₄, types₄, counts₄, list₄) =
        add_status-Stage s brk_pt q₃ 2 2 laws reals st₃
          (ap (find brk_pt) (same₃ ∙ same₂)
            ∙ types brk_pt
            ∙ other_type s p₁ (find brk_pt (new_event_queue s key).progress_status_map) differ
                (no_types s brk_pt key))
          (omega arith) in
      let (q₅, run₅, st₅, same₅, of₅) =
        add_local_event-Stage s first_break q₄ 2 4 events st₄ (omega arith) in
      let (q₆, run₆, st₆, same₆, of₆) =
        add_local_event-Stage s second_break q₅ 3 4 events st₅ (omega arith) in
      (
        q₆,
        bind_result-done _ _ run₁ (
            bind_result-done _ _ run₂ (
              bind_result-done _ _ run₃
                (bind_result-done _ _ run₄ (bind_result-done _ _ run₅ run₆)))),
        st₆,
        (
          two_added s bkg_req 0 2 first_break second_break _ _ _ _ list₄ (of₅ bkg_req) (of₆ bkg_req)
              (once_other s first_break brk_pt bkg_req (events.break_point_type _ _)
                (λ h. differ (sym h)))
              (once_other s second_break brk_pt bkg_req (events.break_point_type _ _)
                (λ h. differ (sym h)))
              (two_added s bkg_req 1 0 booking booking_for_crs _ _ _ _ list₁ (of₂ bkg_req)
                (of₃ bkg_req) (once_same s booking bkg_req (events.booking_type _ _))
                (once_same s booking_for_crs bkg_req (events.booking_type _ _))
                (no_events s bkg_req key)),
          subst (λ m. HasTypeCounts s bkg_req m 0 2) (sym (same₆ ∙ same₅))
              (other_counts s bkg_req brk_pt p₄ q₃.progress_status_map q₄.progress_status_map
                (λ h. differ (sym h)) (types₄ bkg_req)
                (subst (λ m. HasTypeCounts s bkg_req m 0 2) (sym (same₃ ∙ same₂)) counts₁)),
        ),
        (
          two_added s brk_pt 1 0 first_break second_break _ _ _ _ list₄ (of₅ brk_pt) (of₆ brk_pt)
              (once_same s first_break brk_pt (events.break_point_type _ _))
              (once_same s second_break brk_pt (events.break_point_type _ _))
              (two_added s brk_pt 0 0 booking booking_for_crs _ _ _ _ list₁ (of₂ brk_pt)
                (of₃ brk_pt) (once_other s booking bkg_req brk_pt (events.booking_type _ _) differ)
                (once_other s booking_for_crs bkg_req brk_pt (events.booking_type _ _) differ)
                (no_events s brk_pt key)),
          subst (λ m. HasTypeCounts s brk_pt m 0 2) (sym (same₆ ∙ same₅)) counts₄,
        ),
      )
