-- ===== src/EventQueueManager/Sample/Played.antt =====
-- sevmgr/command/EventQueueManager.cpp, `run` and `popEvent` on the sample queue.
use sevmgr.Prelude.{ℕ, ◌≡◌, ◌≢◌, ap, ◌∙◌, true, [], ◌∷◌, is_some, done}
use sevmgr.OrderedMap.{find}
use sevmgr.Stdair.{Stdair}
use sevmgr.Stdair.Laws.{EventLaws, StatusLaws}
use sevmgr.EventQueue.{EventQueue, Frame}
use sevmgr.EventQueueManager
use sevmgr.EventQueueManager.Popping.{pop_event_returns, first_or, overall_after, types_after_pop}
use sevmgr.EventQueueManager.Runs.{increments}
use sevmgr.EventQueueManager.Runs.Breaks.{run_stops_at_break}
use sevmgr.EventQueueManager.Sample.Room.{HasRoom}
use sevmgr.EventQueueManager.Sample.Room.Kept.{popped-HasRoom}
use sevmgr.EventQueueManager.Sample.Rebuilt.{
  sample_list, first_break, second_break, request, request_for_crs, stored,
}

module _ (s : Stdair) where
  open s use {Event, get_event_type, get_event_time, bkg_req, brk_pt}

  module _ (stdair : s.Service) (e : Event) (events : EventLaws s) (differ : bkg_req ≢ brk_pt) where
    abbrev booking_type : get_event_type (request_for_crs s stdair) ≡ bkg_req
    booking_type = events.booking_type bkg_req _

    -- The second run, which plays the booking request before the break point.
    stops_at_second :
        (f : Frame s)
        → f.queue.event_list
          ≡ stored s (request_for_crs s stdair)
            ∷ stored s (second_break s)
            ∷ stored s (request s stdair)
            ∷ []
        → is_some (find bkg_req f.queue.progress_status_map) ≡ true
        → is_some (find brk_pt f.queue.progress_status_map) ≡ true
        → (g : Frame s) × (EventQueueManager.run s f ≡ done tt g) × (g.event ≡ second_break s)
    stops_at_second f list bookings breaks =
        let (g, run, event, _, _, _) =
          run_stops_at_break s f (stored s (request_for_crs s stdair) ∷ []) _ _ (second_break s)
            differ list (rw booking_type differ, tt) (events.break_point_type brk_pt _)
            (rw booking_type bookings, tt) breaks in
        (g, run, event)

    -- The two runs on the sample queue.
    pub stops_at_both :
        (q : EventQueue s)
        → q.event_list ≡ sample_list s stdair
        → is_some (find bkg_req q.progress_status_map) ≡ true
        → is_some (find brk_pt q.progress_status_map) ≡ true
        → (g₁ g₂ : Frame s) × (EventQueueManager.run s (record { queue = q; event = e })
            ≡ done tt g₁)
          × (g₁.event ≡ first_break s)
          × (EventQueueManager.run s g₁ ≡ done tt g₂)
          × (g₂.event ≡ second_break s)
    stops_at_both q list bookings breaks =
        let (g₁, run₁, event₁, list₁, _, types) =
          run_stops_at_break s (record { queue = q; event = e }) [] _ _ (first_break s) differ list
            tt (events.break_point_type brk_pt _) tt breaks in
        let (g₂, run₂, event₂) =
          stops_at_second g₁ list₁ (types bkg_req ∙ bookings) (types brk_pt ∙ breaks) in
        (g₁, g₂, run₁, event₁, run₂, event₂)

  -- The first event of the sample, taken out.
  pub first_is_popped :
      (stdair : s.Service) (e : Event) (laws : StatusLaws s) (q : EventQueue s) (bound : ℕ)
      → HasRoom s bound q
      → q.event_list ≡ sample_list s stdair
      → (ps : s.StatusSet) × (g : Frame s) × (EventQueueManager.pop_event s
            (record { queue = q; event = e })
          ≡ done ps g)
        × (g.event ≡ first_break s)
        × HasRoom s bound g.queue
  unfolding increments
  first_is_popped stdair e laws q bound room list =
      let (ps, g, pop, _, event, _, overall, types) =
        pop_event_returns s (record { queue = q; event = e }) in
      (
        ps,
        g,
        pop,
        event ∙ ap (first_or e) list,
        popped-HasRoom s bound 1 (stored s (first_break s) ∷ []) q g.queue laws room
            (overall ∙ ap (λ l. overall_after s l q.progress_status) list)
            (types ∙ ap (λ l. types_after_pop s l q.progress_status_map) list),
      )
