-- ===== src/EventQueueManager/Sample/Rebuilt.antt =====
-- sevmgr/command/EventQueueManager.cpp, `buildSampleQueue` on an empty queue, also one that has
-- been used, when the events of the sample are in the order of their dates.
use sevmgr.Prelude.{
  bind_result-done, true, false, ℕ, ◌+◌, ◌<◌, ◌^◌, ◌≡◌, refl, sym, ap, subst, ◌∙◌, none, some, List,
  [], ◌∷◌, arith, is_some, length, pos, done, Leaves,
}
use sevmgr.OrderedMap.{find, insert}
use sevmgr.OrderedMap.Order.{IsOrdered}
use sevmgr.Stdair.{Stdair}
use sevmgr.Stdair.Laws.{EventLaws, StatusLaws, RealLaws}
use sevmgr.EventQueue.{EventQueue, Frame}
use sevmgr.EventQueue.Validity.{IsValid, FrameIsValid, IsStamped, add_event-IsValid}
use sevmgr.EventQueue.Events.Exchange.{with_event, add_event_free}
use sevmgr.EventQueueManager.{add_status, add_local_event, build_sample_queue}
use sevmgr.EventQueueManager.Sample.Steps.{add_local_event-run}
use sevmgr.EventQueueManager.Sample.Room.{HasRoom, add_status-HasRoom}

module _ (s : Stdair) where
  open s use {
    Event, get_event_time_stamp, bkg_req, brk_pt, booking_event, break_point_event, midnight,
  }

  -- The four events of the sample.
  abbrev pub request : s.Service → Event
  request stdair = booking_event bkg_req (s.build_sample_booking_request stdair false)

  abbrev pub request_for_crs : s.Service → Event
  request_for_crs stdair = booking_event bkg_req (s.build_sample_booking_request stdair true)

  abbrev pub first_break : Event
  first_break = break_point_event brk_pt (midnight 2010 1 21)

  abbrev pub second_break : Event
  second_break = break_point_event brk_pt (midnight 2011 5 14)

  -- Their time stamps have the order of their dates, and leave room for three more.
  pub record InDateOrder (stdair : s.Service) : Type 0 where
    pub break_first :
        get_event_time_stamp first_break < get_event_time_stamp (request_for_crs stdair)
    pub request_second :
        get_event_time_stamp (request_for_crs stdair) < get_event_time_stamp second_break
    pub break_third : get_event_time_stamp second_break < get_event_time_stamp (request stdair)
    pub room : get_event_time_stamp (request stdair) + 3 < 2 ^ 64

  abbrev pub stored : Event → ℕ × Event
  stored e = (get_event_time_stamp e, e)

  -- The list of the events of the sample.
  abbrev pub sample_list : s.Service → List (ℕ × Event)
  sample_list stdair =
      stored first_break
      ∷ stored (request_for_crs stdair)
      ∷ stored second_break
      ∷ stored (request stdair)
      ∷ []

  add_local_event-free :
      (e : Event) (q : EventQueue s) (l l' : List (ℕ × Event)) (bound : ℕ)
      → EventLaws s
      → IsValid s q
      → HasRoom s bound q
      → q.event_list ≡ l
      → get_event_time_stamp e + length l < 2 ^ 64
      → find (get_event_time_stamp e) l ≡ none
      → (insert (get_event_time_stamp e) e l).0 ≡ l'
      → (q' : EventQueue s) × (add_local_event s e q ≡ done tt q')
        × IsValid s q'
        × HasRoom s bound q'
        × (q'.event_list ≡ l')
        × (q'.progress_status_map ≡ q.progress_status_map)
  add_local_event-free e q l l' bound laws v room list small free inserted =
      let f : Frame s = record { queue = q; event = e } in
      let run =
        add_event_free s e q laws v.in_order (omega (arith, ap length list))
          (ap (find (get_event_time_stamp e)) list ∙ free) in
      (
        with_event s e q,
        add_local_event-run s e q (record { queue = with_event s e q; event = e }) run,
        subst (Leaves (FrameIsValid s)) run (add_event-IsValid s f v),
        record {
          types_in_order = room.types_in_order;
          expected = room.expected;
          actual = room.actual;
          type_expected = room.type_expected;
          type_actual = room.type_actual;
        },
        ap (λ m. (insert (get_event_time_stamp e) e m).0) list ∙ inserted,
        refl,
      )

  -- A type is known as long as the statuses stay.
  still_known :
      (k : ℕ) (q₁ q₂ q₃ : EventQueue s)
      → q₂.progress_status_map ≡ q₁.progress_status_map
      → q₃.progress_status_map ≡ q₂.progress_status_map
      → is_some (find k q₁.progress_status_map) ≡ true
      → is_some (find k q₃.progress_status_map) ≡ true
  still_known k q₁ q₂ q₃ same₂ same₃ known =
      subst (λ m. is_some (find k m) ≡ true) (sym (same₃ ∙ same₂)) known

  module _ (stdair : s.Service) (dates : InDateOrder stdair) where
    -- The six additions, one after another.
    together :
        (q q₁ q₂ q₃ q₄ q₅ q₆ : EventQueue s)
        → add_status s bkg_req (pos 2) q ≡ done tt q₁
        → add_local_event s (request stdair) q₁ ≡ done tt q₂
        → add_local_event s (request_for_crs stdair) q₂ ≡ done tt q₃
        → add_status s brk_pt (pos 2) q₃ ≡ done tt q₄
        → add_local_event s first_break q₄ ≡ done tt q₅
        → add_local_event s second_break q₅ ≡ done tt q₆
        → build_sample_queue s (some stdair) q ≡ done tt q₆
    unfolding build_sample_queue
    together q q₁ q₂ q₃ q₄ q₅ q₆ run₁ run₂ run₃ run₄ run₅ run₆ = bind_result-done _ _ run₁ (
        bind_result-done _ _ run₂
          (bind_result-done _ _ run₃ (bind_result-done _ _ run₄ (bind_result-done _ _ run₅ run₆))))

    -- A queue with a list, room for more totals, and a known type.
    abbrev IsReady : ℕ → List (ℕ × Event) → ℕ → EventQueue s → Type 0
    IsReady bound l k q =
        IsValid s q
        × HasRoom s bound q
        × (q.event_list ≡ l)
        × (is_some (find k q.progress_status_map) ≡ true)

    module _ (events : EventLaws s) (laws : StatusLaws s) (reals : RealLaws s) where
      abbrev requests : List (ℕ × Event)
      requests = stored (request_for_crs stdair) ∷ stored (request stdair) ∷ []

      requests_added :
          (q : EventQueue s) (bound : ℕ)
          → HasRoom s bound q
          → q.event_list ≡ []
          → bound + 2 < 2147483648
          → (q₁ q₂ q₃ : EventQueue s) × (add_status s bkg_req (pos 2) q ≡ done tt q₁)
            × (add_local_event s (request stdair) q₁ ≡ done tt q₂)
            × (add_local_event s (request_for_crs stdair) q₂ ≡ done tt q₃)
            × IsReady (bound + 2) requests bkg_req q₃
      unfolding find insert
      requests_added q bound room list fits =
          let valid : IsValid s q = record {
            in_order = subst IsOrdered (sym list) tt;
            stamped = subst (IsStamped s) (sym list) tt;
            types_in_order = room.types_in_order;
          } in
          let (q₁, run₁, v₁, room₁, list₁, known₁, _) =
            add_status-HasRoom s bkg_req bound q laws reals valid room fits in
          let (q₂, run₂, v₂, room₂, list₂, same₂) =
            add_local_event-free (request stdair) q₁ [] (stored (request stdair) ∷ []) (bound + 2)
              events v₁ room₁ (list₁ ∙ list) (omega (arith, dates.room)) refl refl in
          let (q₃, run₃, v₃, room₃, list₃, same₃) =
            add_local_event-free (request_for_crs stdair) q₂ (stored (request stdair) ∷ []) requests
              (bound + 2) events v₂ room₂ list₂
              (omega (arith, dates.request_second, dates.break_third, dates.room))
              (ground (arith, dates.request_second, dates.break_third))
              (ground (arith, dates.request_second, dates.break_third)) in
          (
            q₁,
            q₂,
            q₃,
            run₁,
            run₂,
            run₃,
            (v₃, room₃, list₃, still_known bkg_req q₁ q₂ q₃ same₂ same₃ known₁),
          )

      breaks_added :
          (q : EventQueue s) (bound : ℕ)
          → IsReady bound requests bkg_req q
          → bound + 2 < 2147483648
          → (q₁ q₂ q₃ : EventQueue s) × (add_status s brk_pt (pos 2) q ≡ done tt q₁)
            × (add_local_event s first_break q₁ ≡ done tt q₂)
            × (add_local_event s second_break q₂ ≡ done tt q₃)
            × HasRoom s (bound + 2) q₃
            × (q₃.event_list ≡ sample_list stdair)
            × (is_some (find bkg_req q₃.progress_status_map) ≡ true)
            × (is_some (find brk_pt q₃.progress_status_map) ≡ true)
      unfolding find insert
      breaks_added q bound (valid, room, list, known) fits =
          let (q₁, run₁, v₁, room₁, list₁, known₁, kept₁) =
            add_status-HasRoom s brk_pt bound q laws reals valid room fits in
          let (q₂, run₂, v₂, room₂, list₂, same₂) =
            add_local_event-free first_break q₁ requests (stored first_break ∷ requests) (bound + 2)
              events v₁ room₁ (list₁ ∙ list)
              (omega
                (arith, dates.break_first, dates.request_second, dates.break_third, dates.room))
              (ground (arith, dates.break_first, dates.request_second, dates.break_third))
              (ground (arith, dates.break_first, dates.request_second, dates.break_third)) in
          let (q₃, run₃, v₃, room₃, list₃, same₃) =
            add_local_event-free second_break q₂ (stored first_break ∷ requests)
              (sample_list stdair) (bound + 2) events v₂ room₂ list₂
              (omega (arith, dates.break_third, dates.room))
              (ground (arith, dates.break_first, dates.request_second, dates.break_third))
              (ground (arith, dates.break_first, dates.request_second, dates.break_third)) in
          (
            q₁,
            q₂,
            q₃,
            run₁,
            run₂,
            run₃,
            room₃,
            list₃,
            still_known bkg_req q₁ q₂ q₃ same₂ same₃ (kept₁ bkg_req known),
            still_known brk_pt q₁ q₂ q₃ same₂ same₃ known₁,
          )

      pub build_sample_queue_again :
          (q : EventQueue s) (bound : ℕ)
          → HasRoom s bound q
          → q.event_list ≡ []
          → bound + 4 < 2147483648
          → (q' : EventQueue s) × (build_sample_queue s (some stdair) q ≡ done tt q')
            × HasRoom s (bound + 4) q'
            × (q'.event_list ≡ sample_list stdair)
            × (is_some (find bkg_req q'.progress_status_map) ≡ true)
            × (is_some (find brk_pt q'.progress_status_map) ≡ true)
      build_sample_queue_again q bound room list fits =
          let (q₁, q₂, q₃, run₁, run₂, run₃, ready) =
            requests_added q bound room list (omega arith) in
          let (q₄, q₅, q₆, run₄, run₅, run₆, room₆, list₆, bookings, breaks) =
            breaks_added q₃ (bound + 2) ready (omega arith) in
          let four : bound + 2 + 2 ≡ bound + 4 = omega arith in
          (
            q₆,
            together q q₁ q₂ q₃ q₄ q₅ q₆ run₁ run₂ run₃ run₄ run₅ run₆,
            subst (λ n. HasRoom s n q₆) four room₆,
            list₆,
            bookings,
            breaks,
          )
