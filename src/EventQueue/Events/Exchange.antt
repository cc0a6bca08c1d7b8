-- ===== src/EventQueue/Events/Exchange.antt =====
-- sevmgr/bom/EventQueue.cpp: the order in which events are added to a queue.
use sevmgr.Prelude.{
  ℕ, zero, suc, ◌+◌, ◌<◌, ◌^◌, ◌≡◌, ◌≢◌, refl, sym, ap, subst, ◌∙◌, true, none, arith, is_some,
  length, done,
}
use sevmgr.OrderedMap.{find, insert}
use sevmgr.OrderedMap.Order.{IsOrdered, insert-IsOrdered}
use sevmgr.OrderedMap.Insertion.{length-insert}
use sevmgr.OrderedMap.Extension.{insert_free, find-insert_other, insert_exchange}
use sevmgr.Stdair.{Stdair}
use sevmgr.Stdair.Laws.{EventLaws}
use sevmgr.EventQueue.{EventQueue, Frame}
use sevmgr.EventQueue.Events.{add_event}
use sevmgr.EventQueue.Events.Insertion.{placed, postpone, Taken, add_event_first_free}

module _ (s : Stdair) where
  open s use {Event, get_event_time_stamp}

  -- The queue with an event under its own time stamp.
  abbrev pub with_event : Event → EventQueue s → EventQueue s
  with_event e q = record q { event_list = (insert (get_event_time_stamp e) e q.event_list).0 }

  no_delay :
      (d : ℕ) (f : Frame s)
      → Taken (get_event_time_stamp f.event) d f.queue.event_list
      → find (get_event_time_stamp f.event) f.queue.event_list ≡ none
      → d ≡ 0
  no_delay zero f taken free = refl
  no_delay (suc d) f taken free =
      let t = get_event_time_stamp f.event in
      let same : t + 0 ≡ t = omega arith in
      absurd (
        ground (
          arith,
          subst (λ n. is_some (find n f.queue.event_list) ≡ true) same (taken 0 (omega arith)),
        ))

  pub add_event_free :
      (e : Event) (q : EventQueue s)
      → EventLaws s
      → IsOrdered q.event_list
      → get_event_time_stamp e + length q.event_list < 2 ^ 64
      → find (get_event_time_stamp e) q.event_list ≡ none
      → add_event s (record { queue = q; event = e })
        ≡ done true (record { queue = with_event e q; event = e })
  unfolding placed postpone
  add_event_free e q laws o room free =
      let f : Frame s = record { queue = q; event = e } in
      let (d, _, taken, _, _, run) = add_event_first_free s laws f o room in
      run ∙ ap (λ n. done true (placed s n f)) (no_delay d f taken free)

  -- Two events whose time stamps are free and differ can be added in either order: each `addEvent`
  -- succeeds and leaves the event as it is, and the queues at the end are equal. The queue must be
  -- in the order of its time stamps, with room for the two events. `EventLaws` are assumed.
  pub add_event_exchange :
      (q : EventQueue s) (e₁ e₂ : Event)
      → EventLaws s
      → IsOrdered q.event_list
      → get_event_time_stamp e₁ + length q.event_list + 1 < 2 ^ 64
      → get_event_time_stamp e₂ + length q.event_list + 1 < 2 ^ 64
      → find (get_event_time_stamp e₁) q.event_list ≡ none
      → find (get_event_time_stamp e₂) q.event_list ≡ none
      → get_event_time_stamp e₁ ≢ get_event_time_stamp e₂
      → (q₁ : EventQueue s) × (q₂ : EventQueue s) × (q₃ : EventQueue s) × (add_event s
            (record { queue = q; event = e₁ })
          ≡ done true (record { queue = q₁; event = e₁ }))
        × (add_event s (record { queue = q₁; event = e₂ })
            ≡ done true (record { queue = q₃; event = e₂ }))
        × (add_event s (record { queue = q; event = e₂ })
            ≡ done true (record { queue = q₂; event = e₂ }))
        × (add_event s (record { queue = q₂; event = e₁ })
            ≡ done true (record { queue = q₃; event = e₁ }))
  add_event_exchange q e₁ e₂ laws o room₁ room₂ free₁ free₂ differ =
      let t₁ = get_event_time_stamp e₁ in
      let t₂ = get_event_time_stamp e₂ in
      let l = q.event_list in
      let differ' : t₂ ≢ t₁ = λ e. differ (sym e) in
      (
        with_event e₁ q,
        with_event e₂ q,
        with_event e₂ (with_event e₁ q),
        add_event_free e₁ q laws o (omega arith) free₁,
        add_event_free e₂ (with_event e₁ q) laws (insert-IsOrdered t₁ e₁ l o)
            (omega (arith, length-insert t₁ e₁ l (insert_free t₁ e₁ l o free₁)))
            (find-insert_other t₁ t₂ e₁ l o free₁ free₂ differ),
        add_event_free e₂ q laws o (omega arith) free₂,
        add_event_free e₁ (with_event e₂ q) laws (insert-IsOrdered t₂ e₂ l o)
              (omega (arith, length-insert t₂ e₂ l (insert_free t₂ e₂ l o free₂)))
              (find-insert_other t₂ t₁ e₂ l o free₂ free₁ differ')
            ∙ ap (λ m. done true (record { queue = record q { event_list = m }; event = e₁ }))
                (sym (insert_exchange t₁ t₂ e₁ e₂ l o free₁ free₂ differ)),
      )
