-- ===== src/Tests/Queue.antt =====
-- The event queue on the sample queue: five booking requests and break points expected, one event
-- already played.
use sevmgr.Prelude.{
  int_of_size, negsuc, length, ℕ, ◌+◌, ◌≤◌, ◌≡◌, refl, true, none, some, [], ◌∷◌, arith, ◌==◌,
  if◌then◌else◌, pos, ◌+ℤ◌, ◌-ℤ◌, fits_int, done, raised, event_queue_exception,
}
use sevmgr.OrderedMap.{find, insert, update}
use sevmgr.EventQueue.{EventQueue, Frame, reset, is_queue_done}
use sevmgr.EventQueue.Statuses.{has_progress_status, add_status, update_status_nb}
use sevmgr.EventQueue.Events.{insert_loop, add_event, pop_event}
use sevmgr.EventQueue.Events.Exchange.{add_event_exchange}
use sevmgr.EventQueue.Events.Insertion.{placed, postpone, Taken, add_event_first_free}
use sevmgr.EventQueue.Events.Popping.{pop_event_unknown_type, pop_event_counts}
use sevmgr.EventQueue.Validity.{IsValid}
use sevmgr.EventQueue.Events.Types.{once, of_type}
use sevmgr.EventQueue.Refinement.{agenda, Enters, Removes, add_event-Enters, pop_event-Removes}
use sevmgr.EventQueue.Totals.{number_of, add_status_totals}
use sevmgr.EventQueue.Totals.Updates.{update_status_nb_totals}
use sevmgr.EventQueue.Balance.{sum_by, Sums, IsBalanced, pop_event-IsBalanced}
use sevmgr.EventQueue.Balance.Additions.{add_status_balance}
use sevmgr.EventQueue.Balance.Resets.{reset_restarts}
use sevmgr.Tests.Samples.{
  SampleEvent, stdair, events, statuses, reals, status, SampleStatus, first_event, second_event,
  break_point, queue, new_event, frame,
}

pub queue-IsValid : IsValid stdair queue
queue-IsValid = record {
  in_order = (omega arith, (omega arith, tt));
  stamped = (refl, (refl, (refl, tt)));
  types_in_order = (omega arith, tt);
}

pub queue-IsBalanced : IsBalanced stdair queue
unfolding sum_by ◌+ℤ◌
queue-IsBalanced = record { current = refl; expected = refl; actual = refl }

abbrev booking_status : SampleStatus
booking_status = status 1 3

-- The new event finds its millisecond and the two after it taken.
add_event_test :
    add_event stdair frame
    ≡ done true (record {
      queue = record queue {
        event_list =
            (10, first_event)
            ∷ (11, second_event)
            ∷ (12, break_point)
            ∷ (13, record new_event { stamp = 13 })
            ∷ [];
      };
      event = record new_event { stamp = 13 };
    })
unfolding add_event insert_loop insert
add_event_test = refl

add_event_first_free_example :
    (d : ℕ) × (d ≤ 3)
    × Taken 10 d queue.event_list
    × (find (10 + d) queue.event_list ≡ none)
    × ((postpone stdair d new_event).stamp ≡ 10 + d)
    × (add_event stdair frame ≡ done true (placed stdair d frame))
add_event_first_free_example =
    add_event_first_free stdair events frame queue-IsValid.in_order (omega arith)

add_event-Enters_example :
    (g : Frame stdair) × (add_event stdair frame ≡ done true g)
    × Enters stdair (agenda stdair queue) (agenda stdair g.queue) 10 g.event
    × (length g.queue.event_list ≡ length queue.event_list + 1)
    × (g.queue.progress_status ≡ status 1 5)
    × (g.queue.progress_status_map ≡ queue.progress_status_map)
    × ((k : ℕ)
        → of_type stdair k g.queue.event_list
          ≡ once stdair new_event k + of_type stdair k queue.event_list)
add_event-Enters_example = add_event-Enters stdair frame events queue-IsValid (omega arith)

pop_event-Removes_example :
    (ps : stdair.StatusSet) × (g : Frame stdair) × (pop_event stdair frame ≡ done ps g)
    × Removes stdair (agenda stdair queue) (agenda stdair g.queue) g.event
    × (length queue.event_list ≡ length g.queue.event_list + 1)
unfolding find
pop_event-Removes_example =
    pop_event-Removes stdair frame 10 first_event ((11, second_event) ∷ (12, break_point) ∷ [])
      booking_status queue-IsValid refl refl

pop_event_counts_example :
    (ps : stdair.StatusSet) × (g : Frame stdair) × (p : SampleStatus) × (pop_event stdair frame
      ≡ done ps g)
    × ((k : ℕ)
        → find k g.queue.progress_status_map
          ≡ (if 0 == k then some p else find k queue.progress_status_map))
    × (p.current ≡ pos 1 +ℤ pos 1)
    × (p.expected ≡ pos 3)
    × (p.actual ≡ pos 3)
    × (g.queue.progress_status.current ≡ pos 1 +ℤ pos 1)
    × (g.queue.progress_status.expected ≡ pos 5)
    × (g.queue.progress_status.actual ≡ pos 5)
unfolding find fits_int ◌+ℤ◌
pop_event_counts_example =
    pop_event_counts stdair frame 10 first_event ((11, second_event) ∷ (12, break_point) ∷ [])
      booking_status statuses refl refl refl refl

pop_event-IsBalanced_example :
    (ps : stdair.StatusSet) × (g : Frame stdair) × (pop_event stdair frame ≡ done ps g)
    × IsBalanced stdair g.queue
unfolding find fits_int ◌+ℤ◌
pop_event-IsBalanced_example =
    pop_event-IsBalanced stdair statuses frame 10 first_event
      ((11, second_event) ∷ (12, break_point) ∷ []) booking_status refl refl refl refl
      queue-IsBalanced

add_status_totals_example :
    (q : EventQueue stdair) × (p : SampleStatus) × (add_status stdair 0 (pos 4) queue ≡ done tt q)
    × ((j : ℕ)
        → find j q.progress_status_map
          ≡ (if 0 == j then some p else find j queue.progress_status_map))
    × (p.current ≡ pos 0)
    × (p.expected ≡ pos 7)
    × (p.actual ≡ pos 7)
    × (q.progress_status.expected ≡ pos 9)
    × (q.progress_status.actual ≡ pos 9)
    × (q.progress_status.current ≡ pos 1)
    × (q.event_list ≡ queue.event_list)
unfolding find fits_int ◌+ℤ◌
add_status_totals_example =
    add_status_totals stdair statuses 0 (pos 4) queue reals queue-IsValid.types_in_order refl refl
      refl refl refl refl refl

-- One booking request was played, and is no longer counted for its type.
add_status_balance_example :
    (q : EventQueue stdair) × (add_status stdair 0 (pos 4) queue ≡ done tt q)
    × Sums stdair (λ p. p.expected) q
    × Sums stdair (λ p. p.actual) q
    × (sum_by (λ (p : SampleStatus). p.current) q.progress_status_map +ℤ pos 1
        ≡ q.progress_status.current)
unfolding find fits_int ◌+ℤ◌
add_status_balance_example =
    add_status_balance stdair statuses 0 (pos 4) queue reals queue-IsValid.types_in_order refl refl
      refl refl refl refl refl queue-IsBalanced

update_status_nb_totals_example :
    (q : EventQueue stdair) × (p : SampleStatus) × (update_status_nb stdair 0 (pos 2) queue
      ≡ done tt q)
    × (q.progress_status_map ≡ update 0 p queue.progress_status_map)
    × (p.actual ≡ pos 2)
    × (p.current ≡ pos 1)
    × (p.expected ≡ pos 3)
    × (q.progress_status.actual ≡ pos 4)
    × (q.progress_status.current ≡ pos 1)
    × (q.progress_status.expected ≡ pos 5)
    × (q.event_list ≡ queue.event_list)
unfolding find fits_int ◌+ℤ◌ ◌-ℤ◌
update_status_nb_totals_example =
    update_status_nb_totals stdair statuses 0 (pos 2) booking_status queue reals refl refl refl refl
      refl

abbrev queue_of_unknown : Frame stdair
queue_of_unknown = record {
  queue = record queue { progress_status_map = (7, status 0 2) ∷ [] };
  event = new_event;
}

pop_event_unknown_type_example :
    pop_event stdair queue_of_unknown
    ≡ raised event_queue_exception (record {
      queue = record queue {
        event_list = (11, second_event) ∷ (12, break_point) ∷ [];
        progress_status = status 2 5;
        progress_status_map = (7, status 0 2) ∷ [];
      };
      event = first_event;
    })
unfolding find ◌+ℤ◌
pop_event_unknown_type_example =
    pop_event_unknown_type stdair queue_of_unknown 10 first_event
      ((11, second_event) ∷ (12, break_point) ∷ []) refl refl

reset_restarts_example :
    (is_queue_done stdair (reset stdair queue) ≡ true)
    × ((k : ℕ)
        → has_progress_status stdair k (reset stdair queue) ≡ has_progress_status stdair k queue)
    × ((k : ℕ)
        → number_of stdair (λ p. p.current) (find k (reset stdair queue).progress_status_map)
          ≡ pos 0)
    × ((k : ℕ)
        → number_of stdair (λ p. p.expected) (find k (reset stdair queue).progress_status_map)
          ≡ number_of stdair (λ p. p.expected) (find k queue.progress_status_map))
    × ((reset stdair queue).progress_status.current ≡ pos 0)
    × ((reset stdair queue).progress_status.expected ≡ pos 5)
    × Sums stdair (λ p. p.current) (reset stdair queue)
    × (sum_by (λ (p : SampleStatus). p.expected) (reset stdair queue).progress_status_map
        ≡ sum_by (λ (p : SampleStatus). p.expected) queue.progress_status_map)
reset_restarts_example = reset_restarts stdair queue statuses

abbrev late_event : SampleEvent
late_event = record { kind = 0; stamp = 20; time = 20 }

abbrev later_event : SampleEvent
later_event = record { kind = 7; stamp = 25; time = 25 }

add_event_exchange_example :
    (q₁ : EventQueue stdair) × (q₂ : EventQueue stdair) × (q₃ : EventQueue stdair) × (add_event
        stdair
        (record { queue = queue; event = later_event })
      ≡ done true (record { queue = q₁; event = later_event }))
    × (add_event stdair (record { queue = q₁; event = late_event })
        ≡ done true (record { queue = q₃; event = late_event }))
    × (add_event stdair (record { queue = queue; event = late_event })
        ≡ done true (record { queue = q₂; event = late_event }))
    × (add_event stdair (record { queue = q₂; event = later_event })
        ≡ done true (record { queue = q₃; event = later_event }))
unfolding find
add_event_exchange_example =
    add_event_exchange stdair queue later_event late_event events queue-IsValid.in_order
      (omega arith) (omega arith) refl refl (omega arith)

-- A size beyond the range of an `int`.
wrapped_size : int_of_size 2147483648 ≡ negsuc 2147483647
unfolding int_of_size
wrapped_size = refl
