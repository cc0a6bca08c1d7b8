-- ===== src/EventQueueManager/Sample/Steps.antt =====
-- sevmgr/command/EventQueueManager.cpp, `buildSampleQueue`: one addition after another.
use sevmgr.Prelude.{
  ℕ, ◌+◌, ◌<◌, ◌^◌, ◌≡◌, ◌≢◌, refl, ap, subst, ◌∙◌, true, Option, none, some, List, arith, ◌==◌,
  if◌then◌else◌, ℤ, pos, ◌+ℤ◌, IsInt, fits_int, length, done, bind_result, Leaves, pure,
}
use sevmgr.OrderedMap.{find}
use sevmgr.Stdair.{Stdair}
use sevmgr.Stdair.Laws.{EventLaws, StatusLaws, RealLaws}
use sevmgr.EventQueue.{EventQueue, Frame, new_event_queue, get_queue_size}
use sevmgr.EventQueue.Events
use sevmgr.EventQueue.Validity.{
  IsValid, FrameIsValid, add_event-IsValid, add_status-IsValid, new_event_queue-IsValid,
}
use sevmgr.EventQueue.Events.Types.{once, of_type}
use sevmgr.EventQueueManager.Types.{HasTypeCounts}
use sevmgr.EventQueue.Refinement.{add_event-Enters}
use sevmgr.EventQueue.Totals.{number_of, add_status_totals}
use sevmgr.EventQueueManager
use sevmgr.EventQueueManager.{discard_event, add_local_event, add_status, build_sample_queue}

module _ (s : Stdair) where
  open s use {
    Event, Status, get_event_time_stamp, get_current_nb, get_expected_nb, get_actual_nb, bkg_req,
    brk_pt, booking_event, break_point_event, midnight, real_of_count,
  }

  -- A queue of `n` events, of which none has been played, with `m` in the overall totals.
  pub record Stage (q : EventQueue s) (n m : ℕ) : Type 0 where
    pub valid : IsValid s q
    pub size : length q.event_list ≡ n
    pub none_played : get_current_nb q.progress_status ≡ pos 0
    pub expected : get_expected_nb q.progress_status ≡ pos m
    pub actual : get_actual_nb q.progress_status ≡ pos m

  -- `n` events of a type, of which none has been played, and which are its totals.
  abbrev pub Waits : ℕ → ℕ → EventQueue s → Type 0
  Waits k n q = (of_type s k q.event_list ≡ n) × HasTypeCounts s k q.progress_status_map 0 n

  pub once_same : (e : Event) (k : ℕ) → s.get_event_type e ≡ k → once s e k ≡ 1
  once_same e k h = ground (arith, h)

  pub once_other : (e : Event) (j k : ℕ) → s.get_event_type e ≡ j → j ≢ k → once s e k ≡ 0
  once_other e j k h differ = ground (arith, h, differ)

  pub add_local_event-run :
      (e : Event) (q : EventQueue s) (g : Frame s)
      → Events.add_event s (record { queue = q; event = e }) ≡ done true g
      → add_local_event s e q ≡ done tt g.queue
  unfolding add_local_event EventQueueManager.add_event
  add_local_event-run e q g h = ap (λ r. discard_event s (bind_result r (λ _. pure tt))) h

  pub add_local_event-Stage :
      (e : Event) (q : EventQueue s) (n m : ℕ)
      → EventLaws s
      → Stage q n m
      → get_event_time_stamp e + n < 2 ^ 64
      → (q' : EventQueue s) × (add_local_event s e q ≡ done tt q')
        × Stage q' (n + 1) m
        × (q'.progress_status_map ≡ q.progress_status_map)
        × ((k : ℕ) → of_type s k q'.event_list ≡ once s e k + of_type s k q.event_list)
  unfolding get_queue_size
  add_local_event-Stage e q n m laws st room =
      let f : Frame s = record { queue = q; event = e } in
      let (g, run, _, size, progress, types, of_types) =
        add_event-Enters s f laws st.valid (omega (arith, st.size)) in
      (
        g.queue,
        add_local_event-run e q g run,
        record {
          valid = subst (Leaves (FrameIsValid s)) run (add_event-IsValid s f st.valid);
          size = size ∙ ap (λ (i : ℕ). i + 1) st.size;
          none_played = ap get_current_nb progress ∙ st.none_played;
          expected = ap get_expected_nb progress ∙ st.expected;
          actual = ap get_actual_nb progress ∙ st.actual;
        },
        types,
        of_types,
      )

  two_more : (m : ℕ) → pos m +ℤ pos 2 ≡ pos (m + 2)
  unfolding ◌+ℤ◌
  two_more m = ground arith

  small : (m : ℕ) → m < 2147483648 → IsInt (pos m)
  unfolding fits_int
  small m h = ground arith

  -- A number that is 0 or `m`, with two more, in the range of `int`.
  two_more-IsInt : (a : ℤ) (m : ℕ) → a ≡ pos m → m + 2 < 2147483648 → IsInt (a +ℤ pos 2)
  two_more-IsInt a m h fits = rw (h, two_more m) (small (m + 2) fits)

  pub add_status-Stage :
      (k : ℕ) (q : EventQueue s) (n m : ℕ)
      → StatusLaws s
      → RealLaws s
      → Stage q n m
      → find k q.progress_status_map ≡ none
      → m + 2 < 2147483648
      → (q' : EventQueue s) × (p : Status) × (add_status s k (pos 2) q ≡ done tt q')
        × Stage q' n (m + 2)
        × ((j : ℕ)
            → find j q'.progress_status_map
              ≡ (if k == j then some p else find j q.progress_status_map))
        × HasTypeCounts s k q'.progress_status_map 0 2
        × (q'.event_list ≡ q.event_list)
  unfolding get_queue_size add_status
  add_status-Stage k q n m laws reals st missing fits =
      let new : (f : Status → ℤ) → number_of s f (find k q.progress_status_map) ≡ pos 0 =
        λ f. ap (number_of s f) missing in
      let of_m : (a : ℤ) → a ≡ pos m → IsInt a = λ a h. rw h (small m (omega arith)) in
      let (q', p, run, types, current_k, expected_k, actual_k, expected, actual, current, events) =
        add_status_totals s laws k (pos 2) q reals st.valid.types_in_order (small 2 (omega arith))
          (of_m _ st.expected) (of_m _ st.actual)
          (two_more-IsInt _ 0 (new get_expected_nb) (omega arith))
          (two_more-IsInt _ 0 (new get_actual_nb) (omega arith))
          (two_more-IsInt _ m st.expected fits) (two_more-IsInt _ m st.actual fits) in
      (
        q',
        p,
        run,
        record {
          valid =
              subst (Leaves (IsValid s)) run
                (add_status-IsValid s k (real_of_count (pos 2)) q st.valid);
          size = ap length events ∙ st.size;
          none_played = current ∙ st.none_played;
          expected = expected ∙ ap (λ a. a +ℤ pos 2) st.expected ∙ two_more m;
          actual = actual ∙ ap (λ a. a +ℤ pos 2) st.actual ∙ two_more m;
        },
        types,
        (
          p,
          ground (arith, types k),
          current_k,
          expected_k ∙ ap (λ a. a +ℤ pos 2) (new get_expected_nb) ∙ two_more 0,
          actual_k ∙ ap (λ a. a +ℤ pos 2) (new get_actual_nb) ∙ two_more 0,
        ),
        events,
      )

  pub new_event_queue-Stage : (key : List ℕ) → StatusLaws s → Stage (new_event_queue s key) 0 0
  unfolding new_event_queue get_queue_size
  new_event_queue-Stage key laws = record {
    valid = new_event_queue-IsValid s key;
    size = refl;
    none_played = laws.new_current _ _;
    expected = laws.new_expected _ _ ∙ laws.default_zero;
    actual = laws.new_actual _ _ ∙ laws.default_zero;
  }

  pub no_events : (k : ℕ) (key : List ℕ) → of_type s k (new_event_queue s key).event_list ≡ 0
  unfolding new_event_queue
  no_events k key = refl

  -- A type keeps its counts when another one is added.
  pub other_counts :
      (j k : ℕ) (p : Status) (m m' : List (ℕ × Status))
      → k ≢ j
      → find j m' ≡ (if k == j then some p else find j m)
      → HasTypeCounts s j m 0 2
      → HasTypeCounts s j m' 0 2
  other_counts j k p m m' differ same (p', found, current, expected, actual) =
      (p', ground (arith, differ, same, found), current, expected, actual)

  pub no_types : (k : ℕ) (key : List ℕ) → find k (new_event_queue s key).progress_status_map ≡ none
  unfolding new_event_queue find
  no_types k key = refl

  pub other_type :
      (p : Status) (o : Option Status)
      → bkg_req ≢ brk_pt
      → o ≡ none
      → (if bkg_req == brk_pt then some p else o) ≡ none
  other_type p o differ h = ground (arith, differ, h)

  -- The events of a type, after one addition of a status and two of events.
  pub two_added :
      (k a b : ℕ) (e e' : Event) (l₀ l₁ l₂ l₃ : List (ℕ × Event))
      → l₁ ≡ l₀
      → of_type s k l₂ ≡ once s e k + of_type s k l₁
      → of_type s k l₃ ≡ once s e' k + of_type s k l₂
      → once s e k ≡ a
      → once s e' k ≡ a
      → of_type s k l₀ ≡ b
      → of_type s k l₃ ≡ a + (a + b)
  two_added k a b e e' l₀ l₁ l₂ l₃ h₁ h₂ h₃ h₄ h₅ h₆ =
      omega (arith, ap (of_type s k) h₁, h₂, h₃, h₄, h₅, h₆)
