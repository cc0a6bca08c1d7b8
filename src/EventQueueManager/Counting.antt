-- ===== src/EventQueueManager/Counting.antt =====
-- sevmgr/command/EventQueueManager.cpp, `popEvent`: the counts after many pops.
use sevmgr.Prelude.{
  ℕ, zero, suc, ◌+◌, ◌<◌, ◌≡◌, refl, sym, subst, ap, ◌∙◌, pos, ◌+ℤ◌, arith, count_up,
}
use sevmgr.Stdair.{Stdair}
use sevmgr.Stdair.Laws.{StatusLaws}
use sevmgr.EventQueueManager.Runs.{increments}
use sevmgr.EventQueue.{EventQueue, get_queue_size}
use sevmgr.EventQueueManager.Sample.Steps.{Stage, Waits}
use sevmgr.EventQueue.Events.Types.{of_type}
use sevmgr.EventQueueManager.Types.{types_after, HasTypeCounts, types_after-HasTypeCounts}

module _ (s : Stdair) where
  open s use {bkg_req, brk_pt, Status, increment, get_current_nb, get_expected_nb, get_actual_nb}

  -- `n` events have been played, and `m` is the overall expected and actual total.
  abbrev pub HasCounts : EventQueue s → ℕ → ℕ → Type 0
  HasCounts q n m =
      (get_current_nb q.progress_status ≡ pos n)
      × (get_expected_nb q.progress_status ≡ pos m)
      × (get_actual_nb q.progress_status ≡ pos m)

  -- The four events of the sample are played: two of each type, which are the totals.
  abbrev pub SampleIsPlayed : EventQueue s → Type 0
  SampleIsPlayed q =
      HasCounts q 4 4
      × HasTypeCounts s bkg_req q.progress_status_map 2 2
      × HasTypeCounts s brk_pt q.progress_status_map 2 2

  module _ (laws : StatusLaws s) where
    increments_current :
        (n i : ℕ) (p : Status)
        → get_current_nb p ≡ pos i
        → i + n < 2147483648
        → get_current_nb (increments s n p) ≡ pos (i + n)
    unfolding increments
    increments_current zero i p h fits = let same : i + 0 ≡ i = omega arith in rw same h
    increments_current (suc n) i p h fits =
        let (small, next) = count_up i (omega arith) in
        let same : i + 1 + n ≡ i + suc n = omega arith in
        increments_current n (i + 1) (increment p)
          (laws.increment_current p (rw h small) ∙ ap (λ a. a +ℤ pos 1) h ∙ next) (omega arith)
        ∙ ap (λ (k : ℕ). pos k) same

    pub increments_expected :
        (n : ℕ) (p : Status) → get_expected_nb (increments s n p) ≡ get_expected_nb p
    unfolding increments
    increments_expected zero p = refl
    increments_expected (suc n) p = increments_expected n (increment p) ∙ laws.increment_expected p

    pub increments_actual :
        (n : ℕ) (p : Status) → get_actual_nb (increments s n p) ≡ get_actual_nb p
    unfolding increments
    increments_actual zero p = refl
    increments_actual (suc n) p = increments_actual n (increment p) ∙ laws.increment_actual p

    Stage-HasCounts :
        (q q' : EventQueue s) (n m k : ℕ)
        → Stage s q n m
        → k < 2147483648
        → q'.progress_status ≡ increments s k q.progress_status
        → HasCounts q' k m
    Stage-HasCounts q q' n m k stage fits h =
        let zero_more : 0 + k ≡ k = omega arith in
        (
          ap get_current_nb h
              ∙ increments_current k 0 q.progress_status stage.none_played (omega arith)
              ∙ ap (λ (i : ℕ). pos i) zero_more,
          ap get_expected_nb h ∙ increments_expected k q.progress_status ∙ stage.expected,
          ap get_actual_nb h ∙ increments_actual k q.progress_status ∙ stage.actual,
        )

    played :
        (k : ℕ) (q q' : EventQueue s)
        → Stage s q 4 4
        → Waits s k 2 q
        → q'.progress_status_map ≡ types_after s q.event_list q.progress_status_map
        → HasTypeCounts s k q'.progress_status_map 2 2
    unfolding get_queue_size
    played k q q' stage (number, counts) h =
        let number_played : 0 + of_type s k q.event_list ≡ 2 = omega (arith, number) in
        subst (λ m. HasTypeCounts s k m 2 2) (sym h)
          (subst (λ n. HasTypeCounts s k (types_after s q.event_list q.progress_status_map) n 2)
            number_played
            (types_after-HasTypeCounts s laws q.event_list k 0 2 q.progress_status_map
              (omega (arith, stage.size)) counts))

    pub sample_plays :
        (q q' : EventQueue s)
        → Stage s q 4 4
        → Waits s bkg_req 2 q
        → Waits s brk_pt 2 q
        → q'.progress_status ≡ increments s 4 q.progress_status
        → q'.progress_status_map ≡ types_after s q.event_list q.progress_status_map
        → SampleIsPlayed q'
    sample_plays q q' stage bookings breaks overall types = (
      Stage-HasCounts q q' 4 4 4 stage (omega arith) overall,
      played bkg_req q q' stage bookings types,
      played brk_pt q q' stage breaks types,
    )
