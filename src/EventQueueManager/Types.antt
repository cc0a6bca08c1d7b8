-- ===== src/EventQueueManager/Types.antt =====
-- sevmgr/command/EventQueueManager.cpp, `popEvent`: the statuses of the event types after many
-- pops.
use sevmgr.Prelude.{
  ℕ, ◌+◌, ◌<◌, ◌≤◌, ◌≡◌, refl, ap, subst, ◌∙◌, inl, inr, Option, none, some, List, [], ◌∷◌, arith,
  ◌==◌, length, pos, ◌+ℤ◌, count_up, Bool-cases, ==→eq,
}
use sevmgr.OrderedMap.{find}
use sevmgr.OrderedMap.Order.{find-update}
use sevmgr.Stdair.{Stdair}
use sevmgr.Stdair.Laws.{StatusLaws}
use sevmgr.EventQueue.Events.Types.{once, of_type}
use sevmgr.EventQueueManager.Popping.{counted_for, counted_in, tail, types_after_pop}

module _ (s : Stdair) where
  open s use {
    Event, Status, get_event_type, increment, get_current_nb, get_expected_nb, get_actual_nb,
  }

  -- The statuses of the types after all events of a list are popped.
  abbrev pub types_after : List (ℕ × Event) → List (ℕ × Status) → List (ℕ × Status)
  types_after [] m = m
  types_after ((t, e) ∷ l) m = types_after l (counted_in s e m)

  -- The status of a type of which `n` events have been played, with the totals `m`.
  abbrev pub HasTypeCounts : ℕ → List (ℕ × Status) → ℕ → ℕ → Type 0
  HasTypeCounts k m n total =
      (p : Status) × (find k m ≡ some p)
      × (get_current_nb p ≡ pos n)
      × (get_expected_nb p ≡ pos total)
      × (get_actual_nb p ≡ pos total)

  module _ (laws : StatusLaws s) where
    counted_for-HasTypeCounts :
        (e : Event) (k n total : ℕ) (m : List (ℕ × Status)) (o : Option Status)
        → find (get_event_type e) m ≡ o
        → n + 1 < 2147483648
        → HasTypeCounts k m n total
        → HasTypeCounts k (counted_for s e m o) (n + once s e k) total
    counted_for-HasTypeCounts e k n total m none h fits (p, found, current, expected, actual) =
        let same : n ≡ n + once s e k = ground (arith, h, found) in
        (p, found, current ∙ ap (λ (i : ℕ). pos i) same, expected, actual)
    counted_for-HasTypeCounts e k n total m (some w) h fits (p, found, current, expected, actual) =
        elim (Bool-cases (get_event_type e == k)) [
          | inl same ↦
              let (small, next) = count_up n fits in
              let one : n + 1 ≡ n + once s e k = ground (arith, same) in
              (
                increment p,
                ground (
                  arith,
                  h,
                  found,
                  same,
                  find-update (get_event_type e) k (increment w) m,
                  ==→eq (get_event_type e) k same,
                ),
                laws.increment_current p (rw current small)
                    ∙ ap (λ a. a +ℤ pos 1) current
                    ∙ next
                    ∙ ap (λ (i : ℕ). pos i) one,
                laws.increment_expected p ∙ expected,
                laws.increment_actual p ∙ actual,
              )
          | inr other ↦
              let none_more : n ≡ n + once s e k = ground (arith, other) in
              (
                p,
                ground (arith, other, found, find-update (get_event_type e) k (increment w) m),
                current ∙ ap (λ (i : ℕ). pos i) none_more,
                expected,
                actual,
              )
        ]

    pub types_after-HasTypeCounts :
        (l : List (ℕ × Event)) (k n total : ℕ) (m : List (ℕ × Status))
        → n + length l < 2147483648
        → HasTypeCounts k m n total
        → HasTypeCounts k (types_after l m) (n + of_type s k l) total
    types_after-HasTypeCounts [] k n total m fits (p, found, current, expected, actual) =
        let same : n ≡ n + 0 = omega arith in
        (p, found, current ∙ ap (λ (i : ℕ). pos i) same, expected, actual)
    types_after-HasTypeCounts ((t, e) ∷ l) k n total m fits h =
        let within : once s e k ≤ 1 = ground arith in
        let same : n + once s e k + of_type s k l ≡ n + (once s e k + of_type s k l) =
          omega arith in
        subst (λ i. HasTypeCounts k (types_after l (counted_in s e m)) i total) same
          (types_after-HasTypeCounts l k (n + once s e k) total (counted_in s e m) (omega arith) (
            counted_for-HasTypeCounts e k n total m (find (get_event_type e) m) refl (omega arith)
              h))

  -- The first event popped by itself.
  pub types_after-tail :
      (l : List (ℕ × Event)) (m : List (ℕ × Status))
      → types_after (tail l) (types_after_pop s l m) ≡ types_after l m
  types_after-tail [] m = refl
  types_after-tail ((t, e) ∷ l) m = refl
