-- ===== src/EventQueueManager/Sample/Room/Kept.antt =====
-- sevmgr/bom/EventQueue.cpp, `popEvent` and `reset`: the totals and how large they may be.
use sevmgr.Prelude.{
  ◌⊎◌, Bool, false, ℕ, ◌≡◌, refl, sym, ap, subst, ◌∙◌, inl, inr, true, Option, none, some, List, [],
  ◌∷◌, arith, ◌==◌, if◌then◌else◌, ℤ, pos, ==→eq, Bool-cases,
}
use sevmgr.OrderedMap.{find, update, map_values}
use sevmgr.OrderedMap.Order.{IsOrdered, find-update, update-IsOrdered, map_values-IsOrdered}
use sevmgr.Stdair.{Stdair}
use sevmgr.Stdair.Laws.{StatusLaws}
use sevmgr.EventQueue.{EventQueue, reset}
use sevmgr.EventQueue.Totals.{number_of}
use sevmgr.EventQueueManager.Popping.{counted_for, counted_in}
use sevmgr.EventQueueManager.Runs.{increments}
use sevmgr.EventQueueManager.Types.{types_after}
use sevmgr.EventQueueManager.Counting.{increments_expected, increments_actual}
use sevmgr.EventQueueManager.Sample.Room.{IsSmall, HasRoom}

module _ (s : Stdair) where
  open s use {
    Event, Status, get_event_type, get_expected_nb, get_actual_nb, real_of_count, increment,
    reset_status,
  }

  -- A number that `operator++` leaves alone is left alone by the pops of events.
  module _ (n : Status → ℤ) (keeps : (p : Status) → n (increment p) ≡ n p) where
    number_of-counted :
        (e : Event) (k : ℕ) (m : List (ℕ × Status)) (o : Option Status)
        → find (get_event_type e) m ≡ o
        → number_of s n (find k (counted_for s e m o)) ≡ number_of s n (find k m)
    number_of-counted e k m none h = refl
    number_of-counted e k m (some w) h = elim (Bool-cases (get_event_type e == k)) [
      | inl same ↦
          let found : find k m ≡ some w = subst (λ j. find j m ≡ some w) (==→eq _ k same) h in
          let written : find k (update (get_event_type e) (increment w) m) ≡ some (increment w) =
            ground (arith, same, h, find-update (get_event_type e) k (increment w) m) in
          ap (number_of s n) written ∙ keeps w ∙ sym (ap (number_of s n) found)
      | inr other ↦
          let kept : find k (update (get_event_type e) (increment w) m) ≡ find k m =
            ground (arith, other, find-update (get_event_type e) k (increment w) m) in
          ap (number_of s n) kept
    ]

    number_of-types_after :
        (l : List (ℕ × Event)) (k : ℕ) (m : List (ℕ × Status))
        → number_of s n (find k (types_after s l m)) ≡ number_of s n (find k m)
    number_of-types_after [] k m = refl
    number_of-types_after ((t, e) ∷ l) k m =
        number_of-types_after l k (counted_in s e m)
        ∙ number_of-counted e k m (find (get_event_type e) m) refl

  counted-IsOrdered :
      (e : Event) (m : List (ℕ × Status)) (o : Option Status)
      → IsOrdered m
      → IsOrdered (counted_for s e m o)
  counted-IsOrdered e m none h = h
  counted-IsOrdered e m (some p) h = update-IsOrdered (get_event_type e) (increment p) m h

  types_after-IsOrdered :
      (l : List (ℕ × Event)) (m : List (ℕ × Status)) → IsOrdered m → IsOrdered (types_after s l m)
  types_after-IsOrdered [] m h = h
  types_after-IsOrdered ((t, e) ∷ l) m h =
      types_after-IsOrdered l (counted_in s e m)
        (counted-IsOrdered e m (find (get_event_type e) m) h)

  -- The pops of events leave the totals alone.
  pub popped-HasRoom :
      (bound k : ℕ) (l : List (ℕ × Event)) (q q' : EventQueue s)
      → StatusLaws s
      → HasRoom s bound q
      → q'.progress_status ≡ increments s k q.progress_status
      → q'.progress_status_map ≡ types_after s l q.progress_status_map
      → HasRoom s bound q'
  popped-HasRoom bound k l q q' laws room overall types = record {
    types_in_order =
        subst IsOrdered (sym types)
          (types_after-IsOrdered l q.progress_status_map room.types_in_order);
    expected =
        subst (IsSmall bound)
          (sym (ap get_expected_nb overall ∙ increments_expected s laws k q.progress_status))
          room.expected;
    actual =
        subst (IsSmall bound)
          (sym (ap get_actual_nb overall ∙ increments_actual s laws k q.progress_status))
          room.actual;
    type_expected = λ j.
        subst (IsSmall bound)
          (sym (
            ap (λ m. number_of s get_expected_nb (find j m)) types
            ∙ number_of-types_after get_expected_nb laws.increment_expected l j
                q.progress_status_map))
          (room.type_expected j);
    type_actual = λ j.
        subst (IsSmall bound)
          (sym (
            ap (λ m. number_of s get_actual_nb (find j m)) types
            ∙ number_of-types_after get_actual_nb laws.increment_actual l j q.progress_status_map))
          (room.type_actual j);
  }

  -- A `reset` of a status keeps the expected total, and keeps the actual one or sets it to 0.
  abbrev pub ResetsActual : Type 0
  ResetsActual =
      (p : Status)
      → (get_actual_nb (reset_status p) ≡ get_actual_nb p)
        ⊎ (get_actual_nb (reset_status p) ≡ pos 0)

  reset-IsSmall : (bound : ℕ) (a b : ℤ) → (b ≡ a) ⊎ (b ≡ pos 0) → IsSmall bound a → IsSmall bound b
  reset-IsSmall bound a b (inl h) small = subst (IsSmall bound) (sym h) small
  reset-IsSmall bound a b (inr h) small = (0, h, omega arith)

  number_of-reset :
      (bound k : ℕ) (n : Status → ℤ) (m : List (ℕ × Status))
      → ((p : Status) → (n (reset_status p) ≡ n p) ⊎ (n (reset_status p) ≡ pos 0))
      → IsSmall bound (number_of s n (find k m))
      → IsSmall bound (number_of s n (find k (map_values reset_status m)))
  unfolding find map_values
  number_of-reset bound k n [] h small = small
  number_of-reset bound k n ((j, p) ∷ m) h small =
      first (j == k) small (number_of-reset bound k n m h)
    where
      first :
          (b : Bool)
          → IsSmall bound (number_of s n (if b then some p else find k m))
          → (IsSmall bound (number_of s n (find k m))
              → IsSmall bound (number_of s n (find k (map_values reset_status m))))
          → IsSmall bound (
              number_of s n
                (if b then some (reset_status p) else find k (map_values reset_status m)))
      first true small rest = reset-IsSmall bound (n p) (n (reset_status p)) (h p) small
      first false small rest = rest small

  pub reset-HasRoom :
      (bound : ℕ) (q : EventQueue s)
      → StatusLaws s
      → ResetsActual
      → HasRoom s bound q
      → HasRoom s bound (reset s q)
  unfolding reset
  reset-HasRoom bound q laws resets room = record {
    types_in_order = map_values-IsOrdered reset_status q.progress_status_map room.types_in_order;
    expected = reset-IsSmall bound _ _ (inl (laws.reset_expected q.progress_status)) room.expected;
    actual = reset-IsSmall bound _ _ (resets q.progress_status) room.actual;
    type_expected = λ k.
        number_of-reset bound k get_expected_nb q.progress_status_map
          (λ p. inl (laws.reset_expected p)) (room.type_expected k);
    type_actual = λ k.
        number_of-reset bound k get_actual_nb q.progress_status_map resets (room.type_actual k);
  }
