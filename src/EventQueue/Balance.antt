-- ===== src/EventQueue/Balance.antt =====
-- The overall counts of a queue against the sums of the counts of its event types.
pub mod Additions
pub mod Resets
use sevmgr.Prelude.{
  ℕ, ◌+◌, ◌≡◌, ◌≢◌, inl, inr, pos_part, neg_part, refl, sym, ap, ◌∙◌, Bool, true, false, Option,
  none, some, List, [], ◌∷◌, arith, ltb, ◌==◌, if◌then◌else◌, ℤ, pos, ◌+ℤ◌, ◌-ℤ◌, IsInt, int_laws,
  done, Option-cases,
}
use sevmgr.OrderedMap.{find, insert, update, map_values}
use sevmgr.OrderedMap.Order.{IsOrdered}
use sevmgr.OrderedMap.Insertion.{insert_flag}
use sevmgr.Stdair.{Stdair}
use sevmgr.Stdair.Laws.{StatusLaws, RealLaws}
use sevmgr.EventQueue.{EventQueue, Frame, new_event_queue, reset}
use sevmgr.EventQueue.Statuses.{add_status, update_status_nb}
use sevmgr.EventQueue.Events.{pop_event, take_event}
use sevmgr.EventQueue.Events.Popping.{popped, counted, progress_of, pop_event-found}
use sevmgr.EventQueue.Totals.{
  number_of, merged, written, written-progress, with_status, with_totals, add_status-run,
  merged_current, merged_expected, merged_actual,
}
use sevmgr.EventQueue.Totals.Updates.{update_status_nb_totals}

+ℤ_assoc : (a b c : ℤ) → a +ℤ b +ℤ c ≡ a +ℤ (b +ℤ c)
+ℤ_assoc a b c = omega int_laws

+ℤ_comm : (a b : ℤ) → a +ℤ b ≡ b +ℤ a
+ℤ_comm a b = omega int_laws

swap_ends : (a b c : ℤ) → a +ℤ b +ℤ c ≡ c +ℤ b +ℤ a
swap_ends a b c = omega int_laws

pub add_zero : (n : ℤ) → n +ℤ pos 0 ≡ n
add_zero n = omega int_laws

difference : (n v : ℤ) → n ≡ v +ℤ (n -ℤ v)
difference n v = omega int_laws

-- A sum and a total that change by the same difference stay equal.
pub Sums_shift : (a b v w t u d : ℤ) → b +ℤ v ≡ a +ℤ w → w ≡ v +ℤ d → u ≡ t +ℤ d → a ≡ t → b ≡ u
Sums_shift a b v w t u d h₁ h₂ h₃ h₄ = omega (
  int_laws,
  ap pos_part h₁,
  ap neg_part h₁,
  ap pos_part h₂,
  ap neg_part h₂,
  ap pos_part h₃,
  ap neg_part h₃,
  ap pos_part h₄,
  ap neg_part h₄,
)

pub Sums_same : (a b v w t u : ℤ) → b +ℤ v ≡ a +ℤ w → w ≡ v → u ≡ t → a ≡ t → b ≡ u
Sums_same a b v w t u h₁ h₂ h₃ h₄ =
    Sums_shift a b v w t u (pos 0) h₁ (h₂ ∙ sym (add_zero v)) (h₃ ∙ sym (add_zero t)) h₄

module _ {V : Type 0} where
  -- A number summed over the values of a map.
  unfoldable pub sum_by : (V → ℤ) → List (ℕ × V) → ℤ
  sum_by f [] = pos 0
  sum_by f ((k, v) ∷ m) = f v +ℤ sum_by f m

  pub sum_by-update :
      (f : V → ℤ) (k : ℕ) (v w : V) (m : List (ℕ × V))
      → find k m ≡ some v
      → sum_by f (update k w m) +ℤ f v ≡ sum_by f m +ℤ f w
  unfolding sum_by find update
  sum_by-update f k v w [] h = cc
  sum_by-update f k v w ((j, u) ∷ m) h = ground (
    arith,
    sum_by-update f k v w m,
    swap_ends (f w) (sum_by f m) (f v),
    +ℤ_assoc (f u) (sum_by f (update k w m)) (f v),
    +ℤ_assoc (f u) (sum_by f m) (f w),
  )

  pub sum_by-insert :
      (f : V → ℤ) (k : ℕ) (v : V) (m : List (ℕ × V))
      → (insert k v m).1 ≡ true
      → sum_by f (insert k v m).0 ≡ sum_by f m +ℤ f v
  unfolding sum_by insert
  sum_by-insert f k v [] h = omega int_laws
  sum_by-insert f k v ((j, u) ∷ m) h = ground (
    arith,
    sum_by-insert f k v m,
    +ℤ_comm (f v) (f u +ℤ sum_by f m),
    +ℤ_assoc (f u) (sum_by f m) (f v),
  )

  pub sum_by-map_values :
      (f : V → ℤ) (g : V → V) (m : List (ℕ × V))
      → ((v : V) → f (g v) ≡ f v)
      → sum_by f (map_values g m) ≡ sum_by f m
  unfolding sum_by map_values
  sum_by-map_values f g [] h = refl
  sum_by-map_values f g ((j, u) ∷ m) h = rw (h u, sum_by-map_values f g m h)

  pub sum_by-zero :
      (f : V → ℤ) (g : V → V) (m : List (ℕ × V))
      → ((v : V) → f (g v) ≡ pos 0)
      → sum_by f (map_values g m) ≡ pos 0
  unfolding sum_by map_values
  sum_by-zero f g [] h = refl
  sum_by-zero f g ((j, u) ∷ m) h = rw (h u, sum_by-zero f g m h) (omega int_laws)

module _ (s : Stdair) where
  open s use {
    Event, Status, StatusSet, get_event_type, get_current_nb, get_expected_nb, get_actual_nb,
    increment, reset_status, real_of_count, new_status_of_total,
  }

  -- An overall number is the sum of those of the event types.
  abbrev pub Sums : (Status → ℤ) → EventQueue s → Type 0
  Sums f q = sum_by f q.progress_status_map ≡ f q.progress_status

  pub record IsBalanced (q : EventQueue s) : Type 0 where
    pub current : Sums get_current_nb q
    pub expected : Sums get_expected_nb q
    pub actual : Sums get_actual_nb q

  pub sum_by-written :
      (f : Status → ℤ) (k : ℕ) (p : Status) (q : EventQueue s)
      → IsOrdered q.progress_status_map
      → sum_by f (written s k p q).progress_status_map
          +ℤ number_of s f (find k q.progress_status_map)
        ≡ sum_by f q.progress_status_map +ℤ f p
  unfolding written
  sum_by-written f k p q o = elim (Option-cases (find k q.progress_status_map)) [
    | inl e ↦ ground (
      arith,
      e,
      insert_flag k p q.progress_status_map o,
      sum_by-insert f k p q.progress_status_map,
      add_zero (sum_by f q.progress_status_map +ℤ f p),
    )
    | inr (p', e) ↦ ground (arith, e, sum_by-update f k p' p q.progress_status_map)
  ]

  module _ (laws : StatusLaws s) where
    pub new_event_queue-IsBalanced : (key : List ℕ) → IsBalanced (new_event_queue s key)
    unfolding new_event_queue sum_by
    new_event_queue-IsBalanced key = record {
      current = sym (laws.new_current _ _);
      expected = sym (laws.new_expected _ _ ∙ laws.default_zero);
      actual = sym (laws.new_actual _ _ ∙ laws.default_zero);
    }

    -- `popEvent` of an event whose type has a progress status keeps the balance of all three
    -- numbers. The two numbers that are incremented must not be at the end of the range of `int`.
    -- `StatusLaws` are assumed.
    pub pop_event-IsBalanced :
        (f : Frame s) (t : ℕ) (e : Event) (rest : List (ℕ × Event)) (p : Status)
        → f.queue.event_list ≡ (t, e) ∷ rest
        → find (get_event_type e) f.queue.progress_status_map ≡ some p
        → IsInt (get_current_nb p +ℤ pos 1)
        → IsInt (get_current_nb f.queue.progress_status +ℤ pos 1)
        → IsBalanced f.queue
        → (ps : StatusSet) × (g : Frame s) × (pop_event s f ≡ done ps g) × IsBalanced g.queue
    unfolding counted take_event
    pop_event-IsBalanced f t e rest p h found fits fits_overall b = (
      progress_of s (get_event_type e) (increment p) (increment f.queue.progress_status),
      popped s e rest p f,
      pop_event-found s f t e rest p h found,
      record {
        current =
            Sums_shift _ _ _ _ _ _ (pos 1) (moved get_current_nb) (laws.increment_current p fits)
              (laws.increment_current f.queue.progress_status fits_overall) b.current;
        expected =
            Sums_same _ _ _ _ _ _ (moved get_expected_nb) (laws.increment_expected p)
              (laws.increment_expected f.queue.progress_status) b.expected;
        actual =
            Sums_same _ _ _ _ _ _ (moved get_actual_nb) (laws.increment_actual p)
              (laws.increment_actual f.queue.progress_status) b.actual;
      },
    )
      where
        moved :
            (n : Status → ℤ)
            → sum_by n (update (get_event_type e) (increment p) f.queue.progress_status_map) +ℤ n p
              ≡ sum_by n f.queue.progress_status_map +ℤ n (increment p)
        moved n =
            sum_by-update n (get_event_type e) p (increment p) f.queue.progress_status_map found

    -- `updateStatus` of an integer for a type that has a status keeps the balance of all three
    -- numbers. The difference and the new overall total must fit `int`. `StatusLaws` and `RealLaws`
    -- are assumed.
    pub update_status_nb-IsBalanced :
        (k : ℕ) (n : ℤ) (p : Status) (q : EventQueue s)
        → RealLaws s
        → find k q.progress_status_map ≡ some p
        → IsInt n
        → IsInt (get_actual_nb p)
        → IsInt (n -ℤ get_actual_nb p)
        → IsInt (get_actual_nb q.progress_status +ℤ (n -ℤ get_actual_nb p))
        → IsBalanced q
        → (q' : EventQueue s) × (update_status_nb s k (real_of_count n) q ≡ done tt q')
          × IsBalanced q'
    update_status_nb-IsBalanced k n p q reals found fits fits_old fits_delta fits_sum b =
        let (q', p', run, written, actual, current, expected, total, total_c, total_e, _) =
          update_status_nb_totals s laws k n p q reals found fits fits_old fits_delta fits_sum in
        let moved : (f : Status → ℤ)
            → sum_by f q'.progress_status_map +ℤ f p ≡ sum_by f q.progress_status_map +ℤ f p' =
          λ f. rw written (sum_by-update f k p p' q.progress_status_map found) in
        (
          q',
          run,
          record {
            current = Sums_same _ _ _ _ _ _ (moved get_current_nb) current total_c b.current;
            expected = Sums_same _ _ _ _ _ _ (moved get_expected_nb) expected total_e b.expected;
            actual =
                Sums_shift _ _ _ _ _ _ (n -ℤ get_actual_nb p) (moved get_actual_nb)
                  (actual ∙ difference n (get_actual_nb p)) total b.actual;
          },
        )
