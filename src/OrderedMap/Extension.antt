-- ===== src/OrderedMap/Extension.antt =====
-- `std::map`: maps with the same contents, and insertions in another order.
use sevmgr.Prelude.{
  ℕ, ◌≤◌, ◌≡◌, ◌≢◌, refl, sym, ap, ◌∙◌, true, not, none, some, List, [], ◌∷◌, arith, ◌==◌, is_some,
  if◌then◌else◌,
}
use sevmgr.OrderedMap.{find, insert}
use sevmgr.OrderedMap.Order.{Above, IsOrdered, Above-IsOrdered, find_below, insert-IsOrdered}
use sevmgr.OrderedMap.Insertion.{insert_flag, find-insert}

module _ {V : Type 0} where
  find_head : (k : ℕ) (v : V) (m : List (ℕ × V)) → find k ((k, v) ∷ m) ≡ some v
  unfolding find
  find_head k v m = ground arith

  find_tail :
      (k j : ℕ) (v : V) (m : List (ℕ × V))
      → Above k m
      → find j m ≡ (if k == j then none else find j ((k, v) ∷ m))
  unfolding find
  find_tail k j v m o = ground (arith, find_below j k m o)

  -- The first keys of two maps that hold the same values.
  first_key :
      (k k' : ℕ) (v v' : V) (m m' : List (ℕ × V))
      → Above k' m'
      → ((t : ℕ) → find t ((k, v) ∷ m) ≡ find t ((k', v') ∷ m'))
      → k' ≤ k
  first_key k k' v v' m m' o same =
      ground (arith, find_head k v m, same k, find_below k k ((k', v') ∷ m'))

  -- An empty map does not hold what one with an entry holds.
  find_nil : (k : ℕ) (v : V) (m : List (ℕ × V)) → find k [] ≢ find k ((k, v) ∷ m)
  unfolding find
  find_nil k v m h = absurd (ground arith)

  -- The values and the tails of two maps with the same first key.
  same_value :
      (k k' : ℕ) (v v' : V) (m m' : List (ℕ × V))
      → k ≡ k'
      → find k ((k, v) ∷ m) ≡ find k ((k', v') ∷ m')
      → v ≡ v'
  same_value k k' v v' m m' e same = ground (arith, find_head k v m, find_head k' v' m')

  same_tail :
      (k k' t : ℕ) (v v' : V) (m m' : List (ℕ × V))
      → Above k m
      → Above k' m'
      → k ≡ k'
      → find t ((k, v) ∷ m) ≡ find t ((k', v') ∷ m')
      → find t m ≡ find t m'
  same_tail k k' t v v' m m' o o' e same =
      ground (arith, find_tail k t v m o, find_tail k' t v' m' o')

  same_entries :
      {k k' : ℕ} {v v' : V} {m m' : List (ℕ × V)}
      → k ≡ k'
      → v ≡ v'
      → m ≡ m'
      → (k, v) ∷ m ≡ (k', v') ∷ m'
  same_entries e₁ e₂ e₃ = cc

  pub find_ext :
      (m m' : List (ℕ × V)) → IsOrdered m → IsOrdered m' → ((t : ℕ) → find t m ≡ find t m') → m ≡ m'
  find_ext [] [] o o' same = refl
  find_ext [] ((k, v) ∷ m') o o' same = absurd (find_nil k v m' (same k))
  find_ext ((k, v) ∷ m) [] o o' same = absurd (find_nil k v m (sym (same k)))
  find_ext ((k, v) ∷ m) ((k', v') ∷ m') o o' same =
      let e : k ≡ k' =
        omega (
          arith,
          first_key k k' v v' m m' o' same,
          first_key k' k v' v m' m o (λ t. sym (same t)),
        ) in
      same_entries e (same_value k k' v v' m m' e (same k)) (
        find_ext m m' (Above-IsOrdered k m o) (Above-IsOrdered k' m' o')
          λ t. same_tail k k' t v v' m m' o o' e (same t))

  pub insert_free :
      (k : ℕ) (v : V) (m : List (ℕ × V)) → IsOrdered m → find k m ≡ none → (insert k v m).1 ≡ true
  insert_free k v m o free = insert_flag k v m o ∙ ap (λ x. not (is_some x)) free

  -- A key that is free stays free when another one is inserted.
  pub find-insert_other :
      (k j : ℕ) (v : V) (m : List (ℕ × V))
      → IsOrdered m
      → find k m ≡ none
      → find j m ≡ none
      → k ≢ j
      → find j (insert k v m).0 ≡ none
  find-insert_other k j v m o free free' differ =
      ground (arith, find-insert k j v m o (insert_free k v m o free))

  -- Two insertions at free keys can be exchanged.
  pub insert_exchange :
      (k j : ℕ) (v w : V) (m : List (ℕ × V))
      → IsOrdered m
      → find k m ≡ none
      → find j m ≡ none
      → k ≢ j
      → (insert j w (insert k v m).0).0 ≡ (insert k v (insert j w m).0).0
  insert_exchange k j v w m o free free' differ =
      let oₖ = insert-IsOrdered k v m o in
      let oⱼ = insert-IsOrdered j w m o in
      let freeₖ = find-insert_other k j v m o free free' differ in
      let freeⱼ = find-insert_other j k w m o free' free (λ e. differ (sym e)) in
      find_ext _ _ (insert-IsOrdered j w (insert k v m).0 oₖ)
        (insert-IsOrdered k v (insert j w m).0 oⱼ)
        λ t. ground (
          arith,
          find-insert j t w (insert k v m).0 oₖ (insert_free j w (insert k v m).0 oₖ freeₖ),
          find-insert k t v m o (insert_free k v m o free),
          find-insert k t v (insert j w m).0 oⱼ (insert_free k v (insert j w m).0 oⱼ freeⱼ),
          find-insert j t w m o (insert_free j w m o free'),
        )
