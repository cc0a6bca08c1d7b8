-- ===== src/EventQueue/Refinement/Unchanged.antt =====
-- sevmgr/bom/EventQueue.cpp: the methods on the statuses and the events.
use sevmgr.Prelude.{ℕ, ◌≡◌, List, arith, Leaves, Leaves-bind, ◌>>◌}
use sevmgr.Stdair.{Stdair}
use sevmgr.EventQueue.{EventQueue}
use sevmgr.EventQueue.Statuses.{update_status, add_status, update_status_nb, to_count, add_overall}

module _ (s : Stdair) where
  -- A queue with the events of another.
  abbrev pub HasEvents : List (ℕ × s.Event) → EventQueue s → Type 0
  HasEvents l q = q.event_list ≡ l

  update_status-HasEvents :
      (l : List (ℕ × s.Event)) (k : ℕ) (p : s.Status) (q : EventQueue s)
      → HasEvents l q
      → Leaves (HasEvents l) (update_status s k p q)
  unfolding update_status
  update_status-HasEvents l k p q h = ground arith

  add_overall-HasEvents :
      (l : List (ℕ × s.Event)) (x : s.Real) (q : EventQueue s)
      → HasEvents l q
      → Leaves (HasEvents l) (add_overall s x q)
  unfolding add_overall
  add_overall-HasEvents l x q h = ground arith

  to_count-HasEvents :
      (l : List (ℕ × s.Event)) (x : s.Real) (q : EventQueue s)
      → HasEvents l q
      → Leaves (HasEvents l) (to_count s x q)
  to_count-HasEvents l x q h = ground arith

  pub update_status_nb-HasEvents :
      (l : List (ℕ × s.Event)) (k : ℕ) (x : s.Real) (q : EventQueue s)
      → HasEvents l q
      → Leaves (HasEvents l) (update_status_nb s k x q)
  unfolding update_status_nb
  update_status_nb-HasEvents l k x q h = ground arith

  pub add_status-HasEvents :
      (l : List (ℕ × s.Event)) (k : ℕ) (x : s.Real) (q : EventQueue s)
      → HasEvents l q
      → Leaves (HasEvents l) (add_status s k x q)
  unfolding add_status
  add_status-HasEvents l k x q h =
      Leaves-bind (HasEvents l) (to_count s (s.floor x) q)
        (λ n. update_status s k (s.new_status_of_total n) >> add_overall s x)
        (to_count-HasEvents l (s.floor x) q h)
        λ n q₁ h₁.
          Leaves-bind (HasEvents l) (update_status s k (s.new_status_of_total n) q₁)
            (λ _. add_overall s x) (update_status-HasEvents l k (s.new_status_of_total n) q₁ h₁)
            λ _ q₂ h₂. add_overall-HasEvents l x q₂ h₂
