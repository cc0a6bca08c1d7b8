-- ===== src/EventQueueManager/Bounds.antt =====
-- sevmgr/command/EventQueueManager.cpp: the bound on the counts of the queue as a family of
-- predicates that count the additions. Past the range of `int` nothing is said.
use sevmgr.Prelude.{
  ℕ, ◌+◌, ◌≤◌, ◌<◌, ◌⊎◌, inl, inr, arith, Exec, Result, done, raised, aborted, undefined, diverged,
  Leaves, Leaves-weaken, Leads,
}
use sevmgr.Stdair.{Stdair}
use sevmgr.Stdair.Laws.{StatusLaws}
use sevmgr.EventQueue.Bounds.{
  IsWithin, FrameIsWithin, widen, add_event-Leads, reset-IsWithin, add_status-Leaves,
  update_status_nb-Leaves, pop_event-Leaves,
}
use native.Mathlib.Decide.{dec_lt}
use sevmgr.EventQueueManager.Grading.{IsGraded}

-- A bound that holds as long as the number of additions is in the range of `int`.
abbrev pub Capped : {S : Type 0} → (ℕ → S → Type 0) → ℕ → S → Type 0
Capped B a σ = (2147483648 ≤ a) ⊎ B a σ

Leaves-always : {S A : Type 0} (P : S → Type 0) (r : Result S A) → ((σ : S) → P σ) → Leaves P r
Leaves-always P (done x σ) h = h σ
Leaves-always P (raised x σ) h = h σ
Leaves-always P aborted h = tt
Leaves-always P undefined h = tt
Leaves-always P diverged h = tt

Capped-Leads :
    {S A : Type 0} (B : ℕ → S → Type 0) (a b : ℕ) (m : Exec S A)
    → a ≤ b
    → ((σ : S) → a < 2147483648 → B a σ → Leaves (B b) (m σ))
    → Leads (Capped B a) (Capped B b) m
Capped-Leads B a b m h step = record {
  at = λ σ v. elim v [
    | inl past ↦ Leaves-always (Capped B b) (m σ) (λ τ. inl (omega arith))
    | inr w ↦ elim (dec_lt a 2147483648) [
      | yes fits ↦ Leaves-weaken (B b) (Capped B b) (m σ) (λ τ x. inr x) (step σ fits w)
      | no past ↦ Leaves-always (Capped B b) (m σ) (λ τ. inl (omega arith))
    ]
  ];
}

module _ (s : Stdair) (laws : StatusLaws s) where
  pub Capped-IsGraded : IsGraded s (Capped (IsWithin s))
  Capped-IsGraded = record {
    widens = λ a b h q v. elim v [ inl past ↦ inl (omega arith) | inr w ↦ inr (widen s a b q h w) ];
    pops = λ a.
        Capped-Leads (FrameIsWithin s) a a _ (omega arith)
          λ f fits w. pop_event-Leaves s laws a f fits w;
    adds = λ a.
        Capped-Leads (FrameIsWithin s) a (a + 1) _ (omega arith)
          λ f fits w. (add_event-Leads s a).at f w;
    resets = λ a q v. elim v [ inl past ↦ inl past | inr w ↦ inr (reset-IsWithin s laws a q w) ];
    adds_status = λ a k x.
        Capped-Leads (IsWithin s) a a _ (omega arith)
          λ q fits w. add_status-Leaves s laws a k x q w;
    updates_status = λ a k x.
        Capped-Leads (IsWithin s) a a _ (omega arith)
          λ q fits w. update_status_nb-Leaves s laws a k x q w;
  }
