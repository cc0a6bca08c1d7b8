-- ===== src/EventQueueManager/Validity.antt =====
-- sevmgr/command/EventQueueManager.cpp: the invariant of the queue as a predicate that does not
-- count.
use sevmgr.Stdair.{Stdair}
use sevmgr.EventQueue.Validity.{
  IsValid, pop_event-IsValid, add_event-IsValid, reset-IsValid, add_status-IsValid,
  update_status_nb-IsValid,
}
use sevmgr.EventQueueManager.Grading.{IsGraded}

module _ (s : Stdair) where
  pub IsValid-IsGraded : IsGraded s (λ _. IsValid s)
  IsValid-IsGraded = record {
    widens = λ a b h q v. v;
    pops = λ a. record { at = pop_event-IsValid s };
    adds = λ a. record { at = add_event-IsValid s };
    resets = λ a. reset-IsValid s;
    adds_status = λ a k x. record { at = add_status-IsValid s k x };
    updates_status = λ a k x. record { at = update_status_nb-IsValid s k x };
  }
