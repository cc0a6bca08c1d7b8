-- ===== src/Service/Bounds.antt =====
-- sevmgr/service/SEVMGR_Service.cpp: how many events a service has played and has yet to play,
-- along the requests of a client.
use sevmgr.Prelude.{
  ℕ, ◌<◌, ◌≡◌, sym, ◌∙◌, subst, inl, inr, arith, Bool, Option, none, some, done, Leaves,
}
use sevmgr.Stdair.{Stdair}
use sevmgr.Stdair.Laws.{StatusLaws}
use sevmgr.EventQueue.{EventQueue, default_event_queue_id}
use sevmgr.EventQueue.Bounds.{IsWithin, new_event_queue-IsWithin}
use sevmgr.EventQueueManager.Bounds.{Capped, Capped-IsGraded}
use sevmgr.Service.{Service, Session, ServiceContext, new_service}
use sevmgr.Service.Keeping.{OnQueue, OnContext, OnSession}
use sevmgr.Service.Requests.Histories.{Reach, additions, Reach-Leads, fresh, new_service-fresh}

module _ (s : Stdair) where
  open s use {Event}

  -- The service has a queue, and the number of the events that it has played, together with the
  -- number of those that wait, is at most `a`.
  abbrev pub SessionIsWithin : ℕ → Session s → Type 0
  SessionIsWithin a = OnSession s ⊥ (IsWithin s a)

  uncap_queue :
      (a : ℕ) (o : Option (EventQueue s))
      → a < 2147483648
      → OnQueue s ⊥ (Capped (IsWithin s) a) o
      → OnQueue s ⊥ (IsWithin s a) o
  uncap_queue a none fits h = h
  uncap_queue a (some q) fits (inl past) = absurd (omega arith)
  uncap_queue a (some q) fits (inr w) = w

  uncap :
      (a : ℕ) (o : Option (ServiceContext s))
      → a < 2147483648
      → OnContext s ⊥ (Capped (IsWithin s) a) o
      → OnContext s ⊥ (IsWithin s a) o
  uncap a none fits h = h
  uncap a (some c) fits h = uncap_queue a c.event_queue fits h

  -- From a new service, whatever requests a client makes in whatever order, and whatever events it
  -- passes: the overall current number of the queue is not negative, and together with the size of
  -- the queue it is at most the number of the events that the requests asked to add, one for each
  -- addition and four for each sample queue. That number must fit `int`; `StatusLaws` are assumed.
  pub fresh-Reach-IsWithin :
      (stdair : s.Service) (own : Bool) (e : Event) (v : Service s) (τ : Session s)
      → StatusLaws s
      → new_service s stdair own ≡ done tt v
      → (r : Reach s (record { service = v; event = e }) τ) → additions s r < 2147483648
      → SessionIsWithin (additions s r) τ
  unfolding fresh
  fresh-Reach-IsWithin stdair own e v τ laws made r fits =
      uncap (additions s r) τ.service.context fits (
        Reach-Leads s (Capped-IsGraded s laws) ⊥ r (
          subst (Leaves (λ u. OnContext s ⊥ (Capped (IsWithin s) 0) u.context))
            (sym (new_service-fresh s stdair own e) ∙ made)
            (inr (new_event_queue-IsWithin s (default_event_queue_id s) laws))))
