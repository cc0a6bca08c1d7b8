-- ===== src/EventQueueManager/Refinement/Additions.antt =====
-- sevmgr/command/EventQueueManager.cpp: what the sample queue adds to an agenda.
use sevmgr.Prelude.{
  Returns, Returns-bind, Returns-weaken, Leaves-Returns, IsQuiet, Result, done, raised, aborted,
  undefined, diverged, pure, ℕ, ◌≡◌, refl, sym, ap, ◌∙◌, Option, none, some, true, false, List, [],
  ◌∷◌, ◌++◌, ℤ, pos, Leaves-both, Leaves-weaken, Leads, Keeps, subst, if◌then◌else◌, ◌==◌, is_some,
}
use sevmgr.OrderedMap.{find}
use sevmgr.Stdair.{Stdair}
use sevmgr.EventQueue.{EventQueue, Frame}
use sevmgr.EventQueue.Statuses
use sevmgr.EventQueue.Events.Insertion.{postpone}
use sevmgr.EventQueue.Validity.{IsValid, add_status-IsValid}
use sevmgr.EventQueue.Refinement.{Agenda, agenda}
use sevmgr.EventQueue.Refinement.Steps.{Same, Arrives, Adds}
use sevmgr.EventQueue.Refinement.Unchanged.{HasEvents, add_status-HasEvents}
use sevmgr.EventQueue.Events
use sevmgr.EventQueue.Refinement.Quiet.{add_event-IsQuiet, add_status-IsQuiet}
use sevmgr.EventQueueManager.{
  discard_event, add_event, add_local_event, add_status, build_sample_queue,
  build_sample_booking_request,
}
use sevmgr.EventQueueManager.Grading.{discard-Leaves, command_add-Leads}
use sevmgr.EventQueueManager.Validity.{IsValid-IsGraded}
use sevmgr.EventQueueManager.Refinement.{command_add-Adds}

module _ (s : Stdair) where
  open s use {
    Event, get_event_time_stamp, booking_event, break_point_event, bkg_req, brk_pt, midnight,
    real_of_count,
  }

  -- The specification of several additions, one after another.
  abbrev pub AddsAll : List Event → Agenda s → Agenda s → Type 0
  AddsAll [] a b = Same s a b
  AddsAll (e ∷ l) a b = (c : Agenda s) × (d : ℕ) × Arrives s a c e d × AddsAll l c b

  -- The events of the sample queue, for which there must be a StdAir service.
  abbrev pub sample_events : Option s.Service → List Event
  sample_events none = []
  sample_events (some stdair) =
      booking_event bkg_req (s.build_sample_booking_request stdair false)
      ∷ booking_event bkg_req (s.build_sample_booking_request stdair true)
      ∷ break_point_event brk_pt (midnight 2010 1 21)
      ∷ break_point_event brk_pt (midnight 2011 5 14)
      ∷ []

  Arrives-from :
      (a a' b : Agenda s) (e : Event) (d : ℕ) → Same s a a' → Arrives s a' b e d → Arrives s a b e d
  Arrives-from a a' b e d same h = record {
    was_free = sym (same _) ∙ h.was_free;
    none_skipped = λ i small. ap is_some (sym (same _)) ∙ h.none_skipped i small;
    entered = λ i.
        h.entered i
        ∙ ap (λ o. if get_event_time_stamp (postpone s d e) == i then some (postpone s d e) else o)
            (same i);
  }

  AddsAll-last :
      (l : List Event) (a b c : Agenda s) (e : Event) (d : ℕ)
      → AddsAll l a b
      → Arrives s b c e d
      → AddsAll (l ++ e ∷ []) a c
  AddsAll-last [] a b c e d h k = (c, d, Arrives-from a b c e d h k, λ i. refl)
  AddsAll-last (x ∷ l) a b c e d (a', d', arrives, rest) k =
      (a', d', arrives, AddsAll-last l a' b c e d rest k)

  -- A queue with the given additions to an agenda.
  abbrev Added : Agenda s → List Event → EventQueue s → Type 0
  Added a l q = IsValid s q × AddsAll l a (agenda s q)

  add_local_event-Added :
      (a : Agenda s) (l : List Event) (e : Event)
      → Leads (Added a l) (Added a (l ++ e ∷ [])) (add_local_event s e)
  unfolding add_local_event
  add_local_event-Added a l e = record {
    at = λ q h.
        let f : Frame s = record { queue = q; event = e } in
        discard-Leaves s (Added a (l ++ e ∷ [])) (add_event s f) (
          Leaves-weaken (λ g. IsValid s g.queue × Adds s f g) (λ g. Added a (l ++ e ∷ []) g.queue)
            (add_event s f)
            (λ g k. (k.0, AddsAll-last l a (agenda s q) (agenda s g.queue) e k.1.0 h.1 k.1.2))
            (Leaves-both (λ g. IsValid s g.queue) (Adds s f) (add_event s f)
              ((command_add-Leads (IsValid-IsGraded s) 0).at f h.0) (command_add-Adds s f h.0)));
  }

  AddsAll-same :
      (l : List Event) (a : Agenda s) (q q' : EventQueue s)
      → q'.event_list ≡ q.event_list
      → AddsAll l a (agenda s q)
      → AddsAll l a (agenda s q')
  AddsAll-same l a q q' same h = subst (λ m. AddsAll l a (λ i. find i m)) (sym same) h

  add_status-Added :
      (a : Agenda s) (l : List Event) (k : ℕ) (n : ℤ) → Keeps (Added a l) (add_status s k n)
  unfolding add_status
  add_status-Added a l k n = record {
    at = λ q h.
        Leaves-weaken (λ q'. IsValid s q' × HasEvents s q.event_list q') (Added a l)
          (Statuses.add_status s k (real_of_count n) q)
          (λ q' k. (k.0, AddsAll-same l a q q' k.1 h.1))
          (Leaves-both (IsValid s) (HasEvents s q.event_list)
            (Statuses.add_status s k (real_of_count n) q)
            (add_status-IsValid s k (real_of_count n) q h.0)
            (add_status-HasEvents s q.event_list k (real_of_count n) q refl));
  }

  discard-IsQuiet : (r : Result (Frame s) (Unit {0})) → IsQuiet r → IsQuiet (discard_event s r)
  discard-IsQuiet (done x f) h = tt
  discard-IsQuiet (raised x f) h = h
  discard-IsQuiet aborted h = tt
  discard-IsQuiet undefined h = tt
  discard-IsQuiet diverged h = tt

  -- The two kinds of step of `buildSampleQueue` throw nothing.
  event-Returns :
      (a : Agenda s) (l : List Event) (e : Event) (q : EventQueue s)
      → Added a l q
      → Returns (Added a (l ++ e ∷ [])) (add_local_event s e q)
  unfolding add_local_event add_event
  event-Returns a l e q h =
      let f : Frame s = record { queue = q; event = e } in
      Leaves-Returns (Added a (l ++ e ∷ [])) (add_local_event s e q)
        (discard-IsQuiet (add_event s f) (
          Returns-bind (λ _. Unit {0}) (λ _. Unit {0}) (Events.add_event s f) (λ _. pure tt)
            (add_event-IsQuiet s f) λ _ g w. tt))
        ((add_local_event-Added a l e).at q h)

  status-Returns :
      (a : Agenda s) (l : List Event) (k : ℕ) (n : ℤ) (q : EventQueue s)
      → Added a l q
      → Returns (Added a l) (add_status s k n q)
  unfolding add_status
  status-Returns a l k n q h =
      Leaves-Returns (Added a l) (add_status s k n q)
        (add_status-IsQuiet s k (real_of_count n) q h.0.types_in_order)
        ((add_status-Added a l k n).at q h)

  -- All events are added, and nothing is thrown.
  pub build_sample_queue-AddsAll :
      (service : Option s.Service) (q : EventQueue s)
      → IsValid s q
      → Returns
          (λ q'. AddsAll (sample_events service) (agenda s q) (agenda s q'))
          (build_sample_queue s service q)
  unfolding build_sample_queue build_sample_booking_request
  build_sample_queue-AddsAll none q v =
      let start : Added (agenda s q) [] q = (v, λ i. refl) in
      Returns-bind (Added (agenda s q) []) _ (add_status s bkg_req (pos 2) q) _
        (status-Returns (agenda s q) [] bkg_req (pos 2) q start) λ _ q' h. tt
  build_sample_queue-AddsAll (some stdair) q v =
      let a = agenda s q in
      let e₁ = booking_event bkg_req (s.build_sample_booking_request stdair false) in
      let e₂ = booking_event bkg_req (s.build_sample_booking_request stdair true) in
      let e₃ = break_point_event brk_pt (midnight 2010 1 21) in
      let e₄ = break_point_event brk_pt (midnight 2011 5 14) in
      Returns-bind (Added a []) _ (add_status s bkg_req (pos 2) q) _
        (status-Returns a [] bkg_req (pos 2) q (v, λ i. refl))
        λ _ q₁ h₁.
          Returns-bind (Added a (e₁ ∷ [])) _ (add_local_event s e₁ q₁) _
            (event-Returns a [] e₁ q₁ h₁)
            λ _ q₂ h₂.
              Returns-bind (Added a (e₁ ∷ e₂ ∷ [])) _ (add_local_event s e₂ q₂) _
                (event-Returns a (e₁ ∷ []) e₂ q₂ h₂)
                λ _ q₃ h₃.
                  Returns-bind (Added a (e₁ ∷ e₂ ∷ [])) _ (add_status s brk_pt (pos 2) q₃) _
                    (status-Returns a (e₁ ∷ e₂ ∷ []) brk_pt (pos 2) q₃ h₃)
                    λ _ q₄ h₄.
                      Returns-bind (Added a (e₁ ∷ e₂ ∷ e₃ ∷ [])) _ (add_local_event s e₃ q₄) _
                        (event-Returns a (e₁ ∷ e₂ ∷ []) e₃ q₄ h₄)
                        λ _ q₅ h₅.
                          Returns-weaken (Added a (e₁ ∷ e₂ ∷ e₃ ∷ e₄ ∷ [])) _
                            (add_local_event s e₄ q₅) (λ q₆ h₆. h₆.1)
                            (event-Returns a (e₁ ∷ e₂ ∷ e₃ ∷ []) e₄ q₅ h₅)
