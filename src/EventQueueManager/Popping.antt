-- ===== src/EventQueueManager/Popping.antt =====
-- sevmgr/command/EventQueueManager.cpp, `popEvent`.
use sevmgr.Prelude.{
  ℕ, ◌≡◌, refl, ap, Option, none, some, List, [], ◌∷◌, inl, inr, Option-cases, List-cases, done,
  raised, event_queue_exception,
}
use sevmgr.OrderedMap.{find, update}
use sevmgr.Stdair.{Stdair}
use sevmgr.EventQueue.{EventQueue, Frame}
use sevmgr.EventQueue.Events
use sevmgr.EventQueue.Events.{take_event, pop_event-nil}
use sevmgr.EventQueue.Events.Popping.{
  counted, popped, progress_of, pop_event-found, pop_event_unknown_type,
}
use sevmgr.EventQueueManager.{pop_event, catch_event_queue_exception}

module _ {A : Type 0} where
  -- A list without its first entry.
  abbrev pub tail : List A → List A
  tail [] = []
  tail (x ∷ xs) = xs

module _ {V : Type 0} where
  -- The first value of a map, or the given one if the map is empty.
  abbrev pub first_or : V → List (ℕ × V) → V
  first_or e [] = e
  first_or e ((t, v) ∷ l) = v

module _ (s : Stdair) where
  open s use {Event, Status, StatusSet, get_event_type, increment, new_status_set, bkg_req}

  catch-raised :
      (f g : Frame s)
      → Events.pop_event s f ≡ raised event_queue_exception g
      → pop_event s f ≡ done (new_status_set bkg_req) g
  unfolding pop_event
  catch-raised f g h = ap (catch_event_queue_exception s) h

  catch-done :
      (f g : Frame s) (ps : StatusSet)
      → Events.pop_event s f ≡ done ps g
      → pop_event s f ≡ done ps g
  unfolding pop_event
  catch-done f g ps h = ap (catch_event_queue_exception s) h

  -- What the command's `popEvent` returns for an event, by the status of its type.
  abbrev pub reported_for : Event → Status → Option Status → StatusSet
  reported_for e overall none = new_status_set bkg_req
  reported_for e overall (some p) =
      progress_of s (get_event_type e) (increment p) (increment overall)

  abbrev pub reported : List (ℕ × Event) → EventQueue s → StatusSet
  reported [] q = new_status_set bkg_req
  reported ((t, e) ∷ l) q =
      reported_for e q.progress_status (find (get_event_type e) q.progress_status_map)

  -- The overall status after a pop from a list.
  abbrev pub overall_after : List (ℕ × Event) → Status → Status
  overall_after [] p = p
  overall_after (x ∷ l) p = increment p

  -- The statuses of the types after a pop from a list; an unknown type has none.
  abbrev pub counted_for : Event → List (ℕ × Status) → Option Status → List (ℕ × Status)
  counted_for e m none = m
  counted_for e m (some p) = update (get_event_type e) (increment p) m

  abbrev pub counted_in : Event → List (ℕ × Status) → List (ℕ × Status)
  counted_in e m = counted_for e m (find (get_event_type e) m)

  abbrev pub types_after_pop : List (ℕ × Event) → List (ℕ × Status) → List (ℕ × Status)
  types_after_pop [] m = m
  types_after_pop ((t, e) ∷ l) m = counted_in e m

  -- The command's `popEvent` always returns, and always takes the first event out of the list and
  -- hands it to the caller, if there is one. What it returns is the set of the new statuses for an
  -- event whose type has a progress status, and the set of an untouched `BKG_REQ` both for an empty
  -- queue and for an event of another type, although the latter is popped. The overall status is
  -- incremented for both kinds of event, that of the type for the first kind only, and both stay
  -- for an empty queue.
  pub pop_event_returns :
      (f : Frame s)
      → (ps : StatusSet) × (g : Frame s) × (pop_event s f ≡ done ps g)
        × (g.queue.event_list ≡ tail f.queue.event_list)
        × (g.event ≡ first_or f.event f.queue.event_list)
        × (ps ≡ reported f.queue.event_list f.queue)
        × (g.queue.progress_status ≡ overall_after f.queue.event_list f.queue.progress_status)
        × (g.queue.progress_status_map
            ≡ types_after_pop f.queue.event_list f.queue.progress_status_map)
  unfolding counted take_event
  pop_event_returns f = elim (List-cases f.queue.event_list) [
    | inl empty ↦ (
      new_status_set bkg_req,
      f,
      catch-raised f f (pop_event-nil s f empty),
      rw empty refl,
      rw empty refl,
      rw empty refl,
      rw empty refl,
      rw empty refl,
    )
    | inr ((t, e), rest, h) ↦
        elim (Option-cases (find (get_event_type e) f.queue.progress_status_map)) [
          | inl missing ↦ (
            new_status_set bkg_req,
            take_event s e rest f,
            catch-raised f _ (pop_event_unknown_type s f t e rest h missing),
            rw h refl,
            rw h refl,
            rw (h, missing) refl,
            rw h refl,
            rw (h, missing) refl,
          )
          | inr (p, found) ↦ (
            progress_of s (get_event_type e) (increment p) (increment f.queue.progress_status),
            popped s e rest p f,
            catch-done f _ _ (pop_event-found s f t e rest p h found),
            rw h refl,
            rw h refl,
            rw (h, found) refl,
            rw h refl,
            rw (h, found) refl,
          )
        ]
  ]
