-- ===== src/EventQueue/Events/Types.antt =====
-- sevmgr/bom/EventQueue.cpp: how many events of a type a list has, and `addEvent`.
use sevmgr.Prelude.{
  ℕ, zero, suc, ◌+◌, ◌≡◌, refl, ◌∙◌, true, List, [], ◌∷◌, arith, ◌==◌, if◌then◌else◌,
}
use sevmgr.OrderedMap.{insert}
use sevmgr.Stdair.{Stdair}
use sevmgr.Stdair.Laws.{EventLaws}
use sevmgr.EventQueue.Events.Insertion.{postpone}

module _ (s : Stdair) where
  open s use {Event, get_event_type, increment_event_time_stamp}

  abbrev pub once : Event → ℕ → ℕ
  once e k = if get_event_type e == k then 1 else 0

  -- The number of events of a type.
  abbrev pub of_type : ℕ → List (ℕ × Event) → ℕ
  of_type k [] = 0
  of_type k ((t, e) ∷ l) = once e k + of_type k l

  pub of_type-insert :
      (k t : ℕ) (e : Event) (l : List (ℕ × Event))
      → (insert t e l).1 ≡ true
      → of_type k (insert t e l).0 ≡ once e k + of_type k l
  unfolding insert
  of_type-insert k t e [] h = refl
  of_type-insert k t e ((j, u) ∷ l) h = ground (arith, of_type-insert k t e l)

  pub postpone_type :
      (laws : EventLaws s) (d : ℕ) (e : Event) → get_event_type (postpone s d e) ≡ get_event_type e
  unfolding postpone
  postpone_type laws zero e = refl
  postpone_type laws (suc d) e =
      postpone_type laws d (increment_event_time_stamp e) ∙ laws.increment_type e
