-- ===== src/JsonExport.antt =====
-- sevmgr/bom/BomJSONExport.cpp: the events of a queue in JSON, in a build with Boost 1.41 or later.
pub mod Contents
use sevmgr.Prelude.{
  ℕ, Bool, true, false, not, ◌&&◌, ◌||◌, Option, none, some, List, [], ◌∷◌, ◌==◌, if◌then◌else◌,
  is_empty, codes, Exec, done, raised, json_parser_error, pure, ◌>>=◌, ◌>>◌, dereference,
}
use sevmgr.Stdair.{Stdair}
use sevmgr.EventQueue.{EventQueue}

module _ (s : Stdair) where
  open s use {
    Event, Service, Tree, get_event_type, last_value, json_export_event_object, empty_tree,
    push_back, add_child, read_json, write_json,
  }

  -- `read_json` on a text, which may throw.
  unfoldable pub read_tree : {S : Type 0} → List ℕ → Exec S Tree
  read_tree text q = elim (read_json text) [
    | none ↦ raised json_parser_error q
    | some tree ↦ done tree q
  ]

  -- The body of the loop: an event of the type, or any event for `LAST_VALUE`, is exported by the
  -- StdAir service, and its tree is put at the end if the text is not empty.
  unfoldable pub export_event : {S : Type 0} → Option Service → ℕ → Event → Tree → Exec S Tree
  unfolding read_tree
  export_event service k e events =
      if get_event_type e == k || k == last_value
      then (do
        stdair ← dereference service
        let text = json_export_event_object stdair e
        if not (is_empty text)
            then (do tree ← read_tree text; pure (push_back [] tree events))
            else pure events)
      else pure events

  unfoldable pub export_events :
      {S : Type 0} → Option Service → ℕ → List (ℕ × Event) → Tree → Exec S Tree
  unfolding export_event
  export_events service k [] events = pure events
  export_events service k ((t, e) ∷ l) events = do
    events' ← export_event service k e events
    export_events service k l events'

  unfoldable pub json_export_event_queue : Option Service → ℕ → Exec (EventQueue s) (List ℕ)
  unfolding export_events
  json_export_event_queue service k q =
      (do
        events ← export_events service k q.event_list empty_tree
        pure (write_json (add_child (codes "events") events empty_tree)))
        q
