-- ===== src/JsonExport/Contents.antt =====
-- sevmgr/bom/BomJSONExport.cpp: which events the export holds.
use sevmgr.Prelude.{
  ℕ, ◌≡◌, refl, ap, ◌∙◌, Option, none, some, List, [], ◌∷◌, arith, ◌==◌, if◌then◌else◌, is_empty,
  codes, Result, done, raised, json_parser_error, bind_result, inl, inr, Option-cases, pure,
}
use sevmgr.Stdair.{Stdair}
use sevmgr.EventQueue.{EventQueue}
use sevmgr.EventQueue.Display.{of_type}
use sevmgr.JsonExport.{export_event, export_events, json_export_event_queue}

module _ (s : Stdair) where
  open s use {
    Event, Service, Tree, get_event_type, last_value, json_export_event_object, empty_tree,
    push_back, add_child, read_json, write_json,
  }

  -- The entries that the export is asked for.
  abbrev pub asked_for : ℕ → List (ℕ × Event) → List (ℕ × Event)
  asked_for k l = if k == last_value then l else of_type s k l

  -- Their texts, without the empty ones.
  unfoldable pub texts : Service → List (ℕ × Event) → List (List ℕ)
  texts stdair [] = []
  texts stdair ((t, e) ∷ l) =
      let text = json_export_event_object stdair e in
      let rest = texts stdair l in if is_empty text then rest else text ∷ rest

  -- The trees of texts that can all be read, put one behind another into a tree.
  read_next : Option Tree → Option (List Tree) → Option (List Tree)
  read_next none rest = none
  read_next (some tree) none = none
  read_next (some tree) (some rest) = some (tree ∷ rest)

  unfoldable pub read_all : List (List ℕ) → Option (List Tree)
  unfolding read_next
  read_all [] = some []
  read_all (text ∷ l) = read_next (read_json text) (read_all l)

  unfoldable pub push_all : Tree → List Tree → Tree
  push_all tree [] = tree
  push_all tree (x ∷ l) = push_all (push_back [] x tree) l

  abbrev pub outcome : {S A : Type 0} → (List Tree → A) → Option (List Tree) → S → Result S A
  outcome f none q = raised json_parser_error q
  outcome f (some l) q = done (f l) q

  export_events-outcome :
      {S : Type 0} (stdair : Service) (k : ℕ) (l : List (ℕ × Event)) (tree : Tree) (q : S)
      → export_events s (some stdair) k l tree q
        ≡ outcome (push_all tree) (read_all (texts stdair (asked_for k l))) q
  unfolding export_events export_event of_type texts read_all push_all
  export_events-outcome stdair k [] tree q = ground arith
  export_events-outcome stdair k ((t, e) ∷ l) tree q =
      elim (Option-cases (read_json (json_export_event_object stdair e))) [
        | inl unread ↦ ground (arith, unread, export_events-outcome stdair k l tree q)
        | inr (x, read) ↦ ground (
          arith,
          read,
          export_events-outcome stdair k l tree q,
          export_events-outcome stdair k l (push_back [] x tree) q,
        )
      ]

  -- The JSON text of a queue is that of a tree whose child "events" holds, in the order of the
  -- queue, the trees of exactly the events of the given type (of all events for `LAST_VALUE`) that
  -- the StdAir service exports as a text that is not empty. If one of these texts cannot be read,
  -- the exception of the reader goes to the caller. The queue does not change.
  pub json_export_contents :
      (stdair : Service) (k : ℕ) (q : EventQueue s)
      → json_export_event_queue s (some stdair) k q
        ≡ outcome
            (λ l. write_json (add_child (codes "events") (push_all empty_tree l) empty_tree))
            (read_all (texts stdair (asked_for k q.event_list)))
            q
  unfolding json_export_event_queue
  json_export_contents stdair k q =
      ap
        (λ r.
          bind_result r
            (λ events. pure (write_json (add_child (codes "events") events empty_tree))))
        (export_events-outcome stdair k q.event_list empty_tree q)
      ∙ finish (read_all (texts stdair (asked_for k q.event_list)))
    where
      finish :
          (o : Option (List Tree))
          → bind_result
              (outcome (push_all empty_tree) o q)
              (λ events. pure (write_json (add_child (codes "events") events empty_tree)))
            ≡ outcome
                (λ l. write_json (add_child (codes "events") (push_all empty_tree l) empty_tree))
                o
                q
      finish none = refl
      finish (some l) = refl
