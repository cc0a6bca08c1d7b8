-- ===== src/EventQueue/Display.antt =====
-- sevmgr/bom/EventQueue.hpp and EventQueue.cpp, sevmgr/bom/EventQueueKey.cpp: the texts that
-- describe a queue. `fromStream` reads nothing.
use sevmgr.Prelude.{
  ℕ, List, [], ◌∷◌, ◌++◌, ◌≡◌, refl, ◌==◌, if◌then◌else◌, codes, new_line, print_number,
  print_count, length, arith,
}
use sevmgr.Stdair.{Stdair}
use sevmgr.EventQueue.{EventQueue}

-- `EventQueueKey::toString` prints the identifier.
unfoldable pub key_to_string : List ℕ → List ℕ
key_to_string id = id

-- `EventQueueKey::toStream`.
unfoldable pub key_to_stream : List ℕ → List ℕ → List ℕ
unfolding key_to_string
key_to_stream id out = out ++ codes "EventQueueKey: " ++ key_to_string id ++ new_line

module _ (s : Stdair) where
  open s use {
    Event, get_event_type, describe, get_label, get_current_nb, get_expected_nb, get_actual_nb,
  }

  unfoldable pub describe_key : EventQueue s → List ℕ
  unfolding key_to_string
  describe_key q = key_to_string q.key

  unfoldable pub to_string : EventQueue s → List ℕ
  to_string q =
      codes "("
      ++ (print_number (length q.event_list)
          ++ (codes ") "
              ++ (print_count (get_current_nb q.progress_status)
                  ++ (codes "/{"
                      ++ (print_count (get_expected_nb q.progress_status)
                          ++ (codes ","
                              ++ (print_count (get_actual_nb q.progress_status) ++ codes "}")))))))

  unfoldable pub display : EventQueue s → List ℕ
  unfolding to_string
  display q = to_string q

  unfoldable pub to_stream : EventQueue s → List ℕ → List ℕ
  unfolding to_string
  to_stream q out = out ++ to_string q

  -- The loop over all events.
  unfoldable pub describe_events : List (ℕ × Event) → List ℕ
  describe_events [] = []
  describe_events ((t, e) ∷ m) = describe e ++ describe_events m

  -- The loop that prints the events of one type.
  unfoldable pub describe_events_of : ℕ → List (ℕ × Event) → List ℕ
  describe_events_of k [] = []
  describe_events_of k ((t, e) ∷ m) =
      if get_event_type e == k then describe e ++ describe_events_of k m else describe_events_of k m

  header : EventQueue s → List ℕ
  unfolding describe_key to_string
  header q = describe_key q ++ (new_line ++ (to_string q ++ new_line))

  unfoldable pub list : EventQueue s → List ℕ
  unfolding header
  list q = header q ++ describe_events q.event_list

  unfoldable pub list_of : ℕ → EventQueue s → List ℕ
  unfolding header
  list_of k q =
      header q
      ++ (codes "List "
          ++ (get_label k ++ (codes " events:" ++ (new_line ++ describe_events_of k q.event_list))))

  -- The entries of one type, in their order.
  unfoldable pub of_type : ℕ → List (ℕ × Event) → List (ℕ × Event)
  of_type k [] = []
  of_type k ((t, e) ∷ m) =
      let rest = of_type k m in if get_event_type e == k then (t, e) ∷ rest else rest

  pub describe_events_of-of_type :
      (k : ℕ) (m : List (ℕ × Event)) → describe_events_of k m ≡ describe_events (of_type k m)
  unfolding describe_events describe_events_of of_type
  describe_events_of-of_type k [] = refl
  describe_events_of-of_type k ((t, e) ∷ m) = ground (arith, describe_events_of-of_type k m)
