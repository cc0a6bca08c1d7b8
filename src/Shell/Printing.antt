-- ===== src/Shell/Printing.antt =====
-- sevmgr/ui/cmdline/sevmgr.cpp, `main`: what the commands print on the standard output, by their
-- replies, and the prompt. Texts that go to the log as well are printed once here.
pub mod Outputs
use sevmgr.Prelude.{
  ℕ, zero, suc, Bool, true, false, List, [], ◌∷◌, ◌++◌, codes, new_line, if◌then◌else◌,
}
use sevmgr.Stdair.{Stdair}
use sevmgr.Shell.Platform.{Platform}
use sevmgr.Shell.Tokens.{extract_command}
use sevmgr.Shell.Commands.{
  Reply, nothing, helped, listed, unknown_event_type, too_many_tokens, selected, displayed,
  empty_queue, popped, break_point_found, no_break_point, exported, not_understood, is_quit,
}

-- Pieces of a text, one after another.
abbrev pub texts : List (List ℕ) → List ℕ
texts [] = []
texts (t ∷ ts) = t ++ texts ts

abbrev pub tabs : ℕ → List ℕ
tabs zero = []
tabs (suc n) = 9 ∷ tabs n

unfoldable pub help_text : List ℕ
help_text = texts (
    new_line
    ∷ codes "Commands: "
    ∷ new_line
    ∷ codes " help"
    ∷ tabs 2
    ∷ codes "Display this help"
    ∷ new_line
    ∷ codes " quit"
    ∷ tabs 2
    ∷ codes "Quit the application"
    ∷ new_line
    ∷ codes " list"
    ∷ tabs 2
    ∷ codes "List events in the queue. It is "
    ∷ codes "possible to filter events according to their types"
    ∷ new_line
    ∷ tabs 4
    ∷ codes "  'list_event BookingRequest' "
    ∷ codes "list all the booking requests"
    ∷ new_line
    ∷ tabs 4
    ∷ codes "  'list_event BreakPoint' "
    ∷ codes "list all the break points"
    ∷ new_line
    ∷ codes " select"
    ∷ tabs 2
    ∷ codes "Select an event into the 'list' to become the current one. "
    ∷ codes "For instance, try the command:"
    ∷ new_line
    ∷ tabs 2
    ∷ codes "  'select 2011-May-14 00:00:00'"
    ∷ new_line
    ∷ codes " display"
    ∷ tabs 1
    ∷ codes "Display the current event"
    ∷ new_line
    ∷ codes " next"
    ∷ tabs 2
    ∷ codes "Play the current event and pop the next one from the queue"
    ∷ new_line
    ∷ codes " run"
    ∷ tabs 2
    ∷ codes "Play all the events until the next break-point, if any"
    ∷ new_line
    ∷ codes " "
    ∷ new_line
    ∷ codes "Debug Commands"
    ∷ new_line
    ∷ codes " json_list"
    ∷ tabs 1
    ∷ codes "List events in the queue in a JSON format"
    ∷ new_line
    ∷ codes " json_display"
    ∷ tabs 1
    ∷ codes "Display the current event in a JSON format"
    ∷ new_line
    ∷ new_line
    ∷ [])

-- The operator that prints a list of strings. It prints to the standard output whatever stream it
-- is given, so that the stream gets nothing: first what it prints there, then what it leaves of the
-- stream's text.
unfoldable pub print_tokens : List (List ℕ) → List ℕ → List ℕ × List ℕ
print_tokens [] stream = ([], stream)
print_tokens (token ∷ tokens) stream =
    let (out, left) = print_tokens tokens stream in (token ++ (codes " " ++ out), left)

-- The `default` of the `switch`, by the line that the user entered and the tokens behind its first.
unfoldable pub print_not_understood : List ℕ → List (List ℕ) → List ℕ
unfolding print_tokens
print_not_understood input tokens =
    let text = texts (codes "That command is not yet understood: '" ∷ input ∷ codes "' => " ∷ []) in
    let (out, message) = print_tokens tokens text in out ++ (message ++ new_line)

-- A `bool` in a stream.
abbrev flag_text : Bool → List ℕ
flag_text true = codes "1"
flag_text false = codes "0"

-- The titles that `display`, `next` and the others print first stand with their replies.
module _ {s : Stdair} (p : Platform s) where
  unfoldable pub print_reply : List ℕ → Reply p → List ℕ
  unfolding help_text print_not_understood
  print_reply input nothing = []
  print_reply input helped = help_text
  print_reply input (listed text) = text ++ new_line
  print_reply input (unknown_event_type name) = texts (
      codes "The event type '"
      ∷ name
      ∷ codes "' is not known. Try 'help' for "
      ∷ codes "more information on the 'list_event' command."
      ∷ new_line
      ∷ new_line
      ∷ [])
  print_reply input too_many_tokens = texts (
      codes "The event type is not understood: try 'help' for "
      ∷ codes "more information on the 'list_event' command."
      ∷ new_line
      ∷ new_line
      ∷ [])
  print_reply input (selected date time found) = texts (
      codes "Try to select event: "
      ∷ p.print_date date
      ∷ codes " "
      ∷ p.print_duration time
      ∷ new_line
      ∷ codes "Selection successful: "
      ∷ flag_text found
      ∷ new_line
      ∷ [])
  print_reply input (displayed text) = texts (codes "Display" ∷ new_line ∷ text ∷ new_line ∷ [])
  print_reply input empty_queue = texts (
      codes "Next"
      ∷ new_line
      ∷ codes "The event queue is empty: no event can be popped out."
      ∷ new_line
      ∷ [])
  print_reply input (popped text) =
      texts (codes "Next" ∷ new_line ∷ codes "Poped event: '" ∷ text ∷ codes "'." ∷ new_line ∷ [])
  print_reply input (break_point_found text) = texts (
      codes "Run"
      ∷ new_line
      ∷ codes "Break point found. Stop at: '"
      ∷ text
      ∷ codes "'."
      ∷ new_line
      ∷ [])
  print_reply input no_break_point = texts (
      codes "Run"
      ∷ new_line
      ∷ codes "No break point found. All the events have been played."
      ∷ new_line
      ∷ codes "The current event is the last one."
      ∷ new_line
      ∷ [])
  print_reply input (exported title text) = texts (title ∷ new_line ∷ text ∷ new_line ∷ [])
  print_reply input (not_understood tokens) = print_not_understood input tokens

  -- `oPromptStr`, from the type and the date-time of the current event.
  unfoldable pub prompt : s.Event → List ℕ
  prompt e = texts (
      codes "sevmgr "
      ∷ p.get_type_label_as_string (s.get_event_type e)
      ∷ codes " / "
      ∷ p.print_moment (s.get_event_time e)
      ∷ codes "> "
      ∷ [])

  unfoldable pub farewell : List ℕ
  farewell = codes "End of the session. Exiting." ++ new_line

  -- A line as the user enters it, and its tokens.
  pub record Line : Type 0 where
    pub input : List ℕ
    pub tokens : List (List ℕ)

  abbrev pub tokens_of : List Line → List (List (List ℕ))
  tokens_of [] = []
  tokens_of (line ∷ lines) = line.tokens ∷ tokens_of lines

  -- The text of a session, from its lines and the replies of the loop; the end of the input is
  -- answered by an empty line.
  unfoldable pub session_text : List Line → List (Reply p) → List ℕ
  unfolding print_reply farewell extract_command
  session_text [] replies = new_line ++ farewell
  session_text (line ∷ lines) [] = []
  session_text (line ∷ lines) (reply ∷ replies) =
      let rest = session_text lines replies in
      print_reply line.input reply
      ++ (if is_quit p (extract_command p line.tokens).0 then farewell else rest)
