-- ===== src/Shell/Commands.antt =====
-- sevmgr/ui/cmdline/sevmgr.cpp, `main`: the commands of the shell and its loop. A line is the list
-- of its tokens, and a reply stands for what the command prints.
pub mod Replies
pub mod Draining
use sevmgr.Prelude.{
  ℕ, Bool, true, false, Option, none, some, List, [], ◌∷◌, ◌==◌, if◌then◌else◌, Exec, Result, done,
  raised, codes, aborted, undefined, diverged, pure, ◌>>=◌, ◌>>◌, bind_result, gets,
}
use sevmgr.Stdair.{Stdair}
use sevmgr.Service
use sevmgr.Service.{Service, Session, new_service, on_service}
use sevmgr.Shell.Platform.{Platform}
use sevmgr.Shell.Tokens.{
  Command, nop, quit, help, list, display, select, next, run, json_list, json_display, unknown,
  extract_command, extract_token_list_for_date_time,
}
use sevmgr.Shell.Dates.{Wanted, parse_event_date_time}

module _ {s : Stdair} (p : Platform s) where
  open s use {Event, Moment, get_event_type, get_event_time, describe, brk_pt, last_value}

  -- What a command prints.
  pub data Reply : Type 0 where
    nothing : Reply
    helped : Reply
    listed : List ℕ → Reply
    unknown_event_type : List ℕ → Reply
    too_many_tokens : Reply
    selected : p.Date → p.Duration → Bool → Reply
    displayed : List ℕ → Reply
    empty_queue : Reply
    popped : List ℕ → Reply
    break_point_found : List ℕ → Reply
    no_break_point : Reply
    exported : List ℕ → List ℕ → Reply
    not_understood : List (List ℕ) → Reply

  -- The events of the type that a name stands for.
  abbrev pub list_by_name : List ℕ → Option ℕ → Exec (Session s) Reply
  list_by_name name none = pure (unknown_event_type name)
  list_by_name name (some k) = do text ← on_service s (Service.list_of s k); pure (listed text)

  unfoldable pub list_events : List (List ℕ) → Exec (Session s) Reply
  list_events [] = do text ← on_service s (Service.list s); pure (listed text)
  list_events (name ∷ []) = list_by_name name (p.event_type name)
  list_events (name ∷ (name' ∷ tokens)) = pure too_many_tokens

  -- The variables that the user's date-time is read into are local.
  abbrev pub wanted_of : Result (Wanted p) (Unit {0}) → Exec (Session s) (Wanted p)
  wanted_of (done a w) σ = done w σ
  wanted_of (raised x w) σ = raised x σ
  wanted_of aborted σ = aborted
  wanted_of undefined σ = undefined
  wanted_of diverged σ = diverged

  -- They start from the date-time of the current event.
  abbrev pub wanted_now : Event → Wanted p
  wanted_now e = record {
    event_date = p.date (get_event_time e);
    event_time = p.time_of_day (get_event_time e);
  }

  unfoldable pub select_event : List (List ℕ) → Exec (Session s) Reply
  unfolding parse_event_date_time extract_token_list_for_date_time
  select_event tokens = do
    e ← gets (λ σ. σ.event)
    w ←
        wanted_of
          (parse_event_date_time p (extract_token_list_for_date_time p tokens) (wanted_now e))
    found ← Service.select s (p.moment w.event_date w.event_time)
    pure (selected w.event_date w.event_time found)

  -- By whether the queue is done.
  abbrev pub pop_unless : Bool → Exec (Session s) Reply
  pop_unless true = pure empty_queue
  pop_unless false = do _ ← Service.pop_event s; e ← gets (λ σ. σ.event); pure (popped (describe e))

  unfoldable pub next_event : Exec (Session s) Reply
  next_event = do is_done ← on_service s (Service.is_queue_done s); pop_unless is_done

  unfoldable pub run_events : Exec (Session s) Reply
  run_events = do
    Service.run s
    e ← gets (λ σ. σ.event)
    pure (if get_event_type e == brk_pt then break_point_found (describe e) else no_break_point)

  unfoldable pub json_list_events : Exec (Session s) Reply
  json_list_events = do
    text ← on_service s (Service.json_export_event_queue s last_value)
    pure (exported (codes "JSON List") text)

  unfoldable pub json_display_event : Exec (Session s) Reply
  json_display_event = do
    e ← gets (λ σ. σ.event)
    text ← on_service s (Service.json_export_event s e)
    pure (exported (codes "JSON Display") text)

  -- The `switch`.
  unfoldable pub dispatch : Command → List (List ℕ) → Exec (Session s) Reply
  unfolding list_events select_event next_event run_events json_list_events json_display_event
  dispatch nop tokens = pure nothing
  dispatch quit tokens = pure nothing
  dispatch help tokens = pure helped
  dispatch list tokens = list_events tokens
  dispatch display tokens = do e ← gets (λ σ. σ.event); pure (displayed (describe e))
  dispatch select tokens = select_event tokens
  dispatch next tokens = next_event
  dispatch run tokens = run_events
  dispatch json_list tokens = json_list_events
  dispatch json_display tokens = json_display_event
  dispatch unknown tokens = pure (not_understood tokens)

  abbrev pub is_quit : Command → Bool
  is_quit quit = true
  is_quit command = false

  -- The rest of the loop, unless the command was `quit`.
  abbrev pub go_on : Bool → Exec (Session s) (List Reply) → Exec (Session s) (List Reply)
  go_on true rest = pure []
  go_on false rest = rest

  -- The loop over the lines that the user enters, up to `quit` or the end of the input, and the
  -- replies.
  unfoldable pub command_loop : List (List (List ℕ)) → Exec (Session s) (List Reply)
  unfolding dispatch extract_command
  command_loop [] = pure []
  command_loop (line ∷ lines) =
      let rest = command_loop lines in
      let (command, tokens) = extract_command p line in
      do
        reply ← dispatch command tokens
        replies ← go_on (is_quit command) rest
        pure (reply ∷ replies)

  -- The shell starts with the sample queue, whose first event is popped.
  abbrev pub first_session : Service s → Session s
  first_session v = record { service = v; event = p.default_event }

  abbrev pub start :
      List (List (List ℕ)) → Result (Service s) (Unit {0}) → Result (Session s) (List Reply)
  start lines (done a v) =
      (do on_service s (Service.build_sample_queue s); _ ← Service.pop_event s; command_loop lines)
        (first_session v)
  start lines (raised x v) = raised x (first_session v)
  start lines aborted = aborted
  start lines undefined = undefined
  start lines diverged = diverged

  unfoldable pub main : s.Service → List (List (List ℕ)) → Result (Session s) (List Reply)
  main stdair lines = start lines (new_service s stdair true)
