-- ===== src/Tests/Shell.antt =====
-- The shell on small lines and the sample queue.
use sevmgr.Prelude.{
  pos, ℕ, some, ◌≡◌, refl, [], ◌∷◌, arith, codes, print_number, done, undefined, List, ◌++◌,
  new_line,
}
use sevmgr.OrderedMap.{find}
use sevmgr.EventQueue.{EventQueue, Frame, new_event_queue, default_event_queue_id, get_queue_size}
use sevmgr.EventQueueManager
use sevmgr.EventQueueManager.Popping.{tail}
use sevmgr.EventQueueManager.Counting.{SampleIsPlayed}
use sevmgr.EventQueueManager.Types.{types_after}
use sevmgr.EventQueueManager.Runs.{increments, last_event}
use sevmgr.Shell.Options.{configuration_of, program, held}
use sevmgr.Shell.Whole.{program_drains}
use sevmgr.Service.Serving.{serving_to, own_context}
use sevmgr.Shell.Tokens.{run, command_of, extract_command, extract_token_list, date_time_expression}
use sevmgr.Shell.Tokens.Matches.{joined, extract_token_list_matches}
use sevmgr.Shell.Dates.{Wanted, month_name, read_year, parse_event_date_time}
use sevmgr.Shell.Dates.Outcomes.{
  parse_event_date_time_numbers, parse_event_date_time_empty, parse_event_date_time_month_zero,
}
use sevmgr.Shell.Commands.{Reply, dispatch, command_loop, break_point_found, popped, empty_queue}
use sevmgr.Shell.Printing.{farewell, tokens_of, session_text}
use sevmgr.Shell.Printing.Outputs.{spaced, message, unknown_command_text}
use sevmgr.Shell.Completions.{init_readline, is_offered, is_understood, init_readline_commands}
use sevmgr.Shell.Commands.Draining.{shown, empties, command_loop_drains}
use sevmgr.Shell.Commands.Replies.{run_events_break}
use sevmgr.Tests.Samples.{
  given, only_log, events, statuses, reals, stdair, first_event, second_event, break_point, queue,
  frame, context,
}
use sevmgr.Tests.Terminal.{platform}

extract_token_list_matches_example :
    extract_token_list platform (codes "2011" ∷ codes "May" ∷ []) date_time_expression
    ≡ codes "2011" ∷ codes "May" ∷ []
unfolding joined
extract_token_list_matches_example =
    extract_token_list_matches platform (codes "2011" ∷ codes "May" ∷ []) date_time_expression
      (codes "2011 May") (codes "2011" ∷ codes "May" ∷ []) (omega arith) refl (omega arith)

-- The user's date-time before it is read.
abbrev wanted : Wanted platform
wanted = record { event_date = (2010, 1, 21); event_time = (0, 0, 0) }

parse_event_date_time_numbers_example :
    parse_event_date_time platform
      (codes "11" ∷ codes "5" ∷ codes "14" ∷ codes "8" ∷ codes "30" ∷ codes "0" ∷ [])
      wanted
    ≡ done tt (record { event_date = (2011, 5, 14); event_time = (8, 30, 0) })
unfolding month_name print_number
parse_event_date_time_numbers_example =
    parse_event_date_time_numbers platform b'1' b'5' b'1' b'8' b'3' b'0' (b'1' ∷ []) [] (b'4' ∷ [])
      [] (b'0' ∷ []) [] [] wanted 11 5 14 8 30 0 (codes "Jan") (codes "May") (2011, 5, 14)
      (8, 30, 0) refl refl refl refl (omega arith) refl refl refl refl refl refl refl

parse_event_date_time_empty_example :
    parse_event_date_time platform ([] ∷ [] ∷ [] ∷ [] ∷ [] ∷ [] ∷ []) wanted ≡ done tt wanted
unfolding month_name print_number
parse_event_date_time_empty_example =
    parse_event_date_time_empty platform [] wanted (codes "Jan") refl refl refl

parse_event_date_time_month_zero_example :
    parse_event_date_time platform (codes "2011" ∷ codes "0" ∷ codes "14" ∷ []) wanted ≡ undefined
unfolding month_name read_year
parse_event_date_time_month_zero_example =
    parse_event_date_time_month_zero platform (codes "2011") b'0' [] (codes "14" ∷ []) wanted 2011
      (codes "Jan") refl refl refl refl

run_events_break_example :
    (g : Frame stdair) × (dispatch platform run [] (serving_to stdair context frame)
      ≡ done (break_point_found (codes "#")) (serving_to stdair context g))
    × (g.event ≡ break_point)
    × (g.queue.event_list ≡ [])
unfolding find
run_events_break_example =
    run_events_break platform context frame ((10, first_event) ∷ (11, second_event) ∷ []) [] 12
      break_point (omega arith) refl (omega arith, (omega arith, tt)) refl (refl, (refl, tt)) refl

-- Three events, and one line more.
command_loop_drains_example :
    (g : Frame stdair) × (command_loop platform
        ((codes "next" ∷ [])
          ∷ (codes "Next" ∷ [])
          ∷ (codes "next" ∷ [])
          ∷ (codes "next" ∷ codes "again" ∷ [])
          ∷ [])
        (serving_to stdair context frame)
      ≡ done
          (popped (codes "#") ∷ popped (codes "#") ∷ popped (codes "#") ∷ empty_queue ∷ [])
          (serving_to stdair context g))
    × (g.event ≡ break_point)
    × (g.queue.event_list ≡ [])
    × (g.queue.progress_status ≡ increments stdair 3 queue.progress_status)
    × (g.queue.progress_status_map ≡ types_after stdair queue.event_list queue.progress_status_map)
unfolding extract_command command_of increments last_event
command_loop_drains_example =
    command_loop_drains platform
      ((codes "next" ∷ [])
        ∷ (codes "Next" ∷ [])
        ∷ (codes "next" ∷ [])
        ∷ (codes "next" ∷ codes "again" ∷ [])
        ∷ [])
      1 context frame (refl, (refl, (refl, (refl, tt)))) (omega arith)

-- The word of the help text for `list` with a type.
unknown_command_text_example :
    (replies : List (Reply platform)) × (command_loop platform
        (tokens_of platform (
          record {
            input = codes "list_event BreakPoint";
            tokens = codes "list_event" ∷ codes "BreakPoint" ∷ [];
          }
          ∷ []))
        (serving_to stdair context frame)
      ≡ done replies (serving_to stdair context frame))
    × (session_text platform
          (record {
            input = codes "list_event BreakPoint";
            tokens = codes "list_event" ∷ codes "BreakPoint" ∷ [];
          }
            ∷ [])
          replies
        ≡ (spaced (codes "BreakPoint" ∷ [])
            ++ (message (codes "list_event BreakPoint") ++ new_line))
          ++ (new_line ++ farewell platform))
unfolding extract_command command_of
unknown_command_text_example =
    unknown_command_text platform
      (record {
        input = codes "list_event BreakPoint";
        tokens = codes "list_event" ∷ codes "BreakPoint" ∷ [];
      })
      (serving_to stdair context frame) refl

init_readline_commands_example :
    is_offered (codes "list_event") init_readline ≡ is_understood (command_of (codes "list_event"))
init_readline_commands_example = init_readline_commands (codes "list_event")

abbrev four_lines : List (List (List ℕ))
four_lines =
    (codes "next" ∷ []) ∷ (codes "next" ∷ []) ∷ (codes "next" ∷ []) ∷ (codes "next" ∷ []) ∷ []

program_drains_example :
    (q : EventQueue stdair) × (g : Frame stdair) × (EventQueueManager.build_sample_queue stdair
        (some tt)
        (new_event_queue stdair (default_event_queue_id stdair))
      ≡ done tt q)
    × (get_queue_size stdair q ≡ pos 4)
    × (program platform (given only_log) (done tt tt) four_lines
        ≡ done
            (held
              (configuration_of (given only_log) [] only_log).printed
              (configuration_of (given only_log) [] only_log).log_filename
              (done
                (shown platform (tail q.event_list) ++ empties platform 1)
                (serving_to stdair (own_context stdair tt) g)))
            tt)
    × (g.queue.event_list ≡ [])
    × SampleIsPlayed stdair g.queue
unfolding extract_command command_of
program_drains_example =
    program_drains platform (given only_log) only_log tt four_lines 1 events statuses reals refl
      refl refl refl (omega arith) (omega arith) (omega arith) (omega arith) (omega arith)
      (refl, (refl, (refl, (refl, tt)))) (omega arith)
