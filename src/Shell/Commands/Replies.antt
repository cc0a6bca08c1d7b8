-- ===== src/Shell/Commands/Replies.antt =====
-- sevmgr/ui/cmdline/sevmgr.cpp: what the commands do and reply, on a service with a queue.
use sevmgr.Prelude.{
  bind_result-done, ℕ, ◌≡◌, ◌≢◌, refl, ap, ◌∙◌, true, false, List, [], ◌∷◌, ◌++◌, ◌==◌, arith,
  if◌then◌else◌, is_some, done, pure, ◌>>=◌,
}
use sevmgr.OrderedMap.{find}
use sevmgr.Stdair.{Stdair}
use sevmgr.EventQueue.{Frame}
use sevmgr.EventQueueManager
use sevmgr.EventQueueManager.Popping.{
  first_or, tail, pop_event_returns, overall_after, counted_in, types_after_pop,
}
use sevmgr.EventQueueManager.Runs.{IsKnown, HasNoBreak}
use sevmgr.EventQueueManager.Runs.Breaks.{run_stops_at_break}
use sevmgr.Service
use sevmgr.Service.{Service, Session, ServiceContext, on_service}
use sevmgr.Service.Serving.{is_queue_done-cons, serving_to, on_frame-serving}
use sevmgr.Shell.Platform.{Platform}
use sevmgr.Shell.Tokens.{quit, run, next, extract_command}
use sevmgr.Shell.Commands.{
  Reply, popped, break_point_found, no_break_point, pop_unless, next_event, run_events, dispatch,
  is_quit, go_on, command_loop,
}

module _ {s : Stdair} (p : Platform s) where
  open s use {increment, Event, StatusSet, get_event_type, describe, bkg_req, brk_pt}

  -- What `run` prints.
  abbrev run_reply : Event → Reply p
  run_reply e =
      if get_event_type e == brk_pt then break_point_found (describe e) else no_break_point

  run_events-serving :
      (c : ServiceContext s) (f g : Frame s)
      → EventQueueManager.run s f ≡ done tt g
      → run_events p (serving_to s c f) ≡ done (run_reply g.event) (serving_to s c g)
  unfolding run_events Service.run
  run_events-serving c f g h =
      bind_result-done _ _ (on_frame-serving s (EventQueueManager.run s) c f g tt h) refl

  -- The command `run` plays the events up to the first break point, makes it the current event and
  -- reports it; the events behind it remain in the queue of the service. Each event up to the break
  -- point must have a type with a progress status, and `BKG_REQ` must differ from `BRK_PT`.
  pub run_events_break :
      (c : ServiceContext s) (f : Frame s) (before rest : List (ℕ × Event)) (t : ℕ) (b : Event)
      → bkg_req ≢ brk_pt
      → f.queue.event_list ≡ before ++ (t, b) ∷ rest
      → HasNoBreak s before
      → get_event_type b ≡ brk_pt
      → IsKnown s f.queue.progress_status_map before
      → is_some (find brk_pt f.queue.progress_status_map) ≡ true
      → (g : Frame s) × (dispatch p run [] (serving_to s c f)
          ≡ done (break_point_found (describe b)) (serving_to s c g))
        × (g.event ≡ b)
        × (g.queue.event_list ≡ rest)
  unfolding dispatch
  run_events_break c f before rest t b differ h no_break is_break known known_break =
      let (g, runs, event, remaining, _, _) =
        run_stops_at_break s f before rest t b differ h no_break is_break known known_break in
      (
        g,
        run_events-serving c f g runs
            ∙ ap (λ e. done (run_reply e) (serving_to s c g)) event
            ∙ ap (λ r. done r (serving_to s c g)) (reply_of_break b is_break),
        event,
        remaining,
      )
    where
      reply_of_break :
          (b : Event) → get_event_type b ≡ brk_pt → run_reply b ≡ break_point_found (describe b)
      reply_of_break b h = ground (arith, h)

  pop_unless-serving :
      (c : ServiceContext s) (f g : Frame s) (ps : StatusSet)
      → EventQueueManager.pop_event s f ≡ done ps g
      → pop_unless p false (serving_to s c f) ≡ done (popped (describe g.event)) (serving_to s c g)
  unfolding Service.pop_event
  pop_unless-serving c f g ps h =
      bind_result-done _ _ (on_frame-serving s (EventQueueManager.pop_event s) c f g ps h) refl

  pub next_event-serving :
      (c : ServiceContext s) (f : Frame s)
      → next_event p (serving_to s c f)
        ≡ pop_unless p (EventQueueManager.is_queue_done s f.queue) (serving_to s c f)
  unfolding next_event Service.is_queue_done
  next_event-serving c f = refl

  -- The command `next` makes the first event of the queue of the service the current one and
  -- reports it, whatever its type, the other events remain, and the overall status is incremented.
  pub next_event_pops :
      (c : ServiceContext s) (f : Frame s) (t : ℕ) (e : Event) (rest : List (ℕ × Event))
      → f.queue.event_list ≡ (t, e) ∷ rest
      → (g : Frame s) × (dispatch p next [] (serving_to s c f)
          ≡ done (popped (describe e)) (serving_to s c g))
        × (g.event ≡ e)
        × (g.queue.event_list ≡ rest)
        × (g.queue.progress_status ≡ increment f.queue.progress_status)
        × (g.queue.progress_status_map ≡ counted_in s e f.queue.progress_status_map)
  unfolding dispatch
  next_event_pops c f t e rest h =
      let (ps, g, pop, remaining, current, _, overall, types) = pop_event_returns s f in
      let same : g.event ≡ e = current ∙ ap (first_or f.event) h in
      (
        g,
        next_event-serving c f
            ∙ ap (λ b. pop_unless p b (serving_to s c f))
                (is_queue_done-cons s f.queue (t, e) rest h)
            ∙ pop_unless-serving c f g ps pop
            ∙ ap (λ u. done (popped (describe u)) (serving_to s c g)) same,
        same,
        remaining ∙ ap tail h,
        overall ∙ ap (λ l. overall_after s l f.queue.progress_status) h,
        types ∙ ap (λ l. types_after_pop s l f.queue.progress_status_map) h,
      )

  -- The loop ends at a line whose command is `quit`: it does the same without the lines behind it.
  pub command_loop_quits :
      (before after : List (List (List ℕ))) (line : List (List ℕ))
      → (extract_command p line).0 ≡ quit
      → command_loop p (before ++ line ∷ after) ≡ command_loop p (before ++ line ∷ [])
  unfolding command_loop
  command_loop_quits [] after line h = rw h refl
  command_loop_quits (first ∷ before) after line h =
      ap
        (λ rest. (do
          reply ← dispatch p (extract_command p first).0 (extract_command p first).1
          replies ← go_on p (is_quit p (extract_command p first).0) rest
          pure (reply ∷ replies)))
        (command_loop_quits before after line h)
