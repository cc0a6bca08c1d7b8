-- ===== src/Shell/Commands/Draining.antt =====
-- sevmgr/ui/cmdline/sevmgr.cpp: the command `next`, entered line after line.
use sevmgr.Prelude.{
  ℕ, zero, suc, ◌+◌, ◌≡◌, refl, ap, ◌∙◌, List, [], ◌∷◌, ◌++◌, arith, length, done, bind_result,
  pure,
}
use sevmgr.Stdair.{Stdair}
use sevmgr.EventQueue.{Frame}
use sevmgr.EventQueueManager.Types.{types_after}
use sevmgr.EventQueueManager.Runs.{increments, last_event}
use sevmgr.Service.{Session, ServiceContext}
use sevmgr.Service.Serving.{serving_to, is_queue_done-nil}
use sevmgr.Shell.Platform.{Platform}
use sevmgr.Shell.Tokens.{next, extract_command}
use sevmgr.Shell.Commands.{
  Reply, popped, empty_queue, pop_unless, dispatch, is_quit, go_on, command_loop,
}
use sevmgr.Shell.Commands.Replies.{next_event-serving, next_event_pops}

module _ {s : Stdair} (p : Platform s) where
  open s use {Event, describe}

  -- Each line has the command `next`.
  abbrev pub AreNext : List (List (List ℕ)) → Type 0
  AreNext [] = Unit {0}
  AreNext (line ∷ lines) = ((extract_command p line).0 ≡ next) × AreNext lines

  -- What `next` prints for the events of a list.
  abbrev pub shown : List (ℕ × Event) → List (Reply p)
  shown [] = []
  shown ((t, e) ∷ l) = popped (describe e) ∷ shown l

  next_line :
      (line : List (List ℕ)) (lines : List (List (List ℕ))) (σ τ : Session s) (reply : Reply p)
      (replies : List (Reply p)) (ρ : Session s)
      → (extract_command p line).0 ≡ next
      → dispatch p next [] σ ≡ done reply τ
      → command_loop p lines τ ≡ done replies ρ
      → command_loop p (line ∷ lines) σ ≡ done (reply ∷ replies) ρ
  unfolding command_loop dispatch
  next_line line lines σ τ reply replies ρ is_next step rest =
      ap
        (λ c.
          bind_result (dispatch p c (extract_command p line).1 σ)
            λ r υ. bind_result (go_on p (is_quit p c) (command_loop p lines) υ) λ rs. pure (r ∷ rs))
        is_next
      ∙ ap (λ o. bind_result o λ r υ. bind_result (command_loop p lines υ) λ rs. pure (r ∷ rs)) step
      ∙ ap (λ o. bind_result o λ rs. pure (reply ∷ rs)) rest

  next_event_empty :
      (c : ServiceContext s) (f : Frame s)
      → f.queue.event_list ≡ []
      → dispatch p next [] (serving_to s c f) ≡ done empty_queue (serving_to s c f)
  unfolding dispatch
  next_event_empty c f h =
      next_event-serving p c f
      ∙ ap (λ b. pop_unless p b (serving_to s c f)) (is_queue_done-nil s f.queue h)

  -- `n` times the reply for an empty queue.
  abbrev pub empties : ℕ → List (Reply p)
  empties zero = []
  empties (suc n) = empty_queue ∷ empties n

  empties_for :
      (lines : List (List (List ℕ))) (c : ServiceContext s) (f : Frame s)
      → AreNext lines
      → f.queue.event_list ≡ []
      → command_loop p lines (serving_to s c f) ≡ done (empties (length lines)) (serving_to s c f)
  unfolding command_loop
  empties_for [] c f h empty = refl
  empties_for (line ∷ lines) c f h empty =
      next_line line lines _ _ empty_queue (empties (length lines)) _ h.0
        (next_event_empty c f empty) (empties_for lines c f h.1 empty)

  draining :
      (l : List (ℕ × Event)) (n : ℕ) (lines : List (List (List ℕ))) (c : ServiceContext s)
      (f : Frame s)
      → AreNext lines
      → f.queue.event_list ≡ l
      → length lines ≡ length l + n
      → (g : Frame s) × (command_loop p lines (serving_to s c f)
          ≡ done (shown l ++ empties n) (serving_to s c g))
        × (g.event ≡ last_event s f.event l)
        × (g.queue.event_list ≡ [])
        × (g.queue.progress_status ≡ increments s (length l) f.queue.progress_status)
        × (g.queue.progress_status_map ≡ types_after s l f.queue.progress_status_map)
  unfolding increments last_event
  draining [] n lines c f h list enough =
      let same : length lines ≡ n = omega arith in
      (f, rw (← same) (empties_for lines c f h list), refl, list, refl, refl)
  draining ((t, e) ∷ l) n [] c f h list enough = absurd (omega arith)
  draining ((t, e) ∷ l) n (line ∷ lines) c f h list enough =
      let (g, step, event, rest, overall, types) = next_event_pops p c f t e l list in
      let (k, steps, last, empty, counted, types') =
        draining l n lines c g h.1 rest (omega arith) in
      (
        k,
        next_line line lines _ _ (popped (describe e)) (shown l ++ empties n) _ h.0 step steps,
        last ∙ ap (λ x. last_event s x l) event,
        empty,
        counted ∙ ap (increments s (length l)) overall,
        types' ∙ ap (types_after s l) types,
      )

  -- A user who enters the command `next` at least as often as the queue of the service has events
  -- sees every event, each once and in the order of the queue, whatever their types and statuses;
  -- then the queue is empty, the last of them is the current event, the overall status has been
  -- incremented once for each event and the status of a type once for each event of the type, and
  -- each further line is answered by the message for an empty queue and changes nothing.
  pub command_loop_drains :
      (lines : List (List (List ℕ))) (n : ℕ) (c : ServiceContext s) (f : Frame s)
      → AreNext lines
      → length lines ≡ length f.queue.event_list + n
      → (g : Frame s) × (command_loop p lines (serving_to s c f)
          ≡ done (shown f.queue.event_list ++ empties n) (serving_to s c g))
        × (g.event ≡ last_event s f.event f.queue.event_list)
        × (g.queue.event_list ≡ [])
        × (g.queue.progress_status
            ≡ increments s (length f.queue.event_list) f.queue.progress_status)
        × (g.queue.progress_status_map
            ≡ types_after s f.queue.event_list f.queue.progress_status_map)
  command_loop_drains lines n c f h enough = draining f.queue.event_list n lines c f h refl enough
