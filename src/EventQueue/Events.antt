-- ===== src/EventQueue/Events.antt =====
-- sevmgr/bom/EventQueue.cpp: the events of the queue.
pub mod Insertion
pub mod Popping
pub mod Types
pub mod Exchange
use sevmgr.Prelude.{
  ap, ◌≡◌, ℕ, zero, suc, Bool, true, false, not, ◌&&◌, List, [], ◌∷◌, ◌==◌, is_some, length, Exec,
  done, raised, diverged, event_queue_exception, pure, ◌>>=◌, ◌>>◌, gets, modify, assert_that, zoom,
}
use sevmgr.OrderedMap.{find, insert}
use sevmgr.Stdair.{Stdair}
use sevmgr.EventQueue.{EventQueue, Frame}
use sevmgr.EventQueue.Statuses.{get_status, set_status}

-- The counter of the attempts, which is constant.
abbrev pub idx : ℕ
idx = 0

module _ (s : Stdair) where
  open s use {
    Event, Status, StatusSet, Moment, get_event_type, get_event_time_stamp,
    increment_event_time_stamp, increment, new_status_set, set_type_specific_status,
    set_overall_status, default_event_oldest_date_time, minus_moment, total_milliseconds,
  }

  -- A method of the queue beside an event of the caller that it leaves alone.
  abbrev pub on_queue : {A : Type 0} → Exec (EventQueue s) A → Exec (Frame s) A
  on_queue = zoom (λ f. f.queue) (λ f q. record f { queue = q })

  -- What `popEvent` does once the event is out of the list.
  unfoldable pub count_pop : ℕ → Exec (Frame s) StatusSet
  unfolding get_status set_status
  count_pop k = do
    p ← on_queue (get_status s k)
    let p' = increment p
    on_queue (set_status s k p')
    overall ← gets (λ f. f.queue.progress_status)
    pure (set_overall_status overall (set_type_specific_status p' (new_status_set k)))

  -- The first event goes to the caller and out of the list, before its status is looked up.
  unfoldable pub take_event : Event → List (ℕ × Event) → Frame s → Frame s
  take_event e rest f = record {
    queue = record f.queue {
      progress_status = increment f.queue.progress_status;
      event_list = rest;
    };
    event = e;
  }

  -- By the entries of the list.
  unfoldable pub pop_from : List (ℕ × Event) → Exec (Frame s) StatusSet
  pop_from [] f = raised event_queue_exception f
  pop_from ((t, e) ∷ rest) f = count_pop (get_event_type e) (take_event e rest f)

  unfoldable pub pop_event : Exec (Frame s) StatusSet
  pop_event f = pop_from f.queue.event_list f

  pub pop_event-nil :
      (f : Frame s) → f.queue.event_list ≡ [] → pop_event f ≡ raised event_queue_exception f
  unfolding pop_event pop_from
  pop_event-nil f h = ap (λ l. pop_from l f) h

  pub pop_event-cons :
      (f : Frame s) (t : ℕ) (e : Event) (rest : List (ℕ × Event))
      → f.queue.event_list ≡ (t, e) ∷ rest
      → pop_event f ≡ count_pop (get_event_type e) (take_event e rest f)
  unfolding pop_event pop_from
  pop_event-cons f t e rest h = ap (λ l. pop_from l f) h

  -- One attempt to insert the event of the caller.
  unfoldable pub try_insert : Exec (Frame s) Bool
  try_insert f =
      let (m, inserted) = insert (get_event_time_stamp f.event) f.event f.queue.event_list in
      done inserted (record f { queue = record f.queue { event_list = m } })

  -- The loop, on fuel.
  unfoldable pub insert_loop : ℕ → Bool → Exec (Frame s) Bool
  unfolding try_insert
  insert_loop zero inserted f = diverged
  insert_loop (suc fuel) inserted f = elim (not inserted && not (idx == 1000)) [
    | true ↦
        (do
          modify (λ g. record g { event = increment_event_time_stamp g.event })
          again ← try_insert
          insert_loop fuel again)
          f
    | false ↦ done inserted f
  ]

  -- The size of the queue bounds the number of failed attempts.
  unfoldable pub add_event : Exec (Frame s) Bool
  unfolding try_insert
  add_event = do
    size ← gets (λ f. length f.queue.event_list)
    first ← try_insert
    inserted ← insert_loop (suc size) first
    assert_that (not (idx == 1000))
    pure inserted

  unfoldable pub has_event_date_time : Moment → EventQueue s → Bool
  has_event_date_time time q =
      is_some
        (find (total_milliseconds (minus_moment time default_event_oldest_date_time)) q.event_list)
