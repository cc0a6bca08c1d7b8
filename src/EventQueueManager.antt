-- ===== src/EventQueueManager.antt =====
-- sevmgr/command/EventQueueManager.hpp and EventQueueManager.cpp: the command behind the service.
-- Most methods hand the call on to the queue.
pub mod Sample
pub mod Runs
pub mod Selection
pub mod Popping
pub mod Grading
pub mod Validity
pub mod Bounds
pub mod Counting
pub mod Types
pub mod Refinement
use sevmgr.Prelude.{
  ℕ, zero, suc, Bool, true, false, not, ◌&&◌, List, [], ◌∷◌, ◌==◌, ℤ, pos, length, if◌then◌else◌,
  Exec, Result, done, raised, aborted, undefined, diverged, event_queue_exception, event_exception,
  non_initialised_service, json_parser_error, bad_date, pure, ◌>>=◌, ◌>>◌, gets, modify,
  assert_that, zoom, Option, dereference,
}
use sevmgr.Stdair.{Stdair}
use sevmgr.EventQueue
use sevmgr.EventQueue.{
  EventQueue, Frame, get_overall_expected_nb, get_overall_actual_nb, get_overall_status,
}
use sevmgr.EventQueue.Statuses
use sevmgr.EventQueue.Events
use sevmgr.EventQueue.Events.{on_queue}
use sevmgr.EventQueue.Display

module _ (s : Stdair) where
  open s use {
    Event, Status, StatusSet, Moment, Booking, Service, get_event_type, get_event_time, bkg_req,
    brk_pt, real_of_count, new_status_set, moment_eq, default_event_oldest_date_time, midnight,
    booking_event, break_point_event,
  }

  unfoldable pub reset : Exec (EventQueue s) (Unit {0})
  reset = modify (EventQueue.reset s)

  unfoldable pub has_progress_status : ℕ → EventQueue s → Bool
  has_progress_status k q = Statuses.has_progress_status s k q

  -- The flag that `EventQueue::addEvent` returns is dropped.
  unfoldable pub add_event : Exec (Frame s) (Unit {0})
  add_event = do _ ← Events.add_event s; pure tt

  unfoldable pub list : EventQueue s → List ℕ
  list q = Display.list s q

  unfoldable pub list_of : EventQueue s → ℕ → List ℕ
  list_of q k = Display.list_of s k q

  unfoldable pub describe_key : EventQueue s → List ℕ
  describe_key q = Display.describe_key s q

  -- The handler of `popEvent`: an `EventQueueException` becomes a default set of statuses.
  abbrev pub catch_event_queue_exception : Result (Frame s) StatusSet → Result (Frame s) StatusSet
  catch_event_queue_exception (done ps f) = done ps f
  catch_event_queue_exception (raised event_queue_exception f) = done (new_status_set bkg_req) f
  catch_event_queue_exception (raised event_exception f) = raised event_exception f
  catch_event_queue_exception (raised non_initialised_service f) = raised non_initialised_service f
  catch_event_queue_exception (raised json_parser_error f) = raised json_parser_error f
  catch_event_queue_exception (raised bad_date f) = raised bad_date f
  catch_event_queue_exception aborted = aborted
  catch_event_queue_exception undefined = undefined
  catch_event_queue_exception diverged = diverged

  unfoldable pub pop_event : Exec (Frame s) StatusSet
  pop_event f = catch_event_queue_exception (Events.pop_event s f)

  -- The loop of `run`, on fuel: the type of the last event stands beside the frame.
  unfoldable pub run_loop : ℕ → ℕ → Exec (Frame s) (Unit {0})
  run_loop zero k f = diverged
  run_loop (suc fuel) k f = elim (not (EventQueue.is_queue_done s f.queue) && not (k == brk_pt)) [
    | true ↦
        (do _ ← Events.pop_event s; k' ← gets (λ g. get_event_type g.event); run_loop fuel k') f
    | false ↦ done tt f
  ]

  unfoldable pub run : Exec (Frame s) (Unit {0})
  run f = run_loop (suc (length f.queue.event_list)) bkg_req f

  -- The loop of `select`, which returns the date-time of the last event.
  unfoldable pub select_loop : ℕ → Moment → Moment → Exec (Frame s) Moment
  select_loop zero time last f = diverged
  select_loop (suc fuel) time last f =
      elim (not (EventQueue.is_queue_done s f.queue) && not (moment_eq last time)) [
        | true ↦
            (do
              _ ← Events.pop_event s
              last' ← gets (λ g. get_event_time g.event)
              select_loop fuel time last')
              f
        | false ↦ done last f
      ]

  unfoldable pub select : Moment → Exec (Frame s) Bool
  select time f = elim (Events.has_event_date_time s time f.queue) [
    | false ↦ done false f
    | true ↦
        (do
          last ← select_loop (suc (length f.queue.event_list)) time default_event_oldest_date_time
          assert_that (moment_eq last time)
          pure true)
          f
  ]

  -- A count is converted to `double`, which picks that overload of `EventQueue::updateStatus`.
  unfoldable pub update_status : ℕ → ℤ → Exec (EventQueue s) (Unit {0})
  update_status k n = Statuses.update_status_nb s k (real_of_count n)

  unfoldable pub add_status : ℕ → ℤ → Exec (EventQueue s) (Unit {0})
  add_status k n = Statuses.add_status s k (real_of_count n)

  unfoldable pub is_queue_done : EventQueue s → Bool
  is_queue_done q = EventQueue.is_queue_done s q

  unfoldable pub get_queue_size : EventQueue s → ℤ
  get_queue_size q = EventQueue.get_queue_size s q

  unfoldable pub get_expected_total_number : EventQueue s → ℤ
  get_expected_total_number q = get_overall_expected_nb s q

  unfoldable pub get_expected_total_number_of : ℕ → Exec (EventQueue s) ℤ
  get_expected_total_number_of k = Statuses.get_expected_total_nb_of_events s k

  unfoldable pub get_actual_total_number : EventQueue s → ℤ
  get_actual_total_number q = get_overall_actual_nb s q

  unfoldable pub get_actual_total_number_of : ℕ → Exec (EventQueue s) ℤ
  get_actual_total_number_of k = Statuses.get_actual_total_nb_of_events s k

  unfoldable pub get_status_of : ℕ → Exec (EventQueue s) Status
  get_status_of k = Statuses.get_status s k

  unfoldable pub get_status : EventQueue s → Status
  get_status q = get_overall_status s q

  unfoldable pub build_sample_booking_request :
      {S : Type 0} → Option Service → Bool → Exec S Booking
  build_sample_booking_request service is_for_crs = do
    stdair ← dereference service
    pure (s.build_sample_booking_request stdair is_for_crs)

  -- `addEvent` of a local event, which is gone afterwards.
  abbrev pub discard_event : Result (Frame s) (Unit {0}) → Result (EventQueue s) (Unit {0})
  discard_event (done a f) = done a f.queue
  discard_event (raised x f) = raised x f.queue
  discard_event aborted = aborted
  discard_event undefined = undefined
  discard_event diverged = diverged

  unfoldable pub add_local_event : Event → Exec (EventQueue s) (Unit {0})
  unfolding add_event
  add_local_event e q = discard_event (add_event (record { queue = q; event = e }))

  -- Two booking requests and two break points.
  unfoldable pub build_sample_queue : Option Service → Exec (EventQueue s) (Unit {0})
  unfolding add_status add_local_event build_sample_booking_request
  build_sample_queue service = do
    add_status bkg_req (pos 2)
    booking ← build_sample_booking_request service false
    add_local_event (booking_event bkg_req booking)
    booking_for_crs ← build_sample_booking_request service true
    add_local_event (booking_event bkg_req booking_for_crs)
    add_status brk_pt (pos 2)
    add_local_event (break_point_event brk_pt (midnight 2010 1 21))
    add_local_event (break_point_event brk_pt (midnight 2011 5 14))
