-- ===== src/EventQueueManager/Grading.antt =====
-- sevmgr/command/EventQueueManager.cpp: the methods of the command and the predicates of the queue
-- that those of the queue keep, where an addition may count.
use sevmgr.Prelude.{
  ℕ, zero, suc, ◌+◌, ◌≤◌, Bool, true, false, Option, ℤ, pos, length, arith, Exec, Keeps, Leads,
  Leads-bind, Keeps-bind, Keeps-dereference, Keeps-pure, Result, done, raised, aborted, undefined,
  diverged, event_queue_exception, event_exception, non_initialised_service, json_parser_error,
  bad_date, Leaves, Leaves-bind, Leaves-weaken, ◌>>=◌, bind_result, pure, assert_that,
}
use sevmgr.Stdair.{Stdair}
use sevmgr.EventQueue
use sevmgr.EventQueue.{EventQueue, Frame}
use sevmgr.EventQueue.Statuses
use sevmgr.EventQueue.Events
use sevmgr.EventQueueManager
use sevmgr.EventQueueManager.{
  run_loop, run, select_loop, select, catch_event_queue_exception, discard_event, add_local_event,
  build_sample_queue, build_sample_booking_request, add_status, update_status,
}

module _ (s : Stdair) where
  -- A predicate of the queue of a frame.
  abbrev pub OnFrame : (EventQueue s → Type 0) → Frame s → Type 0
  OnFrame P f = P f.queue

  -- A family of predicates of the queue, one for each number of additions: an addition leads from
  -- one to the next, the other methods of the queue keep each.
  pub record IsGraded (P : ℕ → EventQueue s → Type 0) : Type 0 where
    pub widens : (a b : ℕ) → a ≤ b → (q : EventQueue s) → P a q → P b q
    pub pops : (a : ℕ) → Keeps (OnFrame (P a)) (Events.pop_event s)
    pub adds : (a : ℕ) → Leads (OnFrame (P a)) (OnFrame (P (a + 1))) (Events.add_event s)
    pub resets : (a : ℕ) (q : EventQueue s) → P a q → P a (EventQueue.reset s q)
    pub adds_status : (a k : ℕ) (x : s.Real) → Keeps (P a) (Statuses.add_status s k x)
    pub updates_status : (a k : ℕ) (x : s.Real) → Keeps (P a) (Statuses.update_status_nb s k x)

  -- The handler and the end of a local event leave the queue alone.
  pub catch-Leaves :
      (P : Frame s → Type 0) (r : Result (Frame s) s.StatusSet)
      → Leaves P r
      → Leaves P (catch_event_queue_exception s r)
  catch-Leaves P (done x f) h = h
  catch-Leaves P (raised event_queue_exception f) h = h
  catch-Leaves P (raised event_exception f) h = h
  catch-Leaves P (raised non_initialised_service f) h = h
  catch-Leaves P (raised json_parser_error f) h = h
  catch-Leaves P (raised bad_date f) h = h
  catch-Leaves P aborted h = tt
  catch-Leaves P undefined h = tt
  catch-Leaves P diverged h = tt

  pub discard-Leaves :
      (P : EventQueue s → Type 0) (r : Result (Frame s) (Unit {0}))
      → Leaves (OnFrame P) r
      → Leaves P (discard_event s r)
  discard-Leaves P (done x f) h = h
  discard-Leaves P (raised x f) h = h
  discard-Leaves P aborted h = tt
  discard-Leaves P undefined h = tt
  discard-Leaves P diverged h = tt

module _ {s : Stdair} {P : ℕ → EventQueue s → Type 0} (graded : IsGraded s P) where
  open s use {
    Event, Moment, StatusSet, Booking, get_event_type, get_event_time, brk_pt, bkg_req, moment_eq,
    booking_event, break_point_event, midnight, real_of_count, default_event_oldest_date_time,
  }

  -- The predicate of a grade, of the queue of a frame.
  abbrev Of : ℕ → Frame s → Type 0
  Of a = OnFrame s (P a)

  run_loop-Leaves : (a fuel k : ℕ) (f : Frame s) → Of a f → Leaves (Of a) (run_loop s fuel k f)
  unfolding run_loop
  run_loop-Leaves a zero k f v = tt
  run_loop-Leaves a (suc fuel) k f v =
      let round =
        Leaves-bind (Of a) (Events.pop_event s f)
          (λ _ g. run_loop s fuel (get_event_type g.event) g) ((graded.pops a).at f v)
          λ _ g w. run_loop-Leaves a fuel (get_event_type g.event) g w in
      ground (arith, round)

  pub run-Keeps : (a : ℕ) → Keeps (Of a) (run s)
  unfolding run
  run-Keeps a = record { at = λ f v. run_loop-Leaves a _ bkg_req f v }

  select_loop-Leaves :
      (a fuel : ℕ) (time last : Moment) (f : Frame s)
      → Of a f
      → Leaves (Of a) (select_loop s fuel time last f)
  unfolding select_loop
  select_loop-Leaves a zero time last f v = tt
  select_loop-Leaves a (suc fuel) time last f v =
      let round =
        Leaves-bind (Of a) (Events.pop_event s f)
          (λ _ g. select_loop s fuel time (get_event_time g.event) g) ((graded.pops a).at f v)
          λ _ g w. select_loop-Leaves a fuel time (get_event_time g.event) g w in
      ground (arith, round)

  end_select-Leaves :
      (a : ℕ) (time last : Moment) (f : Frame s)
      → Of a f
      → Leaves (Of a) (bind_result (assert_that (moment_eq last time) f) (λ _. pure true))
  end_select-Leaves a time last f v = ground arith

  pub select-Keeps : (a : ℕ) (time : Moment) → Keeps (Of a) (select s time)
  unfolding select
  select-Keeps a time = record {
    at = λ f v.
        let loop =
          Leaves-bind (Of a)
            (select_loop s (suc (length f.queue.event_list)) time default_event_oldest_date_time f)
            (λ last g. bind_result (assert_that (moment_eq last time) g) (λ _. pure true))
            (select_loop-Leaves a _ time default_event_oldest_date_time f v)
            λ last g w. end_select-Leaves a time last g w in
        ground (arith, loop);
  }

  pub command_pop-Keeps : (a : ℕ) → Keeps (Of a) (EventQueueManager.pop_event s)
  unfolding EventQueueManager.pop_event
  command_pop-Keeps a = record {
    at = λ f v. catch-Leaves s (Of a) (Events.pop_event s f) ((graded.pops a).at f v);
  }

  pub command_add-Leads : (a : ℕ) → Leads (Of a) (Of (a + 1)) (EventQueueManager.add_event s)
  unfolding EventQueueManager.add_event
  command_add-Leads a = Leads-bind _ _ (λ f v. v) (graded.adds a) λ _. Keeps-pure tt

  local-Leads : (a b : ℕ) (e : Event) → a + 1 ≤ b → Leads (P a) (P b) (add_local_event s e)
  unfolding add_local_event
  local-Leads a b e h = record {
    at = λ q v.
        Leaves-weaken (P (a + 1)) (P b) (add_local_event s e q) (graded.widens (a + 1) b h) (
          discard-Leaves s (P (a + 1)) _
            ((command_add-Leads a).at (record { queue = q; event = e }) v));
  }

  pub add_status-Keeps : (a k : ℕ) (n : ℤ) → Keeps (P a) (add_status s k n)
  unfolding add_status
  add_status-Keeps a k n = graded.adds_status a k (real_of_count n)

  pub update_status-Keeps : (a k : ℕ) (n : ℤ) → Keeps (P a) (update_status s k n)
  unfolding update_status
  update_status-Keeps a k n = graded.updates_status a k (real_of_count n)

  pub reset-Keeps : (a : ℕ) → Keeps (P a) (EventQueueManager.reset s)
  unfolding EventQueueManager.reset
  reset-Keeps a = record { at = graded.resets a }

  booking-Keeps :
      {Q : EventQueue s → Type 0} (service : Option s.Service) (b : Bool)
      → Keeps Q (build_sample_booking_request s {S = EventQueue s} service b)
  unfolding build_sample_booking_request
  booking-Keeps service b = Keeps-bind _ _ (Keeps-dereference service) λ stdair. Keeps-pure _

  -- A step of the sample queue, and the steps behind it.
  stage :
      {A B : Type 0} {a b c : ℕ} (m : Exec (EventQueue s) A) (f : A → Exec (EventQueue s) B)
      → b ≤ c
      → Leads (P a) (P b) m
      → ((x : A) → Leads (P b) (P c) (f x))
      → Leads (P a) (P c) (m >>= f)
  stage {b} {c} m f h km kf = Leads-bind m f (graded.widens b c h) km kf

  -- The sample queue makes four additions.
  pub build_sample_queue-Leads :
      (a : ℕ) (service : Option s.Service) → Leads (P a) (P (a + 4)) (build_sample_queue s service)
  unfolding build_sample_queue
  build_sample_queue-Leads a service =
      stage _ _ (omega arith) (add_status-Keeps a bkg_req (pos 2)) λ _.
        stage _ _ (omega arith) (booking-Keeps service false) λ b.
          stage {b = a + 1} _ _ (omega arith)
            (local-Leads a (a + 1) (booking_event bkg_req b) (omega arith))
            λ _. stage _ _ (omega arith) (booking-Keeps service true) λ c.
              stage {b = a + 2} _ _ (omega arith)
                (local-Leads (a + 1) (a + 2) (booking_event bkg_req c) (omega arith))
                λ _. stage _ _ (omega arith) (add_status-Keeps (a + 2) brk_pt (pos 2)) λ _.
                  stage {b = a + 3} _ _ (omega arith)
                    (local-Leads (a + 2) (a + 3) (break_point_event brk_pt (midnight 2010 1 21))
                      (omega arith))
                    λ _.
                      local-Leads (a + 3) (a + 4) (break_point_event brk_pt (midnight 2011 5 14))
                        (omega arith)
