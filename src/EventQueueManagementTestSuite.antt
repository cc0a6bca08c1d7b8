-- ===== src/EventQueueManagementTestSuite.antt =====
-- test/sevmgr/EventQueueManagementTestSuite.cpp: the test case, from the making of the service on.
-- The logs are left out.
pub mod Calls
pub mod Passing
use sevmgr.Prelude.{
  pos_part, ℕ, suc, Bool, true, false, not, ◌==◌, ℤ, pos, negsuc, Exec, Result, done, raised,
  aborted, undefined, diverged, pure, ◌>>=◌, ◌>>◌, bind_result, sub_count,
}
use sevmgr.Stdair.{Stdair}
use sevmgr.Service
use sevmgr.Service.{Service, Session, new_service}
use sevmgr.Demo.{main_loop}

-- The equality of two values of type `int`.
abbrev pub int_eq : ℤ → ℤ → Bool
int_eq (pos a) (pos b) = a == b
int_eq (pos a) (negsuc b) = false
int_eq (negsuc a) (pos b) = false
int_eq (negsuc a) (negsuc b) = a == b

-- The dates of Boost, and that of a date-time.
pub record Calendar (s : Stdair) : Type 1 where
  pub Date : Type 0
  pub date : ℕ → ℕ → ℕ → Date
  pub date_of : s.Moment → Date
  pub date_eq : Date → Date → Bool

-- How the test case ends, when no exception leaves it.
pub data Verdict : Type 0 where
  passed : Verdict
  failed : Verdict

module _ (s : Stdair) where
  open s use {Event, get_event_type, get_event_time, brk_pt}

  -- `BOOST_REQUIRE_MESSAGE` ends the test case when its condition is false.
  abbrev pub require : Bool → Exec (Service s) Verdict → Exec (Service s) Verdict
  require true rest = rest
  require false rest = pure failed

  -- A call with an event of the test case, which is returned.
  abbrev pub hand_back : {A : Type 0} → Result (Session s) A → Result (Service s) Event
  hand_back (done a σ) = done σ.event σ.service
  hand_back (raised x σ) = raised x σ.service
  hand_back aborted = aborted
  hand_back undefined = undefined
  hand_back diverged = diverged

  unfoldable pub pop_event_into : Event → Exec (Service s) Event
  pop_event_into e v = hand_back (Service.pop_event s (record { service = v; event = e }))

  unfoldable pub run_into : Event → Exec (Service s) Event
  run_into e v = hand_back (Service.run s (record { service = v; event = e }))

  module _ (c : Calendar s) (e : Event) where
    -- The two runs, to the two break points; `e` is the event that an `EventStruct` starts with.
    unfoldable pub break_points_test : Exec (Service s) Verdict
    unfolding run_into
    break_points_test = do
      Service.build_sample_queue s
      first ← run_into e
      require (get_event_type first == brk_pt) (do
        second ← run_into first
        require (get_event_type second == brk_pt) (
            require (c.date_eq (c.date_of (get_event_time second)) (c.date 2011 5 14))
              (pure passed)))

    -- The first event of the sample, and the reset.
    unfoldable pub first_event_test : Exec (Service s) Verdict
    unfolding pop_event_into break_points_test
    first_event_test = do
      Service.build_sample_queue s
      first ← pop_event_into e
      require (c.date_eq (c.date_of (get_event_time first)) (c.date 2010 1 21))
          (do Service.reset s; is_done ← Service.is_queue_done s; require is_done break_points_test)

    -- The sample queue is played; the loop is that of the demonstration, with the fuel that it has
    -- there.
    unfoldable pub played_test : Exec (Service s) Verdict
    unfolding first_event_test
    played_test = do
      Service.build_sample_queue s
      size ← Service.get_queue_size s
      is_done ← Service.is_queue_done s
      require (not is_done) (do
        idx ← main_loop s e (suc (pos_part size)) (pos 1)
        count ← sub_count idx (pos 1)
        require (int_eq count size)
            (do is_done ← Service.is_queue_done s; require is_done first_event_test))

    unfoldable pub sevmgr_simple_simulation_test : s.Service → Result (Service s) Verdict
    unfolding played_test
    sevmgr_simple_simulation_test stdair =
        bind_result (new_service s stdair true)
          λ _. do is_done ← Service.is_queue_done s; require is_done played_test
