-- ===== src/EventQueueManagementTestSuite/Calls.antt =====
-- test/sevmgr/EventQueueManagementTestSuite.cpp: its calls of a service that has a queue, and its
-- checks.
use sevmgr.Prelude.{
  ℕ, ◌+◌, ◌<◌, ◌≡◌, ap, ◌∙◌, Bool, true, pos, arith, Exec, Result, done, sub_count, ◌-ℤ◌, fits_int,
}
use sevmgr.Stdair.{Stdair}
use sevmgr.EventQueue.{EventQueue, Frame}
use sevmgr.EventQueueManager
use sevmgr.Service
use sevmgr.Service.{Service, Session, ServiceContext, new_service}
use sevmgr.Service.Serving.{serving, on_frame-serving}
use sevmgr.EventQueueManagementTestSuite.{Verdict, require, hand_back, pop_event_into, run_into}

module _ (s : Stdair) where
  open s use {Event, get_event_type, get_event_time, bkg_req, brk_pt, midnight, break_point_event}

  -- The calls of the test case on a service that has a queue.
  pub run_into-serving :
      (c : ServiceContext s) (q : EventQueue s) (e : Event) (g : Frame s)
      → EventQueueManager.run s (record { queue = q; event = e }) ≡ done tt g
      → run_into s e (serving s c q) ≡ done g.event (serving s c g.queue)
  unfolding run_into Service.run
  run_into-serving c q e g h =
      ap (hand_back s)
        (on_frame-serving s (EventQueueManager.run s) c (record { queue = q; event = e }) g tt h)

  pub pop_event_into-serving :
      (c : ServiceContext s) (q : EventQueue s) (e : Event) (ps : s.StatusSet) (g : Frame s)
      → EventQueueManager.pop_event s (record { queue = q; event = e }) ≡ done ps g
      → pop_event_into s e (serving s c q) ≡ done g.event (serving s c g.queue)
  unfolding pop_event_into Service.pop_event
  pop_event_into-serving c q e ps g h = ap (hand_back s) (
      on_frame-serving s (EventQueueManager.pop_event s) c (record { queue = q; event = e }) g ps h)

  -- A check that holds.
  pub required :
      {o : Result (Service s) Verdict} (b : Bool) (rest : Exec (Service s) Verdict) (v : Service s)
      → b ≡ true
      → rest v ≡ o
      → require s b rest v ≡ o
  required b rest v h k = ap (λ b. require s b rest v) h ∙ k

  -- The counter of the loop, compensated for its last iteration.
  pub count_down :
      (n : ℕ) (v : Service s) → n < 2147483648 → sub_count (pos (1 + n)) (pos 1) v ≡ done (pos n) v
  unfolding ◌-ℤ◌ fits_int
  count_down n v fits = ground arith
