-- ===== src/Tests/Client.antt =====
-- A client of the service, on the small StdAir.
use sevmgr.Prelude.{arith, refl, true, some, [], ◌∷◌, ◌+ℤ◌, pos, codes, fits_int}
use sevmgr.OrderedMap.{find, insert, update}
use sevmgr.EventQueue.{EventQueue, new_event_queue, is_queue_done}
use sevmgr.EventQueue.Statuses
use sevmgr.EventQueue.Events
use sevmgr.EventQueueManager
use sevmgr.Service
use sevmgr.Service.{Service, Session, new_service}
use sevmgr.Service.Keeping.{SessionIsValid}
use sevmgr.Service.Requests.{perform, adds_status, adds, runs}
use sevmgr.Service.Requests.Histories.{
  EndsIn, Reach, additions, here, next, asks, writes, fresh-Reach-IsValid,
}
use sevmgr.Service.Refinement.{Refines, fresh-Reach-Refines}
use sevmgr.Service.Bounds.{SessionIsWithin, fresh-Reach-IsWithin}
use sevmgr.Tests.Samples.{statuses, stdair, SampleEvent, status, new_event, break_point}

abbrev session : EventQueue stdair → SampleEvent → Session stdair
session q e = record {
  service = record {
    context =
        some (record { stdair_service = some tt; own_stdair_service = true; event_queue = some q });
  };
  event = e;
}

abbrev started : Session stdair
started =
    session
      (record {
        key = codes "EQ01";
        event_list = [];
        progress_status = status 0 0;
        progress_status_map = [];
      })
      new_event

abbrev one_type : Session stdair
one_type =
    session
      (record {
        key = codes "EQ01";
        event_list = [];
        progress_status = status 0 2;
        progress_status_map = (0, status 0 2) ∷ [];
      })
      new_event

abbrev one_event : Session stdair
one_event =
    session
      (record {
        key = codes "EQ01";
        event_list = (10, new_event) ∷ [];
        progress_status = status 0 2;
        progress_status_map = (0, status 0 2) ∷ [];
      })
      new_event

-- The service is given a type, an event of that type and an event of another type.
abbrev two_events : Session stdair
two_events =
    session
      (record {
        key = codes "EQ01";
        event_list = (10, new_event) ∷ (12, break_point) ∷ [];
        progress_status = status 0 2;
        progress_status_map = (0, status 0 2) ∷ [];
      })
      break_point

-- `run` plays the first event and throws at the second one.
abbrev ended : Session stdair
ended =
    session
      (record {
        key = codes "EQ01";
        event_list = [];
        progress_status = status 2 2;
        progress_status_map = (0, status 1 2) ∷ [];
      })
      break_point

adds_type : EndsIn stdair (perform stdair (adds_status 0 (pos 2)) started) one_type
unfolding perform Service.add_status EventQueueManager.add_status Statuses.add_status fits_int
    Statuses.update_status find insert ◌+ℤ◌
adds_type = refl

adds_event : EndsIn stdair (perform stdair adds one_type) one_event
unfolding perform Service.add_event EventQueueManager.add_event Events.add_event Events.insert_loop
    insert
adds_event = refl

adds_break :
    EndsIn stdair (perform stdair adds (record one_event { event = break_point })) two_events
unfolding perform Service.add_event EventQueueManager.add_event Events.add_event Events.insert_loop
    insert
adds_break = refl

runs_all : EndsIn stdair (perform stdair runs two_events) ended
unfolding perform Service.run EventQueueManager.run EventQueueManager.run_loop is_queue_done
    Events.pop_event Events.pop_from Events.count_pop find Events.take_event update ◌+ℤ◌
runs_all = refl

before : Reach stdair started two_events
before =
    next
      (next (next (next here (asks (adds_status 0 (pos 2)) adds_type)) (asks adds adds_event))
        (writes break_point refl))
      (asks adds adds_break)

history : Reach stdair started ended
history = next before (asks runs runs_all)

fresh-Reach-Refines_example : Refines stdair runs two_events ended
unfolding new_service new_event_queue
fresh-Reach-Refines_example =
    fresh-Reach-Refines stdair tt true new_event started.service two_events ended runs refl before
      runs_all

fresh-Reach-IsValid_example : SessionIsValid stdair ended
unfolding new_service new_event_queue
fresh-Reach-IsValid_example =
    fresh-Reach-IsValid stdair tt true new_event started.service ended refl history

-- Two events were asked for, and both were played.
fresh-Reach-IsWithin_example : SessionIsWithin stdair 2 ended
unfolding new_service new_event_queue additions history before
fresh-Reach-IsWithin_example =
    fresh-Reach-IsWithin stdair tt true new_event started.service ended statuses refl history
      (omega arith)
