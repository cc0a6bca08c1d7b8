-- ===== src/Tests/Store.antt =====
-- Two services, one that owns its StdAir service and one that does not, and what their clients do.
use sevmgr.Prelude.{◌≡◌, refl, true, false, none, some, [], ◌∷◌, ◌+ℤ◌, pos, codes, done, fits_int}
use sevmgr.OrderedMap.{find, insert}
use sevmgr.EventQueue.{EventQueue, new_event_queue}
use sevmgr.EventQueue.Statuses
use sevmgr.EventQueueManager
use sevmgr.Service
use sevmgr.Service.{ServiceContext}
use sevmgr.Service.Requests.{perform, adds_status}
use sevmgr.Service.Store
use sevmgr.Service.Store.{Store, Site, get_instance, create, through, construct, destroy}
use sevmgr.Service.Store.Clients.{
  Client, World, asks, with_parameters, with_service, constructor_of, acts, joins, leaves, Moves,
  here, next, empty_world,
}
use sevmgr.Service.Store.Apart.{IsApart, Moves-IsApart}
use sevmgr.Tests.Samples.{stdair, status, new_event, break_point}

abbrev new_queue : EventQueue stdair
new_queue = record {
  key = codes "EQ01";
  event_list = [];
  progress_status = status 0 0;
  progress_status_map = [];
}

abbrev owning : EventQueue stdair → ServiceContext stdair
owning q = record { stdair_service = some tt; own_stdair_service = true; event_queue = some q }

abbrev sharing : ServiceContext stdair
sharing = record {
  stdair_service = some tt;
  own_stdair_service = false;
  event_queue = some new_queue;
}

abbrev one_type : EventQueue stdair
one_type = record {
  key = codes "EQ01";
  event_list = [];
  progress_status = status 0 2;
  progress_status_map = (0, status 0 2) ∷ [];
}

abbrev first_client : Client stdair
first_client = record { pointer = 0; event = new_event }

abbrev second_client : Client stdair
second_client = record { pointer = 1; event = break_point }

abbrev one_service : World stdair
one_service = record {
  store = record { contexts = owning new_queue ∷ []; factory = some (0 ∷ []); registered = 1 };
  clients = first_client ∷ [];
}

abbrev two_services : World stdair
two_services = record {
  store = record {
    contexts = owning new_queue ∷ sharing ∷ [];
    factory = some (0 ∷ 1 ∷ []);
    registered = 1;
  };
  clients = second_client ∷ first_client ∷ [];
}

abbrev first_acted : World stdair
first_acted = record two_services {
  store = record two_services.store { contexts = owning one_type ∷ sharing ∷ [] };
}

-- The second client destroys its service; the context stays.
abbrev second_left : World stdair
second_left = record {
  store = record two_services.store {
    contexts = owning one_type ∷ record sharing { stdair_service = none } ∷ [];
  };
  clients = first_client ∷ [];
}

first_joins :
    construct stdair
      (constructor_of stdair (with_parameters (done tt tt)))
      (empty_world stdair).store
    ≡ done (some 0) one_service.store
unfolding constructor_of Store.new_from_parameters new_event_queue
first_joins = refl

second_joins :
    construct stdair (constructor_of stdair (with_service (some tt))) one_service.store
    ≡ done (some 1) two_services.store
unfolding constructor_of Store.new_from_service new_event_queue
second_joins = refl

second_leaves : destroy stdair (some 1) first_acted.store ≡ done tt second_left.store
unfolding destroy
second_leaves = refl

moves : Moves stdair (empty_world stdair) second_left
unfolding perform Service.add_status EventQueueManager.add_status Statuses.add_status fits_int
    Statuses.update_status find insert ◌+ℤ◌
moves =
    next
      (next
        (next (next here (joins (with_parameters (done tt tt)) new_event 0 _ first_joins refl))
          (joins (with_service (some tt)) break_point 1 _ second_joins refl))
        (acts (second_client ∷ []) [] first_client
          (record { store = first_acted.store; event = new_event }) refl
          (asks (adds_status 0 (pos 2)) refl) refl))
      (leaves [] (first_client ∷ []) second_client _ refl second_leaves refl)

Moves-IsApart_example : IsApart stdair second_left
Moves-IsApart_example = Moves-IsApart stdair second_left moves
