-- ===== src/Service/Contexts.antt =====
-- sevmgr/service/SEVMGR_ServiceContext.cpp and .hpp: the getters and the texts of a context.
use sevmgr.Prelude.{
  Bool, true, false, Option, none, some, List, [], ◌++◌, ℕ, codes, Exec, dereference,
}
use sevmgr.Stdair.{Stdair}
use sevmgr.EventQueue.{EventQueue}
use sevmgr.EventQueue.Display
use sevmgr.Service.{ServiceContext}

module _ (s : Stdair) where
  open s use {Service}

  unfoldable pub get_stdair_service_ptr : ServiceContext s → Option Service
  get_stdair_service_ptr c = c.stdair_service

  -- The reference, which a null pointer does not give.
  unfoldable pub get_stdair_service : Exec (ServiceContext s) Service
  get_stdair_service c = dereference c.stdair_service c

  unfoldable pub get_own_stdair_service_flag : ServiceContext s → Bool
  get_own_stdair_service_flag c = c.own_stdair_service

  -- A `bool` in a stream.
  abbrev flag_text : Bool → List ℕ
  flag_text true = codes "1"
  flag_text false = codes "0"

  abbrev queue_text : Option (EventQueue s) → List ℕ
  queue_text none = []
  queue_text (some q) = codes " -- Queue: " ++ Display.to_string s q

  unfoldable pub short_display : ServiceContext s → List ℕ
  short_display c =
      codes "SEVMGR_ServiceContext -- Owns StdAir service: "
      ++ (flag_text c.own_stdair_service ++ queue_text c.event_queue)

  unfoldable pub display : ServiceContext s → List ℕ
  display c = short_display c

  unfoldable pub describe : ServiceContext s → List ℕ
  describe c = short_display c
