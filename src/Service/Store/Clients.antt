-- ===== src/Service/Store/Clients.antt =====
-- sevmgr/service/SEVMGR_Service.cpp and sevmgr/factory/FacSEVMGRServiceContext.cpp: several
-- clients, each with a service of its own, whose calls interleave.
use sevmgr.Prelude.{
  ℕ, ◌≡◌, ◌≢◌, sym, Option, none, some, List, [], ◌∷◌, ◌++◌, Exec, Exception, Result, done, raised,
  All, All-split, All-join,
}
use sevmgr.Stdair.{Stdair}
use sevmgr.Service.Requests.{Request, perform}
use sevmgr.Service.Requests.Histories.{EndsIn}
use sevmgr.Service.Store.{
  Store, Site, Making, through, construct, new_from_parameters, new_from_service, destroy,
}

module _ (s : Stdair) where
  open s use {Event}

  -- A client: the pointer of its service, and the event that it passes by reference.
  pub record Client : Type 0 where
    pub pointer : ℕ
    pub event : Event

  pub record World : Type 0 where
    pub store : Store s
    pub clients : List Client

  -- A request of a client, whose exception it may catch, or a write to its event.
  pub data Acts (pointer : ℕ) (site site' : Site s) : Type 0 where
    asks :
        (r : Request s)
        → EndsIn s (through s (some pointer) (perform s r) site) site'
        → Acts pointer site site'
    writes : (e : Event) → record site { event = e } ≡ site' → Acts pointer site site'

  -- The constructors that a client may call.
  pub data Way : Type 0 where
    with_parameters : Result (Unit {0}) s.Service → Way
    with_service : Option s.Service → Way

  unfoldable pub constructor_of : Way → Exec (Making s) (Unit {0})
  constructor_of (with_parameters made) = new_from_parameters s made
  constructor_of (with_service service) = new_from_service s service

  -- One move: of a client, of one that joins with a new service or fails to make it, or of one that
  -- leaves and destroys its service.
  pub data Move (w w' : World) : Type 0 where
    acts :
        (before after : List Client) (c : Client) (site : Site s)
        → w.clients ≡ before ++ c ∷ after
        → Acts c.pointer (record { store = w.store; event = c.event }) site
        → record {
          store = site.store;
          clients = before ++ record { pointer = c.pointer; event = site.event } ∷ after;
        }
          ≡ w'
        → Move w w'
    joins :
        (way : Way) (e : Event) (pointer : ℕ) (st : Store s)
        → construct s (constructor_of way) w.store ≡ done (some pointer) st
        → record { store = st; clients = record { pointer = pointer; event = e } ∷ w.clients } ≡ w'
        → Move w w'
    fails :
        (way : Way) (x : Exception) (st : Store s)
        → construct s (constructor_of way) w.store ≡ raised x st
        → record { store = st; clients = w.clients } ≡ w'
        → Move w w'
    leaves :
        (before after : List Client) (c : Client) (st : Store s)
        → w.clients ≡ before ++ c ∷ after
        → destroy s (some c.pointer) w.store ≡ done tt st
        → record { store = st; clients = before ++ after } ≡ w'
        → Move w w'

  pub data Moves (w : World) : World → Type 0 where
    here : Moves w w
    next : {u v : World} → Moves w u → Move u v → Moves w v

  -- No client, and no factory.
  abbrev pub empty_world : World
  empty_world = record {
    store = record { contexts = []; factory = none; registered = 0 };
    clients = [];
  }

  -- No two clients have the same pointer.
  abbrev pub OthersThan : Client → Client → Type 0
  OthersThan c d = d.pointer ≢ c.pointer

  abbrev pub AreDistinct : List Client → Type 0
  AreDistinct [] = Unit {0}
  AreDistinct (c ∷ cs) = All (OthersThan c) cs × AreDistinct cs

  pub AreDistinct-split :
      (xs ys : List Client) (c : Client)
      → AreDistinct (xs ++ c ∷ ys)
      → All (OthersThan c) (xs ++ ys) × AreDistinct (xs ++ ys)
  AreDistinct-split [] ys c h = h
  AreDistinct-split (x ∷ xs) ys c h =
      let (others, rest) = AreDistinct-split xs ys c h.1 in
      let (other, apart) = All-split (OthersThan x) xs ys c h.0 in
      (((λ e. other (sym e)), others), (apart, rest))

  pub AreDistinct-join :
      (xs ys : List Client) (c : Client)
      → All (OthersThan c) (xs ++ ys)
      → AreDistinct (xs ++ ys)
      → AreDistinct (xs ++ c ∷ ys)
  AreDistinct-join [] ys c others h = (others, h)
  AreDistinct-join (x ∷ xs) ys c others h = (
    All-join (OthersThan x) xs ys c (λ e. others.0 (sym e)) h.0,
    AreDistinct-join xs ys c others.1 h.1,
  )
