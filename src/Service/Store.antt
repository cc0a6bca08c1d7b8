-- ===== src/Service/Store.antt =====
-- sevmgr/factory/FacSEVMGRServiceContext.cpp and the constructors of
-- sevmgr/service/SEVMGR_Service.cpp: the service contexts as objects of the factory, which services
-- point to. StdAir destroys the contexts of a factory that it destroys; that happens at the end of
-- the program, and is left out.
pub mod Construction
pub mod Clients
pub mod Alone
pub mod Ownership
pub mod Apart
use sevmgr.Prelude.{
  ℕ, ◌+◌, Bool, true, false, Option, none, some, List, [], ◌∷◌, ◌++◌, length, get_elem?, set, Exec,
  Result, done, raised, aborted, undefined, diverged, pure, ◌>>=◌, ◌>>◌, modify, zoom,
}
use sevmgr.Stdair.{Stdair}
use sevmgr.Service.{
  Service, ServiceContext, Session, new_service_context, set_stdair_service, finalise,
}

module _ (s : Stdair) where
  open s use {Event}

  -- The contexts by their addresses; the factory `_instance`, if there is one, as its pool of
  -- addresses; and how many factories were registered with StdAir.
  pub record Store : Type 0 where
    pub contexts : List (ServiceContext s)
    pub factory : Option (List ℕ)
    pub registered : ℕ

  -- `FacSEVMGRServiceContext::instance`.
  unfoldable pub get_instance : Exec Store (Unit {0})
  get_instance st = elim st.factory [
    | none ↦ done tt (record st { factory = some []; registered = st.registered + 1 })
    | some pool ↦ done tt st
  ]

  -- `FacSEVMGRServiceContext::create`: a new context, whose address goes into the pool.
  unfoldable pub create : Exec Store ℕ
  unfolding new_service_context
  create st = elim st.factory [
    | none ↦ aborted
    | some pool ↦
        let address = length st.contexts in
        done address (record st {
          contexts = st.contexts ++ new_service_context s ∷ [];
          factory = some (pool ++ address ∷ []);
        })
  ]

  -- `FacSEVMGRServiceContext::~FacSEVMGRServiceContext`.
  unfoldable pub destroy_factory : Exec Store (Unit {0})
  destroy_factory = modify (λ st. record st { factory = none })

  -- A service while it is made: its pointer `_sevmgrServiceContext`, which is null at first.
  pub record Making : Type 0 where
    pub store : Store
    pub pointer : Option ℕ

  abbrev on_store : {A : Type 0} → Exec Store A → Exec Making A
  on_store = zoom (λ b. b.store) (λ b st. record b { store = st })

  unfoldable pub init_service_context : Exec Making (Unit {0})
  unfolding get_instance create
  init_service_context = do
    on_store get_instance
    address ← on_store create
    modify (λ b. record b { pointer = some address })

  -- The context behind a pointer; a null pointer and one that dangles have none.
  abbrev pub context_at : Store → Option ℕ → Option (ServiceContext s)
  context_at st none = none
  context_at st (some address) = get_elem? st.contexts address

  abbrev pub put_context : Store → Option ℕ → ServiceContext s → Store
  put_context st none c = st
  put_context st (some address) c = record st { contexts = set st.contexts address c }

  unfoldable pub add_stdair_service : Option s.Service → Bool → Exec Making (Unit {0})
  unfolding set_stdair_service
  add_stdair_service service own b = elim (context_at b.store b.pointer) [
    | none ↦ aborted
    | some c ↦
        done tt
          (record b { store = put_context b.store b.pointer (set_stdair_service s service own c) })
  ]

  -- `initStdAirService`: `made` is what the constructor of `stdair::STDAIR_Service` does with the
  -- parameters for the log and the database.
  unfoldable pub init_stdair_service : Result (Unit {0}) s.Service → Exec Making s.Service
  init_stdair_service (done service u) b = done service b
  init_stdair_service (raised x u) b = raised x b
  init_stdair_service aborted b = aborted
  init_stdair_service undefined b = undefined
  init_stdair_service diverged b = diverged

  unfoldable pub init_sevmgr_service : Exec Making (Unit {0})
  init_sevmgr_service = pure tt

  -- The constructors from the parameters, with those of the database or without: the service owns
  -- the StdAir service.
  unfoldable pub new_from_parameters : Result (Unit {0}) s.Service → Exec Making (Unit {0})
  unfolding init_stdair_service init_service_context add_stdair_service init_sevmgr_service
  new_from_parameters made = do
    service ← init_stdair_service made
    init_service_context
    add_stdair_service (some service) true
    init_sevmgr_service

  -- The constructor from a pointer to a StdAir service, which the service does not own.
  unfoldable pub new_from_service : Option s.Service → Exec Making (Unit {0})
  unfolding init_service_context add_stdair_service init_sevmgr_service
  new_from_service service = do
    init_service_context
    add_stdair_service service false
    init_sevmgr_service

  -- The default and the copy constructor are not to be used.
  unfoldable pub new_by_default : Exec Making (Unit {0})
  new_by_default b = aborted

  unfoldable pub new_copy : Option ℕ → Exec Making (Unit {0})
  new_copy other b = aborted

  -- The pointer of a service that is constructed.
  abbrev pub made_pointer : Result Making (Unit {0}) → Result Store (Option ℕ)
  made_pointer (done a b) = done b.pointer b.store
  made_pointer (raised x b) = raised x b.store
  made_pointer aborted = aborted
  made_pointer undefined = undefined
  made_pointer diverged = diverged

  abbrev pub construct : Exec Making (Unit {0}) → Exec Store (Option ℕ)
  construct m st = made_pointer (m (record { store = st; pointer = none }))

  -- The store beside the event of a caller, and the service behind a pointer in it.
  pub record Site : Type 0 where
    pub store : Store
    pub event : Event

  abbrev pub session_at : Option ℕ → Site → Session s
  session_at pointer site = record {
    service = record { context = context_at site.store pointer };
    event = site.event;
  }

  abbrev pub put_back : Store → Option ℕ → Option (ServiceContext s) → Store
  put_back st pointer none = st
  put_back st pointer (some c) = put_context st pointer c

  abbrev pub put_session : Option ℕ → Site → Session s → Site
  put_session pointer site σ = record {
    store = put_back site.store pointer σ.service.context;
    event = σ.event;
  }

  -- A method of the service that a pointer leads to.
  abbrev pub through : {A : Type 0} → Option ℕ → Exec (Session s) A → Exec Site A
  through pointer = zoom (session_at pointer) (put_session pointer)

  -- The same for a method without an event.
  abbrev pub on_service_at : {A : Type 0} → Option ℕ → Exec (Service s) A → Exec Store A
  on_service_at pointer =
      zoom (λ st. record { context = context_at st pointer })
        (λ st v. put_back st pointer v.context)

  -- The destructor, which resets the pointer to the StdAir service; the context stays in the pool.
  unfoldable pub destroy : Option ℕ → Exec Store (Unit {0})
  unfolding finalise
  destroy pointer = on_service_at pointer (finalise s)
