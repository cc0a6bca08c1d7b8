-- ===== src/Service/Store/Alone.antt =====
-- sevmgr/service/SEVMGR_Service.cpp and sevmgr/factory/FacSEVMGRServiceContext.cpp: a client in a
-- store with the contexts of others.
use sevmgr.Prelude.{
  ℕ, ◌<◌, ◌≡◌, ◌≢◌, refl, sym, ap, ◌∙◌, subst, arith, Bool, Option, none, some, length, get_elem?,
  length-set, get_elem?-set_ne, get_elem?-set_self, Result, done, raised, aborted, undefined,
  diverged, zoom_result,
}
use sevmgr.Stdair.{Stdair}
use sevmgr.EventQueue.{default_event_queue_id}
use sevmgr.EventQueue.Validity.{IsValid, new_event_queue-IsValid}
use sevmgr.EventQueueManager.Validity.{IsValid-IsGraded}
use sevmgr.Service.{Session, ServiceContext, new_service_context, set_stdair_service}
use sevmgr.Service.Keeping.{OnContext, SessionIsValid}
use sevmgr.Service.Requests.{perform}
use sevmgr.Service.Requests.Histories.{EndsIn, Step, Reach, Reach-Leads}
use sevmgr.Service.Requests.Histories
use sevmgr.Service.Store.{Store, Site, session_at, put_session, put_back, context_at}
use sevmgr.Service.Store.Construction.{made_context}
use sevmgr.Service.Store.Clients.{Client, Acts, asks, writes, OthersThan}

module _ (s : Stdair) where
  open s use {Event}

  -- The session of a client with a service that is just made.
  unfoldable pub begun : Option s.Service → Bool → Event → Session s
  unfolding new_service_context set_stdair_service
  begun service own e = record {
    service = record { context = some (made_context s service own) };
    event = e;
  }

  pub begun-IsValid :
      (service : Option s.Service) (own : Bool) (e : Event) → SessionIsValid s (begun service own e)
  unfolding begun new_service_context set_stdair_service
  begun-IsValid service own e = new_event_queue-IsValid s (default_event_queue_id s)

  -- The session of a client in a store, and the histories that lead to it when the client is alone
  -- with its service.
  abbrev pub session_of : Store s → Client s → Session s
  session_of st c = session_at s (some c.pointer) (record { store = st; event = c.event })

  pub record IsAlone (st : Store s) (c : Client s) : Type 0 where
    pub service : Option s.Service
    pub own : Bool
    pub first : Event
    pub allocated : c.pointer < length st.contexts
    pub history : Reach s (begun service own first) (session_of st c)

  -- A store that differs from another behind one pointer at most.
  pub record DiffersAt (p : ℕ) (st st' : Store s) : Type 0 where
    pub size : length st'.contexts ≡ length st.contexts
    pub same_factory : st'.factory ≡ st.factory
    pub same_registered : st'.registered ≡ st.registered
    pub others : (q : ℕ) → q ≢ p → get_elem? st'.contexts q ≡ get_elem? st.contexts q

  pub put_back-DiffersAt :
      (p : ℕ) (st : Store s) (o : Option (ServiceContext s))
      → DiffersAt p st (put_back s st (some p) o)
  put_back-DiffersAt p st none = record {
    size = refl;
    same_factory = refl;
    same_registered = refl;
    others = λ q h. refl;
  }
  put_back-DiffersAt p st (some c) = record {
    size = length-set st.contexts p c;
    same_factory = refl;
    same_registered = refl;
    others = λ q h. get_elem?-set_ne st.contexts p q c (λ e. h (sym e));
  }

  -- Then the clients of other pointers have the same session.
  pub session_of-others :
      (p : ℕ) (st st' : Store s) (c d : Client s)
      → c.pointer ≡ p
      → DiffersAt p st st'
      → OthersThan s c d
      → IsAlone st d
      → IsAlone st' d
  session_of-others p st st' c d same differs other a = record {
    service = a.service;
    own = a.own;
    first = a.first;
    allocated = omega (arith, a.allocated, differs.size);
    history =
        subst
          (λ o.
            Reach s (begun a.service a.own a.first)
              (record { service = record { context = o }; event = d.event }))
          (sym (differs.others d.pointer (λ e. other (e ∙ sym same)))) a.history;
  }

  -- A method through a pointer ends as the method on the session does.
  EndsIn-through :
      {A : Type 0} (p : Option ℕ) (site site' : Site s) (r : Result (Session s) A)
      → EndsIn s (zoom_result (put_session s p) site r) site'
      → (τ : Session s) × EndsIn s r τ × (put_session s p site τ ≡ site')
  EndsIn-through p site site' (done a τ) h = (τ, refl, h)
  EndsIn-through p site site' (raised x τ) h = (τ, refl, h)
  EndsIn-through p site site' aborted h = absurd h
  EndsIn-through p site site' undefined h = absurd h
  EndsIn-through p site site' diverged h = absurd h

  -- A session that has a context is read back as it was written.
  read_context :
      (p : ℕ) (st : Store s) (o : Option (ServiceContext s))
      → p < length st.contexts
      → OnContext s ⊥ (IsValid s) o
      → context_at s (put_back s st (some p) o) (some p) ≡ o
  read_context p st none h v = absurd v
  read_context p st (some c) h v = get_elem?-set_self st.contexts p c h

  read_back :
      (p : ℕ) (site : Site s) (τ : Session s)
      → p < length site.store.contexts
      → SessionIsValid s τ
      → session_at s (some p) (put_session s (some p) site τ) ≡ τ
  read_back p site τ h v =
      ap (λ o. record { service = record { context = o }; event = τ.event })
        (read_context p site.store τ.service.context h v)

  -- What an action of a client does: for the client a step of its own history, for the others
  -- nothing.
  pub Acts-IsAlone :
      (st : Store s) (c : Client s) (site : Site s)
      → Acts s c.pointer (record { store = st; event = c.event }) site
      → IsAlone st c
      → IsAlone site.store (record { pointer = c.pointer; event = site.event })
        × DiffersAt c.pointer st site.store
  Acts-IsAlone st c site (asks r h) a =
      let before : Site s = record { store = st; event = c.event } in
      let (τ, ends, put) =
        EndsIn-through (some c.pointer) before site (perform s r (session_of st c)) h in
      let history = Histories.next a.history (Histories.asks r ends) in
      let valid =
        Reach-Leads s (IsValid-IsGraded s) ⊥ history (begun-IsValid a.service a.own a.first) in
      let differs = put_back-DiffersAt c.pointer st τ.service.context in
      subst
        (λ t.
          IsAlone t.store (record { pointer = c.pointer; event = t.event })
          × DiffersAt c.pointer st t.store)
        put
        (
          record {
            service = a.service;
            own = a.own;
            first = a.first;
            allocated = omega (arith, a.allocated, differs.size);
            history =
                subst (Reach s (begun a.service a.own a.first))
                  (sym (read_back c.pointer before τ a.allocated valid)) history;
          },
          differs,
        )
  Acts-IsAlone st c site (writes e h) a =
      subst
        (λ t.
          IsAlone t.store (record { pointer = c.pointer; event = t.event })
          × DiffersAt c.pointer st t.store)
        h
        (
          record {
            service = a.service;
            own = a.own;
            first = a.first;
            allocated = a.allocated;
            history = Histories.next a.history (Histories.writes e refl);
          },
          record { size = refl; same_factory = refl; same_registered = refl; others = λ q k. refl },
        )
