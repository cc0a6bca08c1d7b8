-- ===== src/Service/Store/Apart.antt =====
-- sevmgr/service/SEVMGR_Service.cpp and sevmgr/factory/FacSEVMGRServiceContext.cpp: the clients of
-- several services do not see one another.
use sevmgr.Prelude.{
  ℕ, ◌≡◌, ◌≢◌, refl, sym, ◌∙◌, subst, arith, Bool, Option, none, some, List, [], ◌∷◌, ◌++◌, length,
  length-append, get_elem?-append_left, get_elem?-append_length, Exception, done, raised, aborted,
  undefined, diverged, All, All-map, All-split, All-join, zoom_result, true, false,
}
use sevmgr.Stdair.{Stdair}
use sevmgr.Service.{ServiceContext, finalise}
use sevmgr.Service.Requests.Histories.{EndsIn, Step, Reach, Reach-Leads}
use sevmgr.Service.Requests.Histories
use sevmgr.Service.Store.{
  Store, Site, construct, new_from_parameters, destroy, put_back, context_at,
}
use sevmgr.Service.Store.Construction.{
  with_context, made_context, new_from_parameters-run, new_from_service-run,
}
use sevmgr.Service.Store.Alone.{
  begun, IsAlone, DiffersAt, put_back-DiffersAt, session_of-others, Acts-IsAlone,
}
use sevmgr.Service.Store.Ownership.{IsOwned, differs-IsOwned, with_context-IsOwned}
use sevmgr.Service.Store.Clients.{
  Client, World, Acts, Way, with_parameters, with_service, constructor_of, Move, acts, joins, fails,
  leaves, Moves, here, next, empty_world, OthersThan, AreDistinct, AreDistinct-split,
  AreDistinct-join,
}

module _ (s : Stdair) where
  open s use {Event}

  -- No two clients share a pointer, and each is as if it were alone.
  pub record IsApart (w : World s) : Type 0 where
    pub distinct : AreDistinct s w.clients
    pub alone : All (IsAlone s w.store) w.clients
    pub owned : IsOwned s w.store.factory w.store.registered (length w.store.contexts)

  acts-IsApart :
      (w : World s) (before after : List (Client s)) (c : Client s) (site : Site s)
      → w.clients ≡ before ++ c ∷ after
      → Acts s c.pointer (record { store = w.store; event = c.event }) site
      → IsApart w
      → IsApart (record {
        store = site.store;
        clients = before ++ record { pointer = c.pointer; event = site.event } ∷ after;
      })
  acts-IsApart w before after c site e act a =
      let (others, distinct) =
        AreDistinct-split s before after c (subst (AreDistinct s) e a.distinct) in
      let (mine, rest) =
        All-split (IsAlone s w.store) before after c (subst (All (IsAlone s w.store)) e a.alone) in
      let (mine', differs) = Acts-IsAlone s w.store c site act mine in
      let c' : Client s = record { pointer = c.pointer; event = site.event } in
      record {
        distinct = AreDistinct-join s before after c' others distinct;
        alone = All-join (IsAlone s site.store) before after c' mine' (
            All-map (OthersThan s c) (IsAlone s w.store) (IsAlone s site.store) (before ++ after)
              (λ d other alone.
                session_of-others s c.pointer w.store site.store c d refl differs other alone)
              others rest);
        owned = differs-IsOwned s c.pointer w.store site.store differs a.owned;
      }

  leaves-IsApart :
      (w : World s) (before after : List (Client s)) (c : Client s) (st : Store s)
      → w.clients ≡ before ++ c ∷ after
      → DiffersAt s c.pointer w.store st
      → IsApart w
      → IsApart (record { store = st; clients = before ++ after })
  leaves-IsApart w before after c st e differs a =
      let (others, distinct) =
        AreDistinct-split s before after c (subst (AreDistinct s) e a.distinct) in
      let (mine, rest) =
        All-split (IsAlone s w.store) before after c (subst (All (IsAlone s w.store)) e a.alone) in
      record {
        distinct = distinct;
        alone =
            All-map (OthersThan s c) (IsAlone s w.store) (IsAlone s st) (before ++ after)
              (λ d other alone.
                session_of-others s c.pointer w.store st c d refl differs other alone)
              others rest;
        owned = differs-IsOwned s c.pointer w.store st differs a.owned;
      }

  destroy_at :
      (p : ℕ) (st st' : Store s) (o : Option (ServiceContext s))
      → zoom_result
          (λ u v. put_back s u (some p) v.context)
          st
          (finalise s (record { context = o }))
        ≡ done tt st'
      → DiffersAt s p st st'
  unfolding finalise
  destroy_at p st st' none h = cc
  destroy_at p st st' (some c) h =
      let o = some (record c { stdair_service = none }) in
      let same : put_back s st (some p) o ≡ st' = cc in
      subst (DiffersAt s p st) same (put_back-DiffersAt s p st o)

  destroy-DiffersAt :
      (p : ℕ) (st st' : Store s) → destroy s (some p) st ≡ done tt st' → DiffersAt s p st st'
  unfolding destroy
  destroy-DiffersAt p st st' h = destroy_at p st st' (context_at s st (some p)) h

  -- A new context has a new address.
  grown :
      (st : Store s) (x : ServiceContext s) (c : Client s)
      → IsAlone s st c
      → IsAlone s (with_context s x st) c × (c.pointer ≢ length st.contexts)
  grown st x c a = (
    record {
      service = a.service;
      own = a.own;
      first = a.first;
      allocated = omega (arith, a.allocated, length-append st.contexts (x ∷ []));
      history =
          subst
            (λ o.
              Reach s (begun s a.service a.own a.first)
                (record { service = record { context = o }; event = c.event }))
            (sym (get_elem?-append_left st.contexts (x ∷ []) c.pointer a.allocated)) a.history;
    },
    omega (arith, a.allocated),
  )

  joined :
      (w : World s) (service : Option s.Service) (own : Bool) (e : Event)
      → IsApart w
      → IsApart (record {
        store = with_context s (made_context s service own) w.store;
        clients = record { pointer = length w.store.contexts; event = e } ∷ w.clients;
      })
  unfolding begun
  joined w service own e a =
      let x = made_context s service own in
      let st = with_context s x w.store in
      let new : Client s = record { pointer = length w.store.contexts; event = e } in
      record {
        distinct = (
          All-map (IsAlone s w.store) (IsAlone s w.store) (OthersThan s new) w.clients
              (λ c alone _. (grown w.store x c alone).1) a.alone a.alone,
          a.distinct,
        );
        alone = (
          record {
            service = service;
            own = own;
            first = e;
            allocated = omega (arith, length-append w.store.contexts (x ∷ []));
            history =
                subst
                  (λ o.
                    Reach s (begun s service own e)
                      (record { service = record { context = o }; event = e }))
                  (sym (get_elem?-append_length w.store.contexts [] x)) Histories.here;
          },
          All-map (IsAlone s w.store) (IsAlone s w.store) (IsAlone s st) w.clients
              (λ c alone _. (grown w.store x c alone).0) a.alone a.alone,
        );
        owned = with_context-IsOwned s w.store x a.owned;
      }

  joins-IsApart :
      (w : World s) (service : Option s.Service) (own : Bool) (e : Event) (p : ℕ) (st : Store s)
      → done (some (length w.store.contexts)) (with_context s (made_context s service own) w.store)
        ≡ done (some p) st
      → IsApart w
      → IsApart (record { store = st; clients = record { pointer = p; event = e } ∷ w.clients })
  joins-IsApart w service own e p st h a =
      let same_store : with_context s (made_context s service own) w.store ≡ st = cc in
      let same_pointer : length w.store.contexts ≡ p = cc in
      subst
        (λ t.
          IsApart (record { store = t; clients = record { pointer = p; event = e } ∷ w.clients }))
        same_store
        (subst
          (λ k. IsApart (record {
            store = with_context s (made_context s service own) w.store;
            clients = record { pointer = k; event = e } ∷ w.clients;
          }))
          same_pointer (joined w service own e a))

  -- A constructor that throws leaves the store as it was.
  failed :
      (way : Way s) (x : Exception) (st st' : Store s)
      → construct s (constructor_of s way) st ≡ raised x st'
      → st ≡ st'
  unfolding constructor_of new_from_parameters
  failed (with_parameters (done service u)) x st st' h =
      let made = new_from_parameters-run s service st in cc
  failed (with_parameters (raised y u)) x st st' h = cc
  failed (with_parameters aborted) x st st' h = cc
  failed (with_parameters undefined) x st st' h = cc
  failed (with_parameters diverged) x st st' h = cc
  failed (with_service service) x st st' h = let made = new_from_service-run s service st in cc

  made-IsApart :
      (w : World s) (way : Way s) (e : Event) (p : ℕ) (st : Store s)
      → construct s (constructor_of s way) w.store ≡ done (some p) st
      → IsApart w
      → IsApart (record { store = st; clients = record { pointer = p; event = e } ∷ w.clients })
  unfolding constructor_of new_from_parameters
  made-IsApart w (with_parameters (done service u)) e p st h a =
      joins-IsApart w (some service) true e p st
        (sym (new_from_parameters-run s service w.store) ∙ h) a
  made-IsApart w (with_parameters (raised y u)) e p st h a = cc
  made-IsApart w (with_parameters aborted) e p st h a = cc
  made-IsApart w (with_parameters undefined) e p st h a = cc
  made-IsApart w (with_parameters diverged) e p st h a = cc
  made-IsApart w (with_service service) e p st h a =
      joins-IsApart w service false e p st (sym (new_from_service-run s service w.store) ∙ h) a

  Move-IsApart : {w w' : World s} → Move s w w' → IsApart w → IsApart w'
  Move-IsApart {w} {w'} (acts before after c site e act same) a =
      subst IsApart same (acts-IsApart w before after c site e act a)
  Move-IsApart {w} {w'} (joins way e p st h same) a =
      subst IsApart same (made-IsApart w way e p st h a)
  Move-IsApart {w} {w'} (fails way x st h same) a = subst IsApart same (
      subst (λ t. IsApart (record { store = t; clients = w.clients })) (failed way x w.store st h)
        a)
  Move-IsApart {w} {w'} (leaves before after c st e h same) a =
      subst IsApart same
        (leaves-IsApart w before after c st e (destroy-DiffersAt c.pointer w.store st h) a)

  -- However the clients of several services interleave, who join, also by a constructor that
  -- throws, make requests, write their events and leave, from a program without a service: no two
  -- clients share a service context, and each is in a state that it reaches by requests and writes
  -- of its own alone, from a context that was just made; the factory has been registered with
  -- StdAir once, and owns as many contexts as were made, or there is neither.
  pub Moves-IsApart : (w : World s) → Moves s (empty_world s) w → IsApart w
  Moves-IsApart w here = record { distinct = tt; alone = tt; owned = (refl, refl) }
  Moves-IsApart w (next {u} ms m) = Move-IsApart m (Moves-IsApart u ms)
