-- ===== src/Service/Store/Construction.antt =====
-- sevmgr/service/SEVMGR_Service.cpp and sevmgr/factory/FacSEVMGRServiceContext.cpp: what the
-- constructors of a service leave in the store.
use sevmgr.Prelude.{
  bind_result-done, ℕ, ◌+◌, ◌≡◌, refl, ap, Bool, true, false, Option, none, some, List, [], ◌∷◌,
  ◌++◌, length, done, get_elem?-append_length, set-append_length, ◌>>◌,
}
use sevmgr.Stdair.{Stdair}
use sevmgr.Service.{ServiceContext, new_service_context, set_stdair_service}
use sevmgr.Service.Store.{
  Store, init_service_context, add_stdair_service, init_sevmgr_service, new_from_parameters,
  new_from_service, construct, made_pointer,
}

module _ (s : Stdair) where
  -- The store with one context more, which the factory owns; the factory is made and registered if
  -- there is none.
  abbrev pub pool_of : Option (List ℕ) → List ℕ
  pool_of none = []
  pool_of (some pool) = pool

  abbrev pub registered_for : Option (List ℕ) → ℕ → ℕ
  registered_for none n = n + 1
  registered_for (some pool) n = n

  abbrev pub with_context : ServiceContext s → Store s → Store s
  with_context c st = record {
    contexts = st.contexts ++ c ∷ [];
    factory = some (pool_of st.factory ++ length st.contexts ∷ []);
    registered = registered_for st.factory st.registered;
  }

  init_of :
      (l : List (ServiceContext s)) (o : Option (List ℕ)) (n : ℕ)
      → init_service_context s
          (record { store = record { contexts = l; factory = o; registered = n }; pointer = none })
        ≡ done tt (record {
          store =
              with_context
                (new_service_context s)
                (record { contexts = l; factory = o; registered = n });
          pointer = some (length l);
        })
  unfolding init_service_context
  init_of l none n = refl
  init_of l (some pool) n = refl

  init_service_context-run :
      (st : Store s)
      → init_service_context s (record { store = st; pointer = none })
        ≡ done tt (record {
          store = with_context (new_service_context s) st;
          pointer = some (length st.contexts);
        })
  init_service_context-run st = init_of st.contexts st.factory st.registered

  add_stdair_service-run :
      (service : Option s.Service) (own : Bool) (st : Store s) (c : ServiceContext s)
      → add_stdair_service s service own
          (record { store = with_context c st; pointer = some (length st.contexts) })
        ≡ done tt (record {
          store = with_context (set_stdair_service s service own c) st;
          pointer = some (length st.contexts);
        })
  unfolding add_stdair_service
  add_stdair_service-run service own st c =
      rw (get_elem?-append_length st.contexts [] c, add_stdair_service)
        (rw (set-append_length st.contexts [] c (set_stdair_service s service own c)) refl)

  -- The context that a constructor leaves.
  abbrev pub made_context : Option s.Service → Bool → ServiceContext s
  made_context service own = set_stdair_service s service own (new_service_context s)

  run_both :
      (service : Option s.Service) (own : Bool) (st : Store s)
      → (init_service_context s >> (add_stdair_service s service own >> init_sevmgr_service s))
          (record { store = st; pointer = none })
        ≡ done tt (record {
          store = with_context (made_context service own) st;
          pointer = some (length st.contexts);
        })
  unfolding init_sevmgr_service
  run_both service own st =
      bind_result-done _ _ (init_service_context-run st)
        (bind_result-done _ _ (add_stdair_service-run service own st (new_service_context s)) refl)

  pub new_from_parameters-run :
      (service : s.Service) (st : Store s)
      → construct s (new_from_parameters s (done service tt)) st
        ≡ done (some (length st.contexts)) (with_context (made_context (some service) true) st)
  unfolding new_from_parameters
  new_from_parameters-run service st = ap (made_pointer s) (run_both (some service) true st)

  pub new_from_service-run :
      (service : Option s.Service) (st : Store s)
      → construct s (new_from_service s service) st
        ≡ done (some (length st.contexts)) (with_context (made_context service false) st)
  unfolding new_from_service
  new_from_service-run service st = ap (made_pointer s) (run_both service false st)
