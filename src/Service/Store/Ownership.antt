-- ===== src/Service/Store/Ownership.antt =====
-- sevmgr/service/SEVMGR_Service.cpp and sevmgr/factory/FacSEVMGRServiceContext.cpp: the factory
-- and the contexts that it owns.
use sevmgr.Prelude.{
  ℕ, ◌+◌, ◌≡◌, sym, subst, arith, Option, none, some, List, [], ◌∷◌, ◌++◌, length, length-append,
}
use sevmgr.Stdair.{Stdair}
use sevmgr.Service.{ServiceContext}
use sevmgr.Service.Store.{Store}
use sevmgr.Service.Store.Construction.{pool_of, registered_for, with_context}
use sevmgr.Service.Store.Alone.{DiffersAt}

module _ (s : Stdair) where
  -- The factory is registered once, and owns each context that was made; without a factory there is
  -- none.
  abbrev pub IsOwned : Option (List ℕ) → ℕ → ℕ → Type 0
  IsOwned none registered n = (registered ≡ 0) × (n ≡ 0)
  IsOwned (some pool) registered n = (registered ≡ 1) × (length pool ≡ n)

  pub differs-IsOwned :
      (p : ℕ) (st st' : Store s)
      → DiffersAt s p st st'
      → IsOwned st.factory st.registered (length st.contexts)
      → IsOwned st'.factory st'.registered (length st'.contexts)
  differs-IsOwned p st st' differs o =
      subst (λ n. IsOwned st'.factory st'.registered n) (sym differs.size)
        (subst (λ n. IsOwned st'.factory n (length st.contexts)) (sym differs.same_registered)
          (subst (λ f. IsOwned f st.registered (length st.contexts)) (sym differs.same_factory) o))

  pool_grows :
      (f : Option (List ℕ)) (registered n : ℕ)
      → IsOwned f registered n
      → IsOwned (some (pool_of s f ++ n ∷ [])) (registered_for s f registered) (n + 1)
  pool_grows none registered n o = (omega arith, omega arith)
  pool_grows (some pool) registered n o = (o.0, omega (arith, o.1, length-append pool (n ∷ [])))

  pub with_context-IsOwned :
      (st : Store s) (x : ServiceContext s)
      → IsOwned st.factory st.registered (length st.contexts)
      → IsOwned
          (with_context s x st).factory
          (with_context s x st).registered
          (length (with_context s x st).contexts)
  with_context-IsOwned st x o =
      subst (IsOwned (with_context s x st).factory (with_context s x st).registered)
        (sym (length-append st.contexts (x ∷ [])))
        (pool_grows st.factory st.registered (length st.contexts) o)
