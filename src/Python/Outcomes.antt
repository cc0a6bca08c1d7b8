-- ===== src/Python/Outcomes.antt =====
-- sevmgr/python/pysevmgr.cpp: `init` on a new object, and `sevmgr` after it.
use sevmgr.Prelude.{
  ℕ, ◌≡◌, ◌≢◌, refl, ap, Bool, true, false, none, some, List, [], ◌∷◌, length, Exec, Exception,
  Result, done, raised, pure, ◌>>=◌, bind_result,
}
use sevmgr.Stdair.{Stdair}
use sevmgr.Service.{Service}
use sevmgr.Service.Store.{Store, new_from_parameters, on_service_at}
use sevmgr.Service.Store.Construction.{with_context, made_context, new_from_parameters-run}
use sevmgr.Python.{
  Binding, new_manager, init, run_sevmgr, no_log_text, no_service_text, after_new, after_build,
}

module _ (s : Stdair) where
  -- `init`, and then `sevmgr`: what the two return.
  abbrev pub session :
      Exec (Service s) (Unit {0})
      → List ℕ
      → Result (Unit {0}) s.Service
      → Exec (Binding s) (Bool × List ℕ)
  session build_sample_bom path made = do
    is_ready ← init s path made
    text ← run_sevmgr s build_sample_bom
    pure (is_ready, text)

  -- A new object.
  abbrev pub started : Store s → Binding s
  started st = record { store = st; manager = new_manager s }

  -- When the service cannot be made, since StdAir throws, `init` with a path for the log returns
  -- true all the same: it catches the exception, and the object has a log and no service. `sevmgr`
  -- then returns the text that says that `init` has not been called correctly, and the store of
  -- contexts is as it was. With an empty path `init` returns false whatever StdAir does, and
  -- `sevmgr` then returns the text that says that the path is not valid.
  pub init_reports_success :
      (build_sample_bom : Exec (Service s) (Unit {0})) (path : List ℕ) (x : Exception)
      (u : Unit {0}) (st : Store s)
      → path ≢ []
      → (session build_sample_bom path (raised x u) (started st)
          ≡ done
              (true, no_service_text)
              (record {
                store = st;
                manager = record { sevmgr_service = none; log_output_stream = true };
              }))
        × ((made : Result (Unit {0}) s.Service)
            → session build_sample_bom [] made (started st)
              ≡ done (false, no_log_text) (started st))
  unfolding init run_sevmgr new_manager new_from_parameters
  init_reports_success build_sample_bom [] x u st h = absurd (h refl)
  init_reports_success build_sample_bom (c ∷ path) x u st h = (refl, λ made. refl)

  -- With a path and a StdAir service, `init` makes one context, behind an address that was not
  -- used, and returns true; `sevmgr` then runs `buildSampleBom` on that context, and returns the
  -- empty text whether that method returns or throws.
  pub sevmgr_builds :
      (build_sample_bom : Exec (Service s) (Unit {0})) (path : List ℕ) (service : s.Service)
      (st : Store s)
      → path ≢ []
      → session build_sample_bom path (done service tt) (started st)
        ≡ bind_result
            (after_build s
              (record {
                sevmgr_service = some (some (length st.contexts));
                log_output_stream = true;
              })
              (on_service_at s
                (some (length st.contexts))
                build_sample_bom
                (with_context s (made_context s (some service) true) st)))
            (λ text. pure (true, text))
  unfolding init run_sevmgr new_manager
  sevmgr_builds build_sample_bom [] service st h = absurd (h refl)
  sevmgr_builds build_sample_bom (c ∷ path) service st h =
      ap
        (λ r.
          bind_result (after_new s (record { sevmgr_service = none; log_output_stream = true }) r)
            λ is_ready. run_sevmgr s build_sample_bom >>= λ text. pure (is_ready, text))
        (new_from_parameters-run s service st)
