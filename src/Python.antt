-- ===== src/Python.antt =====
-- sevmgr/python/pysevmgr.cpp: the object that Python programs use. What it writes to its log is
-- left out.
pub mod Outcomes
use sevmgr.Prelude.{
  ℕ, Bool, true, false, Option, none, some, List, [], ◌∷◌, ◌++◌, is_empty, codes, if◌then◌else◌,
  Exec, Result, done, raised, aborted, undefined, diverged,
}
use sevmgr.Stdair.{Stdair}
use sevmgr.Service.{Service}
use sevmgr.Service.Store.{Store, new_from_parameters, construct, on_service_at}

-- `std::endl`.
abbrev pub end_of_line : List ℕ
end_of_line = 10 ∷ []

abbrev pub no_log_text : List ℕ
no_log_text = codes "The log filepath is not valid." ++ end_of_line

abbrev pub no_service_text : List ℕ
no_service_text =
    codes "The Sevmgr service has not been initialised, "
    ++ (codes "i.e., the init() method has not been called "
        ++ (codes "correctly on the PYEventQueueManager object. Please "
            ++ (codes "check that all the parameters are not empty and "
                ++ codes "point to actual files.")))

module _ (s : Stdair) where
  -- `PYEventQueueManager`: its service, by the pointer to its context, and whether it has a log
  -- stream; both pointers may be null. The store holds the contexts.
  pub record PyEventQueueManager : Type 0 where
    pub sevmgr_service : Option (Option ℕ)
    pub log_output_stream : Bool

  pub record Binding : Type 0 where
    pub store : Store s
    pub manager : PyEventQueueManager

  unfoldable pub new_manager : PyEventQueueManager
  new_manager = record { sevmgr_service = none; log_output_stream = false }

  -- The copy shares the service and the log of the original.
  unfoldable pub copy_manager : PyEventQueueManager → PyEventQueueManager
  copy_manager m = record {
    sevmgr_service = m.sevmgr_service;
    log_output_stream = m.log_output_stream;
  }

  -- The destructor forgets the service, and does not destroy it.
  unfoldable pub destroy_manager : PyEventQueueManager → PyEventQueueManager
  destroy_manager m = record { sevmgr_service = none; log_output_stream = false }

  -- The handlers of `init`, which catch every exception.
  abbrev pub after_new : PyEventQueueManager → Result (Store s) (Option ℕ) → Result Binding Bool
  after_new m (done pointer st) =
      done true (record { store = st; manager = record m { sevmgr_service = some pointer } })
  after_new m (raised x st) = done true (record { store = st; manager = m })
  after_new m aborted = aborted
  after_new m undefined = undefined
  after_new m diverged = diverged

  -- `init`: `made` is how the making of the StdAir service from the parameters ends.
  unfoldable pub init : List ℕ → Result (Unit {0}) s.Service → Exec Binding Bool
  unfolding new_from_parameters
  init log_filepath made b =
      if is_empty log_filepath
      then done false b
      else after_new (record b.manager { log_output_stream = true })
          (construct s (new_from_parameters s made) b.store)

  -- The handlers of `sevmgr`, which is `run_sevmgr` here. The text is still empty.
  abbrev pub after_build :
      PyEventQueueManager → Result (Store s) (Unit {0}) → Result Binding (List ℕ)
  after_build m (done a st) = done [] (record { store = st; manager = m })
  after_build m (raised x st) = done [] (record { store = st; manager = m })
  after_build m aborted = aborted
  after_build m undefined = undefined
  after_build m diverged = diverged

  -- By the service. `build_sample_bom` is the method `buildSampleBom` of the service, which this
  -- repository does not have.
  abbrev pub build_with : Exec (Service s) (Unit {0}) → Option (Option ℕ) → Exec Binding (List ℕ)
  build_with build_sample_bom none b = done no_service_text b
  build_with build_sample_bom (some pointer) b =
      after_build b.manager (on_service_at s pointer build_sample_bom b.store)

  unfoldable pub run_sevmgr : Exec (Service s) (Unit {0}) → Exec Binding (List ℕ)
  run_sevmgr build_sample_bom b =
      if b.manager.log_output_stream
      then build_with build_sample_bom b.manager.sevmgr_service b
      else done no_log_text b
