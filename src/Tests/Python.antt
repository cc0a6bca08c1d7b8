-- ===== src/Tests/Python.antt =====
-- The object for Python programs, where StdAir cannot be made.
use sevmgr.Prelude.{◌≡◌, true, false, none, [], codes, Result, done, raised, json_parser_error}
use sevmgr.Service
use sevmgr.Service.Store.{Store}
use sevmgr.Python.{no_service_text, no_log_text}
use sevmgr.Python.Outcomes.{session, started, init_reports_success}
use sevmgr.Tests.Samples.{stdair}

abbrev no_contexts : Store stdair
no_contexts = record { contexts = []; factory = none; registered = 0 }

init_reports_success_example :
    (session stdair
        (Service.build_sample_queue stdair)
        (codes "log")
        (raised json_parser_error tt)
        (started stdair no_contexts)
      ≡ done
          (true, no_service_text)
          (record {
            store = no_contexts;
            manager = record { sevmgr_service = none; log_output_stream = true };
          }))
    × ((made : Result (Unit {0}) stdair.Service)
        → session stdair (Service.build_sample_queue stdair) [] made (started stdair no_contexts)
          ≡ done (false, no_log_text) (started stdair no_contexts))
init_reports_success_example =
    init_reports_success stdair (Service.build_sample_queue stdair) (codes "log") json_parser_error
      tt no_contexts (λ e. cc)
