-- ===== src/Shell/Options.antt =====
-- sevmgr/ui/cmdline/sevmgr.cpp, `readConfiguration` and the start of `main`.
use sevmgr.Prelude.{
  ◌∷◌, bind_result, pure, ℕ, true, Option, none, some, List, [], ◌++◌, codes, new_line, ◌==◌,
  if◌then◌else◌, Result, done, raised, aborted, undefined, diverged,
}
use sevmgr.Stdair.{Stdair}
use sevmgr.Service.{Service, Session, new_service}
use sevmgr.Shell.Platform.{Platform}
use sevmgr.Shell.Commands.{Reply, start}
use sevmgr.CommandLine.{
  ValueKind, no_value, string_or, strings, OptionDescription, Variables, ProgramOptions,
  Configuration,
}

-- The status of an early return.
abbrev pub early_return_status : ℕ
early_return_status = 99

abbrev pub default_log_filename : List ℕ
default_log_filename = codes "sevmgr.log"

abbrev option : List ℕ → ValueKind → List ℕ → OptionDescription
option name value text = record { name = name; value = value; text = text }

-- Options for the command line only, for the file sevmgr.cfg too, and those that are not shown.
unfoldable pub generic : List OptionDescription
generic =
    option (codes "prefix") no_value (codes "print installation prefix")
    ∷ option (codes "version,v") no_value (codes "print version string")
    ∷ option (codes "help,h") no_value (codes "produce help message")
    ∷ []

unfoldable pub config : List OptionDescription
config =
    option (codes "log,l") (string_or default_log_filename) (codes "Filename for the logs") ∷ []

unfoldable pub hidden : List OptionDescription
hidden = option (codes "copyright") strings (codes "Show the copyright (license)") ∷ []

unfoldable pub cmdline_options : List OptionDescription
unfolding generic config hidden
cmdline_options = generic ++ (config ++ hidden)

unfoldable pub config_file_options : List OptionDescription
unfolding config hidden
config_file_options = config ++ hidden

unfoldable pub visible : List OptionDescription
unfolding generic config
visible = generic ++ config

-- `notify` has stored the value of `log` in the parameter, if there is one.
abbrev notified : Option (List ℕ) → List ℕ → List ℕ
notified none log_filename = log_filename
notified (some log) log_filename = log

-- The last test, which stores the value again.
abbrev with_log : Option (List ℕ) → List ℕ → Configuration
with_log none log_filename = record { status = 0; log_filename = log_filename; printed = [] }
with_log (some log) log_filename = record {
  status = 0;
  log_filename = log;
  printed = codes "Log filename is: " ++ (log ++ new_line);
}

module _ (boost : ProgramOptions) where
  -- The options that end the program, in the order in which they are looked for.
  unfoldable pub configuration_of : List ℕ → Variables → Configuration
  unfolding visible
  configuration_of log_filename vm =
      let name = notified vm.log log_filename in
      if vm.help
      then record {
        status = early_return_status;
        log_filename = name;
        printed = boost.describe (codes "Allowed options") visible ++ new_line;
      }
      else if vm.version
      then record {
        status = early_return_status;
        log_filename = name;
        printed = boost.package_name ++ (codes ", version " ++ (boost.package_version ++ new_line));
      }
      else if vm.prefix
      then record {
        status = early_return_status;
        log_filename = name;
        printed = codes "Installation prefix: " ++ (boost.prefix_dir ++ new_line);
      }
      else with_log vm.log name

  unfoldable pub read_configuration : List ℕ → Result (Unit {0}) Configuration
  unfolding configuration_of cmdline_options config_file_options
  read_configuration log_filename =
      bind_result
        (boost.parse cmdline_options (codes "copyright") (codes "sevmgr.cfg") config_file_options)
        (λ vm. pure (configuration_of log_filename vm))

module _ {s : Stdair} (p : Platform s) where
  -- The service, by how the making of its StdAir service ends.
  abbrev service_from : Result (Unit {0}) s.Service → Result (Service s) (Unit {0})
  service_from (done stdair u) = new_service s stdair true
  service_from (raised x u) = raised x (record { context = none })
  service_from aborted = aborted
  service_from undefined = undefined
  service_from diverged = diverged

  -- How the program goes: it ends after the options, or a session is held, with a log.
  pub data Program : Type 0 where
    returned : List ℕ → Program
    held : List ℕ → List ℕ → Result (Session s) (List (Reply p)) → Program

  unfoldable pub program :
      ProgramOptions
      → Result (Unit {0}) s.Service
      → List (List (List ℕ))
      → Result (Unit {0}) Program
  unfolding read_configuration
  program boost made lines = bind_result (read_configuration boost []) (λ configuration. pure (
      if configuration.status == early_return_status
      then returned configuration.printed
      else held configuration.printed configuration.log_filename
          (start p lines (service_from made))))
