-- ===== src/CommandLine.antt =====
-- What the two programs use of Boost's program options, and the constants of
-- sevmgr/config/sevmgr-paths.hpp, which the build generates.
use sevmgr.Prelude.{ℕ, Bool, Option, List, Result}

-- The value of an option: none, a text with a default, or a list of texts.
pub data ValueKind : Type 0 where
  no_value : ValueKind
  string_or : List ℕ → ValueKind
  strings : ValueKind

-- An option of a description: its names, its value, and the text for the user.
pub record OptionDescription : Type 0 where
  pub name : List ℕ
  pub value : ValueKind
  pub text : List ℕ

-- The variables map after `notify`: whether an option was given, and the value of `log`.
pub record Variables : Type 0 where
  pub help : Bool
  pub version : Bool
  pub prefix : Bool
  pub log : Option (List ℕ)

pub record ProgramOptions : Type 0 where
  -- The command line is parsed with the first options, of which the one of this name takes the
  -- positional arguments, and the file of this name with the second; both results are stored, those
  -- of the command line first. A parser may throw.
  pub parse :
      List OptionDescription
      → List ℕ
      → List ℕ
      → List OptionDescription
      → Result (Unit {0}) Variables
  -- What a stream prints of a description, under its title.
  pub describe : List ℕ → List OptionDescription → List ℕ
  pub package_name : List ℕ
  pub package_version : List ℕ
  pub prefix_dir : List ℕ

-- What `readConfiguration` returns: its status, the name of the log file, and what it prints.
pub record Configuration : Type 0 where
  pub status : ℕ
  pub log_filename : List ℕ
  pub printed : List ℕ
