-- ===== src/Main.antt =====
-- `main` of src/main.cpp, without the service of Windows: BOOST_WINDOWS_API is not defined. The
-- names of the program are those of include/config.hpp.
pub mod Exit
use eiptnd.Prelude.{
  ℕ, ◌≡◌, Bool, true, false, Option, none, some, List, [], ◌∷◌, ◌++◌, Bytes, codes, if◌then◌else◌,
  ltb,
}
use eiptnd.Core.Startup.{Library, System}
use eiptnd.Core.Service.{File, Core, start}

-- What an option takes: nothing, or a value, which has a default.
pub data ValueSemantic : Type 0 where
  no_value : ValueSemantic
  text : Bytes → ValueSemantic
  text_list : List Bytes → ValueSemantic
  size : ℕ → ValueSemantic

pub record OptionDescription : Type 0 where
  pub name : Bytes
  pub short_name : Option ℕ
  pub semantic : ValueSemantic

-- boost/predef.h defines BOOST_OS_WINDOWS on every system, as 0 on others, so the tests for a
-- definition go as on Windows: the path is relative, and no option `pid-file` is described.
abbrev pub default_config_path : Bytes
default_config_path = codes "daemonname.cfg"

-- std::max(1u, boost::thread::hardware_concurrency())
unfoldable pub default_num_threads : ℕ → ℕ
default_num_threads hardware_concurrency =
    if ltb hardware_concurrency 1 then 1 else hardware_concurrency

abbrev pub general : List OptionDescription
general =
    record { name = codes "help"; short_name = some b'h'; semantic = no_value }
    ∷ record { name = codes "version"; short_name = some b'v'; semantic = no_value }
    ∷ record { name = codes "foreground"; short_name = some b'F'; semantic = no_value }
    ∷ record { name = codes "config-file"; short_name = none; semantic = text default_config_path }
    ∷ []

unfoldable pub network : ℕ → List OptionDescription
network num_threads =
    record { name = codes "bind"; short_name = none; semantic = text_list (codes "0.0.0.0" ∷ []) }
    ∷ record { name = codes "num-threads"; short_name = none; semantic = size num_threads }
    ∷ []

-- The variables map, as far as the program asks for it.
pub record VariablesMap : Type 0 where
  pub help : Bool
  pub version : Bool
  pub foreground : Bool
  pub config_file : Bytes
  pub bind : List Bytes
  pub num_threads : ℕ

-- The types of application: app::common and app::server.
pub data Mode : Type 0 where
  common server : Mode

-- What is written to the standard streams.
pub data Line : Type 0 where
  what description daemon_version daemon_info deamonizing error_message bye : Line

-- Boost.ProgramOptions and Boost.Application. `parse` gives `none` where it throws; `launch` runs
-- the application, which returns the number, and gives that as its own result and whether it set the
-- error code, where the result is another one.
pub record Boost : Type 0 where
  pub parse : List OptionDescription → List Bytes → Option VariablesMap
  pub launch : Mode → ℕ → ℕ × Bool
  pub launch-result : (m : Mode) (r : ℕ) → (launch m r).1 ≡ false → (launch m r).0 ≡ r

abbrev pub exit_success : ℕ
exit_success = 0

abbrev pub exit_failure : ℕ
exit_failure = 1

module _ (L : Library) (system : System) (read_file : Bytes → Option File) where
  abbrev pub exit_status : Option (Bool × Core L) → Option ℕ
  exit_status none = none
  exit_status (some (true, c)) = some exit_success
  exit_status (some (false, c)) = some exit_failure

  -- What `core::operator()` returns, or `none` where a failed assertion ends the program.
  unfoldable pub run_core : VariablesMap → Option ℕ
  run_core vm = exit_status (start {L = L} system (read_file vm.config_file) vm.bind vm.num_threads)

  module _ (boost : Boost) where
    -- The result of `main` behind the launch, and what is written from there on.
    abbrev pub launched : ℕ × Bool → ℕ × List Line
    launched (result, false) = (result, bye ∷ [])
    launched (result, true) = (exit_failure, error_message ∷ bye ∷ [])

    abbrev pub with_lines : List Line → ℕ × List Line → ℕ × List Line
    with_lines ls (result, ms) = (result, ls ++ ms)

    -- The application is launched, after these lines were written.
    abbrev pub launch : List Line → Mode → Option ℕ → Option (ℕ × List Line)
    launch ls mode none = none
    launch ls mode (some result) = some (with_lines ls (launched (boost.launch mode result)))

    abbrev pub parsed : Option VariablesMap → Option (ℕ × List Line)
    parsed none = some (exit_failure, what ∷ description ∷ [])
    parsed (some vm) =
        if vm.version
        then some (exit_success, daemon_version ∷ [])
        else if vm.help
        then some (exit_success, daemon_info ∷ description ∷ [])
        else if vm.foreground
        then launch (daemon_info ∷ []) common (run_core vm)
        else launch (daemon_info ∷ deamonizing ∷ []) server (run_core vm)

    -- The exit status and what is written; `none` stands for a failed assertion.
    unfoldable pub main : List Bytes → ℕ → Option (ℕ × List Line)
    main argv hardware_concurrency =
        parsed (boost.parse (general ++ network (default_num_threads hardware_concurrency)) argv)
