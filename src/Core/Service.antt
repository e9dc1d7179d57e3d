-- ===== src/Core/Service.antt =====
-- `operator()`, `run` and `stop` of src/core.cpp. Log records are left out.
use eiptnd.Prelude.{
  ℕ, Bool, true, false, Option, none, some, List, [], ◌∷◌, ◌++◌, Bytes, if◌then◌else◌,
}
use eiptnd.Plugins.Manager.{Result, ok, err, assertion_failed}
use eiptnd.Core.LogSettings.{Branches, convert_log_settings, default_settings}
use eiptnd.Core.Startup.{Library, System, Settings, Plugins, load_settings}

-- The file of settings: what stands under "plugin", and under "log" if that is there.
pub record File : Type 0 where
  pub plugin : Settings
  pub log : Option Branches

-- The core. `log` holds the settings that the log was set up with, one after another; `io_service`
-- says whether it holds one; `listeners` are the servers by their addresses and ports, and
-- `cancelled` says whether they were told to stop; `threads` run the service.
pub record Core (L : Library) : Type 0 where
  pub log : List L.log.Store
  pub plugins : Option (Plugins L)
  pub io_service : Bool
  pub listeners : List (Bytes × ℕ)
  pub cancelled : Bool
  pub threads : ℕ

module _ (system : System) where
  -- The inner loop of `run`, and whether it ended without an exception.
  unfoldable pub open_ports : Bytes → List ℕ → List (Bytes × ℕ) → Bool × List (Bytes × ℕ)
  open_ports address [] listeners = (true, listeners)
  open_ports address (port_num ∷ ports) listeners =
      let rest = open_ports address ports (listeners ++ ((address, port_num) ∷ [])) in
      if system.opens address port_num listeners then rest else (false, listeners)

  -- The outer loop.
  unfoldable pub open_all : List Bytes → List ℕ → List (Bytes × ℕ) → Bool × List (Bytes × ℕ)
  open_all [] ports listeners = (true, listeners)
  open_all (address ∷ bind_list) ports listeners =
      let (is_open, opened) = open_ports address ports listeners in
      let rest = open_all bind_list ports opened in if is_open then rest else (false, opened)

module _ {L : Library} where
  abbrev pub create : Core L
  create = record {
    log = [];
    plugins = none;
    io_service = false;
    listeners = [];
    cancelled = false;
    threads = 0;
  }

  unfoldable pub stop : Core L → Core L
  stop c = record c { io_service = false; cancelled = true }

  -- What `operator()` returns, and the core after that or while the threads run: EXIT_SUCCESS, or
  -- EXIT_FAILURE behind `stop`. `none` stands for a failed assertion, which ends the program.
  abbrev pub caught : Option (Bool × Core L) → Option (Bool × Core L)
  caught none = none
  caught (some (true, c)) = some (true, c)
  caught (some (false, c)) = some (false, stop c)

  -- What comes next, if no exception has left what was before.
  abbrev pub and_then : Bool × Core L → (Core L → Bool × Core L) → Bool × Core L
  and_then (true, c) f = f c
  and_then (false, c) f = (false, c)

  abbrev pub and_run : Bool × Core L → (Core L → Option (Bool × Core L)) → Option (Bool × Core L)
  and_run (true, c) f = f c
  and_run (false, c) f = some (false, c)

  unfoldable pub init_logging : Core L → Bool × Core L
  init_logging c =
      let store = default_settings L.log in
      if L.log.init_from_settings store
      then (true, record c { log = c.log ++ (store ∷ []) })
      else (false, c)

  -- `load_settings` behind the reading of the file; the flag is false where an exception leaves it.
  unfoldable pub set_log : Option Branches → Core L → Bool × Core L
  set_log none c = (true, c)
  set_log (some settings) c =
      let store = convert_log_settings L.log.assign settings [] L.log.empty in
      if L.log.init_from_settings store
      then (true, record c { log = c.log ++ (store ∷ []) })
      else (false, c)

  module _ (system : System) where
    -- `run` behind the settings of the plugins.
    unfoldable pub listen : List Bytes → ℕ → Plugins L → Core L → Bool × Core L
    listen bind_list num_threads plugins c =
        let (is_open, listeners) =
          open_all system bind_list (L.keys plugins.manager.port_mapping) c.listeners in
        let d : Core L = record c {
          plugins = some plugins;
          io_service = true;
          listeners = listeners;
        } in
        if is_open then (true, record d { threads = num_threads }) else (false, d)

    -- The flag is false where an exception leaves `run`.
    abbrev pub run_with : Result (Plugins L) → List Bytes → ℕ → Core L → Option (Bool × Core L)
    run_with (err assertion_failed) bind_list num_threads c = none
    run_with (err e) bind_list num_threads c = some (false, record c { io_service = true })
    run_with (ok plugins) bind_list num_threads c = some (listen bind_list num_threads plugins c)

    unfoldable pub run : Settings → List Bytes → ℕ → Core L → Option (Bool × Core L)
    run settings bind_list num_threads c =
        run_with (load_settings L system settings) bind_list num_threads c

    -- `none` stands for a file that cannot be read.
    unfoldable pub start : Option File → List Bytes → ℕ → Option (Bool × Core L)
    start none bind_list num_threads =
        caught (some (and_then (init_logging create) (λ c. (false, c))))
    start (some file) bind_list num_threads = caught (
        and_run (and_then (init_logging create) (set_log file.log))
          (run file.plugin bind_list num_threads))
