-- ===== src/Core/Startup.antt =====
-- What happens when the service starts: `plugin_factory::load_settings` of src/plugin_factory.cpp,
-- and `operator()`, `run` and `stop` of src/core.cpp. Log records are left out.
use eiptnd.Prelude.{
  ℕ, ◌≡◌, Bool, Option, none, some, List, [], ◌∷◌, Bytes, if◌then◌else◌, ◌==◌, ◌+◌, equal,
}
use eiptnd.Boost.Containers.{FlatMap, FlatMultimap}
use eiptnd.Plugins.Manager.{PluginInfo, Manager, Result, ok, err, ◌>>=◌}
use eiptnd.Plugins.Manager
use eiptnd.Plugins.Ports.{is_filled}
use eiptnd.Core.LogSettings.{Log}
use eiptnd.Plugins.Factory.{Factory, create_factory, load_dir}
use eiptnd.Router.Routes.{Dispatcher, RouteKey, Router}
use eiptnd.Router.Routes

-- How often a port stands in a list.
abbrev pub count : ℕ → List ℕ → ℕ
count p [] = 0
count p (q ∷ qs) = (if q == p then 1 else 0) + count p qs

-- The containers and the log. `keys` is the flat_set of the keys of a port mapping: each key once.
pub record Library : Type 1 where
  pub log : Log
  pub loaded_map : FlatMap Bytes PluginInfo
  pub port_map : FlatMultimap ℕ Bytes
  pub dispatcher_map : FlatMap Bytes Dispatcher
  pub route_map : FlatMap RouteKey ℕ
  pub keys : port_map.Map → List ℕ
  pub count-keys :
      (p : ℕ) (m : port_map.Map)
      → count p (keys m) ≡ (if is_filled (port_map.range p m) then 1 else 0)

-- The file system and the network: the files in a directory, in its order; the extension of a path,
-- its lower case and the suffix of shared libraries; what the plugin of a library says of itself;
-- what a path of the settings means; and whether a server can be opened at an address and a port, by
-- the ones that are open already.
pub record System : Type 0 where
  pub current_path : Bytes
  pub is_absolute : Bytes → Bool
  pub join : Bytes → Bytes → Bytes
  pub files : Bytes → List Bytes
  pub extension : Bytes → Bytes
  pub to_lower_copy : Bytes → Bytes
  pub suffix : Bytes
  pub plugin_info : Bytes → PluginInfo
  pub opens : Bytes → ℕ → List (Bytes × ℕ) → Bool

-- The settings under "plugin"; `path` is missing or a list of directories.
pub record Settings : Type 0 where
  pub path : Option (List Bytes)
  pub translator : Manager.Settings
  pub dispatcher : Routes.Settings

module _ (L : Library) where
  abbrev pub manager_library : Manager.Library
  manager_library = record { loaded_map = L.loaded_map; port_map = L.port_map }

  abbrev pub router_library : Routes.Library
  router_library = record {
    loaded_map = L.loaded_map;
    dispatcher_map = L.dispatcher_map;
    route_map = L.route_map;
  }

  -- The factory with its manager and its router.
  pub record Plugins : Type 0 where
    pub factory : Factory L.loaded_map
    pub manager : Manager manager_library
    pub router : Router router_library

module _ (L : Library) (system : System) where
  abbrev pub full_path : Bytes → Bytes
  full_path path = if system.is_absolute path then path else system.join system.current_path path

  -- The plugins of the shared libraries among the files, which `load_dir` loads.
  unfoldable pub plugins_of : List Bytes → List PluginInfo
  plugins_of [] = []
  plugins_of (path ∷ paths) =
      let rest = plugins_of paths in
      if equal system.suffix (system.to_lower_copy (system.extension path))
      then system.plugin_info path ∷ rest
      else rest

  -- load_dir(path)
  abbrev pub load_path : Bytes → Factory L.loaded_map → Factory L.loaded_map
  load_path path f = load_dir (plugins_of (system.files path)) f

  unfoldable pub load_dirs : List Bytes → Factory L.loaded_map → Factory L.loaded_map
  load_dirs [] f = f
  load_dirs (path ∷ paths) f = load_dirs paths (load_path (full_path path) f)

  abbrev pub load_paths : Option (List Bytes) → Factory L.loaded_map → Factory L.loaded_map
  load_paths none f = load_path system.current_path f
  load_paths (some paths) f = load_dirs paths f

  -- The manager and the router as the loading of the libraries leaves them.
  abbrev pub new_manager : Factory L.loaded_map → Manager (manager_library L)
  new_manager f = record {
    loaded_translators = f.loaded_translators;
    port_mapping = L.port_map.empty;
  }

  abbrev pub new_router : Factory L.loaded_map → Router (router_library L)
  new_router f = record {
    loaded_dispatchers = f.loaded_dispatchers;
    dispatchers = L.dispatcher_map.empty;
    routes = L.route_map.empty;
    vectors = [];
    created = 0;
  }

  unfoldable pub load_settings : Settings → Result (Plugins L)
  load_settings settings =
      let f = load_paths settings.path create_factory in
      Manager.load_settings settings.translator (new_manager f) >>= λ m.
      Routes.load_settings settings.dispatcher (new_router f) >>= λ r.
      ok (record { factory = f; manager = m; router = r })
