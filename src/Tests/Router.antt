-- ===== src/Tests/Router.antt =====
-- The routes of request_router.cpp for small settings, and the answers of two dispatchers.
use eiptnd.Prelude.{◌≡◌, refl, true, false, some, [], ◌∷◌, ◌++◌, codes, map, equal, equal_iff}
use eiptnd.Boost.Instances.{assoc_map}
use eiptnd.Plugins.Manager.{PluginInfo, plugin_dispatcher}
use eiptnd.Router.Routes.{
  Library, Router, Dispatcher, RouteKey, Settings, same_key, ok, load_settings, targets,
}
use eiptnd.Router.Combiner.{answers}
use eiptnd.Router.Process.{process_data, outcome}
use eiptnd.Router.Targets.Vectors.{same_key_iff}
use eiptnd.Router.Order.{is_taken, process_data-is_taken}
use eiptnd.Router.Targets.Steps.{Inv}
use eiptnd.Router.Targets.Settings.{picks, settings_of, load_settings-targets}

abbrev one : Dispatcher
one = record { uid = codes "redis"; number = 0 }

abbrev two : Dispatcher
two = record { uid = codes "log"; number = 1 }

process_data-is_taken_example :
    outcome (process_data (one ∷ two ∷ [])) (map answers (true ∷ false ∷ [])) ≡ false ∷ []
unfolding is_taken
process_data-is_taken_example = process_data-is_taken (one ∷ two ∷ []) (true ∷ false ∷ []) refl

abbrev pub routing : Library
routing = record {
  loaded_map = assoc_map equal equal_iff;
  dispatcher_map = assoc_map equal equal_iff;
  route_map = assoc_map same_key same_key_iff;
}

abbrev plugin : PluginInfo
plugin = record {
  plugin_type = plugin_dispatcher;
  puid = codes "redis";
  name = codes "Redis";
  version = codes "0.0.1";
}

abbrev pub bare : Router routing
bare = record {
  loaded_dispatchers = (codes "redis", plugin) ∷ [];
  dispatchers = [];
  routes = [];
  vectors = [];
  created = 0;
}

pub bare-Inv : Inv bare
bare-Inv = record { bound = λ k a e. absurd cc; apart = λ j k a e f. absurd cc }

abbrev pub settings : Settings
settings = (codes "redis", true, (codes "wialon", some 1234 ∷ some 5678 ∷ []) ∷ []) ∷ []

load_settings-targets_example :
    (r : Router routing) × (load_settings settings bare ≡ ok r)
    × Inv r
    × ((j : RouteKey) → targets j r ≡ targets j bare ++ picks j (settings_of 0 settings))
unfolding equal
load_settings-targets_example = load_settings-targets settings bare refl bare-Inv
