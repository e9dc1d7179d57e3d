-- ===== src/Tests/Core.antt =====
-- A start with a translator and a dispatcher, and the settings of a log.
use eiptnd.Prelude.{
  equal, ℕ, ◌≡◌, refl, Bool, true, false, Option, none, some, List, [], ◌∷◌, ◌++◌, Bytes, codes,
  if◌then◌else◌, ◌==◌, arith, drop,
}
use eiptnd.Boost.Containers.{FlatMultimap}
use eiptnd.Boost.Instances.{multimap}
use eiptnd.Plugins.Ports.{is_filled}
use eiptnd.Core.LogSettings.{
  Branches, branch, tree, convert_log_settings, assign_all, dotted, leaves,
  convert_log_settings-leaves,
}
use eiptnd.Core.LogSettings
use eiptnd.Core.Startup.{Library, System, Settings, count}
use eiptnd.Core.Service.{File, start}
use eiptnd.Core.Listeners.{Started, start-Started}
use eiptnd.Tests.Plugins.{infos, translator, dispatcher}
use eiptnd.Tests.Router.{routing}

-- The keys of a map, each once.
abbrev keys : List (ℕ × Bytes) → List ℕ
keys [] = []
keys ((j, v) ∷ m) =
    let rest = keys m in
    if is_filled (FlatMultimap.range (multimap Bytes) j m) then rest else j ∷ rest

pub count-keys :
    (p : ℕ) (m : List (ℕ × Bytes))
    → count p (keys m) ≡ (if is_filled (FlatMultimap.range (multimap Bytes) p m) then 1 else 0)
count-keys p [] = refl
count-keys p ((j, v) ∷ m) = ground (arith, count-keys p m)

-- A log with two settings, one of them in a section.
abbrev log : Branches
log =
    branch (codes "Core")
      (tree []
        (branch (codes "Filter") (tree (codes "%Severity%") LogSettings.none) LogSettings.none))
      (branch (codes "Plain") (tree (codes "1") LogSettings.none) LogSettings.none)

abbrev assign : Bytes → Bytes → List (Bytes × Bytes) → List (Bytes × Bytes)
assign path value done = done ++ ((path, value) ∷ [])

abbrev pub library : Library
library = record {
  log = record {
    Store = List (Bytes × Bytes);
    empty = [];
    assign = assign;
    assign_bool = λ path value done. done ++ ((path, codes "1") ∷ []);
    init_from_settings = λ store. true;
  };
  loaded_map = infos;
  port_map = multimap Bytes;
  dispatcher_map = routing.dispatcher_map;
  route_map = routing.route_map;
  keys = keys;
  count-keys = count-keys;
}

-- One directory, and no server at a third port.
abbrev pub system : System
system = record {
  current_path = codes "/srv";
  is_absolute = λ path. false;
  join = λ base path. base ++ (b'/' ∷ path);
  files = λ path. codes "t.so" ∷ codes "d.so" ∷ codes "d.txt" ∷ [];
  extension = λ path. drop 1 path;
  to_lower_copy = λ text. text;
  suffix = codes ".so";
  plugin_info = λ path. if equal path (codes "t.so") then translator else dispatcher;
  opens = λ address port_num listeners. if port_num == 3 then false else true;
}

abbrev array : List (Option ℕ) → List (Bytes × Option ℕ)
array [] = []
array (value ∷ values) = ([], value) ∷ array values

abbrev settings : List (Option ℕ) → Settings
settings ports = record {
  path = none;
  translator = (codes "wialon", true, array ports) ∷ [];
  dispatcher = (codes "redis", true, []) ∷ [];
}

log_converted :
    convert_log_settings assign log [] []
    ≡ (codes "Core.Filter", codes "%Severity%") ∷ (codes "Plain", codes "1") ∷ []
unfolding convert_log_settings
log_converted = refl

convert_log_settings-leaves_example :
    convert_log_settings assign log [] []
    ≡ assign_all assign (λ (k, ks). dotted k ks) (leaves log) []
convert_log_settings-leaves_example = convert_log_settings-leaves assign log []

abbrev pub file : List (Option ℕ) → File
file ports = record { plugin = settings ports; log = some log }

start-Started_example : Started false (some log) (codes "::" ∷ codes "127.0.0.1" ∷ []) 4 (
    start {L = library} system
      (some (file (some 1 ∷ some 2 ∷ [])))
      (codes "::" ∷ codes "127.0.0.1" ∷ [])
      4)
start-Started_example =
    start-Started library system (some (file (some 1 ∷ some 2 ∷ [])))
      (codes "::" ∷ codes "127.0.0.1" ∷ []) 4

abbrev is_started : {A : Type 0} → Option (Bool × A) → Option Bool
is_started none = none
is_started (some (b, c)) = some b

start_done :
    is_started (start {L = library} system (some (file (some 1 ∷ some 2 ∷ []))) (codes "::" ∷ []) 4)
    ≡ some true
unfolding start eiptnd.Core.Startup.plugins_of eiptnd.Core.Service.init_logging
    eiptnd.Core.Service.set_log eiptnd.Core.Service.run eiptnd.Core.Startup.load_settings
    eiptnd.Plugins.Manager.load_settings eiptnd.Plugins.Manager.create
    eiptnd.Plugins.Factory.load_dir eiptnd.Plugins.Factory.load equal
    eiptnd.Plugins.Manager.map_ports eiptnd.Router.Routes.load_settings eiptnd.Router.Routes.create
    eiptnd.Router.Routes.add_sources eiptnd.Core.Service.listen eiptnd.Core.Service.open_all
    eiptnd.Core.Service.open_ports eiptnd.Plugins.Manager.map_port
start_done = refl

-- A server at the third port cannot be opened.
start_failed :
    is_started (start {L = library} system (some (file (some 1 ∷ some 3 ∷ []))) (codes "::" ∷ []) 4)
    ≡ some false
unfolding start eiptnd.Core.Startup.plugins_of eiptnd.Core.Service.init_logging
    eiptnd.Core.Service.set_log eiptnd.Core.Service.run eiptnd.Core.Startup.load_settings
    eiptnd.Plugins.Manager.load_settings eiptnd.Plugins.Manager.create
    eiptnd.Plugins.Factory.load_dir eiptnd.Plugins.Factory.load equal
    eiptnd.Plugins.Manager.map_ports eiptnd.Router.Routes.load_settings eiptnd.Router.Routes.create
    eiptnd.Router.Routes.add_sources eiptnd.Core.Service.listen eiptnd.Core.Service.open_all
    eiptnd.Core.Service.open_ports eiptnd.Plugins.Manager.map_port
start_failed = refl
