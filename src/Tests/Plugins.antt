-- ===== src/Tests/Plugins.antt =====
-- Two libraries in a directory, and a translator that is mapped to ports.
use eiptnd.Prelude.{◌≡◌, refl, true, some, [], ◌∷◌, Bytes, codes, equal, equal_iff}
use eiptnd.Boost.Containers.{FlatMap}
use eiptnd.Boost.Instances.{assoc_map, multimap}
use eiptnd.Plugins.Manager.{
  PluginInfo, plugin_translator, plugin_dispatcher, Library, Manager, ok, Settings, load_settings,
  on_connection,
}
use eiptnd.Plugins.Mapped.{Inv, load_settings-on_connection}
use eiptnd.Plugins.Ports.{every, accepts}
use eiptnd.Plugins.Factory as Factory

abbrev pub translator : PluginInfo
translator = record {
  plugin_type = plugin_translator;
  puid = codes "wialon";
  name = codes "Wialon";
  version = codes "0.0.1";
}

abbrev pub dispatcher : PluginInfo
dispatcher = record {
  plugin_type = plugin_dispatcher;
  puid = codes "redis";
  name = codes "Redis";
  version = codes "0.0.1";
}

abbrev pub infos : FlatMap Bytes PluginInfo
infos = assoc_map equal equal_iff

abbrev hosting : Library
hosting = record { loaded_map = infos; port_map = multimap Bytes }

abbrev loaded : Manager hosting
loaded = record { loaded_translators = (codes "wialon", translator) ∷ []; port_mapping = [] }

loaded-Inv : Inv hosting loaded
loaded-Inv = record { mapped = λ port_num. refl }

abbrev settings : Settings
settings = (codes "wialon", true, ([], some 1234) ∷ ([], some 5678) ∷ []) ∷ []

load_settings-on_connection_example :
    (m : Manager hosting) × (load_settings settings loaded ≡ ok m)
    × Inv hosting m
    × (every (λ port_num. accepts (on_connection port_num m)) (1234 ∷ 5678 ∷ []) ≡ true)
unfolding equal
load_settings-on_connection_example =
    load_settings-on_connection hosting settings loaded loaded-Inv refl

load_dir_lem_example :
    Factory.Inv
      (Factory.load_dir (translator ∷ dispatcher ∷ []) (Factory.create_factory {M = infos}))
load_dir_lem_example = Factory.load_dir_lem {M = infos} (translator ∷ dispatcher ∷ [])
