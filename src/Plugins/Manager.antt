-- ===== src/Plugins/Manager.antt =====
-- `translator_manager`: the loaded translators, and the ports that are mapped to them.
use eiptnd.Prelude.{
  ℕ, Bool, true, false, Option, none, some, List, [], ◌∷◌, Bytes, equal, if◌then◌else◌,
}
use eiptnd.Boost.Containers.{FlatMap, FlatMultimap}

-- plugin_api::plugin_type, and any other value that a library may return
pub data PluginType : Type 0 where
  plugin_translator plugin_dispatcher plugin_unknown : PluginType

-- What `plugin_info` keeps of a loaded library.
pub record PluginInfo : Type 0 where
  pub plugin_type : PluginType
  pub puid : Bytes
  pub name : Bytes
  pub version : Bytes

-- `out_of_range` is thrown by `create`, `bad_data` where a port is no number of 16 bits, and
-- `plugin_failed` by a plugin's own `load_settings`; `assertion_failed` is a BOOST_ASSERT, which ends
-- the program.
pub data Fault : Type 0 where
  out_of_range bad_data plugin_failed assertion_failed : Fault

pub data Result (A : Type 0) : Type 0 where
  ok : A → Result A
  err : Fault → Result A

infixl 5 ◌>>=◌
abbrev pub ◌>>=◌ : {A B : Type 0} → Result A → (A → Result B) → Result B
ok a >>= f = f a
err e >>= f = err e

pub record Library : Type 1 where
  pub loaded_map : FlatMap Bytes PluginInfo
  pub port_map : FlatMultimap ℕ Bytes

pub record Manager (L : Library) : Type 0 where
  pub loaded_translators : L.loaded_map.Map
  pub port_mapping : L.port_map.Map

abbrev pub is_translator : PluginType → Bool
is_translator plugin_translator = true
is_translator _ = false

-- `itpm != end() && itpm->second == uid`
abbrev pub is_same : Option Bytes → Bytes → Bool
is_same none uid = false
is_same (some mapped) uid = equal mapped uid

-- The uid of the last entry of a range, or the empty string.
unfoldable pub last_uid : Bytes → List Bytes → Bytes
last_uid puid [] = puid
last_uid puid (uid ∷ uids) = last_uid uid uids

-- The settings of one translator: whether its own `load_settings` takes them, and what stands under
-- "tcp": values with their keys, where `none` stands for a value that get<unsigned short> refuses.
-- The values of an array have empty keys.
abbrev pub Settings : Type 0
Settings = List (Bytes × Bool × List (Bytes × Option ℕ))

-- A plugin has loaded its own settings, or has thrown.
abbrev pub taken : {A : Type 0} → Bool → A → Result A
taken true a = ok a
taken false a = err plugin_failed

abbrev pub instantiate : Option PluginInfo → Result PluginInfo
instantiate none = err out_of_range
instantiate (some info) = ok info

module _ {L : Library} where
  unfoldable pub add : PluginInfo → Manager L → Manager L
  add info m = record m {
    loaded_translators = L.loaded_map.emplace info.puid info m.loaded_translators;
  }

  -- The new object is an instance of the library that this returns.
  unfoldable pub create : Bytes → Manager L → Result PluginInfo
  create uid m = instantiate (L.loaded_map.find uid m.loaded_translators)

  -- `map_port` after the first lookup.
  unfoldable pub map_found : ℕ → Bytes → Option PluginInfo → Manager L → Bool × Manager L
  map_found port_num uid none m = (false, m)
  map_found port_num uid (some p) m =
      if is_translator p.plugin_type
      then (if is_same (L.port_map.find port_num m.port_mapping) uid
          then (false, m)
          else (true, record m { port_mapping = L.port_map.emplace port_num uid m.port_mapping }))
      else (false, m)

  unfoldable pub map_port : ℕ → Bytes → Manager L → Bool × Manager L
  unfolding map_found
  map_port port_num uid m = map_found port_num uid (L.loaded_map.find uid m.loaded_translators) m

  unfoldable pub list_port : ℕ → Manager L → List Bytes
  list_port port_num m = L.port_map.range port_num m.port_mapping

  unfoldable pub map_ports : Bytes → List (Bytes × Option ℕ) → Manager L → Result (Manager L)
  map_ports uid [] m = ok m
  map_ports uid ((c ∷ key, value) ∷ ps) m = err assertion_failed
  map_ports uid (([], none) ∷ ps) m = err bad_data
  map_ports uid (([], some port_num) ∷ ps) m = map_ports uid ps (map_port port_num uid m).1

  unfoldable pub load_settings : Settings → Manager L → Result (Manager L)
  load_settings [] m = ok m
  load_settings ((uid, is_taken, ports) ∷ rest) m = create uid m >>= λ info.
      taken is_taken info >>= λ info. map_ports uid ports m >>= λ m'. load_settings rest m'

  -- What `connection::on_connection` makes of a port: the last translator of the range.
  unfoldable pub on_connection : ℕ → Manager L → Result PluginInfo
  on_connection port_num m = create (last_uid [] (list_port port_num m)) m
