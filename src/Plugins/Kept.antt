-- ===== src/Plugins/Kept.antt =====
-- Settings of translators never map a port to anything but a loaded translator.
use Prim.{tt, Unit}
use eiptnd.Prelude.{
  Bool, true, false, ℕ, ◌≡◌, refl, inl, inr, Option, none, some, List, [], ◌∷◌, Bytes, Bool-cases,
}
use eiptnd.Plugins.Manager.{
  PluginInfo, Result, ok, err, ◌>>=◌, Library, Manager, is_same, is_translator, Settings, create,
  map_found, map_port, map_ports, taken, load_settings,
}
use eiptnd.Plugins.Mapped.{Inv, with_port-Step}

module _ (L : Library) where
  map_found-Inv :
      (port_num : ℕ) (uid : Bytes) (o : Option PluginInfo) (m : Manager L)
      → L.loaded_map.find uid m.loaded_translators ≡ o
      → Inv L m
      → Inv L (map_found port_num uid o m).1
  unfolding map_found
  map_found-Inv port_num uid none m e i = i
  map_found-Inv port_num uid (some p) m e i = elim (Bool-cases (is_translator p.plugin_type)) [
    | inr h ↦ rw h i
    | inl h ↦ rw h (elim (Bool-cases (is_same (L.port_map.find port_num m.port_mapping) uid)) [
      | inl g ↦ rw g i
      | inr g ↦ rw g ((with_port-Step L port_num uid m i (rw e h)).0.inv)
    ])
  ]

  abbrev pub Keeps : Result (Manager L) → Type 0
  Keeps (ok m) = Inv L m
  Keeps (err e) = Unit {0}

  map_ports-Keeps :
      (uid : Bytes) (ps : List (Bytes × Option ℕ)) (m : Manager L)
      → Inv L m
      → Keeps (map_ports uid ps m)
  unfolding map_ports map_port
  map_ports-Keeps uid [] m i = i
  map_ports-Keeps uid ((c ∷ key, value) ∷ ps) m i = tt
  map_ports-Keeps uid (([], none) ∷ ps) m i = tt
  map_ports-Keeps uid (([], some p) ∷ ps) m i =
      map_ports-Keeps uid ps _
        (map_found-Inv p uid (L.loaded_map.find uid m.loaded_translators) m refl i)

  bind-Keeps :
      (r : Result (Manager L)) (k : Manager L → Result (Manager L))
      → Keeps r
      → ((m : Manager L) → Inv L m → Keeps (k m))
      → Keeps (r >>= k)
  bind-Keeps (ok m) k h g = g m h
  bind-Keeps (err e) k h g = tt

  created-Keeps :
      (r : Result PluginInfo) (is_taken : Bool) (k : Result (Manager L))
      → Keeps k
      → Keeps (r >>= λ info. taken is_taken info >>= λ info. k)
  created-Keeps (ok info) true k h = h
  created-Keeps (ok info) false k h = tt
  created-Keeps (err e) is_taken k h = tt

  -- When only loaded translators are mapped, this is so after any settings too.
  pub load_settings-Keeps :
      (settings : Settings) (m : Manager L) → Inv L m → Keeps (load_settings settings m)
  unfolding load_settings
  load_settings-Keeps [] m i = i
  load_settings-Keeps ((uid, is_taken, ports) ∷ rest) m i =
      created-Keeps (create uid m) is_taken _ (
        bind-Keeps (map_ports uid ports m) (load_settings rest) (map_ports-Keeps uid ports m i)
          (λ n j. load_settings-Keeps rest n j))
