-- ===== src/Plugins/Factory.antt =====
-- `plugin_factory`: each library is loaded once and handed to the component of its type.
use eiptnd.Prelude.{
  ◌≡◌, ◌≢◌, ◌⊎◌, refl, ap, sym, ◌∙◌, inl, inr, Bool, true, false, Option, none, some, List, [], ◌∷◌,
  Bytes, equal, equal_iff, Bool-cases, Option-cases,
}
use eiptnd.Boost.Containers.{FlatMap, or_else}
use eiptnd.Plugins.Manager.{
  PluginInfo, PluginType, plugin_translator, plugin_dispatcher, plugin_unknown, is_translator,
  Result, ok, err, out_of_range,
}

abbrev pub is_dispatcher : PluginType → Bool
is_dispatcher plugin_dispatcher = true
is_dispatcher _ = false

-- The plugins, and the maps that `translator_manager::add` and `request_router::add` fill.
pub record Factory (M : FlatMap Bytes PluginInfo) : Type 0 where
  pub plugins : M.Map
  pub loaded_translators : M.Map
  pub loaded_dispatchers : M.Map

-- The lookups in a map that got a new uid.
emplaced :
    (M : FlatMap Bytes PluginInfo) (uid j : Bytes) (info : PluginInfo) (m : M.Map)
    → M.find uid m ≡ none
    → ((uid ≡ j) × (M.find j (M.emplace uid info m) ≡ some info))
      ⊎ ((uid ≢ j) × (M.find j (M.emplace uid info m) ≡ M.find j m))
emplaced M uid j info m e = elim (Bool-cases (equal uid j)) [
  | inl h ↦
      let same = (equal_iff uid j).0 h in
      inl (same, rw (sym same) (M.find-emplace_self uid info m ∙ ap (λ o. or_else o (some info)) e))
  | inr h ↦
      let other : uid ≢ j = λ g. let same = (equal_iff uid j).1 g in absurd cc in
      inr (other, M.find-emplace_ne j uid info m other)
]

module _ {M : FlatMap Bytes PluginInfo} where
  abbrev pub create_factory : Factory M
  create_factory = record {
    plugins = M.empty;
    loaded_translators = M.empty;
    loaded_dispatchers = M.empty;
  }

  -- The switch of `load` and what follows it.
  unfoldable pub hand_over : PluginType → PluginInfo → Factory M → Factory M
  hand_over plugin_translator info f = record f {
    loaded_translators = M.emplace info.puid info f.loaded_translators;
    plugins = M.emplace info.puid info f.plugins;
  }
  hand_over plugin_dispatcher info f = record f {
    loaded_dispatchers = M.emplace info.puid info f.loaded_dispatchers;
    plugins = M.emplace info.puid info f.plugins;
  }
  hand_over plugin_unknown info f = f

  unfoldable pub load_new : Option PluginInfo → PluginInfo → Factory M → Factory M
  unfolding hand_over
  load_new (some other) info f = f
  load_new none info f = hand_over info.plugin_type info f

  unfoldable pub load : PluginInfo → Factory M → Factory M
  unfolding load_new
  load info f = load_new (M.find info.puid f.plugins) info f

  -- `load_dir` for the files with the suffix of shared libraries, in the order of the directory.
  unfoldable pub load_dir : List PluginInfo → Factory M → Factory M
  load_dir [] f = f
  load_dir (info ∷ infos) f = load_dir infos (load info f)

  unfoldable pub create : Bytes → Factory M → Result PluginInfo
  create uid f = instance_of (M.find uid f.plugins)
    where
      instance_of : Option PluginInfo → Result PluginInfo
      instance_of none = err out_of_range
      instance_of (some info) = ok info

  -- The plugins are the loaded translators and the loaded dispatchers, which no uid both names, and
  -- each component has plugins of its type only.
  pub record Inv (f : Factory M) : Type 0 where
    pub agree :
        (uid : Bytes)
        → M.find uid f.plugins
          ≡ or_else (M.find uid f.loaded_translators) (M.find uid f.loaded_dispatchers)
    pub apart :
        (uid : Bytes) (info : PluginInfo)
        → M.find uid f.loaded_translators ≡ some info
        → M.find uid f.loaded_dispatchers ≡ none
    pub translators :
        (uid : Bytes) (info : PluginInfo)
        → M.find uid f.loaded_translators ≡ some info
        → is_translator info.plugin_type ≡ true
    pub dispatchers :
        (uid : Bytes) (info : PluginInfo)
        → M.find uid f.loaded_dispatchers ≡ some info
        → is_dispatcher info.plugin_type ≡ true

  create_factory-Inv : Inv create_factory
  create_factory-Inv = record {
    agree = λ uid. M.find-empty uid ∙ sym (rw (M.find-empty uid) refl);
    apart = λ uid info e. M.find-empty uid;
    translators = λ uid info e. let none_at = M.find-empty uid in absurd cc;
    dispatchers = λ uid info e. let none_at = M.find-empty uid in absurd cc;
  }

  -- A uid that no plugin has is in neither of the components.
  free :
      (uid : Bytes) (f : Factory M)
      → Inv f
      → M.find uid f.plugins ≡ none
      → (M.find uid f.loaded_translators ≡ none) × (M.find uid f.loaded_dispatchers ≡ none)
  free uid f i e = split (M.find uid f.loaded_translators) (sym (i.agree uid) ∙ e)
    where
      split :
          (o : Option PluginInfo) {d : Option PluginInfo}
          → or_else o d ≡ none
          → (o ≡ none) × (d ≡ none)
      split none h = (refl, h)
      split (some x) h = absurd cc

  load-Inv : (info : PluginInfo) (f : Factory M) → Inv f → Inv (load info f)
  unfolding load
  load-Inv info f i = elim (Option-cases (M.find info.puid f.plugins)) [
    | inl e ↦ rw e (new info.plugin_type refl e)
    | inr (other, e) ↦ rw e i
  ]
    where
      of_plugins :
          (j : Bytes)
          → M.find info.puid f.plugins ≡ none
          → info.puid ≡ j
          → M.find j (M.emplace info.puid info f.plugins) ≡ some info
      of_plugins j e s =
          rw (sym s)
            (M.find-emplace_self info.puid info f.plugins ∙ ap (λ o. or_else o (some info)) e)

      kept_plugins :
          (j : Bytes)
          → info.puid ≢ j
          → M.find j (M.emplace info.puid info f.plugins) ≡ M.find j f.plugins
      kept_plugins j o = M.find-emplace_ne j info.puid info f.plugins o

      new :
          (t : PluginType)
          → info.plugin_type ≡ t
          → M.find info.puid f.plugins ≡ none
          → Inv (hand_over t info f)
      new plugin_translator h e =
          let (no_t, no_d) = free info.puid f i e in
          record {
            agree = λ j. elim (emplaced M info.puid j info f.loaded_translators no_t) [
              | inl (s, p) ↦ rw (of_plugins j e s, p)
              | inr (o, p) ↦ rw (kept_plugins j o, p) (i.agree j)
            ];
            apart = λ j x g. elim (emplaced M info.puid j info f.loaded_translators no_t) [
              | inl (s, p) ↦ rw (sym s) no_d
              | inr (o, p) ↦ i.apart j x (sym p ∙ g)
            ];
            translators = λ j x g. elim (emplaced M info.puid j info f.loaded_translators no_t) [
              | inl (s, p) ↦ let t : is_translator info.plugin_type ≡ true = rw h in cc
              | inr (o, p) ↦ i.translators j x (sym p ∙ g)
            ];
            dispatchers = i.dispatchers;
          }
      new plugin_dispatcher h e =
          let (no_t, no_d) = free info.puid f i e in
          record {
            agree = λ j. elim (emplaced M info.puid j info f.loaded_dispatchers no_d) [
              | inl (s, p) ↦
                  let no_j : M.find j f.loaded_translators ≡ none = rw (sym s) no_t in
                  rw (of_plugins j e s, no_j, p)
              | inr (o, p) ↦ rw (kept_plugins j o, p) (i.agree j)
            ];
            apart = λ j x g. elim (emplaced M info.puid j info f.loaded_dispatchers no_d) [
              | inl (s, p) ↦
                  let no_j : M.find j f.loaded_translators ≡ none = rw (sym s) no_t in absurd cc
              | inr (o, p) ↦ p ∙ i.apart j x g
            ];
            translators = i.translators;
            dispatchers = λ j x g. elim (emplaced M info.puid j info f.loaded_dispatchers no_d) [
              | inl (s, p) ↦ let t : is_dispatcher info.plugin_type ≡ true = rw h in cc
              | inr (o, p) ↦ i.dispatchers j x (sym p ∙ g)
            ];
          }
      new plugin_unknown h e = i

  pub load_dir-Inv : (infos : List PluginInfo) (f : Factory M) → Inv f → Inv (load_dir infos f)
  unfolding load_dir
  load_dir-Inv [] f i = i
  load_dir-Inv (info ∷ infos) f i = load_dir-Inv infos (load info f) (load-Inv info f i)

  -- From the empty factory on, whatever libraries a directory holds, in whatever order: the plugins
  -- are the loaded translators and the loaded dispatchers, no uid names both, and each component
  -- has plugins of its type only.
  pub load_dir_lem : (infos : List PluginInfo) → Inv (load_dir infos create_factory)
  load_dir_lem infos = load_dir-Inv infos create_factory create_factory-Inv
