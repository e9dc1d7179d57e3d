-- ===== src/Plugins/Mapped.antt =====
-- The ports of translators: only loaded translators are mapped, and a mapped port can be served.
use eiptnd.Prelude.{
  both, ℕ, ◌≡◌, refl, ap, sym, ◌∙◌, inl, inr, Bool, true, false, ◌&&◌, Option, none, some, List, [],
  ◌∷◌, Bytes, Bool-cases, Option-cases, ◌==◌, ==_iff,
}
use eiptnd.Plugins.Manager.{
  PluginInfo, ok, ◌>>=◌, Library, Manager, is_same, Settings, create, map_found, map_port,
  list_port, map_ports, taken, load_settings, on_connection, instantiate,
}
use eiptnd.Plugins.Ports.{
  every, and_intro, is_served, accepts, is_filled, every-insert, filled-insert, last_uid-every,
  are_numbers, numbers, all_ports, every-append, every-map,
}

module _ (L : Library) where
  -- The uid names a loaded translator.
  abbrev pub serves : L.loaded_map.Map → Bytes → Bool
  serves loaded uid = is_served (L.loaded_map.find uid loaded)

  -- Only loaded translators are mapped.
  pub record Inv (m : Manager L) : Type 0 where
    pub mapped :
        (port_num : ℕ)
        → every (serves m.loaded_translators) (L.port_map.range port_num m.port_mapping) ≡ true

  -- A port that has a mapping gets a translator.
  pub on_connection_lem :
      (port_num : ℕ) (m : Manager L)
      → Inv m
      → is_filled (L.port_map.range port_num m.port_mapping) ≡ true
      → accepts (on_connection port_num m) ≡ true
  unfolding on_connection create list_port
  on_connection_lem port_num m i f = accepts_found _ (
      last_uid-every (serves m.loaded_translators) [] (L.port_map.range port_num m.port_mapping) f
        (i.mapped port_num))
    where
      accepts_found : (o : Option PluginInfo) → is_served o ≡ true → accepts (instantiate o) ≡ true
      accepts_found none h = h
      accepts_found (some info) h = h

  -- What a mapping leaves of the manager: the loaded translators; and a port that had a mapping has
  -- one again.
  pub record Step (m m' : Manager L) : Type 0 where
    pub inv : Inv m'
    loaded : m'.loaded_translators ≡ m.loaded_translators
    filled :
        (port_num : ℕ)
        → is_filled (L.port_map.range port_num m.port_mapping) ≡ true
        → is_filled (L.port_map.range port_num m'.port_mapping) ≡ true

  abbrev pub with_port : ℕ → Bytes → Manager L → Manager L
  with_port port_num uid m = record m {
    port_mapping = L.port_map.emplace port_num uid m.port_mapping;
  }

  others :
      (port_num : ℕ) (uid : Bytes) (n : ℕ) (m : Manager L)
      → (port_num == n) ≡ false
      → L.port_map.range n (with_port port_num uid m).port_mapping
        ≡ L.port_map.range n m.port_mapping
  others port_num uid n m h =
      L.port_map.range-emplace_ne n port_num uid m.port_mapping
        (λ g. let same = (==_iff port_num n).1 g in absurd cc)

  pub with_port-Step :
      (port_num : ℕ) (uid : Bytes) (m : Manager L)
      → Inv m
      → serves m.loaded_translators uid ≡ true
      → Step m (with_port port_num uid m)
        × (is_filled (L.port_map.range port_num (with_port port_num uid m).port_mapping) ≡ true)
  with_port-Step port_num uid m i s =
      let (before, after, e, f) = L.port_map.range-emplace_self port_num uid m.port_mapping in
      let new : is_filled (L.port_map.range port_num (with_port port_num uid m).port_mapping)
          ≡ true =
        rw f (filled-insert before after uid) in
      (
        record {
          inv = record {
            mapped = λ n. elim (Bool-cases (port_num == n)) [
              | inl h ↦
                  rw (sym ((==_iff port_num n).0 h), f)
                    (every-insert (serves m.loaded_translators) before after uid
                      (ap (every (serves m.loaded_translators)) (sym e) ∙ i.mapped port_num) s)
              | inr h ↦ rw (others port_num uid n m h) (i.mapped n)
            ];
          };
          loaded = refl;
          filled = λ n g. elim (Bool-cases (port_num == n)) [
            | inl h ↦ rw (sym ((==_iff port_num n).0 h)) new
            | inr h ↦ rw (others port_num uid n m h) g
          ];
        },
        new,
      )

  mapped_before :
      (port_num : ℕ) (uid : Bytes) (m : Manager L)
      → is_same (L.port_map.find port_num m.port_mapping) uid ≡ true
      → is_filled (L.port_map.range port_num m.port_mapping) ≡ true
  mapped_before port_num uid m e = elim (Option-cases (L.port_map.find port_num m.port_mapping)) [
    | inl f ↦ absurd cc
    | inr (v, f) ↦
        let (before, after, g) = L.port_map.find-some port_num v m.port_mapping f in
        rw g (filled-insert before after v)
  ]

  map_port-Step :
      (port_num : ℕ) (uid : Bytes) (m : Manager L)
      → Inv m
      → serves m.loaded_translators uid ≡ true
      → Step m (map_port port_num uid m).1
        × (is_filled (L.port_map.range port_num (map_port port_num uid m).1.port_mapping) ≡ true)
  unfolding map_port
  map_port-Step port_num uid m i s = found (L.loaded_map.find uid m.loaded_translators) s
    where
      found :
          (o : Option PluginInfo)
          → is_served o ≡ true
          → Step m (map_found port_num uid o m).1
            × (is_filled (L.port_map.range port_num (map_found port_num uid o m).1.port_mapping)
                ≡ true)
      found none h = absurd cc
      found (some p) h =
          rw h (elim (Bool-cases (is_same (L.port_map.find port_num m.port_mapping) uid)) [
            | inl e ↦ rw e (
              record { inv = i; loaded = refl; filled = λ n g. g },
              mapped_before port_num uid m e,
            )
            | inr e ↦ rw e (with_port-Step port_num uid m i s)
          ])

  step-trans : (m n o : Manager L) → Step m n → Step n o → Step m o
  step-trans m n o s t = record {
    inv = t.inv;
    loaded = t.loaded ∙ s.loaded;
    filled = λ k g. t.filled k (s.filled k g);
  }

  -- The settings name loaded translators only, and every value is a port number.
  abbrev pub are_ready : L.loaded_map.Map → Settings → Bool
  are_ready loaded [] = true
  are_ready loaded ((uid, is_taken, ports) ∷ rest) =
      is_taken && (serves loaded uid && (are_numbers ports && are_ready loaded rest))

  abbrev has_mapping : Manager L → ℕ → Bool
  has_mapping m port_num = is_filled (L.port_map.range port_num m.port_mapping)

  map_ports-Step :
      (uid : Bytes) (ps : List (Bytes × Option ℕ)) (m : Manager L)
      → Inv m
      → serves m.loaded_translators uid ≡ true
      → are_numbers ps ≡ true
      → (m' : Manager L) × (map_ports uid ps m ≡ ok m')
        × Step m m'
        × (every (has_mapping m') (numbers ps) ≡ true)
  unfolding map_ports
  map_ports-Step uid [] m i s n =
      (m, refl, record { inv = i; loaded = refl; filled = λ k g. g }, refl)
  map_ports-Step uid ((c ∷ key, value) ∷ ps) m i s n = absurd cc
  map_ports-Step uid (([], none) ∷ ps) m i s n = absurd cc
  map_ports-Step uid (([], some port_num) ∷ ps) m i s n =
      let (a, f) = map_port-Step port_num uid m i s in
      let now = (map_port port_num uid m).1 in
      let (m', e, b, all) =
        map_ports-Step uid ps now a.inv (ap (λ l. serves l uid) a.loaded ∙ s) n in
      (
        m',
        e,
        step-trans m now m' a b,
        and_intro (has_mapping m' port_num) (every (has_mapping m') (numbers ps))
            (b.filled port_num f) all,
      )

  create_served :
      (uid : Bytes) (m : Manager L)
      → serves m.loaded_translators uid ≡ true
      → (info : PluginInfo) × (create uid m ≡ ok info)
  unfolding create
  create_served uid m s = elim (Option-cases (L.loaded_map.find uid m.loaded_translators)) [
    | inl e ↦ absurd cc
    | inr (info, e) ↦ (info, ap instantiate e)
  ]

  load_settings-Step :
      (settings : Settings) (m : Manager L)
      → Inv m
      → are_ready m.loaded_translators settings ≡ true
      → (m' : Manager L) × (load_settings settings m ≡ ok m')
        × Step m m'
        × (every (has_mapping m') (all_ports settings) ≡ true)
  unfolding load_settings
  load_settings-Step [] m i h =
      (m, refl, record { inv = i; loaded = refl; filled = λ k g. g }, refl)
  load_settings-Step ((uid, false, ports) ∷ rest) m i h = absurd cc
  load_settings-Step ((uid, true, ports) ∷ rest) m i h =
      let (h₁, h₂) =
        both (serves m.loaded_translators uid)
          (are_numbers ports && are_ready m.loaded_translators rest) h in
      let (h₃, h₄) = both (are_numbers ports) (are_ready m.loaded_translators rest) h₂ in
      let (info, c) = create_served uid m h₁ in
      let (n, e, a, f) = map_ports-Step uid ports m i h₁ h₃ in
      let (m', g, b, k) =
        load_settings-Step rest n a.inv (ap (λ l. are_ready l rest) a.loaded ∙ h₄) in
      (
        m',
        ap
              (λ x. x >>= λ info.
                taken true info >>= λ info. map_ports uid ports m >>= λ m'. load_settings rest m')
              c
            ∙ (ap (λ x. x >>= λ m'. load_settings rest m') e ∙ g),
        step-trans m n m' a b,
        every-append (has_mapping m') (numbers ports) (all_ports rest)
            (every-map (has_mapping n) (has_mapping m') (numbers ports) b.filled f) k,
      )

  -- When only loaded translators are mapped, the settings name loaded translators only, each of
  -- which takes its own settings, and what stands under "tcp" are arrays of port numbers,
  -- `load_settings` returns; again only loaded translators are mapped; and a connection to any port
  -- of the settings gets an instance of a translator.
  pub load_settings-on_connection :
      (settings : Settings) (m : Manager L)
      → Inv m
      → are_ready m.loaded_translators settings ≡ true
      → (m' : Manager L) × (load_settings settings m ≡ ok m')
        × Inv m'
        × (every (λ port_num. accepts (on_connection port_num m')) (all_ports settings) ≡ true)
  load_settings-on_connection settings m i h =
      let (m', e, s, f) = load_settings-Step settings m i h in
      (
        m',
        e,
        s.inv,
        every-map (has_mapping m') (λ port_num. accepts (on_connection port_num m'))
            (all_ports settings) (λ port_num. on_connection_lem port_num m' s.inv) f,
      )
