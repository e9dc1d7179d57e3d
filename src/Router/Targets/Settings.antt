-- ===== src/Router/Targets/Settings.antt =====
-- `load_settings` as a whole: the dispatchers of each route are those whose settings name it.
use eiptnd.Prelude.{
  both, ℕ, suc, ◌≡◌, refl, ap, sym, ◌∙◌, Bool, true, false, ◌&&◌, Option, none, some, List, [], ◌∷◌,
  ◌++◌, Bytes, append-nil, append_assoc, Option-cases, inl, inr,
}
use eiptnd.Router.Routes.{
  Dispatcher, RouteKey, Library, Router, Cursor, add_route, add_ports, add_sources, load_settings,
  targets, create, taken, instantiate, Settings, Source, ok, ◌>>=◌,
}
use Prim.{tt}
use eiptnd.Router.Targets.Steps.{Inv, Points, picked, add_route-targets, add_route-kept}

-- A dispatcher is added to a route.
abbrev pub Addition : Type 0
Addition = RouteKey × Dispatcher

-- The dispatchers that a list of additions gives to the route `j`, in its order.
abbrev pub picks : RouteKey → List Addition → List Dispatcher
picks j [] = []
picks j ((k, d) ∷ xs) = picked k j d ++ picks j xs

-- The additions that settings ask for, read without any state: the dispatchers are numbered in
-- the order of the settings.
abbrev pub ports_of : Dispatcher → Bytes → List (Option ℕ) → List Addition
ports_of d translator [] = []
ports_of d translator (none ∷ ps) = ports_of d translator ps
ports_of d translator (some port ∷ ps) = ((port, translator), d) ∷ ports_of d translator ps

abbrev pub sources_of : Dispatcher → Source → List Addition
sources_of d [] = []
sources_of d ((translator, ps) ∷ ss) = ports_of d translator ps ++ sources_of d ss

abbrev pub settings_of : ℕ → Settings → List Addition
settings_of n [] = []
settings_of n ((uid, is_taken, source) ∷ rest) =
    sources_of (record { uid = uid; number = n }) source ++ settings_of (suc n) rest

-- Every port is a number.
abbrev pub are_numbers : List (Option ℕ) → Bool
are_numbers [] = true
are_numbers (none ∷ ps) = false
are_numbers (some port ∷ ps) = are_numbers ps

abbrev pub are_ports : Source → Bool
are_ports [] = true
are_ports ((translator, ps) ∷ ss) = are_numbers ps && are_ports ss

picks-append :
    (j : RouteKey) (xs ys : List Addition) → picks j (xs ++ ys) ≡ picks j xs ++ picks j ys
picks-append j [] ys = refl
picks-append j ((k, d) ∷ xs) ys =
    ap (λ x. picked k j d ++ x) (picks-append j xs ys)
    ∙ sym (append_assoc (picked k j d) (picks j xs) (picks j ys))

abbrev is_some {ℓ} : {A : Type ℓ} → Option A → Bool
is_some none = false
is_some (some a) = true

-- The settings name loaded dispatchers only, which take their own, and every port is a number.
abbrev pub is_ready : (L : Library) → Settings → L.loaded_map.Map → Bool
is_ready L [] loaded = true
is_ready L ((uid, is_taken, source) ∷ rest) loaded =
    is_taken
    && (is_some (L.loaded_map.find uid loaded) && (are_ports source && is_ready L rest loaded))

module _ {L : Library} where
  -- `r'` is `r` with these additions, and nothing else that the loop reads has changed.
  pub record Adds (xs : List Addition) (r r' : Router L) : Type 0 where
    pub inv : Inv r'
    pub all_targets : (j : RouteKey) → targets j r' ≡ targets j r ++ picks j xs
    pub created_kept : r'.created ≡ r.created
    pub loaded_kept : r'.loaded_dispatchers ≡ r.loaded_dispatchers

  Adds-nil : (r : Router L) → Inv r → Adds [] r r
  Adds-nil r i = record {
    inv = i;
    all_targets = λ j. sym (append-nil (targets j r));
    created_kept = refl;
    loaded_kept = refl;
  }

  Adds-append :
      (xs ys : List Addition) (r s t : Router L) → Adds xs r s → Adds ys s t → Adds (xs ++ ys) r t
  Adds-append xs ys r s t a b = record {
    inv = b.inv;
    all_targets = λ j.
        b.all_targets j
        ∙ (ap (λ x. x ++ picks j ys) (a.all_targets j)
            ∙ (append_assoc (targets j r) (picks j xs) (picks j ys)
                ∙ ap (λ x. targets j r ++ x) (sym (picks-append j xs ys))));
    created_kept = b.created_kept ∙ a.created_kept;
    loaded_kept = b.loaded_kept ∙ a.loaded_kept;
  }

  add_route-Adds :
      (d : Dispatcher) (key : RouteKey) (it : Cursor) (r : Router L)
      → Inv r
      → Points it r
      → Adds ((key, d) ∷ []) r (add_route d key it r).1
  add_route-Adds d key it r i p =
      let (i', p', t) = add_route-targets d key it r i p in
      let (c, l) = add_route-kept d key it r in
      record {
        inv = i';
        all_targets = λ j. t j ∙ ap (λ x. targets j r ++ x) (sym (append-nil (picked key j d)));
        created_kept = c;
        loaded_kept = l;
      }

  add_ports-Adds :
      (d : Dispatcher) (translator : Bytes) (ps : List (Option ℕ)) (it : Cursor) (r : Router L)
      → are_numbers ps ≡ true
      → Inv r
      → Points it r
      → (x : Cursor × Router L) × (add_ports d translator ps it r ≡ ok x)
        × Points x.0 x.1
        × Adds (ports_of d translator ps) r x.1
  unfolding add_ports
  add_ports-Adds d translator [] it r n i p = ((it, r), refl, p, Adds-nil r i)
  add_ports-Adds d translator (none ∷ ps) it r n i p = absurd cc
  add_ports-Adds d translator (some port ∷ ps) it r n i p =
      let (i', p', t) = add_route-targets d (port, translator) it r i p in
      let now = add_route d (port, translator) it r in
      let (x, e, q, a) = add_ports-Adds d translator ps now.0 now.1 n i' p' in
      (
        x,
        e,
        q,
        Adds-append (((port, translator), d) ∷ []) (ports_of d translator ps) r now.1 x.1
            (add_route-Adds d (port, translator) it r i p) a,
      )

  add_sources-Adds :
      (d : Dispatcher) (ss : Source) (it : Cursor) (r : Router L)
      → are_ports ss ≡ true
      → Inv r
      → Points it r
      → (r' : Router L) × (add_sources d ss it r ≡ ok r') × Adds (sources_of d ss) r r'
  unfolding add_sources
  add_sources-Adds d [] it r n i p = (r, refl, Adds-nil r i)
  add_sources-Adds d ((translator, ps) ∷ ss) it r n i p =
      let (n₁, n₂) = both (are_numbers ps) (are_ports ss) n in
      let (x, e, q, a) = add_ports-Adds d translator ps it r n₁ i p in
      let (r', f, b) = add_sources-Adds d ss x.0 x.1 n₂ a.inv q in
      (
        r',
        ap (λ y. y >>= λ x. add_sources d ss x.0 x.1) e ∙ f,
        Adds-append (ports_of d translator ps) (sources_of d ss) r x.1 r' a b,
      )

  create_lem :
      (uid : Bytes) (r : Router L)
      → is_some (L.loaded_map.find uid r.loaded_dispatchers) ≡ true
      → create uid r
        ≡ ok ((record { uid = uid; number = r.created }), record r { created = suc r.created })
  unfolding create
  create_lem uid r h = elim (Option-cases (L.loaded_map.find uid r.loaded_dispatchers)) [
    | inl e ↦ absurd cc
    | inr (info, e) ↦ ap (λ x. instantiate uid x r) e
  ]

  -- When the settings name loaded dispatchers only, each of which takes its own settings, every
  -- port is a number and the routes satisfy their invariant, `load_settings` returns; the invariant holds again, and each route has the
  -- dispatchers that it had before and then, in the order of the settings and once for each time
  -- its port is listed, those whose "source" lists the port under the translator.
  pub load_settings-targets :
      (settings : Settings) (r : Router L)
      → is_ready L settings r.loaded_dispatchers ≡ true
      → Inv r
      → (r' : Router L) × (load_settings settings r ≡ ok r')
        × Inv r'
        × ((j : RouteKey) → targets j r' ≡ targets j r ++ picks j (settings_of r.created settings))
  unfolding load_settings
  load_settings-targets [] r h i = (r, refl, i, λ j. sym (append-nil (targets j r)))
  load_settings-targets ((uid, false, source) ∷ rest) r h i = absurd cc
  load_settings-targets ((uid, true, source) ∷ rest) r h i =
      let (h₁, h₂) =
        both (is_some (L.loaded_map.find uid r.loaded_dispatchers))
          (are_ports source && is_ready L rest r.loaded_dispatchers) h in
      let (h₃, h₄) = both (are_ports source) (is_ready L rest r.loaded_dispatchers) h₂ in
      let d : Dispatcher = record { uid = uid; number = r.created } in
      let s : Router L = record r {
        created = suc r.created;
        dispatchers = L.dispatcher_map.emplace uid d r.dispatchers;
      } in
      let (t, e, a) =
        add_sources-Adds d source none s h₃ (record { bound = i.bound; apart = i.apart }) tt in
      let (r', f, i', g) =
        load_settings-targets rest t (ap (is_ready L rest) a.loaded_kept ∙ h₄) a.inv in
      (
        r',
        ap
              (λ x. x >>= λ x. taken true x >>= λ x.
                add_sources x.0 source none
                  (record x.1 { dispatchers = L.dispatcher_map.emplace uid x.0 x.1.dispatchers })
                >>= λ r'. load_settings rest r')
              (create_lem uid r h₁)
            ∙ (ap (λ x. x >>= λ r'. load_settings rest r') e ∙ f),
        i',
        λ j.
            g j
            ∙ (ap (λ n. targets j t ++ picks j (settings_of n rest)) a.created_kept
                ∙ (ap (λ x. x ++ picks j (settings_of (suc r.created) rest)) (a.all_targets j)
                    ∙ (append_assoc (targets j r) (picks j (sources_of d source))
                          (picks j (settings_of (suc r.created) rest))
                        ∙ ap (λ x. targets j r ++ x)
                            (sym (
                              picks-append j (sources_of d source)
                                (settings_of (suc r.created) rest)))))),
      )
