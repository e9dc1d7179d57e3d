-- ===== src/Router/Targets/Steps.antt =====
-- The invariant of the routes, and what a step of the loop of `load_settings` does to each route.
use eiptnd.Prelude.{
  ℕ, ◌≡◌, ◌<◌, refl, ap, sym, ◌∙◌, ◌⊎◌, inl, inr, true, none, some, List, [], ◌∷◌, ◌++◌, length,
  length-append, get_elem?, arith, Bool-cases, Option-cases, if◌then◌else◌, append-nil,
}
use Prim.{Unit}
use eiptnd.Router.Routes.{
  push_back, Dispatcher, same_key, RouteKey, or_nil, Library, Router, Cursor, found, seek,
  add_route, place, targets,
}
use eiptnd.Boost.Containers.{or_else}
use eiptnd.Router.Targets.Vectors.{
  same_key_iff, differs, length-push_back, push_back_self, push_back_ne, get_elem?-append,
  get_elem?-length,
}

-- What a step of the loop adds to the route `j`.
abbrev pub picked : RouteKey → RouteKey → Dispatcher → List Dispatcher
picked k j d = if same_key k j then d ∷ [] else []

module _ {L : Library} where
  -- Each route has a vector, and no two routes share one.
  pub record Inv (r : Router L) : Type 0 where
    pub bound : (k : RouteKey) (a : ℕ) → L.route_map.find k r.routes ≡ some a → a < length r.vectors
    pub apart :
        (j k : RouteKey) (a : ℕ)
        → L.route_map.find j r.routes ≡ some a
        → L.route_map.find k r.routes ≡ some a
        → j ≡ k

  -- The iterator points to an entry of the map, or to none.
  abbrev pub Points : Cursor → Router L → Type 0
  Points none r = Unit
  Points (some (k, a)) r = (L.route_map.find k r.routes ≡ some a)

  abbrev with_new : Dispatcher → RouteKey → Router L → Router L
  with_new d key r = record r {
    routes = L.route_map.emplace key (length r.vectors) r.routes;
    vectors = r.vectors ++ ((d ∷ []) ∷ []);
  }

  abbrev with_old : Dispatcher → ℕ → Router L → Router L
  with_old d a r = record r { vectors = push_back a d r.vectors }

  seek_lem :
      (key : RouteKey) (it : Cursor) (r : Router L)
      → Points it r
      → seek key it r ≡ found key (L.route_map.find key r.routes)
  seek_lem key none r p = refl
  seek_lem key (some (k, a)) r p = elim (Bool-cases (same_key k key)) [
    | inl e ↦
        let k_key = (same_key_iff k key).0 e in
        let at_key : L.route_map.find key r.routes ≡ some a = rw (sym k_key) p in
        rw (e, at_key) (ap (λ x. some (x, a)) k_key)
    | inr e ↦ rw e
  ]

  add_route_lem :
      (d : Dispatcher) (key : RouteKey) (it : Cursor) (r : Router L)
      → Points it r
      → ((L.route_map.find key r.routes ≡ none)
          × (add_route d key it r ≡ (some (key, length r.vectors), with_new d key r)))
        ⊎ ((a : ℕ) × (L.route_map.find key r.routes ≡ some a)
            × (add_route d key it r ≡ (some (key, a), with_old d a r)))
  unfolding add_route place
  add_route_lem d key it r p = elim (Option-cases (L.route_map.find key r.routes)) [
    | inl e ↦ inl (e, ap (λ x. place d key x r) (seek_lem key it r p ∙ ap (found key) e))
    | inr (a, e) ↦ inr (a, e, ap (λ x. place d key x r) (seek_lem key it r p ∙ ap (found key) e))
  ]

  with_old-targets :
      (d : Dispatcher) (key : RouteKey) (a : ℕ) (r : Router L) (j : RouteKey)
      → Inv r
      → L.route_map.find key r.routes ≡ some a
      → targets j (with_old d a r) ≡ targets j r ++ picked key j d
  with_old-targets d key a r j i e = elim (Bool-cases (same_key key j)) [
    | inl same ↦
        let at_j : L.route_map.find j r.routes ≡ some a =
          rw (sym ((same_key_iff key j).0 same)) e in
        rw (same, at_j) (push_back_self a d r.vectors (i.bound key a e))
    | inr other ↦ elim (Option-cases (L.route_map.find j r.routes)) [
      | inl free ↦ rw (other, free)
      | inr (b, at_j) ↦
          rw (other, at_j, append-nil (or_nil (get_elem? r.vectors b)))
            (ap or_nil (
              push_back_ne a b d r.vectors
                (λ same. differs key j other (i.apart key j b (rw (sym same) e) at_j))))
    ]
  ]

  found_new :
      (d : Dispatcher) (key j : RouteKey) (r : Router L)
      → same_key key j ≡ true
      → L.route_map.find key r.routes ≡ none
      → L.route_map.find j (with_new d key r).routes ≡ some (length r.vectors)
  found_new d key j r same e = rw (sym ((same_key_iff key j).0 same)) (
      L.route_map.find-emplace_self key (length r.vectors) r.routes
      ∙ ap (λ x. or_else x (some (length r.vectors))) e)

  with_new-targets :
      (d : Dispatcher) (key : RouteKey) (r : Router L) (j : RouteKey)
      → Inv r
      → L.route_map.find key r.routes ≡ none
      → targets j (with_new d key r) ≡ targets j r ++ picked key j d
  with_new-targets d key r j i e = elim (Bool-cases (same_key key j)) [
    | inl same ↦
        let at_j : L.route_map.find j r.routes ≡ none = rw (sym ((same_key_iff key j).0 same)) e in
        let at_new = found_new d key j r same e in
        rw (same, at_j, at_new) (ap or_nil (get_elem?-length r.vectors (d ∷ [])))
    | inr other ↦
        rw
          (
            other,
            L.route_map.find-emplace_ne j key (length r.vectors) r.routes (differs key j other),
          )
          (elim (Option-cases (L.route_map.find j r.routes)) [
            | inl free ↦ rw free
            | inr (b, at_j) ↦ rw (
              at_j,
              get_elem?-append b r.vectors ((d ∷ []) ∷ []) (i.bound j b at_j),
              append-nil (or_nil (get_elem? r.vectors b)),
            )
          ])
  ]

  with_old-Inv : (d : Dispatcher) (a : ℕ) (r : Router L) → Inv r → Inv (with_old d a r)
  with_old-Inv d a r i = record {
    bound = λ k b e. rw (length-push_back a d r.vectors) (i.bound k b e);
    apart = i.apart;
  }

  -- An entry of the extended map is an old one or the new one.
  entry_cases :
      (d : Dispatcher) (key k : RouteKey) (a : ℕ) (r : Router L)
      → L.route_map.find key r.routes ≡ none
      → L.route_map.find k (with_new d key r).routes ≡ some a
      → ((k ≡ key) × (a ≡ length r.vectors)) ⊎ (L.route_map.find k r.routes ≡ some a)
  entry_cases d key k a r e h = elim (Bool-cases (same_key key k)) [
    | inl same ↦ let new = found_new d key k r same e in inl (sym ((same_key_iff key k).0 same), cc)
    | inr other ↦ inr (
        sym (L.route_map.find-emplace_ne k key (length r.vectors) r.routes (differs key k other))
        ∙ h)
  ]

  with_new-Inv :
      (d : Dispatcher) (key : RouteKey) (r : Router L)
      → Inv r
      → L.route_map.find key r.routes ≡ none
      → Inv (with_new d key r)
  with_new-Inv d key r i e = record {
    bound = λ k a h. elim (entry_cases d key k a r e h) [
      | inl (_, f) ↦ omega (arith, f, length-append r.vectors ((d ∷ []) ∷ []))
      | inr f ↦ omega (arith, i.bound k a f, length-append r.vectors ((d ∷ []) ∷ []))
    ];
    apart = λ j k a h g. elim (entry_cases d key j a r e h) [
      | inl (j_key, f) ↦ elim (entry_cases d key k a r e g) [
        | inl (k_key, _) ↦ j_key ∙ sym k_key
        | inr g' ↦ absurd (omega (arith, f, i.bound k a g'))
      ]
      | inr h' ↦ elim (entry_cases d key k a r e g) [
        | inl (_, f) ↦ absurd (omega (arith, f, i.bound j a h'))
        | inr g' ↦ i.apart j k a h' g'
      ]
    ];
  }

  -- After a step of the loop the invariant holds again, the iterator points to an entry, and each
  -- route has the dispatchers that it had, the route of the key with the new one after them.
  pub add_route-targets :
      (d : Dispatcher) (key : RouteKey) (it : Cursor) (r : Router L)
      → Inv r
      → Points it r
      → Inv (add_route d key it r).1
        × Points (add_route d key it r).0 (add_route d key it r).1
        × ((j : RouteKey) → targets j (add_route d key it r).1 ≡ targets j r ++ picked key j d)
  add_route-targets d key it r i p = elim (add_route_lem d key it r p) [
    | inl (e, f) ↦ rw f (
      with_new-Inv d key r i e,
      found_new d key key r ((same_key_iff key key).1 refl) e,
      λ j. with_new-targets d key r j i e,
    )
    | inr (a, e, f) ↦ rw f (with_old-Inv d a r i, e, λ j. with_old-targets d key a r j i e)
  ]

  pub add_route-kept :
      (d : Dispatcher) (key : RouteKey) (it : Cursor) (r : Router L)
      → ((add_route d key it r).1.created ≡ r.created)
        × ((add_route d key it r).1.loaded_dispatchers ≡ r.loaded_dispatchers)
  unfolding add_route place
  add_route-kept d key it r = kept (seek key it r)
    where
      kept :
          (c : Cursor)
          → ((place d key c r).1.created ≡ r.created)
            × ((place d key c r).1.loaded_dispatchers ≡ r.loaded_dispatchers)
      kept none = (refl, refl)
      kept (some (k, a)) = (refl, refl)
