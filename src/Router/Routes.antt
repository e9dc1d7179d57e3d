-- ===== src/Router/Routes.antt =====
-- The state of `request_router`, how settings make routes, and what a connection gets from them.
-- The vectors of dispatchers are shared: a route holds the address of one.
use eiptnd.Prelude.{
  ℕ, zero, suc, Bool, true, ◌&&◌, Option, none, some, List, [], ◌∷◌, ◌++◌, Bytes, equal, length,
  get_elem?, if◌then◌else◌, ◌==◌,
}
use eiptnd.Boost.Containers.{FlatMap}
pub use eiptnd.Plugins.Manager.{
  PluginInfo, Fault, out_of_range, bad_data, plugin_failed, taken, Result, ok, err, ◌>>=◌,
}

-- An instance of a dispatcher plugin; `number` tells the instances apart.
pub record Dispatcher : Type 0 where
  pub uid : Bytes
  pub number : ℕ

-- A port and the uid of a translator.
abbrev pub RouteKey : Type 0
RouteKey = ℕ × Bytes

pub record Library : Type 1 where
  pub loaded_map : FlatMap Bytes PluginInfo
  pub dispatcher_map : FlatMap Bytes Dispatcher
  pub route_map : FlatMap RouteKey ℕ

pub record Router (L : Library) : Type 0 where
  pub loaded_dispatchers : L.loaded_map.Map
  pub dispatchers : L.dispatcher_map.Map
  pub routes : L.route_map.Map
  pub vectors : List (List Dispatcher)
  pub created : ℕ

-- The settings of one dispatcher: for each translator under "source" the values under "tcp", where
-- `none` stands for a value that get<unsigned short> refuses.
abbrev pub Source : Type 0
Source = List (Bytes × List (Option ℕ))

-- With the uid of a dispatcher stands whether its own `load_settings` takes them.
abbrev pub Settings : Type 0
Settings = List (Bytes × Bool × Source)

-- A vector gets one more element at its end.
unfoldable pub push_back : ℕ → Dispatcher → List (List Dispatcher) → List (List Dispatcher)
push_back n d [] = []
push_back zero d (v ∷ vs) = (v ++ (d ∷ [])) ∷ vs
push_back (suc n) d (v ∷ vs) = v ∷ push_back n d vs

abbrev pub same_key : RouteKey → RouteKey → Bool
same_key (p, u) (q, v) = p == q && equal u v

-- The iterator `it` of the loop: the entry where the last route was added, or `end()`.
abbrev pub Cursor : Type 0
Cursor = Option (RouteKey × ℕ)

abbrev pub found : RouteKey → Option ℕ → Cursor
found key none = none
found key (some a) = some (key, a)

abbrev pub or_nil : Option (List Dispatcher) → List Dispatcher
or_nil none = []
or_nil (some v) = v

abbrev pub vector_at : Option ℕ → List (List Dispatcher) → List Dispatcher
vector_at none vs = []
vector_at (some a) vs = or_nil (get_elem? vs a)

module _ {L : Library} where
  unfoldable pub add : PluginInfo → Router L → Router L
  add info r = record r {
    loaded_dispatchers = L.loaded_map.emplace info.puid info r.loaded_dispatchers;
  }

  -- What `create` does with what it finds.
  abbrev pub instantiate : Bytes → Option PluginInfo → Router L → Result (Dispatcher × Router L)
  instantiate uid none r = err out_of_range
  instantiate uid (some info) r =
      ok ((record { uid = uid; number = r.created }), record r { created = suc r.created })

  unfoldable pub create : Bytes → Router L → Result (Dispatcher × Router L)
  create uid r = instantiate uid (L.loaded_map.find uid r.loaded_dispatchers) r

  abbrev pub seek : RouteKey → Cursor → Router L → Cursor
  seek key none r = found key (L.route_map.find key r.routes)
  seek key (some (k, a)) r =
      if same_key k key then some (k, a) else found key (L.route_map.find key r.routes)

  -- A key that has no entry gets one, with a vector of its own.
  unfoldable pub place : Dispatcher → RouteKey → Cursor → Router L → Cursor × Router L
  place d key none r = (
    some (key, length r.vectors),
    record r {
      routes = L.route_map.emplace key (length r.vectors) r.routes;
      vectors = r.vectors ++ ((d ∷ []) ∷ []);
    },
  )
  place d key (some (k, a)) r = (some (k, a), record r { vectors = push_back a d r.vectors })

  -- What the loop does for one port of one translator.
  unfoldable pub add_route : Dispatcher → RouteKey → Cursor → Router L → Cursor × Router L
  unfolding place
  add_route d key it r = place d key (seek key it r) r

  unfoldable pub add_ports :
      Dispatcher → Bytes → List (Option ℕ) → Cursor → Router L → Result (Cursor × Router L)
  add_ports d translator [] it r = ok (it, r)
  add_ports d translator (none ∷ ps) it r = err bad_data
  add_ports d translator (some port ∷ ps) it r =
      let (it', r') = add_route d (port, translator) it r in add_ports d translator ps it' r'

  unfoldable pub add_sources : Dispatcher → Source → Cursor → Router L → Result (Router L)
  add_sources d [] it r = ok r
  add_sources d ((translator, ps) ∷ ss) it r =
      add_ports d translator ps it r >>= λ x. add_sources d ss x.0 x.1

  unfoldable pub load_settings : Settings → Router L → Result (Router L)
  load_settings [] r = ok r
  load_settings ((uid, is_taken, source) ∷ rest) r = create uid r >>= λ x. taken is_taken x >>= λ x.
      add_sources x.0 source none
        (record x.1 { dispatchers = L.dispatcher_map.emplace uid x.0 x.1.dispatchers })
      >>= λ r'. load_settings rest r'

  -- `authenticate` lets everybody in: it calls the callback with `true` before it returns.
  unfoldable pub authenticate : {A : Type 0} → Bytes → Bytes → (Bool → A) → Router L → A
  authenticate id password callback r = callback true

  -- `setup_connection_routes`: the vector that a connection's `process_data` is bound to.
  unfoldable pub setup_connection_routes : ℕ → Bytes → Router L → Option ℕ
  setup_connection_routes port uid r = L.route_map.find (port, uid) r.routes

  -- The dispatchers of a route.
  abbrev pub targets : RouteKey → Router L → List Dispatcher
  targets key r = vector_at (L.route_map.find key r.routes) r.vectors
