-- ===== src/Router/Exceptions.antt =====
-- `request_router::load_settings` has no assertion: what stops it is an exception.
use Prim.{tt}
use eiptnd.Prelude.{ℕ, Bool, true, false, Option, none, some, List, [], ◌∷◌, Bytes}
use eiptnd.Plugins.Manager.{PluginInfo, Result, ◌>>=◌, taken}
use eiptnd.Plugins.Assertion.{Asserts, or_Asserts}
use eiptnd.Router.Routes.{
  Library, Router, Dispatcher, Cursor, Source, Settings, add_route, add_ports, add_sources, create,
  instantiate, load_settings,
}

module _ {L : Library} where
  add_ports-Asserts :
      (d : Dispatcher) (translator : Bytes) (ps : List (Option ℕ)) (it : Cursor) (r : Router L)
      → Asserts false (add_ports d translator ps it r)
  unfolding add_ports
  add_ports-Asserts d translator [] it r = tt
  add_ports-Asserts d translator (none ∷ ps) it r = tt
  add_ports-Asserts d translator (some port ∷ ps) it r =
      let x = add_route d (port, translator) it r in add_ports-Asserts d translator ps x.0 x.1

  add_sources-Asserts :
      (d : Dispatcher) (source : Source) (it : Cursor) (r : Router L)
      → Asserts false (add_sources d source it r)
  unfolding add_sources
  add_sources-Asserts d [] it r = tt
  add_sources-Asserts d ((translator, ps) ∷ ss) it r =
      or_Asserts false false (add_ports d translator ps it r) _
        (add_ports-Asserts d translator ps it r) (λ x. add_sources-Asserts d ss x.0 x.1)

  created-Asserts :
      (uid : Bytes) (o : Option PluginInfo) (is_taken : Bool) (r : Router L)
      (k : Dispatcher × Router L → Result (Router L))
      → ((x : Dispatcher × Router L) → Asserts false (k x))
      → Asserts false (instantiate uid o r >>= λ x. taken is_taken x >>= k)
  created-Asserts uid none t r k h = tt
  created-Asserts uid (some info) true r k h = h _
  created-Asserts uid (some info) false r k h = tt

  pub load_settings-Asserts :
      (settings : Settings) (r : Router L) → Asserts false (load_settings settings r)
  unfolding load_settings create
  load_settings-Asserts [] r = tt
  load_settings-Asserts ((uid, is_taken, source) ∷ rest) r =
      created-Asserts uid (L.loaded_map.find uid r.loaded_dispatchers) is_taken r _ λ x.
        or_Asserts false false (add_sources x.0 source none _) _
          (add_sources-Asserts x.0 source none _) (λ s. load_settings-Asserts rest s)
