-- ===== src/Plugins/Assertion.antt =====
-- Which settings fail the assertion of `translator_manager::load_settings`.
use Prim.{tt, Unit}
use eiptnd.Prelude.{ℕ, ◌≡◌, refl, Bool, true, false, ◌||◌, Option, none, some, List, [], ◌∷◌, Bytes}
use eiptnd.Plugins.Manager.{
  PluginInfo, Result, ok, err, ◌>>=◌, assertion_failed, Library, Manager, Settings, create,
  map_port, map_ports, taken, load_settings, instantiate,
}
use eiptnd.Plugins.Ports.{has_key, have_key}

-- A result that is not a failed assertion, unless the flag is set.
abbrev pub Asserts : {A : Type 0} → Bool → Result A → Type 0
Asserts b (ok a) = Unit {0}
Asserts b (err assertion_failed) = b ≡ true
Asserts b (err f) = Unit {0}

asserted : {B : Type 0} (r : Result B) → Asserts true r
asserted (ok b) = tt
asserted (err assertion_failed) = refl
asserted (err f) = tt

pub or_Asserts :
    {A B : Type 0} (b c : Bool) (r : Result A) (k : A → Result B)
    → Asserts b r
    → ((a : A) → Asserts c (k a))
    → Asserts (b || c) (r >>= k)
or_Asserts true c (ok a) k h g = asserted (k a)
or_Asserts false c (ok a) k h g = g a
or_Asserts true c (err assertion_failed) k h g = refl
or_Asserts false c (err assertion_failed) k h g = absurd cc
or_Asserts b c (err f) k h g = tt

module _ {L : Library} where
  map_ports-Asserts :
      (uid : Bytes) (ps : List (Bytes × Option ℕ)) (m : Manager L)
      → Asserts (has_key ps) (map_ports uid ps m)
  unfolding map_ports
  map_ports-Asserts uid [] m = tt
  map_ports-Asserts uid ((c ∷ key, value) ∷ ps) m = refl
  map_ports-Asserts uid (([], none) ∷ ps) m = tt
  map_ports-Asserts uid (([], some p) ∷ ps) m = map_ports-Asserts uid ps (map_port p uid m).1

  created-Asserts :
      (b : Bool) (r : Option PluginInfo) (is_taken : Bool) (k : Result (Manager L))
      → Asserts b k
      → Asserts b (instantiate r >>= λ info. taken is_taken info >>= λ info. k)
  created-Asserts b none t k h = tt
  created-Asserts b (some info) true k h = h
  created-Asserts b (some info) false k h = tt

  -- The assertion fails only if a value under "tcp" has a key.
  pub load_settings-Asserts :
      (settings : Settings) (m : Manager L) → Asserts (have_key settings) (load_settings settings m)
  unfolding load_settings create
  load_settings-Asserts [] m = tt
  load_settings-Asserts ((uid, is_taken, ports) ∷ rest) m =
      created-Asserts _ (L.loaded_map.find uid m.loaded_translators) is_taken _ (
        or_Asserts (has_key ports) (have_key rest) (map_ports uid ports m) (load_settings rest)
          (map_ports-Asserts uid ports m) (λ n. load_settings-Asserts rest n))
