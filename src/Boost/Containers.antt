-- ===== src/Boost/Containers.antt =====
-- boost::container::flat_map and boost::property_tree::basic_ptree, as the source uses them.
use eiptnd.Prelude.{
  Bool, true, false, ◌≡◌, ◌≢◌, Option, none, some, List, [], ◌∷◌, ◌++◌, Bytes, if◌then◌else◌, ◌==◌,
}

-- A value of an `Option`, or else another one.
abbrev pub or_else {ℓ} : {A : Type ℓ} → Option A → Option A → Option A
or_else none d = d
or_else (some a) d = some a

-- A map with unique keys: `find`, and `emplace`, which leaves a key alone that is already there.
pub record FlatMap (K V : Type 0) : Type 1 where
  pub Map : Type 0
  pub empty : Map
  pub find : K → Map → Option V
  pub emplace : K → V → Map → Map
  pub find-empty : (k : K) → find k empty ≡ none
  pub find-emplace_self :
      (k : K) (v : V) (m : Map) → find k (emplace k v m) ≡ or_else (find k m) (some v)
  pub find-emplace_ne : (j k : K) (v : V) (m : Map) → k ≢ j → find j (emplace k v m) ≡ find j m

-- A map with equivalent keys: `range k` is what lies from lower_bound(k) to upper_bound(k); `find`
-- gives one entry of it, and nothing says which; `emplace` puts one entry somewhere into it.
pub record FlatMultimap (K V : Type 0) : Type 1 where
  pub Map : Type 0
  pub empty : Map
  pub find : K → Map → Option V
  pub range : K → Map → List V
  pub emplace : K → V → Map → Map
  pub range-empty : (k : K) → range k empty ≡ []
  pub find-none : (k : K) (m : Map) → find k m ≡ none → range k m ≡ []
  pub find-some :
      (k : K) (v : V) (m : Map)
      → find k m ≡ some v
      → (before : List V) × (after : List V) × (range k m ≡ before ++ (v ∷ after))
  pub range-emplace_self :
      (k : K) (v : V) (m : Map)
      → (before : List V) × (after : List V) × (range k m ≡ before ++ after)
        × (range k (emplace k v m) ≡ before ++ (v ∷ after))
  pub range-emplace_ne : (j k : K) (v : V) (m : Map) → k ≢ j → range j (emplace k v m) ≡ range j m

-- A key that is one step of a path: it holds no separator.
abbrev pub is_plain : Bytes → Bool
is_plain [] = true
is_plain (c ∷ cs) = if c == b'.' then false else is_plain cs

-- A property tree of strings: `put(key, value)` and `get_optional<std::string>(key)`.
pub record Tree : Type 1 where
  pub Ptree : Type 0
  pub empty : Ptree
  pub put : Bytes → Bytes → Ptree → Ptree
  pub get : Bytes → Ptree → Option Bytes
  pub get-put_self : (k v : Bytes) (t : Ptree) → is_plain k ≡ true → get k (put k v t) ≡ some v
  pub get-put_ne :
      (j k v : Bytes) (t : Ptree)
      → is_plain j ≡ true
      → is_plain k ≡ true
      → k ≢ j
      → get j (put k v t) ≡ get j t
