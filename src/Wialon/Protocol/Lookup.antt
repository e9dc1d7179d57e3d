-- ===== src/Wialon/Protocol/Lookup.antt =====
-- What `estimates_.find` gives, by the documented behaviour of the map.
use eiptnd.Prelude.{
  ℕ, ◌≡◌, refl, ap, ◌∙◌, inl, inr, Option, none, some, List, [], ◌∷◌, Bytes, equal, equal_iff,
  if◌then◌else◌, Bool-cases, arith,
}
use eiptnd.Boost.Containers.{FlatMap, or_else}
use eiptnd.Wialon.Protocol.{
  Command, command_login, command_data, command_ping, command_shortdata, command_blackbox,
  command_message, command_image, name, arity, commands, estimates_onto, estimates,
}

abbrev lookup_from : Bytes → List Command → Option (ℕ × Command) → Option (ℕ × Command)
lookup_from j [] d = d
lookup_from j (c ∷ cs) d =
    lookup_from j cs (if equal (name c) j then or_else d (some (arity c, c)) else d)

-- The text names this command, which takes so many parameters.
abbrev pub IsEntry : Bytes → ℕ × Command → Type 0
IsEntry j e = (j ≡ name e.1) × (e.0 ≡ arity e.1)

lookup_from-IsEntry :
    (j : Bytes) (cs : List Command) (d : Option (ℕ × Command)) {e : ℕ × Command}
    → ((f : ℕ × Command) → d ≡ some f → IsEntry j f)
    → lookup_from j cs d ≡ some e
    → IsEntry j e
lookup_from-IsEntry j [] d h p = h _ p
lookup_from-IsEntry j (c ∷ cs) d h p =
    lookup_from-IsEntry j cs (if equal (name c) j then or_else d (some (arity c, c)) else d)
      (λ f q. added d h f q) p
  where
    added :
        (d : Option (ℕ × Command))
        → ((f : ℕ × Command) → d ≡ some f → IsEntry j f)
        → (f : ℕ × Command)
        → (if equal (name c) j then or_else d (some (arity c, c)) else d) ≡ some f
        → IsEntry j f
    added none h f q = ground (arith, equal_iff (name c) j)
    added (some g) h f q = h f (ground arith)

module _ (E : FlatMap Bytes (ℕ × Command)) where
  find-emplace :
      (j k : Bytes) (v : ℕ × Command) (m : E.Map)
      → E.find j (E.emplace k v m)
        ≡ (if equal k j then or_else (E.find j m) (some v) else E.find j m)
  find-emplace j k v m = elim (Bool-cases (equal k j)) [
    | inl same ↦ rw (same, (equal_iff k j).0 same) (E.find-emplace_self j v m)
    | inr other ↦ rw other (E.find-emplace_ne j k v m λ e. ground (arith, equal_iff k j))
  ]

  find-estimates_onto :
      (j : Bytes) (m : E.Map) (cs : List Command)
      → E.find j (estimates_onto E m cs) ≡ lookup_from j cs (E.find j m)
  unfolding estimates_onto
  find-estimates_onto j m [] = refl
  find-estimates_onto j m (c ∷ cs) =
      find-estimates_onto j (E.emplace (name c) (arity c, c) m) cs
      ∙ ap (lookup_from j cs) (find-emplace j (name c) (arity c, c) m)

  find-estimates : (j : Bytes) → E.find j (estimates E) ≡ lookup_from j commands none
  unfolding estimates
  find-estimates j =
      find-estimates_onto j E.empty commands ∙ ap (lookup_from j commands) (E.find-empty j)

  pub find-estimates_name : (c : Command) → E.find (name c) (estimates E) ≡ some (arity c, c)
  unfolding equal
  find-estimates_name command_login = find-estimates (name command_login)
  find-estimates_name command_data = find-estimates (name command_data)
  find-estimates_name command_ping = find-estimates (name command_ping)
  find-estimates_name command_shortdata = find-estimates (name command_shortdata)
  find-estimates_name command_blackbox = find-estimates (name command_blackbox)
  find-estimates_name command_message = find-estimates (name command_message)
  find-estimates_name command_image = find-estimates (name command_image)

  pub find-estimates-IsEntry :
      (j : Bytes) (e : ℕ × Command) → E.find j (estimates E) ≡ some e → IsEntry j e
  find-estimates-IsEntry j e p =
      lookup_from-IsEntry j commands none (λ f q. cc) (rw (find-estimates j) at p)
