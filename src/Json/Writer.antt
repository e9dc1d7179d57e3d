-- ===== src/Json/Writer.antt =====
-- `out_json_value` and `write_json_helper` of include/dptree_json.hpp.
use eiptnd.Prelude.{
  ℕ, zero, suc, ◌+◌, ◌*◌, Bool, true, false, ◌&&◌, [], ◌∷◌, ◌++◌, Bytes, if◌then◌else◌, ◌==◌, ltb,
}
use eiptnd.Json.Values.{Cast, DptreeValue, string, Dptree, node, Children, nil, child, get_value}

-- std::string(n, ' ')
unfoldable pub spaces : ℕ → Bytes
spaces zero = []
spaces (suc n) = b' ' ∷ spaces n

-- A text that is only written where `pretty` is set.
abbrev pub when : Bool → Bytes → Bytes
when pretty text = if pretty then text else []

module _ {C : Cast} where
  abbrev pub is_empty : Children C → Bool
  is_empty nil = true
  is_empty (child k t ts) = false

  abbrev pub size : Children C → ℕ
  size nil = 0
  size (child k t ts) = suc (size ts)

  -- count(Str())
  abbrev pub count_unnamed : Children C → ℕ
  count_unnamed nil = 0
  count_unnamed (child [] t ts) = suc (count_unnamed ts)
  count_unnamed (child (c ∷ k) t ts) = count_unnamed ts

  -- The children's keys are all empty.
  abbrev pub is_array : Children C → Bool
  is_array ts = count_unnamed ts == size ts

unfoldable pub quoted : (Bytes → Bytes) → Bytes → Bytes
quoted create_escapes s = b'"' ∷ (create_escapes s ++ (b'"' ∷ []))

module _ {C : Cast} (create_escapes : Bytes → Bytes) where
  unfoldable pub out_json_value : DptreeValue C → Bytes
  unfolding quoted get_value
  out_json_value (string s) = quoted create_escapes s
  out_json_value v = get_value v

  -- Between two children stands a comma.
  abbrev pub comma : Children C → Bytes
  comma ts = if is_empty ts then [] else b',' ∷ []

  unfoldable mutual
    unfolding out_json_value quoted spaces

    pub write_json_helper : Dptree C → ℕ → Bool → Bytes
    write_json_helper (node v ts) indent pretty =
        let items = write_items ts indent pretty in
        let members = write_members ts indent pretty in
        if ltb 0 indent && is_empty ts
        then out_json_value v
        else if ltb 0 indent && is_array ts
        then b'['
          ∷ (when pretty (b'\n' ∷ [])
              ++ (items ++ (when pretty (spaces (4 * indent)) ++ (b']' ∷ []))))
        else b'{'
          ∷ (when pretty (b'\n' ∷ [])
              ++ (members ++ (when pretty (spaces (4 * indent)) ++ (b'}' ∷ []))))

    -- The loop over the children of an array.
    pub write_items : Children C → ℕ → Bool → Bytes
    write_items nil indent pretty = []
    write_items (child k t ts) indent pretty =
        when pretty (spaces (4 * (indent + 1)))
        ++ (write_json_helper t (indent + 1) pretty
            ++ (comma ts ++ (when pretty (b'\n' ∷ []) ++ write_items ts indent pretty)))

    -- The loop over the children of an object.
    pub write_members : Children C → ℕ → Bool → Bytes
    write_members nil indent pretty = []
    write_members (child k t ts) indent pretty =
        when pretty (spaces (4 * (indent + 1)))
        ++ (quoted create_escapes k
            ++ (b':'
                ∷ (when pretty (b' ' ∷ [])
                    ++ (write_json_helper t (indent + 1) pretty
                        ++ (comma ts
                            ++ (when pretty (b'\n' ∷ []) ++ write_members ts indent pretty))))))
