-- ===== src/Json/Wellformed.antt =====
-- What `write_json_helper` writes is JSON, and means the tree.
use Prim.{Unit}
use mathlib.Core.Path.{subst}
use eiptnd.Prelude.{
  ℕ, zero, suc, ◌+◌, ◌*◌, ◌≡◌, refl, inl, inr, Bool, true, false, ◌&&◌, [], ◌∷◌, ◌++◌, Bytes, codes,
  ◌≤◌, if◌then◌else◌, ltb, arith, append-nil, append_assoc, Bool-cases,
}
use eiptnd.Json.Values.{
  Cast, DptreeValue, string, int8, uint8, int16, int32, int64, uint16, uint32, uint64, float,
  double, bool, Dptree, node, Children, nil, child, get_value,
}
use eiptnd.Json.Writer.{
  spaces, when, is_empty, is_array, size, count_unnamed, out_json_value, write_json_helper,
  write_items, write_members,
}
use eiptnd.Json.Grammar.{
  is_blank, Escapes, IsNumber, Json, text, word, array, object, Items, item, Members, member, end,
  Text, is_text, is_true, is_false, is_number, is_object, Elements, no_element, last_element,
  next_element, Entries, no_entry, last_entry, next_entry,
}
use eiptnd.Json.Grammar

is_blank-append : (v w : Bytes) → is_blank v ≡ true → is_blank w ≡ true → is_blank (v ++ w) ≡ true
is_blank-append [] w h g = g
is_blank-append (c ∷ v) w h g = ground (arith, is_blank-append v w)

is_blank-spaces : (n : ℕ) → is_blank (spaces n) ≡ true
unfolding spaces
is_blank-spaces zero = refl
is_blank-spaces (suc n) = is_blank-spaces n

is_blank-when : (pretty : Bool) (w : Bytes) → is_blank w ≡ true → is_blank (when pretty w) ≡ true
is_blank-when true w h = h
is_blank-when false w h = refl

is_blank-indented :
    (v : Bytes) (pretty : Bool) (n : ℕ)
    → is_blank v ≡ true
    → is_blank (v ++ when pretty (spaces n)) ≡ true
is_blank-indented v pretty n h =
    is_blank-append v (when pretty (spaces n)) h (is_blank-when pretty _ (is_blank-spaces n))

is_blank-line_end :
    (pretty : Bool) (w : Bytes)
    → is_blank w ≡ true
    → is_blank (when pretty (b'\n' ∷ []) ++ w) ≡ true
is_blank-line_end pretty w h =
    is_blank-append (when pretty (b'\n' ∷ [])) w (is_blank-when pretty (b'\n' ∷ []) refl) h

module _ {C : Cast} where
  -- What a value other than a string means: what lexical_cast makes of a number, by the kind of its
  -- type, and the word of a Boolean.
  abbrev pub letters : DptreeValue C → Bytes
  letters (string s) = s
  letters (bool b) = if b then codes "true" else codes "false"
  letters (float x) = C.of_float x
  letters (double x) = C.of_double x
  letters (int8 b) = C.of_byte b
  letters (uint8 b) = C.of_byte b
  letters (int16 z) = C.of_signed z
  letters (int32 z) = C.of_signed z
  letters (int64 z) = C.of_signed z
  letters (uint16 n) = C.of_unsigned n
  letters (uint32 n) = C.of_unsigned n
  letters (uint64 n) = C.of_unsigned n

  abbrev pub all_unnamed : Children C → Bool
  all_unnamed nil = true
  all_unnamed (child [] t ts) = all_unnamed ts
  all_unnamed (child (c ∷ k) t ts) = false

  abbrev pub is_childless : Children C → Bool
  is_childless nil = true
  is_childless (child k t ts) = false

  -- The meaning of a value, and of a tree: `nested` says whether it is a child of another.
  abbrev pub json_of_value : DptreeValue C → Json
  json_of_value (string s) = text s
  json_of_value v = word (letters v)

  unfoldable mutual
    pub json_of : Dptree C → Bool → Json
    json_of (node v ts) nested =
        let items = items_of ts in
        let members = members_of ts in
        if nested && is_childless ts
        then json_of_value v
        else if nested && all_unnamed ts
        then array items
        else object members

    pub items_of : Children C → Items
    items_of nil = Items.none
    items_of (child k t ts) = item (json_of t true) (items_of ts)

    pub members_of : Children C → Members
    members_of nil = end
    members_of (child k t ts) = member k (json_of t true) (members_of ts)

  -- A string or a Boolean, or a value whose text is a number of JSON.
  abbrev pub IsPrintable : DptreeValue C → Type 0
  IsPrintable (string s) = Unit {0}
  IsPrintable (bool b) = Unit {0}
  IsPrintable v = IsNumber (letters v)

  abbrev mutual
    pub AllPrintable : Dptree C → Type 0
    AllPrintable (node v ts) = IsPrintable v × ChildrenPrintable ts

    pub ChildrenPrintable : Children C → Type 0
    ChildrenPrintable nil = Unit {0}
    ChildrenPrintable (child k t ts) = AllPrintable t × ChildrenPrintable ts

module _ {C : Cast} where
  count_unnamed_le : (ts : Children C) → count_unnamed ts ≤ size ts
  count_unnamed_le nil = omega arith
  count_unnamed_le (child [] t ts) = omega (arith, count_unnamed_le ts)
  count_unnamed_le (child (c ∷ k) t ts) = omega (arith, count_unnamed_le ts)

  is_array_lem : (ts : Children C) → is_array ts ≡ all_unnamed ts
  is_array_lem nil = refl
  is_array_lem (child [] t ts) = ground (arith, is_array_lem ts)
  is_array_lem (child (c ∷ k) t ts) = ground (arith, count_unnamed_le ts)

  is_empty_lem : (ts : Children C) → is_empty ts ≡ is_childless ts
  is_empty_lem nil = refl
  is_empty_lem (child k t ts) = refl

module _ {C : Cast} (create_escapes : Bytes → Bytes)
    (escapes : (s : Bytes) → Escapes s (create_escapes s)) where
  value-Text :
      (v : DptreeValue C) → IsPrintable v → Text (json_of_value v) (out_json_value create_escapes v)
  unfolding out_json_value get_value
  value-Text (string s) p = is_text (create_escapes s) (escapes s) refl
  value-Text (bool true) p = is_true refl
  value-Text (bool false) p = is_false refl
  value-Text (int8 b) p = is_number p
  value-Text (uint8 b) p = is_number p
  value-Text (int16 z) p = is_number p
  value-Text (int32 z) p = is_number p
  value-Text (int64 z) p = is_number p
  value-Text (uint16 n) p = is_number p
  value-Text (uint32 n) p = is_number p
  value-Text (uint64 n) p = is_number p
  value-Text (float x) p = is_number p
  value-Text (double x) p = is_number p

  below_root :
      (t : Dptree C) (indent : ℕ) (b : Bytes)
      → Text (json_of t (ltb 0 (indent + 1))) b
      → Text (json_of t true) b
  below_root t indent b = subst (λ n. Text (json_of t n) b) (ground arith)

  mutual
    unfolding write_json_helper json_of

    helper-Text :
        (t : Dptree C) (indent : ℕ) (pretty : Bool)
        → AllPrintable t
        → Text (json_of t (ltb 0 indent)) (write_json_helper create_escapes t indent pretty)
    helper-Text (node v ts) indent pretty (p, q) =
        rw (is_empty_lem ts, is_array_lem ts)
          (elim (Bool-cases (ltb 0 indent && is_childless ts)) [
            | inl h ↦ rw h (value-Text v p)
            | inr h ↦ rw h (elim (Bool-cases (ltb 0 indent && all_unnamed ts)) [
              | inl g ↦ rw g (
                  Grammar.is_array
                    (items-Elements ts indent pretty (when pretty (b'\n' ∷ []))
                      (when pretty (spaces (4 * indent))) (is_blank-when pretty _ refl)
                      (is_blank-when pretty _ (is_blank-spaces (4 * indent))) q)
                    (simp append_assoc))
              | inr g ↦ rw g (
                  is_object
                    (members-Entries ts indent pretty (when pretty (b'\n' ∷ []))
                      (when pretty (spaces (4 * indent))) (is_blank-when pretty _ refl)
                      (is_blank-when pretty _ (is_blank-spaces (4 * indent))) q)
                    (simp append_assoc))
            ])
          ])

    items-Elements :
        (ts : Children C) (indent : ℕ) (pretty : Bool) (v w : Bytes)
        → is_blank v ≡ true
        → is_blank w ≡ true
        → ChildrenPrintable ts
        → Elements (items_of ts) (v ++ (write_items create_escapes ts indent pretty ++ w))
    items-Elements nil indent pretty v w h g q = no_element (is_blank-append v w h g)
    items-Elements (child k t nil) indent pretty v w h g (p, q) =
        last_element (v ++ when pretty (spaces (4 * (indent + 1)))) (when pretty (b'\n' ∷ []) ++ w)
          (is_blank-indented v pretty (4 * (indent + 1)) h)
          (below_root t indent _ (helper-Text t (indent + 1) pretty p))
          (is_blank-line_end pretty w g) (simp (append-nil, append_assoc))
    items-Elements (child k t (child l u ts)) indent pretty v w h g (p, q) =
        next_element (v ++ when pretty (spaces (4 * (indent + 1)))) []
          (is_blank-indented v pretty (4 * (indent + 1)) h)
          (below_root t indent _ (helper-Text t (indent + 1) pretty p)) refl
          (items-Elements (child l u ts) indent pretty (when pretty (b'\n' ∷ [])) w
            (is_blank-when pretty _ refl) g q)
          (simp append_assoc)

    members-Entries :
        (ts : Children C) (indent : ℕ) (pretty : Bool) (v w : Bytes)
        → is_blank v ≡ true
        → is_blank w ≡ true
        → ChildrenPrintable ts
        → Entries (members_of ts) (v ++ (write_members create_escapes ts indent pretty ++ w))
    members-Entries nil indent pretty v w h g q = no_entry (is_blank-append v w h g)
    members-Entries (child k t nil) indent pretty v w h g (p, q) =
        last_entry (create_escapes k) (v ++ when pretty (spaces (4 * (indent + 1)))) []
          (when pretty (b' ' ∷ [])) (when pretty (b'\n' ∷ []) ++ w)
          (is_blank-indented v pretty (4 * (indent + 1)) h) (escapes k) refl
          (is_blank-when pretty _ refl)
          (below_root t indent _ (helper-Text t (indent + 1) pretty p))
          (is_blank-line_end pretty w g) (simp (append-nil, append_assoc))
    members-Entries (child k t (child l u ts)) indent pretty v w h g (p, q) =
        next_entry (create_escapes k) (v ++ when pretty (spaces (4 * (indent + 1)))) []
          (when pretty (b' ' ∷ [])) [] (is_blank-indented v pretty (4 * (indent + 1)) h) (escapes k)
          refl (is_blank-when pretty _ refl)
          (below_root t indent _ (helper-Text t (indent + 1) pretty p)) refl
          (members-Entries (child l u ts) indent pretty (when pretty (b'\n' ∷ [])) w
            (is_blank-when pretty _ refl) g q)
          (simp append_assoc)

  -- Where every value is a string, a Boolean or one whose text is a number, what the printer
  -- writes of a tree, at any depth and with blanks or without them, is a text of JSON and means
  -- the tree: an object of its children by their keys, and below the root an array if all keys
  -- are empty, or the value if there are no children.
  pub write_json_helper-Text :
      (t : Dptree C) (indent : ℕ) (pretty : Bool)
      → AllPrintable t
      → Text (json_of t (ltb 0 indent)) (write_json_helper create_escapes t indent pretty)
  write_json_helper-Text t indent pretty p = helper-Text t indent pretty p
