-- ===== src/Tests/Json.antt =====
-- A short tree and its JSON.
use Prim.{tt}
use eiptnd.Prelude.{
  ℤ, pos, negsuc, ℕ, ◌≡◌, refl, true, false, [], ◌∷◌, Bytes, codes, if◌then◌else◌, ◌==◌, ◌||◌, ltb,
  ◌-◌, Bool-cases, inl, inr, arith,
}
use Prim.Native.Nat.{◌/◌, ◌%◌}
use eiptnd.Boost.Instances.{digits}
use eiptnd.Json.Values.{get_value, Cast, string, int16, uint64, bool, Dptree, node, nil, child}
use eiptnd.Json.Writer.{write_json_helper}
use eiptnd.Json.Grammar.{
  Escapes, done, plain, short, unicode, is_hex, hex_value, IsNumber, positive, negative, whole,
  absent, Text,
}
use eiptnd.Json.Wellformed.{json_of, AllPrintable, write_json_helper-Text}
use Prim.Native.Nat.{suc, ◌+◌}
use mathlib.Core.Path.{subst}

abbrev of_signed : ℤ → Bytes
of_signed (pos n) = digits 20 n []
of_signed (negsuc n) = b'-' ∷ digits 20 (suc n) []

abbrev pub cast : Cast
cast = record {
  Float = ℕ;
  Double = ℕ;
  of_byte = λ b. b ∷ [];
  of_signed = of_signed;
  of_unsigned = λ n. digits 20 n [];
  of_float = λ x. digits 20 x [];
  of_double = λ x. digits 20 x [];
}

abbrev hex : ℕ → ℕ
hex n = if ltb n 10 then b'0' + n else b'a' + (n - 10)

abbrev escape_byte : ℕ → Bytes → Bytes
escape_byte c rest =
    if c == b'"' || c == b'\\'
    then b'\\' ∷ c ∷ rest
    else if ltb c 32
    then b'\\' ∷ b'u' ∷ b'0' ∷ b'0' ∷ hex (c / 16) ∷ hex (c % 16) ∷ rest
    else c ∷ rest

abbrev pub escape : Bytes → Bytes
escape [] = []
escape (c ∷ s) = escape_byte c (escape s)

hex_value-hex : (n : ℕ) → ltb n 16 ≡ true → hex_value (hex n) ≡ n
hex_value-hex n h = ground arith

is_hex-hex : (n : ℕ) → ltb n 16 ≡ true → is_hex (hex n) ≡ true
is_hex-hex n h = ground arith

control-Escapes :
    (c : ℕ) (m s : Bytes)
    → ltb c 32 ≡ true
    → Escapes m s
    → Escapes (c ∷ m) (b'\\' ∷ b'u' ∷ b'0' ∷ b'0' ∷ hex (c / 16) ∷ hex (c % 16) ∷ s)
control-Escapes c m s h e =
    let i = hex_value-hex (c / 16) (ground arith) in
    let j = hex_value-hex (c % 16) (ground arith) in
    subst (λ d. Escapes (d ∷ m) (b'\\' ∷ b'u' ∷ b'0' ∷ b'0' ∷ hex (c / 16) ∷ hex (c % 16) ∷ s))
      (rw (i, j) (omega arith))
      (unicode (hex (c / 16)) (hex (c % 16)) m s
        (rw (is_hex-hex (c / 16) (ground arith), is_hex-hex (c % 16) (ground arith), i, j)
          (ground arith))
        e)

short-Escapes :
    (c : ℕ) (m s : Bytes)
    → (c == b'"' || c == b'\\') ≡ true
    → Escapes m s
    → Escapes (c ∷ m) (b'\\' ∷ c ∷ s)
short-Escapes c m s h e =
    subst (λ d. Escapes (d ∷ m) (b'\\' ∷ c ∷ s)) (ground arith) (short c m s (ground arith) e)

pub escape-Escapes : (s : Bytes) → Escapes s (escape s)
escape-Escapes [] = done
escape-Escapes (c ∷ s) = elim (Bool-cases (c == b'"' || c == b'\\')) [
  | inl h ↦ rw h (short-Escapes c s (escape s) h (escape-Escapes s))
  | inr h ↦ rw h (elim (Bool-cases (ltb c 32)) [
    | inl g ↦ rw g (control-Escapes c s (escape s) g (escape-Escapes s))
    | inr g ↦ rw g (plain c s (escape s) g (ground arith) (ground arith) (escape-Escapes s))
  ])
]

-- An object of a string, an array and an empty key.
abbrev pub tree : Dptree cast
tree = node (string []) (
    child (codes "id") (node (string (codes "a\"b")) nil) (
      child (codes "pos")
        (node (string []) (
          child [] (node (uint64 25) nil)
            (child [] (node (int16 (negsuc 6)) nil) (child [] (node (bool true) nil) nil))))
        nil))

write_json_helper_text :
    write_json_helper {C = cast} escape tree 0 false
    ≡ codes "{\"id\":\"a\\\"b\",\"pos\":[25,-7,true]}"
unfolding write_json_helper
write_json_helper_text = refl

number : IsNumber (codes "25")
number = positive (codes "25") [] [] refl whole absent refl

negated : IsNumber (codes "-7")
negated = negative (codes "7") [] [] refl whole absent refl

pub tree-AllPrintable : AllPrintable tree
unfolding get_value
tree-AllPrintable = (tt, ((tt, tt), ((tt, ((number, tt), ((negated, tt), ((tt, tt), tt)))), tt)))

write_json_helper-Text_example :
    Text (json_of tree (ltb 0 0)) (write_json_helper {C = cast} escape tree 0 true)
write_json_helper-Text_example =
    write_json_helper-Text escape escape-Escapes tree 0 true tree-AllPrintable
