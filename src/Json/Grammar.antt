-- ===== src/Json/Grammar.antt =====
-- The texts of JSON (RFC 8259), described with no regard to how the program writes them.
use eiptnd.Prelude.{
  ℕ, ◌+◌, ◌-◌, ◌*◌, ◌≡◌, Bool, true, false, ◌&&◌, ◌||◌, not, [], ◌∷◌, ◌++◌, Bytes, codes,
  if◌then◌else◌, ◌==◌, leb, ltb,
}

abbrev pub is_digit : ℕ → Bool
is_digit c = leb b'0' c && leb c b'9'

-- Blanks, tabs and the ends of lines.
abbrev pub is_blank : Bytes → Bool
is_blank [] = true
is_blank (c ∷ cs) = (c == b' ' || c == b'\t' || c == b'\n' || c == b'\r') && is_blank cs

abbrev pub is_hex : ℕ → Bool
is_hex c = is_digit c || (leb b'a' c && leb c b'f') || (leb b'A' c && leb c b'F')

-- A byte that may follow a backslash, other than "u".
abbrev pub is_short_escape : ℕ → Bool
is_short_escape c =
    c == b'"'
    || c == b'\\'
    || c == b'/'
    || c == b'b'
    || c == b'f'
    || c == b'n'
    || c == b'r'
    || c == b't'

-- The byte that it stands for.
abbrev pub short_meaning : ℕ → ℕ
short_meaning c =
    if c == b'b'
    then 8
    else if c == b'f'
    then 12
    else if c == b'n'
    then 10
    else if c == b'r'
    then 13
    else if c == b't'
    then 9
    else c

abbrev pub hex_value : ℕ → ℕ
hex_value c = if is_digit c then c - b'0' else if leb b'a' c then c - b'a' + 10 else c - b'A' + 10

-- `Escapes m s`: between the quotes of a string, `s` stands for the bytes `m`. Only escapes of
-- ASCII characters are described.
pub data Escapes : Bytes → Bytes → Type 0 where
  done : Escapes [] []
  plain :
      (c : ℕ) (m s : Bytes)
      → ltb c 32 ≡ false
      → (c == b'"') ≡ false
      → (c == b'\\') ≡ false
      → Escapes m s
      → Escapes (c ∷ m) (c ∷ s)
  short :
      (c : ℕ) (m s : Bytes)
      → is_short_escape c ≡ true
      → Escapes m s
      → Escapes ((short_meaning c) ∷ m) (b'\\' ∷ c ∷ s)
  unicode :
      (c d : ℕ) (m s : Bytes)
      → (is_hex c && is_hex d && ltb (hex_value c * 16 + hex_value d) 128) ≡ true
      → Escapes m s
      → Escapes ((hex_value c * 16 + hex_value d) ∷ m) (b'\\' ∷ b'u' ∷ b'0' ∷ b'0' ∷ c ∷ d ∷ s)

-- Digits, one at least.
abbrev pub are_digits : Bytes → Bool
are_digits [] = false
are_digits (c ∷ []) = is_digit c
are_digits (c ∷ d ∷ cs) = is_digit c && are_digits (d ∷ cs)

-- The integral part of a number: it starts with 0 only if it is 0.
abbrev pub is_integral : Bytes → Bool
is_integral [] = false
is_integral (c ∷ []) = is_digit c
is_integral (c ∷ d ∷ cs) = is_digit c && not (c == b'0') && are_digits (d ∷ cs)

abbrev pub is_sign : Bytes → Bool
is_sign [] = true
is_sign (c ∷ []) = c == b'+' || c == b'-'
is_sign _ = false

pub data IsFraction : Bytes → Type 0 where
  whole : IsFraction []
  fraction : (ds : Bytes) → are_digits ds ≡ true → IsFraction (b'.' ∷ ds)

pub data IsExponent : Bytes → Type 0 where
  absent : IsExponent []
  exponent :
      (e : ℕ) (sign ds : Bytes) {rest : Bytes}
      → (e == b'e' || e == b'E') ≡ true
      → is_sign sign ≡ true
      → are_digits ds ≡ true
      → rest ≡ sign ++ ds
      → IsExponent (e ∷ rest)

-- The texts of numbers.
pub data IsNumber : Bytes → Type 0 where
  positive :
      (i f e : Bytes) {b : Bytes}
      → is_integral i ≡ true
      → IsFraction f
      → IsExponent e
      → b ≡ i ++ (f ++ e)
      → IsNumber b
  negative :
      (i f e : Bytes) {b : Bytes}
      → is_integral i ≡ true
      → IsFraction f
      → IsExponent e
      → b ≡ b'-' ∷ (i ++ (f ++ e))
      → IsNumber b

-- What a text means. What is neither a string nor a container means its own letters.
mutual
  pub data Json : Type 0 where
    text : Bytes → Json
    word : Bytes → Json
    array : Items → Json
    object : Members → Json

  pub data Items : Type 0 where
    none : Items
    item : Json → Items → Items

  pub data Members : Type 0 where
    end : Members
    member : Bytes → Json → Members → Members

-- `Text j b`: the bytes `b` are a text of `j`. Blanks may stand around every value and key.
mutual
  pub data Text : Json → Bytes → Type 0 where
    is_text :
        {m : Bytes} (s : Bytes) {b : Bytes}
        → Escapes m s
        → b ≡ b'"' ∷ (s ++ (b'"' ∷ []))
        → Text (text m) b
    is_true : {b : Bytes} → b ≡ codes "true" → Text (word b) b
    is_false : {b : Bytes} → b ≡ codes "false" → Text (word b) b
    is_null : {b : Bytes} → b ≡ codes "null" → Text (word b) b
    is_number : {b : Bytes} → IsNumber b → Text (word b) b
    is_array :
        {js : Items} {bs b : Bytes}
        → Elements js bs
        → b ≡ b'[' ∷ (bs ++ (b']' ∷ []))
        → Text (array js) b
    is_object :
        {ms : Members} {bs b : Bytes}
        → Entries ms bs
        → b ≡ b'{' ∷ (bs ++ (b'}' ∷ []))
        → Text (object ms) b

  pub data Elements : Items → Bytes → Type 0 where
    no_element : {b : Bytes} → is_blank b ≡ true → Elements none b
    last_element :
        {j : Json} (v w : Bytes) {t b : Bytes}
        → is_blank v ≡ true
        → Text j t
        → is_blank w ≡ true
        → b ≡ v ++ (t ++ w)
        → Elements (item j none) b
    next_element :
        {j k : Json} {js : Items} (v w : Bytes) {t bs b : Bytes}
        → is_blank v ≡ true
        → Text j t
        → is_blank w ≡ true
        → Elements (item k js) bs
        → b ≡ v ++ (t ++ (w ++ (b',' ∷ bs)))
        → Elements (item j (item k js)) b

  pub data Entries : Members → Bytes → Type 0 where
    no_entry : {b : Bytes} → is_blank b ≡ true → Entries end b
    last_entry :
        {m : Bytes} (s : Bytes) {j : Json} (v w x y : Bytes) {t b : Bytes}
        → is_blank v ≡ true
        → Escapes m s
        → is_blank w ≡ true
        → is_blank x ≡ true
        → Text j t
        → is_blank y ≡ true
        → b ≡ v ++ (b'"' ∷ (s ++ (b'"' ∷ (w ++ (b':' ∷ (x ++ (t ++ y)))))))
        → Entries (member m j end) b
    next_entry :
        {m n : Bytes} (s : Bytes) {j k : Json} {ms : Members} (v w x y : Bytes) {t bs b : Bytes}
        → is_blank v ≡ true
        → Escapes m s
        → is_blank w ≡ true
        → is_blank x ≡ true
        → Text j t
        → is_blank y ≡ true
        → Entries (member n k ms) bs
        → b ≡ v ++ (b'"' ∷ (s ++ (b'"' ∷ (w ++ (b':' ∷ (x ++ (t ++ (y ++ (b',' ∷ bs)))))))))
        → Entries (member m j (member n k ms)) b
