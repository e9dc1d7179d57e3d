-- ===== src/Redis/Wire.antt =====
-- What a Redis server reads from the bytes of a request: a command, as an array of bulk strings.
use eiptnd.Prelude.{
  ℕ, zero, suc, ◌+◌, ◌-◌, ◌*◌, ◌^◌, ◌<◌, ◌≡◌, refl, ap, ◌∙◌, Bool, true, ◌&&◌, Option, none, some,
  List, [], ◌∷◌, ◌++◌, Bytes, codes, length, if◌then◌else◌, ◌==◌, leb, ==_iff, append_assoc,
  Bool-cases, inl, inr,
}
use eiptnd.Boost.Io.{read_number, read_digits}
use eiptnd.Redis.Connection.{Library, publish_text, ping_text}

infixl 5 ◌>>=?◌
abbrev pub ◌>>=?◌ : {A B : Type 0} → Option A → (A → Option B) → Option B
none >>=? f = none
some a >>=? f = f a

abbrev is_digit : ℕ → Bool
is_digit c = leb b'0' c && leb c b'9'

-- Digits up to the end of the line, behind those of `n`; the number and what follows the line.
abbrev pub read_length : ℕ → Bytes → Option (ℕ × Bytes)
read_length n [] = none
read_length n (c ∷ []) = none
read_length n (c ∷ d ∷ cs) =
    let rest = read_length (n * 10 + (c - b'0')) (d ∷ cs) in
    if is_digit c then rest else if c == b'\r' && d == b'\n' then some (n, cs) else none

-- A line of the byte `kind` and a number of at least one digit.
abbrev pub read_header : ℕ → Bytes → Option (ℕ × Bytes)
read_header kind (k ∷ c ∷ cs) =
    let header = read_length 0 (c ∷ cs) in if k == kind && is_digit c then header else none
read_header kind _ = none

-- So many bytes and the end of a line.
abbrev pub read_text : ℕ → Bytes → Option (Bytes × Bytes)
read_text zero (c ∷ d ∷ cs) = if c == b'\r' && d == b'\n' then some ([], cs) else none
read_text zero _ = none
read_text (suc n) [] = none
read_text (suc n) (c ∷ cs) = read_text n cs >>=? λ (text, rest). some (c ∷ text, rest)

abbrev pub read_bulk : Bytes → Option (Bytes × Bytes)
read_bulk cs = read_header b'$' cs >>=? λ (n, rest). read_text n rest

abbrev pub read_bulks : ℕ → Bytes → Option (List Bytes × Bytes)
read_bulks zero cs = some ([], cs)
read_bulks (suc n) cs = read_bulk cs >>=? λ (text, rest).
    read_bulks n rest >>=? λ (texts, rest'). some (text ∷ texts, rest')

-- The command in front of the bytes, and the bytes behind it.
abbrev pub read_command : Bytes → Option (List Bytes × Bytes)
read_command cs = read_header b'*' cs >>=? λ (n, rest). read_bulks n rest

digit_in_front :
    (m n c : ℕ) (ds : Bytes)
    → read_digits m (c ∷ ds) ≡ some n
    → (is_digit c ≡ true) × (read_digits (m * 10 + (c - b'0')) ds ≡ some n)
digit_in_front m n c ds e = elim (Bool-cases (is_digit c)) [
  | inl h ↦ (h, rw h at e)
  | inr h ↦ absurd (let e' = rw h at e in cc)
]

read_length-digits :
    (ds rest : Bytes) (m n : ℕ)
    → read_digits m ds ≡ some n
    → read_length m (ds ++ (b'\r' ∷ b'\n' ∷ rest)) ≡ some (n, rest)
read_length-digits [] rest m n e = ap (λ o. o >>=? λ k. some (k, rest)) e
read_length-digits (c ∷ []) rest m n e =
    let (h, e') = digit_in_front m n c [] e in
    rw h (read_length-digits [] rest (m * 10 + (c - b'0')) n e')
read_length-digits (c ∷ d ∷ ds) rest m n e =
    let (h, e') = digit_in_front m n c (d ∷ ds) e in
    rw h (read_length-digits (d ∷ ds) rest (m * 10 + (c - b'0')) n e')

read_header-number :
    (kind n : ℕ) (ds rest : Bytes)
    → read_number ds ≡ some n
    → read_header kind (kind ∷ (ds ++ (b'\r' ∷ b'\n' ∷ rest))) ≡ some (n, rest)
read_header-number kind n [] rest e = absurd cc
read_header-number kind n (c ∷ ds) rest e =
    let (h, e') = digit_in_front 0 n c ds e in
    rw ((==_iff kind kind).1 refl, h) (read_length-digits (c ∷ ds) rest 0 n e)

read_text-append :
    (s rest : Bytes) → read_text (length s) (s ++ (b'\r' ∷ b'\n' ∷ rest)) ≡ some (s, rest)
read_text-append [] rest = refl
read_text-append (c ∷ s) rest = rw (read_text-append s rest) refl

read_bulk-append :
    (L : Library) (s rest : Bytes)
    → length s < 2 ^ 32
    → read_bulk (b'$' ∷ (L.uint (length s) ++ (b'\r' ∷ b'\n' ∷ (s ++ (b'\r' ∷ b'\n' ∷ rest)))))
      ≡ some (s, rest)
read_bulk-append L s rest h =
    ap (λ o. o >>=? λ (n, after). read_text n after)
      (read_header-number b'$' (length s) (L.uint (length s)) (s ++ (b'\r' ∷ b'\n' ∷ rest))
        (L.read_number-uint (length s) h))
    ∙ read_text-append s rest

-- From the bytes of a request, whatever follows them, a server reads the command PUBLISH with the
-- channel and the message, and the bytes that follow; the lengths are below 2 ^ 32, the texts are
-- any bytes.
pub read_command-publish_text :
    (L : Library) (channel message rest : Bytes)
    → length channel < 2 ^ 32
    → length message < 2 ^ 32
    → read_command (publish_text L channel message ++ rest)
      ≡ some (codes "PUBLISH" ∷ channel ∷ message ∷ [], rest)
unfolding publish_text
read_command-publish_text L ch msg rest h k = simp (append_assoc, read_bulk-append) refl

-- From the bytes of a ping a server reads the command PING, and the bytes that follow.
pub read_command-ping_text :
    (rest : Bytes) → read_command (ping_text ++ rest) ≡ some (codes "PING" ∷ [], rest)
read_command-ping_text rest = refl
