-- ===== src/Boost/Instances.antt =====
-- Concrete containers, buffers and numerals, which show that the interfaces can be met and let the
-- models run on examples.
use Prim.Native.Nat.{◌/◌}
use eiptnd.Prelude.{
  ℕ, zero, suc, ◌+◌, ◌*◌, ◌%◌, ◌^◌, ◌<◌, ◌≤◌, ◌≡◌, ◌↔◌, ◌≢◌, refl, sym, ap, ◌∙◌, Bool, true, false,
  Option, none, some, List, [], ◌∷◌, ◌++◌, Bytes, equal, equal_iff, if◌then◌else◌, ◌==◌, ==_iff,
  ltb, length, drop, arith, inl, inr, Bool-cases,
}
use eiptnd.Boost.Containers.{FlatMap, FlatMultimap, Tree, or_else}
use eiptnd.Boost.Io.{read_number, read_digits, Streambuf, Numeral}

-- The value of the first pair with the key.
abbrev assoc {ℓ} : {K V : Type ℓ} → (K → K → Bool) → K → List (K × V) → Option V
assoc eq k [] = none
assoc eq k ((j, v) ∷ m) = if eq k j then some v else assoc eq k m

abbrev insert_new {ℓ} : {K V : Type ℓ} → K → V → Option V → List (K × V) → List (K × V)
insert_new k v none m = (k, v) ∷ m
insert_new k v (some old) m = m

pub differ :
    {K : Type 0} (eq : K → K → Bool) (eq_iff : (a b : K) → (eq a b ≡ true) ↔ (a ≡ b)) (j k : K)
    → k ≢ j
    → eq j k ≡ false
differ eq eq_iff j k n = elim (Bool-cases (eq j k)) [
  | inl h ↦ absurd (n (sym ((eq_iff j k).0 h)))
  | inr h ↦ h
]

module _ {K V : Type 0} (eq : K → K → Bool) (eq_iff : (a b : K) → (eq a b ≡ true) ↔ (a ≡ b)) where
  pub insert_self :
      (k : K) (v : V) (m : List (K × V)) (o : Option V)
      → assoc eq k m ≡ o
      → assoc eq k (insert_new k v o m) ≡ or_else o (some v)
  insert_self k v m none e = rw ((eq_iff k k).1 refl)
  insert_self k v m (some old) e = e

  pub insert_other :
      (j k : K) (v : V) (m : List (K × V)) (o : Option V)
      → k ≢ j
      → assoc eq j (insert_new k v o m) ≡ assoc eq j m
  insert_other j k v m none n = rw (differ eq eq_iff j k n)
  insert_other j k v m (some old) n = refl

  abbrev pub assoc_map : FlatMap K V
  assoc_map = record {
    Map = List (K × V);
    empty = [];
    find = assoc eq;
    emplace = λ k v m. insert_new k v (assoc eq k m) m;
    find-empty = λ k. refl;
    find-emplace_self = λ k v m. insert_self k v m (assoc eq k m) refl;
    find-emplace_ne = λ j k v m. insert_other j k v m (assoc eq k m);
  }

-- The values of all pairs with the key.
abbrev values {ℓ} : {V : Type ℓ} → ℕ → List (ℕ × V) → List V
values k [] = []
values k ((j, v) ∷ m) = if k == j then v ∷ values k m else values k m

abbrev head? {ℓ} : {V : Type ℓ} → List V → Option V
head? [] = none
head? (v ∷ vs) = some v

pub nil_of_none {ℓ} : {V : Type ℓ} (vs : List V) → head? vs ≡ none → vs ≡ []
nil_of_none [] e = refl
nil_of_none (v ∷ vs) e = absurd cc

pub split_some {ℓ} :
    {V : Type ℓ} (vs : List V) (v : V)
    → head? vs ≡ some v
    → (before : List V) × (after : List V) × (vs ≡ before ++ (v ∷ after))
split_some [] v e = absurd cc
split_some (w ∷ vs) v e = ([], vs, cc)

module _ (V : Type 0) where
  abbrev pub multimap : FlatMultimap ℕ V
  multimap = record {
    Map = List (ℕ × V);
    empty = [];
    find = λ k m. head? (values k m);
    range = values;
    emplace = λ k v m. (k, v) ∷ m;
    range-empty = λ k. refl;
    find-none = λ k m. nil_of_none (values k m);
    find-some = λ k v m. split_some (values k m) v;
    range-emplace_self = λ k v m. ([], values k m, refl, rw ((==_iff k k).1 refl));
    range-emplace_ne = λ j k v m n. rw (differ ◌==◌ ==_iff j k n);
  }

abbrev pub plain_tree : Tree
plain_tree = record {
  Ptree = List (Bytes × Bytes);
  empty = [];
  put = λ k v t. (k, v) ∷ t;
  get = assoc equal;
  get-put_self = λ k v t p. rw ((equal_iff k k).1 refl);
  get-put_ne = λ j k v t p q n. rw (differ equal equal_iff j k n);
}

abbrev pub byte_buffer : Streambuf
byte_buffer = record {
  Buf = Bytes;
  empty = [];
  input = λ b. b;
  consume = drop;
  commit = λ bs b. b ++ bs;
  input-empty = refl;
  input-consume = λ n b. refl;
  input-commit = λ bs b. refl;
}

-- The last digits of a number, so many at most, before other bytes.
abbrev pub digits : ℕ → ℕ → Bytes → Bytes
digits zero n after = after
digits (suc count) n after =
    let rest = digits count (n / 10) ((b'0' + n % 10) ∷ after) in
    if ltb n 10 then (b'0' + n) ∷ after else rest

pub length-digits_le :
    (count n : ℕ) (after : Bytes) → length (digits count n after) ≤ count + length after
length-digits_le zero n after = omega arith
length-digits_le (suc count) n after =
    ground (arith, length-digits_le count (n / 10) ((b'0' + n % 10) ∷ after))

read_digits-digit :
    (m d : ℕ) (after : Bytes)
    → d < 10
    → read_digits m ((b'0' + d) ∷ after) ≡ read_digits (m * 10 + d) after
read_digits-digit m d after h = ground arith

-- The digits of a number that has no more than there is room for are read back.
read_digits-digits :
    (count n : ℕ) (after : Bytes)
    → n < 10 ^ suc count
    → read_digits 0 (digits (suc count) n after) ≡ read_digits n after
read_digits-digits zero n after h = ground (arith, read_digits-digit 0 n after)
read_digits-digits (suc count) n after h =
    let next = read_digits-digits count (n / 10) ((b'0' + n % 10) ∷ after) (omega (arith, h)) in
    elim (Bool-cases (ltb n 10)) [
      | inl g ↦
          rw g (
            read_digits-digit 0 n after (ground arith)
            ∙ ap (λ m. read_digits m after) (omega arith))
      | inr g ↦ rw g (
          next
          ∙ (read_digits-digit (n / 10) (n % 10) after (omega arith)
              ∙ ap (λ m. read_digits m after) (omega arith)))
    ]

digits-cons :
    (count n : ℕ) (c : ℕ) (after : Bytes) → (length (digits count n (c ∷ after)) == 0) ≡ false
digits-cons zero n c after = ground arith
digits-cons (suc count) n c after =
    ground (arith, digits-cons count (n / 10) (b'0' + n % 10) (c ∷ after))

length-digits_ne : (count n : ℕ) → (length (digits (suc count) n []) == 0) ≡ false
length-digits_ne count n = ground (arith, digits-cons count (n / 10) (b'0' + n % 10) [])

read_number_of_digits : (ds : Bytes) → (length ds == 0) ≡ false → read_number ds ≡ read_digits 0 ds
read_number_of_digits [] h = absurd cc
read_number_of_digits (c ∷ ds) h = refl

pub read_number-digits :
    (count n : ℕ) → n < 10 ^ suc count → read_number (digits (suc count) n []) ≡ some n
read_number-digits count n h =
    read_number_of_digits (digits (suc count) n []) (length-digits_ne count n)
    ∙ read_digits-digits count n [] h

abbrev pub decimal : Numeral
decimal = record {
  to_string = λ n. digits 20 n [];
  to_size = read_number;
  length-to_string_le = λ n h. length-digits_le 20 n [];
}

-- A text is cut at each ";", which is dropped, and around each "#" and "|".
abbrev pub split : Bytes → Bytes → List Bytes
split tok [] = tok ∷ []
split tok (c ∷ cs) =
    let kept = tok ∷ ((c ∷ []) ∷ split [] cs) in
    let dropped = tok ∷ split [] cs in
    let longer = split (tok ++ (c ∷ [])) cs in
    if c == b';' then dropped else if c == b'#' then kept else if c == b'|' then kept else longer
