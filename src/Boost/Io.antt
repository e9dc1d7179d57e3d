-- ===== src/Boost/Io.antt =====
-- boost::asio::streambuf and boost::lexical_cast, as the source uses them, and std::getline, which
-- is the language's own, over a stream buffer.
use eiptnd.Prelude.{
  ℕ, ◌+◌, ◌-◌, ◌*◌, ◌&&◌, leb, ◌<◌, ◌≤◌, ◌^◌, ◌≡◌, Bool, true, false, Option, none, some, [], ◌∷◌,
  ◌++◌, Bytes, if◌then◌else◌, ◌==◌, length, drop,
}

-- The input sequence of a buffer; `consume` removes from its front, all of it at most; `commit`
-- appends what was written into the space that `prepare` gave.
pub record Streambuf : Type 1 where
  pub Buf : Type 0
  pub empty : Buf
  pub input : Buf → Bytes
  pub consume : ℕ → Buf → Buf
  pub commit : Bytes → Buf → Buf
  pub input-empty : input empty ≡ []
  pub input-consume : (n : ℕ) (b : Buf) → input (consume n b) ≡ drop n (input b)
  pub input-commit : (bs : Bytes) (b : Buf) → input (commit bs b) ≡ input b ++ bs

-- The value of decimal digits, behind those of `n`.
abbrev pub read_digits : ℕ → Bytes → Option ℕ
read_digits n [] = some n
read_digits n (c ∷ cs) =
    let rest = read_digits (n * 10 + (c - b'0')) cs in
    if leb b'0' c && leb c b'9' then rest else none

abbrev pub read_number : Bytes → Option ℕ
read_number [] = none
read_number (c ∷ cs) = read_digits 0 (c ∷ cs)

-- Conversions between a 64-bit `std::size_t` and its decimal text: 2 ^ 64 has 20 digits.
pub record Numeral : Type 0 where
  pub to_string : ℕ → Bytes
  pub to_size : Bytes → Option ℕ
  pub length-to_string_le : (n : ℕ) → n < 2 ^ 64 → length (to_string n) ≤ 20

-- What std::getline stores: the bytes before the first line feed, or all.
unfoldable pub line : Bytes → Bytes
line [] = []
line (c ∷ cs) = if c == b'\n' then [] else c ∷ line cs

-- Whether it meets the end of the input before a line feed.
unfoldable pub hits_end : Bytes → Bool
hits_end [] = true
hits_end (c ∷ cs) = if c == b'\n' then false else hits_end cs

module _ (S : Streambuf) where
  -- std::getline takes the line and its line feed out of the input sequence.
  unfoldable pub getline : S.Buf → Bytes × S.Buf
  getline b = let s = line (S.input b) in (s, S.consume (length s + 1) b)
