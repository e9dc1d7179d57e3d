-- ===== src/Wialon/Reading.antt =====
-- The loop of `handle_read`, which takes one message from the buffer.
use eiptnd.Prelude.{
  ℕ, zero, suc, sym, ap, ◌∙◌, ◌+◌, ◌-◌, ◌<◌, ◌≡◌, ◌≢◌, refl, true, false, some, [], ◌∷◌, ◌++◌,
  Bytes, length, length-append, length-drop, drop, drop-append, drop-add, arith, ◌==◌, append_assoc,
}
use eiptnd.Boost.Io.{Streambuf, line, hits_end, getline}
use eiptnd.Wialon.Machine.{Result, ok, err, out_of_fuel}
use eiptnd.Wialon.Session.{Input, message, init, last?, read_round, read_message}

pub line_lem : (l r : Bytes) → hits_end l ≡ true → line (l ++ (b'\n' ∷ r)) ≡ l
unfolding line hits_end
line_lem [] r h = refl
line_lem (c ∷ l) r h = ground (arith, line_lem l r)

pub last?-snoc : (l : Bytes) (c : ℕ) → last? (l ++ (c ∷ [])) ≡ some c
last?-snoc [] c = refl
last?-snoc (x ∷ []) c = refl
last?-snoc (x ∷ y ∷ l) c = last?-snoc (y ∷ l) c

pub init-snoc : (l : Bytes) (c : ℕ) → init (l ++ (c ∷ [])) ≡ l
init-snoc [] c = refl
init-snoc (x ∷ []) c = refl
init-snoc (x ∷ y ∷ l) c = ap (◌∷◌ x) (init-snoc (y ∷ l) c)

hits_end-snoc :
    (l : Bytes) (c : ℕ) → c ≢ b'\n' → hits_end l ≡ true → hits_end (l ++ (c ∷ [])) ≡ true
unfolding hits_end
hits_end-snoc [] c n h = ground arith
hits_end-snoc (x ∷ l) c n h = ground (arith, hits_end-snoc l c n)

module _ (S : Streambuf) where
  -- What is left in the buffer after a round that took the line `tmp`.
  abbrev after_line : Bytes → S.Buf → S.Buf
  after_line tmp b = S.consume (length tmp + 1) (S.consume (length tmp + 1) b)

  pub input-after_line :
      (tmp : Bytes) (b : S.Buf)
      → S.input (after_line tmp b) ≡ drop (length tmp + 1) (drop (length tmp + 1) (S.input b))
  input-after_line tmp b =
      S.input-consume (length tmp + 1) (S.consume (length tmp + 1) b)
      ∙ ap (drop (length tmp + 1)) (S.input-consume (length tmp + 1) b)

  length-after_line :
      (tmp : Bytes) (b : S.Buf)
      → length (S.input (after_line tmp b))
        ≡ length (S.input b) - (length tmp + 1) - (length tmp + 1)
  length-after_line tmp b =
      ap length (input-after_line tmp b)
      ∙ length-drop (length tmp + 1) (drop (length tmp + 1) (S.input b))
      ∙ ap (λ n. n - (length tmp + 1)) (length-drop (length tmp + 1) (S.input b))

  -- The loop of `handle_read` ends: with more fuel than there are bytes in the buffer, it is not
  -- the fuel that stops it.
  pub read_message_total :
      (fuel : ℕ) (msg : Bytes) (b : S.Buf)
      → length (S.input b) < fuel
      → read_message S fuel msg b ≢ err out_of_fuel
  unfolding read_message read_round getline
  read_message_total zero msg b h = absurd (omega arith)
  read_message_total (suc fuel) msg b h =
      let tmp = line (S.input b) in
      ground (
        arith,
        length-after_line tmp b,
        read_message_total fuel (msg ++ (tmp ++ (b'\n' ∷ []))) (after_line tmp b),
      )

  drop_line : (l rest : Bytes) → drop (length l + 1) (l ++ (b'\n' ∷ rest)) ≡ rest
  drop_line l rest =
      drop-add (length l) 1 (l ++ (b'\n' ∷ rest)) ∙ ap (drop 1) (drop-append l (b'\n' ∷ rest))

  read_round-line :
      (next : Bytes → S.Buf → Result (Input S.Buf)) (msg l rest : Bytes) (b : S.Buf)
      → S.input b ≡ (l ++ (b'\r' ∷ [])) ++ (b'\n' ∷ rest)
      → line (S.input b) ≡ l ++ (b'\r' ∷ [])
      → read_round S next msg b ≡ ok (message (msg ++ l) (after_line (l ++ (b'\r' ∷ [])) b))
  unfolding read_round getline
  read_round-line next msg l rest b e q =
      let some_left : (length (S.input b) == 0) ≡ false =
        ground (arith, ap length e, length-append (l ++ (b'\r' ∷ [])) (b'\n' ∷ rest)) in
      rw (some_left, q, last?-snoc l b'\r', init-snoc l b'\r')

  -- A line that holds no line feed and ends in CR LF is a message; behind it as many bytes as the
  -- line and its end have are lost.
  pub read_message_line :
      (fuel : ℕ) (msg l rest : Bytes) (b : S.Buf)
      → S.input b ≡ l ++ (b'\r' ∷ b'\n' ∷ rest)
      → hits_end l ≡ true
      → (b' : S.Buf) × (read_message S (suc fuel) msg b ≡ ok (message (msg ++ l) b'))
        × (S.input b' ≡ drop (length l + 2) rest)
  unfolding read_message
  read_message_line fuel msg l rest b e h =
      let l' = l ++ (b'\r' ∷ []) in
      let e' : S.input b ≡ l' ++ (b'\n' ∷ rest) = e ∙ sym (append_assoc l (b'\r' ∷ []) _) in
      let q : line (S.input b) ≡ l' =
        ap line e' ∙ line_lem l' rest (hits_end-snoc l b'\r' (omega arith) h) in
      let n : length l' + 1 ≡ length l + 2 = omega (arith, length-append l (b'\r' ∷ [])) in
      (
        after_line l' b,
        read_round-line (λ m r. read_message S fuel m r) msg l rest b e' q,
        input-after_line l' b
            ∙ ap (λ x. drop (length l' + 1) (drop (length l' + 1) x)) e'
            ∙ ap (drop (length l' + 1)) (drop_line l' rest)
            ∙ ap (λ k. drop k rest) n,
      )
