-- ===== src/Example/Echo/Exchange.antt =====
-- A client of the echo translator gets back what it sends.
use Prim.{Unit}
use eiptnd.Prelude.{
  false, ℕ, zero, suc, ◌<◌, ◌≤◌, ◌≡◌, refl, ap, sym, ◌∙◌, true, List, [], ◌∷◌, ◌++◌, Bytes, length,
  drop, length-append, length-drop, take-append, arith, append_assoc, ltb,
}
use eiptnd.Net.Session.{
  some_bytes, Result, ok, ◌>>=◌, Session, create, on_connection, read_completes, write_completes,
  handled, perform_all, perform, start_read, start_write, handle_read, handle_write,
  release_translator, release_connection,
}
use eiptnd.Example.Echo.{has_nul, received, translator}
use eiptnd.Example.Echo

-- The connection waits for bytes; nothing else is under way.
abbrev pub waiting : Bytes → Session translator
waiting buffer = record {
  translator = buffer;
  translator_refs = 1;
  connection_refs = 2;
  reads = some_bytes ∷ [];
  writes = [];
  asked = [];
  is_shutdown = false;
}

-- For each chunk a read completes with it, and then the write that this starts. The result holds
-- what was written.
abbrev pub exchange : List Bytes → Session translator → Result (List Bytes × Session translator)
exchange [] s = ok ([], s)
exchange (b ∷ bs) s = read_completes [] [] true b (length b) s >>= λ t.
    write_completes [] [] true t >>= λ u.
    exchange bs u >>= λ (written, v). ok (t.writes ++ written, v)

-- Chunks that a read may bring, and that leave the last byte of the array as it was.
abbrev pub Short : List Bytes → Type 0
Short [] = Unit {0}
Short (b ∷ bs) = (0 < length b) × (length b ≤ 8191) × Short bs

has_nul-snoc : (xs : Bytes) → has_nul (xs ++ (0 ∷ [])) ≡ true
has_nul-snoc [] = refl
has_nul-snoc (x ∷ xs) = ground (arith, has_nul-snoc xs)

drop-append_le : (n : ℕ) (xs ys : Bytes) → n ≤ length xs → drop n (xs ++ ys) ≡ drop n xs ++ ys
drop-append_le zero xs ys h = refl
drop-append_le (suc n) [] ys h = absurd (omega (arith, h))
drop-append_le (suc n) (x ∷ xs) ys h = drop-append_le n xs ys (omega (arith, h))

received-snoc :
    (b front : Bytes)
    → length b ≤ length front
    → received b (front ++ (0 ∷ [])) ≡ (b ++ drop (length b) front) ++ (0 ∷ [])
received-snoc b front h =
    ap (λ r. b ++ r) (drop-append_le (length b) front (0 ∷ []) h)
    ∙ sym (append_assoc b (drop (length b) front) (0 ∷ []))

one_chunk :
    (b buffer : Bytes)
    → 0 < length b
    → has_nul (received b buffer) ≡ true
    → (t : Session translator) × (read_completes [] [] true b (length b) (waiting buffer) ≡ ok t)
      × (t.writes ≡ b ∷ [])
      × (write_completes [] [] true t ≡ ok (waiting (received b buffer)))
unfolding read_completes write_completes handle_read handle_write handled perform_all perform
    start_read start_write release_translator release_connection Echo.handle_read Echo.handle_write
one_chunk b buffer h n =
    let some : ltb 0 (length b) ≡ true = ground (arith, h) in
    (
      record (waiting (received b buffer)) { reads = []; writes = b ∷ [] },
      rw (some, n, take-append b (drop (length b) buffer)) refl,
      refl,
      refl,
    )

exchange-Short :
    (chunks : List Bytes) (front : Bytes)
    → length front ≡ 8191
    → Short chunks
    → (front' : Bytes) × (exchange chunks (waiting (front ++ (0 ∷ [])))
        ≡ ok (chunks, waiting (front' ++ (0 ∷ []))))
exchange-Short [] front l s = (front, refl)
exchange-Short (b ∷ bs) front l (p, h, s) =
    let fits : length b ≤ length front = omega (arith, l, h) in
    let next = b ++ drop (length b) front in
    let e = received-snoc b front fits in
    let (t, r, w, u) = one_chunk b (front ++ (0 ∷ [])) p (ap has_nul e ∙ has_nul-snoc next) in
    let (front', g) =
      exchange-Short bs next
        (omega
          (arith, length-append b (drop (length b) front), length-drop (length b) front, fits, l))
        s in
    (front', rw (r, u, w, e, g) refl)

-- With an array that ends in a zero byte, a client that is accepted and sends chunks of 1 to 8191
-- bytes, waiting for each one to come back, gets back each chunk as it is; then the connection
-- waits for more bytes and nothing else.
pub on_connection-exchange :
    (chunks : List Bytes) (front : Bytes)
    → length front ≡ 8191
    → Short chunks
    → (s : Session translator) × (front' : Bytes) × (on_connection (create (front ++ (0 ∷ [])))
        ≡ ok s)
      × (exchange chunks (release_connection s) ≡ ok (chunks, waiting (front' ++ (0 ∷ []))))
unfolding on_connection create handled perform_all perform start_read release_translator
    release_connection Echo.handle_start Echo.handle_write
on_connection-exchange chunks front l s =
    let (front', g) = exchange-Short chunks front l s in
    (record (waiting (front ++ (0 ∷ []))) { connection_refs = 3 }, front', refl, g)
