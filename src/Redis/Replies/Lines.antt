-- ===== src/Redis/Replies/Lines.antt =====
-- The replies of a server as bytes, and the lines that `handle_read` takes out of them.
use eiptnd.Prelude.{
  ℕ, ◌+◌, ◌≤◌, ◌≡◌, refl, ap, ◌∙◌, true, false, some, List, [], ◌∷◌, ◌++◌, Bytes, length, arith,
  drop, drop-add, drop-append,
}
use eiptnd.Boost.Io.{Streambuf, getline, hits_end, line}
use eiptnd.Redis.Connection.{Callback}
use eiptnd.Redis.Handlers.{stream_getline, last?, is_reply}

-- A line that `handle_read` takes as a reply: an integer or the answer to PING, ended by "\r".
pub data IsReply : Bytes → Type 0 where
  reply :
      (r : Bytes)
      → is_reply (r ++ (b'\r' ∷ [])) ≡ true
      → hits_end (r ++ (b'\r' ∷ [])) ≡ true
      → 2 ≤ length r
      → IsReply r

-- The bytes of replies, as the server sends them.
abbrev pub stream : List Bytes → Bytes
stream [] = []
stream (r ∷ rs) = r ++ (b'\r' ∷ b'\n' ∷ stream rs)

-- One reply for each callback.
pub data Match : List Callback → List Bytes → Type 0 where
  all_matched : Match [] []
  matched :
      (c : Callback) {cs : List Callback} {r : Bytes} {rs : List Bytes}
      → IsReply r
      → Match cs rs
      → Match (c ∷ cs) (r ∷ rs)

pub line-reply : (r rest : Bytes) → hits_end r ≡ true → line (r ++ (b'\n' ∷ rest)) ≡ r
unfolding line hits_end
line-reply [] rest h = refl
line-reply (c ∷ r) rest h = ground (arith, line-reply r rest)

pub hits_end-reply : (r rest : Bytes) → hits_end (r ++ (b'\n' ∷ rest)) ≡ false
unfolding hits_end
hits_end-reply [] rest = refl
hits_end-reply (c ∷ r) rest = ground (arith, hits_end-reply r rest)

pub drop-line : (r rest : Bytes) → drop (length r + 1) (r ++ (b'\n' ∷ rest)) ≡ rest
drop-line r rest =
    drop-add (length r) 1 (r ++ (b'\n' ∷ rest)) ∙ ap (drop 1) (drop-append r (b'\n' ∷ rest))

pub last?-snoc : (r : Bytes) (c : ℕ) → last? (r ++ (c ∷ [])) ≡ some c
last?-snoc [] c = refl
last?-snoc (d ∷ []) c = refl
last?-snoc (d ∷ e ∷ r) c = last?-snoc (e ∷ r) c

module _ (S : Streambuf) where
  pub getline-reply :
      (text r rest : Bytes) (b : S.Buf)
      → S.input b ≡ r ++ (b'\n' ∷ rest)
      → hits_end r ≡ true
      → stream_getline S false text b ≡ (r, false, S.consume (length r + 1) b)
  unfolding stream_getline getline
  getline-reply text r rest b e h = rw (e, line-reply r rest h, hits_end-reply r rest) refl

  pub input-rest :
      (r rest : Bytes) (b : S.Buf)
      → S.input b ≡ r ++ (b'\n' ∷ rest)
      → S.input (S.consume (length r + 1) b) ≡ rest
  input-rest r rest b e =
      S.input-consume (length r + 1) b ∙ (ap (drop (length r + 1)) e ∙ drop-line r rest)
