-- ===== src/Wialon/Safety.antt =====
-- A whole read: what `handle_read` keeps, and how it may fail.
use eiptnd.Boost.Io.{Streambuf, getline, line}
use eiptnd.Prelude.{
  zero, ◌++◌, if◌then◌else◌, ℕ, suc, ◌+◌, ◌≡◌, ◌≢◌, refl, ap, ◌∙◌, Bool, true, false, List, [], ◌∷◌,
  Bytes, arith, inl, inr, ◌⊎◌, length,
}
use mathlib.Core.Path.{subst}
use eiptnd.Wialon.Protocol.{
  State, state_body, state_hash_second, state_bar, state_end, state_skip_to_bar_or_end,
  is_binary_data,
}
use eiptnd.Wialon.Machine.{
  Library, Parser, Result, ok, err, Fault, Call, ◌>>=◌, bad_iterator, out_of_fuel, call,
  do_read_until,
}
use eiptnd.Wialon.Token.{consume_token, consume_tokens, crlf, parse_string}
use eiptnd.Wialon.Session.{
  handle_message, handle_read, handle_input, Input, nothing, message, read_message, read_round,
}
use eiptnd.Wialon.Invariant.{Place, Inv, ImageFault}
use eiptnd.Wialon.Invariant.Step.{consume_token-Inv, Safe, moved}
use eiptnd.Wialon.Grants.{LogsIn, LogsIn-trans}
use eiptnd.Wialon.Logins.{Logged, Logged-trans, consume_token-Logged, consume_tokens-Logged}
use eiptnd.Wialon.Access.{Quiet, bind-Quiet, consume_token-Quiet, consume_tokens-Quiet}
use eiptnd.Wialon.Reading.{read_message_total}

abbrev OnlyIterator : {A : Type 0} → Result A → Type 0
OnlyIterator (ok a) = Unit {0}
OnlyIterator (err f) = (f ≡ bad_iterator) ⊎ (f ≡ out_of_fuel)

read_message-OnlyIterator :
    (S : Streambuf) (fuel : ℕ) (msg : Bytes) (b : S.Buf) → OnlyIterator (read_message S fuel msg b)
unfolding read_message read_round getline
read_message-OnlyIterator S zero msg b = inr refl
read_message-OnlyIterator S (suc fuel) msg b =
    let tmp = line (S.input b) in
    let rest = S.consume (length tmp + 1) (S.consume (length tmp + 1) b) in
    ground (arith, read_message-OnlyIterator S fuel (msg ++ (tmp ++ (b'\n' ∷ []))) rest)

module _ {L : Library} where
  -- The end of a line was an image of a user who was logged in, after these tokens of the message.
  abbrev pub BadImage : Parser L → Fault → Type 0
  BadImage s f =
      (toks : List Bytes) × (x : Parser L) × (consume_tokens toks s ≡ ok x)
      × ImageFault x.current_cmd x.authenticated f

  -- The invariant, with who was granted it logged in; or a bad image.
  abbrev pub Handled : Parser L → Result (Parser L) → Type 0
  Handled s (ok t) = Inv t × LogsIn s t
  Handled s (err f) = BadImage s f

  after_tokens :
      (toks : List Bytes) (tok : Bytes) (s : Parser L) (r : Result (Parser L))
      → consume_token tok s ≡ r
      → Safe s tok r
      → Logged s r
      → ((t : Parser L) → Inv t → Handled t (consume_tokens toks t))
      → Handled s (r >>= λ t. consume_tokens toks t)
  unfolding consume_tokens
  after_tokens toks tok s (err f) e h l g = ([], s, refl, h.1)
  after_tokens toks tok s (ok t) e h l g = longer (consume_tokens toks t) (g t h)
    where
      longer : (r : Result (Parser L)) → Handled t r → Handled s r
      longer (ok u) (v, k) = (v, LogsIn-trans s t u l k)
      longer (err f) (before, x, d, i) =
          (tok ∷ before, x, ap (λ r. r >>= λ y. consume_tokens before y) e ∙ d, i)

  consume_tokens-Handled :
      (toks : List Bytes) (s : Parser L) → Inv s → Handled s (consume_tokens toks s)
  unfolding consume_tokens
  consume_tokens-Handled [] s v = (v, (0, omega arith, refl))
  consume_tokens-Handled (tok ∷ toks) s v =
      after_tokens toks tok s (consume_token tok s) refl (consume_token-Inv tok s v)
        (consume_token-Logged tok s v) (λ t w. consume_tokens-Handled toks t w)

  -- The invariant reads neither the buffer nor the calls made.
  renew-Place :
      (st : State) (s : Parser L) (b : L.buffer.Buf) (cs : List (Call L.tree.Ptree))
      → Place st s
      → Place st (record s { sbuf = b; calls = cs })
  renew-Place state_hash_second s b cs (c, k, h) = (c, moved k refl refl refl refl, h)
  renew-Place state_body s b cs (c, k, h, p) = (c, moved k refl refl refl refl, h, p)
  renew-Place state_end s b cs (c, k, p) = (c, moved k refl refl refl refl, p)
  renew-Place state_bar s b cs (k, h) = (moved k refl refl refl refl, h)
  renew-Place state_skip_to_bar_or_end s b cs (k, h) = (moved k refl refl refl refl, h)
  renew-Place _ s b cs p = p

  renew-Inv :
      (s : Parser L) (b : L.buffer.Buf) (cs : List (Call L.tree.Ptree))
      → Inv s
      → Inv (record s { sbuf = b; calls = cs })
  renew-Inv s b cs v = record { counter = v.counter; place = renew-Place s.state s b cs v.place }

  abbrev read_on : Parser L → Parser L
  read_on u = if is_binary_data u.state then u else call (do_read_until crlf) u

  read_on-Handled :
      (b : Bool) (s u : Parser L)
      → Inv u
      → LogsIn s u
      → Handled s (ok (if b then u else call (do_read_until crlf) u))
  read_on-Handled true s u v l = (v, l)
  read_on-Handled false s u v l = (renew-Inv u u.sbuf (do_read_until crlf ∷ u.calls) v, l)

  -- The end of the line, after the tokens of the message.
  line-Handled :
      (toks : List Bytes) (s t : Parser L) (r : Result (Parser L))
      → consume_tokens toks s ≡ ok t
      → LogsIn s t
      → Safe t crlf r
      → Logged t r
      → Handled s (r >>= λ u. ok (read_on u))
  line-Handled toks s t (ok u) e l h k =
      read_on-Handled (is_binary_data u.state) s u h (LogsIn-trans s t u l k)
  line-Handled toks s t (err f) e l h k = (toks, t, e, h.1)

  message-Handled : (msg : Bytes) (s : Parser L) → Inv s → Handled s (handle_message msg s)
  unfolding handle_message parse_string
  message-Handled msg s v =
      lined (consume_tokens (L.tokens msg) s) refl (consume_tokens-Handled (L.tokens msg) s v)
    where
      lined :
          (r : Result (Parser L))
          → consume_tokens (L.tokens msg) s ≡ r
          → Handled s r
          → Handled s (r >>= λ t. consume_token crlf t >>= λ u. ok (read_on u))
      lined (ok t) e (w, l) =
          line-Handled (L.tokens msg) s t (consume_token crlf t) e l (consume_token-Inv crlf t w)
            (consume_token-Logged crlf t w)
      lined (err f) e h = h

  -- The invariant, with who was granted it logged in; or one of three faults: an empty line in the
  -- input, or a bad image of a user who is logged in.
  abbrev pub ReadHandled : Parser L → Result (Parser L) → Type 0
  ReadHandled s (ok t) = Inv t × LogsIn s t
  ReadHandled s (err f) =
      (f ≡ bad_iterator) ⊎ ((b : L.buffer.Buf) × BadImage (record s { sbuf = b }) f)

  weaken :
      (s : Parser L) (b : L.buffer.Buf) (r : Result (Parser L))
      → Handled (record s { sbuf = b }) r
      → ReadHandled s r
  weaken s b (ok t) h = h
  weaken s b (err f) h = inr (b, h)

  input-ReadHandled :
      (s : Parser L) (r : Result (Input L.buffer.Buf))
      → r ≢ err out_of_fuel
      → OnlyIterator r
      → Inv s
      → ReadHandled s (r >>= λ i. handle_input i s)
  input-ReadHandled s (ok (nothing b)) n o v = (renew-Inv s b s.calls v, (0, omega arith, refl))
  input-ReadHandled s (ok (message msg b)) n o v =
      weaken s b _ (message-Handled msg (record s { sbuf = b }) (renew-Inv s b s.calls v))
  input-ReadHandled s (err f) n o v = elim o [ inl e ↦ inl e | inr e ↦ absurd (n (ap err e)) ]

  pub handle_read-Inv : (s : Parser L) → Inv s → ReadHandled s (handle_read s)
  unfolding handle_read
  handle_read-Inv s v =
      let fuel = length (L.buffer.input s.sbuf) + 1 in
      input-ReadHandled s (read_message L.buffer fuel [] s.sbuf)
        (read_message_total L.buffer fuel [] s.sbuf (omega arith))
        (read_message-OnlyIterator L.buffer fuel [] s.sbuf) v

  read_on-Quiet :
      (b : Bool) (u : Parser L) → Quiet u (ok (if b then u else call (do_read_until crlf) u))
  read_on-Quiet true u = λ _. refl
  read_on-Quiet false u = λ _. refl

  read_on-Logged :
      (b : Bool) (u : Parser L) → Logged u (ok (if b then u else call (do_read_until crlf) u))
  read_on-Logged true u = (0, omega arith, refl)
  read_on-Logged false u = (0, omega arith, refl)

  line-Logged : (t : Parser L) → Inv t → Logged t (consume_token crlf t >>= λ u. ok (read_on u))
  line-Logged t w = lined (consume_token crlf t) (consume_token-Logged crlf t w)
    where
      lined : (r : Result (Parser L)) → Logged t r → Logged t (r >>= λ u. ok (read_on u))
      lined (ok u) l =
          Logged-trans t u (ok (read_on u)) l (read_on-Logged (is_binary_data u.state) u)
      lined (err f) l = tt

  message-Quiet :
      (msg : Bytes) (s : Parser L)
      → s.authenticated ≡ false
      → Inv s
      → Quiet s (handle_message msg s)
  unfolding handle_message parse_string
  message-Quiet msg s a v =
      bind-Quiet s (consume_tokens (L.tokens msg) s) _ a (consume_tokens-Quiet (L.tokens msg) s a v)
        (consume_tokens-Logged (L.tokens msg) s v) (λ t e. line-Logged t (kept t e))
        λ t e b.
          bind-Quiet t (consume_token crlf t) _ b (consume_token-Quiet crlf t b (kept t e))
            (consume_token-Logged crlf t (kept t e))
            (λ u _. read_on-Logged (is_binary_data u.state) u)
            (λ u _ _. read_on-Quiet (is_binary_data u.state) u)
    where
      kept : (t : Parser L) → consume_tokens (L.tokens msg) s ≡ ok t → Inv t
      kept t e = (subst (Handled s) e (consume_tokens-Handled (L.tokens msg) s v)).0

  input-Quiet :
      (s : Parser L) (r : Result (Input L.buffer.Buf))
      → s.authenticated ≡ false
      → Inv s
      → Quiet s (r >>= λ i. handle_input i s)
  input-Quiet s (ok (nothing b)) a v = λ _. refl
  input-Quiet s (ok (message msg b)) a v =
      message-Quiet msg (record s { sbuf = b }) a (renew-Inv s b s.calls v)
  input-Quiet s (err f) a v = tt

  -- From a state that satisfies the invariant and in which nobody is logged in, a read that is not
  -- stopped by a fault and during which the router grants no authentication hands no tree to the
  -- dispatchers, whatever the bytes that were read.
  pub handle_read-Quiet : (s : Parser L) → s.authenticated ≡ false → Inv s → Quiet s (handle_read s)
  unfolding handle_read
  handle_read-Quiet s a v = input-Quiet s (read_message L.buffer _ [] s.sbuf) a v
