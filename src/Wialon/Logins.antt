-- ===== src/Wialon/Logins.antt =====
-- Who is logged in after the tokens of a message.
use Prim.{tt, Unit}
use eiptnd.Prelude.{
  ◌≡◌, refl, Bool, true, false, ◌&&◌, if◌then◌else◌, List, [], ◌∷◌, Bytes, arith, equal, codes, inl,
  inr, Option-cases,
}
use eiptnd.Wialon.Protocol.{State, state_initial, state_body, state_bar, Command, is_blackbox}
use eiptnd.Wialon.Machine.{Library, Parser, Result, ok, err, ◌>>=◌, store_data}
use eiptnd.Wialon.Token.{
  step, select_command, put_field, body_token, next_block, consume_token, finish_line,
  consume_tokens, crlf,
}
use eiptnd.Wialon.Grants.{granted, LogsIn, LogsIn-trans}
use eiptnd.Wialon.Invariant.{Inv}
use eiptnd.Wialon.Invariant.Line.{LineEnds, finish_line-LineEnds}
use eiptnd.Wialon.Invariant.Step.{Safe, consume_token-Inv}

module _ {L : Library} where
  abbrev pub Logged : Parser L → Result (Parser L) → Type 0
  Logged s (ok t) = LogsIn s t
  Logged s (err f) = Unit {0}

  pub Logged-trans : (s t : Parser L) (r : Result (Parser L)) → LogsIn s t → Logged t r → Logged s r
  Logged-trans s t (ok u) h g = LogsIn-trans s t u h g
  Logged-trans s t (err f) h g = tt

  if-Logged :
      (s : Parser L) (b : Bool) (x y : Result (Parser L))
      → Logged s x
      → Logged s y
      → Logged s (if b then x else y)
  if-Logged s true x y h g = h
  if-Logged s false x y h g = g

  -- The same user, and nothing was granted.
  abbrev SameUser : Parser L → Result (Parser L) → Type 0
  SameUser s (ok t) = (t.authenticated ≡ s.authenticated) × (granted L t.calls ≡ granted L s.calls)
  SameUser s (err f) = Unit {0}

  body_token-SameUser : (c : Command) (tok : Bytes) (s : Parser L) → SameUser s (body_token c tok s)
  unfolding body_token put_field
  body_token-SameUser c tok s = ground arith

  next_block-SameUser : (s : Parser L) → SameUser s (next_block s)
  unfolding next_block store_data
  next_block-SameUser s = ground arith

  body-SameUser :
      (b : Bool) (c : Command) (tok : Bytes) (s : Parser L)
      → SameUser s (if b then next_block s else body_token c tok s)
  body-SameUser true c tok s = next_block-SameUser s
  body-SameUser false c tok s = body_token-SameUser c tok s

  step-SameUser : (st : State) (tok : Bytes) (s : Parser L) → SameUser s (step st tok s)
  unfolding step select_command store_data
  step-SameUser state_body tok s = elim (Option-cases s.current_cmd) [
    | inl e ↦ simp e tt
    | inr (c, e) ↦ simp e (body-SameUser (is_blackbox c && equal (codes "|") tok) c tok s)
  ]
  step-SameUser state_bar tok s = ground arith
  step-SameUser _ tok s = ground arith

  step-Logged : (st : State) (tok : Bytes) (s : Parser L) → Logged s (step st tok s)
  step-Logged st tok s = of_same (step st tok s) (step-SameUser st tok s)
    where
      of_same : (r : Result (Parser L)) → SameUser s r → Logged s r
      of_same (ok t) (a, g) = (0, omega (arith, g), a)
      of_same (err f) h = tt

  line-Logged :
      (s : Parser L) (r : Result (Parser L))
      → LineEnds s r
      → Logged s (r >>= λ t. ok (record t { state = state_initial }))
  line-Logged s (ok t) h = h.1
  line-Logged s (err f) h = tt

  pub consume_token-Logged : (tok : Bytes) (s : Parser L) → Inv s → Logged s (consume_token tok s)
  unfolding consume_token
  consume_token-Logged tok s v =
      if-Logged s (equal crlf tok) _ _
        (line-Logged s (finish_line s.state s) (finish_line-LineEnds s.state s v.counter v.place))
        (step-Logged s.state tok s)

  then_tokens-Logged :
      (toks : List Bytes) (tok : Bytes) (s : Parser L) (r : Result (Parser L))
      → Logged s r
      → Safe s tok r
      → ((t : Parser L) → Inv t → Logged t (consume_tokens toks t))
      → Logged s (r >>= λ t. consume_tokens toks t)
  then_tokens-Logged toks tok s (ok t) h i g = Logged-trans s t (consume_tokens toks t) h (g t i)
  then_tokens-Logged toks tok s (err f) h i g = tt

  pub consume_tokens-Logged :
      (toks : List Bytes) (s : Parser L) → Inv s → Logged s (consume_tokens toks s)
  unfolding consume_tokens
  consume_tokens-Logged [] s v = (0, omega arith, refl)
  consume_tokens-Logged (tok ∷ toks) s v =
      then_tokens-Logged toks tok s (consume_token tok s) (consume_token-Logged tok s v)
        (consume_token-Inv tok s v) (λ t w. consume_tokens-Logged toks t w)
