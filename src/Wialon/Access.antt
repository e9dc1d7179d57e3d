-- ===== src/Wialon/Access.antt =====
-- Who may store data: nothing reaches the dispatchers before a login succeeded.
use eiptnd.Prelude.{
  ℕ, zero, suc, ◌≡◌, refl, ◌∙◌, false, List, [], ◌∷◌, Bytes, arith, equal, Bool-cases, inl, inr,
  some,
}
use eiptnd.Wialon.Protocol.{
  State, state_initial, state_command, state_body, state_bar, state_end, state_skip_to_bar_or_end,
  Command, command_login, command_blackbox,
}
use eiptnd.Wialon.Machine.{
  Library, Parser, Result, ok, err, Call, process_data, do_read_until, do_write, authenticate,
  commit, commit_command, parser_error, ◌>>=◌, answer,
}
use eiptnd.Wialon.Token.{
  step, select_command, put_field, body_token, consume_token, finish_line, consume_tokens, crlf,
}
use mathlib.Core.Path.{subst}
use eiptnd.Wialon.Grants.{LogsIn, granted}
use eiptnd.Wialon.Logins.{Logged, consume_token-Logged, consume_tokens-Logged}
use eiptnd.Wialon.Invariant.{Knows, Place, Inv}
use eiptnd.Wialon.Invariant.Step.{consume_token-Inv, Safe}

-- How many trees were handed over.
abbrev pub submissions : {A : Type 0} → List (Call A) → ℕ
submissions [] = 0
submissions (process_data a t ∷ cs) = suc (submissions cs)
submissions (do_read_until d ∷ cs) = submissions cs
submissions (do_write r ∷ cs) = submissions cs
submissions (authenticate i p ∷ cs) = submissions cs

module _ {L : Library} where
  -- No tree was handed over.
  abbrev pub Silent : Parser L → Result (Parser L) → Type 0
  Silent s (ok t) = submissions t.calls ≡ submissions s.calls
  Silent s (err f) = Unit {0}

  -- No tree was handed over, or an authentication was granted.
  abbrev pub Quiet : Parser L → Result (Parser L) → Type 0
  Quiet s (ok t) = granted L t.calls ≡ granted L s.calls → submissions t.calls ≡ submissions s.calls
  Quiet s (err f) = Unit {0}

  finish_login-Silent :
      (s : Parser L) → s.current_cmd ≡ some command_login → Silent s (commit_command s)
  unfolding commit_command commit answer
  finish_login-Silent s k = ground arith

  login_only :
      (c : Command) (s : Parser L) → s.authenticated ≡ false → Knows c s → c ≡ command_login
  login_only command_login s a k = refl
  login_only c s a k = ground (arith, k.allowed)

  finish_body-Silent :
      (s : Parser L) → s.current_cmd ≡ some command_login → Silent s (finish_line state_body s)
  unfolding finish_line
  finish_body-Silent s k = ground (arith, finish_login-Silent (parser_error s) k)

  finish_line-Silent :
      (st : State) (s : Parser L)
      → s.authenticated ≡ false
      → Place st s
      → Silent s (finish_line st s)
  unfolding finish_line
  finish_line-Silent state_body s a (c, k, _, _) =
      finish_body-Silent s (ground (arith, login_only c s a k, k.current))
  finish_line-Silent state_bar s a (k, _) =
      absurd (ground (arith, login_only command_blackbox s a k))
  finish_line-Silent state_skip_to_bar_or_end s a (k, _) =
      absurd (ground (arith, login_only command_blackbox s a k))
  finish_line-Silent state_end s a (c, k, _) =
      finish_login-Silent s (ground (arith, login_only c s a k, k.current))
  finish_line-Silent state_command s a p = ground arith
  finish_line-Silent _ s a p = refl

  body_token-Silent : (c : Command) (tok : Bytes) (s : Parser L) → Silent s (body_token c tok s)
  unfolding body_token put_field
  body_token-Silent c tok s = ground arith

  step_body-Silent :
      (tok : Bytes) (s : Parser L)
      → s.current_cmd ≡ some command_login
      → Silent s (step state_body tok s)
  unfolding step
  step_body-Silent tok s k = simp k (body_token-Silent command_login tok s)

  step-Silent :
      (st : State) (tok : Bytes) (s : Parser L)
      → s.authenticated ≡ false
      → Place st s
      → Silent s (step st tok s)
  unfolding step select_command
  step-Silent state_body tok s a (c, k, _, _) =
      step_body-Silent tok s (ground (arith, login_only c s a k, k.current))
  step-Silent state_bar tok s a (k, _) = absurd (ground (arith, login_only command_blackbox s a k))
  step-Silent _ tok s a p = ground arith

  to_initial-Silent :
      (s : Parser L) (r : Result (Parser L))
      → Silent s r
      → Silent s (r >>= λ t. ok (record t { state = state_initial }))
  to_initial-Silent s (ok t) h = h
  to_initial-Silent s (err f) h = tt

  consume_token-Silent :
      (tok : Bytes) (s : Parser L)
      → s.authenticated ≡ false
      → Inv s
      → Silent s (consume_token tok s)
  unfolding consume_token
  consume_token-Silent tok s a v = elim (Bool-cases (equal crlf tok)) [
    | inl e ↦
        rw e (to_initial-Silent s (finish_line s.state s) (finish_line-Silent s.state s a v.place))
    | inr e ↦ rw e (step-Silent s.state tok s a v.place)
  ]

  pub consume_token-Quiet :
      (tok : Bytes) (s : Parser L) → s.authenticated ≡ false → Inv s → Quiet s (consume_token tok s)
  consume_token-Quiet tok s a v = weaken (consume_token tok s) (consume_token-Silent tok s a v)
    where
      weaken : (r : Result (Parser L)) → Silent s r → Quiet s r
      weaken (ok t) h = λ _. h
      weaken (err f) h = tt

  -- As long as nothing is granted, nobody is logged in.
  still_out :
      (s t : Parser L)
      → LogsIn s t
      → granted L t.calls ≡ granted L s.calls
      → s.authenticated ≡ false
      → t.authenticated ≡ false
  still_out s t (zero, g, a) e o = a ∙ o
  still_out s t (suc n, g, a) e o = absurd (omega (arith, g, e))

  pub bind-Quiet :
      (s : Parser L) (r : Result (Parser L)) (k : Parser L → Result (Parser L))
      → s.authenticated ≡ false
      → Quiet s r
      → Logged s r
      → ((t : Parser L) → r ≡ ok t → Logged t (k t))
      → ((t : Parser L) → r ≡ ok t → t.authenticated ≡ false → Quiet t (k t))
      → Quiet s (r >>= k)
  bind-Quiet s (err f) k a q h l g = tt
  bind-Quiet s (ok t) k a q h l g = after (k t) (l t refl) (g t refl)
    where
      after :
          (r : Result (Parser L)) → Logged t r → (t.authenticated ≡ false → Quiet t r) → Quiet s r
      after (err f) l g = tt
      after (ok u) (m, e, _) g = λ same.
          let (n, d, b) = h in
          let kept : granted L t.calls ≡ granted L s.calls = omega (arith, e, d, same) in
          g (still_out s t h kept a) (omega (arith, e, d, same)) ∙ q kept

  Safe-Inv :
      (s t : Parser L) (tok : Bytes) {r : Result (Parser L)} → Safe s tok r → r ≡ ok t → Inv t
  Safe-Inv s t tok h e = subst (Safe s tok) e h

  pub consume_tokens-Quiet :
      (toks : List Bytes) (s : Parser L)
      → s.authenticated ≡ false
      → Inv s
      → Quiet s (consume_tokens toks s)
  unfolding consume_tokens
  consume_tokens-Quiet [] s a v = λ _. refl
  consume_tokens-Quiet (tok ∷ toks) s a v =
      let safe = consume_token-Inv tok s v in
      bind-Quiet s (consume_token tok s) _ a (consume_token-Quiet tok s a v)
        (consume_token-Logged tok s v)
        (λ t e. consume_tokens-Logged toks t (Safe-Inv s t tok safe e))
        (λ t e b. consume_tokens-Quiet toks t b (Safe-Inv s t tok safe e))
