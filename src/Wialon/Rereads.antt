-- ===== src/Wialon/Rereads.antt =====
-- How many reads the handlers start.
use Prim.{tt, Unit}
use eiptnd.Prelude.{
  ℕ, suc, ◌+◌, ◌≤◌, Bool, true, false, ◌&&◌, Option, none, some, List, [], ◌∷◌, Bytes, codes, arith,
  equal, if◌then◌else◌, ◌==◌,
}
use eiptnd.Wialon.Protocol.{
  State, state_initial, state_body, state_bar, state_skip_to_bar_or_end, state_end, Command,
  is_blackbox,
}
use eiptnd.Wialon.Machine.{
  Library, Parser, Result, ok, err, Call, process_data, do_read_until, do_write, authenticate,
  commit, commit_command, parser_error, or_fail, indeterminate_command, ◌>>=◌, answer, store_data,
  call, handle_authenticate,
}
use eiptnd.Wialon.Token.{
  step, select_command, put_field, body_token, next_block, consume_token, finish_line,
  consume_tokens, crlf, parse_string,
}
use eiptnd.Wialon.Session.{
  Input, nothing, message, handle_message, handle_input, handle_read, handle_process_data,
  read_message,
}

abbrev pub reads_of : {A : Type 0} → List (Call A) → ℕ
reads_of [] = 0
reads_of (do_read_until d ∷ cs) = suc (reads_of cs)
reads_of (do_write r ∷ cs) = reads_of cs
reads_of (authenticate i p ∷ cs) = reads_of cs
reads_of (process_data a t ∷ cs) = reads_of cs

module _ {L : Library} where
  -- No more than `n` reads were started.
  abbrev pub Rereads : ℕ → Parser L → Result (Parser L) → Type 0
  Rereads n s (ok t) = reads_of t.calls ≤ n + reads_of s.calls
  Rereads n s (err f) = Unit {0}

  bind-Rereads :
      (m n : ℕ) (s : Parser L) (r : Result (Parser L)) (k : Parser L → Result (Parser L))
      → Rereads m s r
      → ((t : Parser L) → Rereads n t (k t))
      → Rereads (m + n) s (r >>= k)
  bind-Rereads m n s (ok t) k h g = after (k t) h (g t)
    where
      after : (r : Result (Parser L)) → Rereads m s (ok t) → Rereads n t r → Rereads (m + n) s r
      after (ok u) p q = omega (arith, p, q)
      after (err f) p q = tt
  bind-Rereads m n s (err f) k h g = tt

  if-Rereads :
      (s : Parser L) (b : Bool) (x y : Result (Parser L))
      → Rereads 0 s x
      → Rereads 0 s y
      → Rereads 0 s (if b then x else y)
  if-Rereads s true x y h g = h
  if-Rereads s false x y h g = g

  known-Rereads :
      (s : Parser L) (o : Option Command) (f : Command → Result (Parser L))
      → ((c : Command) → Rereads 0 s (f c))
      → Rereads 0 s (or_fail indeterminate_command o >>= f)
  known-Rereads s none f h = tt
  known-Rereads s (some c) f h = h c

  answer-Rereads : (msg : Bytes) (s : Parser L) → Rereads 0 s (answer msg s)
  unfolding answer
  answer-Rereads msg s = ground arith

  commit-Rereads : (c : Command) (s : Parser L) → Rereads 0 s (commit c s)
  unfolding commit store_data answer
  commit-Rereads c s = ground arith

  commit_command-Rereads : (s : Parser L) → Rereads 0 s (commit_command s)
  unfolding commit_command
  commit_command-Rereads s =
      if-Rereads s (s.tree_at == 0) _ _ tt (known-Rereads s s.current_cmd _ λ c. commit-Rereads c s)

  finish_line-Rereads : (st : State) (s : Parser L) → Rereads 0 s (finish_line st s)
  unfolding finish_line store_data
  finish_line-Rereads state_body s = known-Rereads s s.current_cmd _ λ c.
      if-Rereads s (is_blackbox c) _ _
        (commit_command-Rereads (call {L = L} (process_data s.tree_at s.tree) s))
        (commit_command-Rereads (parser_error s))
  finish_line-Rereads state_bar s =
      commit_command-Rereads (call {L = L} (process_data s.tree_at s.tree) s)
  finish_line-Rereads state_skip_to_bar_or_end s = commit_command-Rereads s
  finish_line-Rereads state_end s = commit_command-Rereads s
  finish_line-Rereads _ s = ground arith

  body_token-Rereads : (c : Command) (tok : Bytes) (s : Parser L) → Rereads 0 s (body_token c tok s)
  unfolding body_token put_field
  body_token-Rereads c tok s = ground arith

  next_block-Rereads : (s : Parser L) → Rereads 0 s (next_block s)
  unfolding next_block store_data
  next_block-Rereads s = ground arith

  step-Rereads : (st : State) (tok : Bytes) (s : Parser L) → Rereads 0 s (step st tok s)
  unfolding step select_command store_data
  step-Rereads state_body tok s = known-Rereads s s.current_cmd _ λ c.
      if-Rereads s (is_blackbox c && equal (codes "|") tok) _ _ (next_block-Rereads s)
        (body_token-Rereads c tok s)
  step-Rereads _ tok s = ground arith

  consume_token-Rereads : (tok : Bytes) (s : Parser L) → Rereads 0 s (consume_token tok s)
  unfolding consume_token
  consume_token-Rereads tok s =
      if-Rereads s (equal crlf tok) _ _
        (bind-Rereads 0 0 s _ _ (finish_line-Rereads s.state s) (λ t. omega arith))
        (step-Rereads s.state tok s)

  consume_tokens-Rereads : (toks : List Bytes) (s : Parser L) → Rereads 0 s (consume_tokens toks s)
  unfolding consume_tokens
  consume_tokens-Rereads [] s = omega arith
  consume_tokens-Rereads (tok ∷ toks) s =
      bind-Rereads 0 0 s _ _ (consume_token-Rereads tok s) (λ t. consume_tokens-Rereads toks t)

  handle_message-Rereads : (msg : Bytes) (s : Parser L) → Rereads 1 s (handle_message msg s)
  unfolding handle_message parse_string
  handle_message-Rereads msg s =
      bind-Rereads 0 1 s _ _ (consume_tokens-Rereads (L.tokens msg) s)
        λ t. bind-Rereads 0 1 t _ _ (consume_token-Rereads crlf t) λ u. ground arith

  -- `handle_read` starts one read at most.
  pub handle_read-Rereads : (s : Parser L) → Rereads 1 s (handle_read s)
  unfolding handle_read
  handle_read-Rereads s = input-Rereads (read_message L.buffer _ [] s.sbuf)
    where
      input-Rereads : (r : Result (Input L.buffer.Buf)) → Rereads 1 s (r >>= λ i. handle_input i s)
      input-Rereads (ok (nothing b)) = omega arith
      input-Rereads (ok (message msg b)) = handle_message-Rereads msg (record s { sbuf = b })
      input-Rereads (err f) = tt

  -- The answers of the request router lead to no read.
  pub handle_authenticate-Rereads :
      (is_ok : Bool) (s : Parser L) → Rereads 0 s (handle_authenticate is_ok s)
  unfolding handle_authenticate
  handle_authenticate-Rereads true s =
      answer-Rereads (codes "1") (record s { state = state_initial; authenticated = true })
  handle_authenticate-Rereads false s =
      answer-Rereads (codes "01") (record s { state = state_initial })

  pub handle_process_data-Rereads :
      (is_ok : Bool) (s : Parser L) → Rereads 0 s (handle_process_data is_ok s)
  unfolding handle_process_data
  handle_process_data-Rereads is_ok s = known-Rereads s s.current_cmd _ λ c.
      if-Rereads s (is_blackbox c) _ _ (omega arith) (
        if-Rereads s is_ok _ _ (answer-Rereads _ s)
          (if-Rereads s _ _ _ (answer-Rereads _ s) (answer-Rereads _ s)))
