-- ===== src/Wialon/Token.antt =====
-- `consume_token` of wialon_plugin.cpp: the parser's step on one token, or on the end of a line.
-- A case that falls through to the next calls what the next case does.
use eiptnd.Prelude.{
  ℕ, ◌-◌, List, [], ◌∷◌, false, not, ◌&&◌, Option, none, some, Bytes, codes, equal, if◌then◌else◌,
  ◌==◌, get_elem?,
}
use eiptnd.Wialon.Protocol.{
  State, state_initial, state_imei, state_command, state_body, state_hash_first, state_hash_second,
  state_bar, state_end, state_skip_to_bar_or_end, state_skip_to_end, Command, is_login, is_blackbox,
  estimates, fields,
}
use eiptnd.Wialon.Machine.{
  Library, Parser, Result, ok, err, ◌>>=◌, or_fail, indeterminate_command, bad_index, null_tree,
  out_of_range, new_tree, parser_error, unexpected_token, store_data, commit_command,
}

abbrev pub crlf : Bytes
crlf = b'\r' ∷ b'\n' ∷ []

module _ {L : Library} where
  abbrev pub current_command : Parser L → Result Command
  current_command s = or_fail indeterminate_command s.current_cmd

  abbrev pub store_and_commit : Parser L → Result (Parser L)
  store_and_commit s = do t ← store_data s; commit_command t

  -- The switch on the state at the end of a line.
  unfoldable pub finish_line : State → Parser L → Result (Parser L)
  finish_line state_body s = do
    c ← current_command s
    if is_blackbox c then store_and_commit s else commit_command (parser_error s)
  finish_line state_bar s = store_and_commit s
  finish_line state_skip_to_bar_or_end s = commit_command s
  finish_line state_command s = ok (
      if not s.authenticated
      then unexpected_token (codes "L") crlf s
      else unexpected_token (codes "B|D|I|M|P|SD") crlf s)
  finish_line state_hash_first s = ok (unexpected_token (codes "#") crlf s)
  finish_line state_hash_second s = ok (unexpected_token (codes "#") crlf s)
  finish_line state_end s = commit_command s
  finish_line _ s = ok s

  -- `case STATE_COMMAND`, on what `estimates_.find` gave.
  unfoldable pub select_command : Option (ℕ × Command) → Parser L → Parser L
  select_command none s = parser_error (record s { state = state_skip_to_end })
  select_command (some (n, c)) s =
      let t = record s { estimate = n; current_cmd = some c } in
      record t {
        state =
            if not s.authenticated && not (is_login c)
            then state_skip_to_end
            else state_hash_second;
      }

  -- A bar in the body of a black box.
  unfoldable pub next_block : Parser L → Result (Parser L)
  next_block s = do
    t ← store_data s
    e ← or_fail out_of_range (L.estimates_map.find t.cmd (estimates L.estimates_map))
    ok (new_tree (record t { estimate = e.0; current_cmd = some e.1 }))

  -- tree_->put(fields_[current_cmd_][--estimate_], tok)
  unfoldable pub put_field : Command → Bytes → Parser L → Result (Parser L)
  put_field c tok s = do
    let n = s.estimate - 1
    field_name ← or_fail bad_index (get_elem? (fields c) n)
    if s.tree_at == 0
        then err null_tree
        else ok (record s { estimate = n; tree = L.tree.put field_name tok s.tree })

  abbrev pub end_of_body : Command → Parser L → Parser L
  end_of_body c s =
      if s.estimate == 0
      then record s { state = if is_blackbox c then state_bar else state_end }
      else s

  -- The rest of `case STATE_BODY`.
  unfoldable pub body_token : Command → Bytes → Parser L → Result (Parser L)
  body_token c tok s = do
    t ← if s.estimate == 0 then ok s else put_field c tok s
    ok (end_of_body c t)

  -- The switch on the state at any other token.
  unfoldable pub step : State → Bytes → Parser L → Result (Parser L)
  step state_initial tok s = ok (record (new_tree s) {
    is_parser_error = false;
    multicommand = 0;
    cmd = codes "<not initialized>";
    state = state_hash_first;
  })
  step state_imei tok s = ok (record s { state = state_hash_first })
  step state_command tok s = ok (
      select_command (L.estimates_map.find tok (estimates L.estimates_map))
        (record s { cmd = tok }))
  step state_body tok s = do
    c ← current_command s
    if is_blackbox c && equal (codes "|") tok then next_block s else body_token c tok s
  step state_hash_first tok s = ok (
      if equal (codes "#") tok
      then record s { state = state_command }
      else unexpected_token (codes "#") tok (record s { state = state_skip_to_end }))
  step state_hash_second tok s = ok (
      if equal (codes "#") tok
      then record s { state = state_body }
      else unexpected_token (codes "#") tok (record s { state = state_skip_to_end }))
  step state_bar tok s =
      let t = record s { state = state_body } in
      store_data (
        if equal (codes "|") tok
        then t
        else unexpected_token (codes "|") tok (record t { state = state_skip_to_bar_or_end }))
  step state_skip_to_bar_or_end tok s =
      ok (if equal (codes "|") tok then record s { state = state_body } else s)
  step state_end tok s =
      ok (unexpected_token (codes "\\r\\n") tok (record s { state = state_skip_to_end }))
  step _ tok s = ok s

  unfoldable pub consume_token : Bytes → Parser L → Result (Parser L)
  consume_token tok s =
      if equal crlf tok
      then (finish_line s.state s >>= λ t. ok (record t { state = state_initial }))
      else step s.state tok s

  -- The loop of `parse_string`, over the tokens of the message.
  unfoldable pub consume_tokens : List Bytes → Parser L → Result (Parser L)
  consume_tokens [] s = ok s
  consume_tokens (tok ∷ toks) s = consume_token tok s >>= λ t. consume_tokens toks t

  unfoldable pub parse_string : Bytes → Parser L → Result (Parser L)
  parse_string msg s = consume_tokens (L.tokens msg) s
