-- ===== src/Wialon/Answers.antt =====
-- The handlers that the request router calls back, and the answers that they write.
use eiptnd.Prelude.{
  ◌+◌, ◌%◌, ◌^◌, ◌≤◌, ◌≡◌, ◌≢◌, inl, inr, Bool, true, false, ◌||◌, none, some, [], ◌∷◌, Bytes,
  codes, length, arith, equal, Option-cases, if◌then◌else◌,
}
use eiptnd.Wialon.Protocol.{
  state_initial, state_skip_to_end, Command, command_login, command_data, command_ping,
  command_shortdata, command_blackbox, command_message, command_image, is_blackbox, name, estimates,
}
use eiptnd.Wialon.Protocol.Lookup.{find-estimates-IsEntry}
use eiptnd.Wialon.Machine.{
  Library, Parser, ok, err, ◌>>=◌, do_write, do_read_until, answer, reply_text, call,
  buffer_overrun, new_tree, handle_authenticate,
}
use eiptnd.Wialon.Token.{
  crlf, step, finish_line, select_command, consume_token, consume_tokens, parse_string,
}
use eiptnd.Wialon.Session.{handle_message, handle_process_data}
use eiptnd.Wialon.Fields.{consume_lead}
use eiptnd.Wialon.Invariant.{answer_fits, length-name_le}

-- The answer to a report: "1" if it was taken; else "-1" for a position and "0" for a message.
abbrev pub verdict : Command → Bool → Bytes
verdict c true = codes "1"
verdict command_data false = codes "-1"
verdict command_shortdata false = codes "-1"
verdict c false = codes "0"

verdict_short : (c : Command) (b : Bool) → length (verdict c b) ≤ 20
verdict_short c true = omega arith
verdict_short command_login false = omega arith
verdict_short command_data false = omega arith
verdict_short command_ping false = omega arith
verdict_short command_shortdata false = omega arith
verdict_short command_blackbox false = omega arith
verdict_short command_message false = omega arith
verdict_short command_image false = omega arith

unknown-none :
    (L : Library) (w : Bytes)
    → ((d : Command) → w ≢ name d)
    → L.estimates_map.find w (estimates L.estimates_map) ≡ none
unknown-none L w unknown =
    elim (Option-cases (L.estimates_map.find w (estimates L.estimates_map))) [
      | inl e ↦ e
      | inr (e, f) ↦ absurd (unknown e.1 (find-estimates-IsEntry L.estimates_map w e f).0)
    ]

module _ {L : Library} where
  -- While the name of a command stands in `cmd_`, the end of an authentication is answered by one
  -- reply, ends the line, and only a success logs in.
  pub handle_authenticate_lem :
      (is_ok : Bool) (c : Command) (s : Parser L)
      → s.cmd ≡ name c
      → handle_authenticate is_ok s
        ≡ ok (record s {
          state = state_initial;
          authenticated = is_ok || s.authenticated;
          calls = do_write (reply_text s.cmd (if is_ok then codes "1" else codes "01")) ∷ s.calls;
        })
  unfolding handle_authenticate
  handle_authenticate_lem true c s e =
      answer_fits (codes "1") (record s { state = state_initial; authenticated = true })
        (ground (arith, length-name_le c)) (omega arith)
  handle_authenticate_lem false c s e =
      answer_fits (codes "01") (record s { state = state_initial })
        (ground (arith, length-name_le c)) (omega arith)

  -- While the name of the current command stands in `cmd_`, the answer to a report is passed on by
  -- one reply with its verdict, and a stored block of a black box is counted, in 64 bits, and not
  -- answered.
  pub handle_process_data_lem :
      (is_ok : Bool) (c : Command) (s : Parser L)
      → s.current_cmd ≡ some c
      → s.cmd ≡ name c
      → handle_process_data is_ok s
        ≡ ok (
            if is_blackbox c
            then record s { multicommand = (s.multicommand + 1) % 2 ^ 64 }
            else call (do_write (reply_text s.cmd (verdict c is_ok))) s)
  unfolding handle_process_data
  handle_process_data_lem is_ok c s k e =
      let fits =
        answer_fits (verdict c is_ok) s (ground (arith, length-name_le c))
          (verdict_short c is_ok) in
      ground (arith, fits)

  answer_overruns :
      (msg : Bytes) (s : Parser L)
      → 27 ≤ length s.cmd
      → 1 ≤ length msg
      → answer msg s ≡ err buffer_overrun
  unfolding answer
  answer_overruns msg s h k = ground arith

  verdict_overruns :
      (is_ok : Bool) (c : Command) (s : Parser L)
      → s.current_cmd ≡ some c
      → is_blackbox c ≡ false
      → 27 ≤ length s.cmd
      → handle_process_data is_ok s ≡ err buffer_overrun
  unfolding handle_process_data
  verdict_overruns is_ok c s k nb h = ground (
    arith,
    answer_overruns (codes "1") s,
    answer_overruns (codes "0") s,
    answer_overruns (codes "-1") s,
  )

  consume_unknown :
      (lead w : Bytes) (s : Parser L)
      → s.state ≡ state_initial
      → equal crlf lead ≡ false
      → equal crlf w ≡ false
      → ((d : Command) → w ≢ name d)
      → consume_tokens (lead ∷ codes "#" ∷ w ∷ []) s
        ≡ ok (record (new_tree s) {
          is_parser_error = true;
          multicommand = 0;
          cmd = w;
          state = state_skip_to_end;
        })
  unfolding consume_tokens consume_token step select_command equal
  consume_unknown lead w s b o ow unknown =
      rw (consume_lead lead s b o) (rw (ow, unknown-none L w unknown))

  handle_unknown :
      (msg lead w : Bytes) (s : Parser L)
      → s.state ≡ state_initial
      → L.tokens msg ≡ lead ∷ codes "#" ∷ w ∷ []
      → equal crlf lead ≡ false
      → equal crlf w ≡ false
      → ((d : Command) → w ≢ name d)
      → handle_message msg s
        ≡ ok (
            call (do_read_until crlf) (record (new_tree s) {
              is_parser_error = true;
              multicommand = 0;
              cmd = w;
              state = state_initial;
            }))
  unfolding handle_message parse_string consume_token finish_line equal
  handle_unknown msg lead w s b tk o ow unknown = rw (tk, consume_unknown lead w s b o ow unknown)

  -- A message with an unknown command of 27 bytes or more is read when a report of the same
  -- connection is not yet answered: the answer that comes next reads past the reply buffer.
  pub late_answer_overruns :
      (is_ok : Bool) (c : Command) (msg lead w : Bytes) (s : Parser L)
      → s.state ≡ state_initial
      → s.current_cmd ≡ some c
      → is_blackbox c ≡ false
      → L.tokens msg ≡ lead ∷ codes "#" ∷ w ∷ []
      → equal crlf lead ≡ false
      → equal crlf w ≡ false
      → ((d : Command) → w ≢ name d)
      → 27 ≤ length w
      → (handle_message msg s >>= λ t. handle_process_data is_ok t) ≡ err buffer_overrun
  late_answer_overruns is_ok c msg lead w s b k nb tk o ow unknown long =
      rw (handle_unknown msg lead w s b tk o ow unknown) (verdict_overruns is_ok c _ k nb long)
