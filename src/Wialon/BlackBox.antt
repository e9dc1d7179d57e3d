-- ===== src/Wialon/BlackBox.antt =====
-- Messages of several blocks (COMMAND_BLACKBOX).
use eiptnd.Prelude.{
  suc, ◌≡◌, refl, ◌∙◌, true, false, List, [], ◌∷◌, Bytes, arith, equal, inr, some, codes, length,
}
use eiptnd.Wialon.Protocol.{
  state_initial, state_body, state_bar, state_skip_to_bar_or_end, command_blackbox,
}
use eiptnd.Wialon.Machine.{
  Library, Parser, ok, process_data, do_write, do_read_until, reply_text, store_data, commit,
  commit_command, call,
}
use eiptnd.Wialon.Token.{crlf, step, body_token, consume_token, consume_tokens, finish_line}
use eiptnd.Wialon.Session.{handle_message}
use eiptnd.Wialon.Invariant.{answer_fits}
use eiptnd.Wialon.Fields.{IsOrdinary, AreOrdinary, header, consume_token-body, parameters, put_all}
use eiptnd.Wialon.Dialogue.{at_end, message_lem}

module _ {L : Library} where
  bar_token :
      (s : Parser L)
      → s.state ≡ state_bar
      → consume_token (codes "|") s
        ≡ ok (call (process_data s.tree_at s.tree) (record s { state = state_body }))
  unfolding consume_token step store_data equal
  bar_token s b = simp b

  first_lost :
      (tok : Bytes) (s : Parser L)
      → s.state ≡ state_body
      → s.current_cmd ≡ some command_blackbox
      → s.estimate ≡ 0
      → IsOrdinary command_blackbox tok
      → consume_token tok s ≡ ok (record s { state = state_bar })
  unfolding body_token
  first_lost tok s b k e o = consume_token-body command_blackbox tok s b k o ∙ ground arith

  second_lost :
      (tok : Bytes) (s : Parser L)
      → s.state ≡ state_bar
      → IsOrdinary command_blackbox tok
      → consume_token tok s
        ≡ ok (
            call
              (process_data s.tree_at s.tree)
              (record s { state = state_skip_to_bar_or_end; is_parser_error = true }))
  unfolding consume_token step store_data
  second_lost tok s b o = rw o.0 (simp b (rw o.1))

  rest_lost :
      (toks : List Bytes) (s : Parser L)
      → s.state ≡ state_skip_to_bar_or_end
      → AreOrdinary command_blackbox toks
      → consume_tokens toks s ≡ ok s
  unfolding consume_tokens consume_token step
  rest_lost [] s b o = refl
  rest_lost (tok ∷ toks) s b o = rw o.0.0 (simp b (rw o.0.1 (rest_lost toks s b o.1)))

  -- Behind a complete block of a black box the next one is lost: a bar and then two tokens or
  -- more, none of them a bar or an end of line, leave the tree as it was, hand the same tree to
  -- the dispatchers twice more, and note an error.
  pub next_block_lost :
      (t u : Bytes) (toks : List Bytes) (s : Parser L)
      → s.state ≡ state_bar
      → s.current_cmd ≡ some command_blackbox
      → s.estimate ≡ 0
      → AreOrdinary command_blackbox (t ∷ u ∷ toks)
      → consume_tokens (codes "|" ∷ t ∷ u ∷ toks) s
        ≡ ok (record s {
          state = state_skip_to_bar_or_end;
          is_parser_error = true;
          calls = process_data s.tree_at s.tree ∷ process_data s.tree_at s.tree ∷ s.calls;
        })
  unfolding consume_tokens
  next_block_lost t u toks s b k e o = rw (bar_token s b) (
      rw
        (first_lost t (call (process_data s.tree_at s.tree) (record s { state = state_body })) refl
          k e o.0)
        (rw
          (second_lost u
            (record s { state = state_bar; calls = process_data s.tree_at s.tree ∷ s.calls }) refl
            o.1.0)
          (rest_lost toks _ refl o.1.1)))

  one_block_end :
      (toks : List Bytes) (s : Parser L)
      → finish_line state_bar (at_end command_blackbox toks s)
        ≡ ok (
            call (do_write (reply_text (codes "B") (L.numeral.to_string 0))) (
              call
                (process_data
                  (suc s.tree_at)
                  (put_all L.tree (parameters command_blackbox) toks L.tree.empty))
                (at_end command_blackbox toks s)))
  unfolding finish_line commit_command commit store_data
  one_block_end toks s =
      let t : Parser L =
        call
          (process_data (suc s.tree_at)
            (put_all L.tree (parameters command_blackbox) toks L.tree.empty))
          (at_end command_blackbox toks s) in
      ground (
        arith,
        answer_fits (L.numeral.to_string 0) t (omega arith)
            (L.numeral.length-to_string_le 0 (omega arith)),
      )

  -- A black box of one block of 16 tokens, of a user who is logged in, read at the start of a
  -- line: its tree goes to the dispatchers once, and the answer, which counts the blocks whose
  -- storing was reported, says 0.
  pub one_block_message :
      (msg lead : Bytes) (toks : List Bytes) (s : Parser L)
      → s.state ≡ state_initial
      → s.authenticated ≡ true
      → L.tokens msg ≡ header lead command_blackbox toks
      → length toks ≡ 16
      → equal crlf lead ≡ false
      → AreOrdinary command_blackbox toks
      → handle_message msg s
        ≡ ok (record (at_end command_blackbox toks s) {
          state = state_initial;
          calls =
              do_read_until crlf
              ∷ do_write (reply_text (codes "B") (L.numeral.to_string 0))
              ∷ process_data
                  (suc s.tree_at)
                  (put_all L.tree (parameters command_blackbox) toks L.tree.empty)
              ∷ s.calls;
        })
  one_block_message msg lead toks s b a tk l o ord =
      message_lem msg lead command_blackbox toks s _ b tk o (inr a) (λ e. ground arith) l ord
        (one_block_end toks s)
