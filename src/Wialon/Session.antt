-- ===== src/Wialon/Session.antt =====
-- The handlers of wialon_plugin.cpp that the connection and the request router call.
use eiptnd.Prelude.{
  ℕ, zero, suc, ◌+◌, ◌^◌, ◌%◌, [], ◌∷◌, ◌++◌, Bool, true, false, Option, none, some, Bytes, codes,
  if◌then◌else◌, ◌==◌, length,
}
use eiptnd.Boost.Io.{Streambuf, getline}
use eiptnd.Wialon.Protocol.{Command, command_data, command_shortdata, is_blackbox, is_binary_data}
use eiptnd.Wialon.Machine.{
  Library, Parser, Result, ok, err, ◌>>=◌, or_fail, indeterminate_command, bad_iterator,
  out_of_fuel, do_read_until, call, answer,
}
use eiptnd.Wialon.Token.{crlf, consume_token, parse_string}

-- The last byte of a text, if it has one.
abbrev pub last? : Bytes → Option ℕ
last? [] = none
last? (c ∷ []) = some c
last? (c ∷ d ∷ cs) = last? (d ∷ cs)

-- A text without its last byte.
abbrev pub init : Bytes → Bytes
init [] = []
init (c ∷ []) = []
init (c ∷ d ∷ cs) = c ∷ init (d ∷ cs)

-- Whether a rejected message is answered by "-1".
abbrev is_position : Command → Bool
is_position command_data = true
is_position command_shortdata = true
is_position _ = false

-- How the loop of `handle_read` ends: by its early return, or with the text of a message.
pub data Input (Buf : Type 0) : Type 0 where
  nothing : Buf → Input Buf
  message : Bytes → Buf → Input Buf

module _ (S : Streambuf) where
  -- One round of the loop, `next` being the others: it takes a line from the buffer, and then
  -- consumes as many bytes again.
  unfoldable pub read_round :
      (Bytes → S.Buf → Result (Input S.Buf)) → Bytes → S.Buf → Result (Input S.Buf)
  read_round next msg b =
      let (tmp, b') = getline S b in
      let rest = S.consume (length tmp + 1) b' in
      if length (S.input b) == 0
      then ok (nothing b)
      else (or_fail bad_iterator (last? tmp) >>= λ c.
          if c == b'\r'
          then ok (message (msg ++ init tmp) rest)
          else next (msg ++ (tmp ++ (b'\n' ∷ []))) rest)

  -- The loop, with as much fuel as rounds that it may make.
  unfoldable pub read_message : ℕ → Bytes → S.Buf → Result (Input S.Buf)
  read_message zero msg b = err out_of_fuel
  read_message (suc fuel) msg b = read_round (λ m r. read_message fuel m r) msg b

module _ {L : Library} where
  unfoldable pub handle_start : Parser L → Parser L
  handle_start s = call (do_read_until crlf) s

  -- What `handle_read` does with a message.
  unfoldable pub handle_message : Bytes → Parser L → Result (Parser L)
  handle_message msg s = do
    t ← parse_string msg s
    u ← consume_token crlf t
    ok (if is_binary_data u.state then u else call (do_read_until crlf) u)

  abbrev pub handle_input : Input L.buffer.Buf → Parser L → Result (Parser L)
  handle_input (nothing b) s = ok (record s { sbuf = b })
  handle_input (message msg b) s = handle_message msg (record s { sbuf = b })

  -- Each round takes a byte at least, so one round more than there are bytes is enough.
  unfoldable pub handle_read : Parser L → Result (Parser L)
  handle_read s = do
    i ← read_message L.buffer (length (L.buffer.input s.sbuf) + 1) [] s.sbuf
    handle_input i s

  unfoldable pub handle_write : Parser L → Parser L
  handle_write s = s

  -- The answer to `api_->process_data`, in a 64-bit counter.
  unfoldable pub handle_process_data : Bool → Parser L → Result (Parser L)
  handle_process_data is_ok s = do
    c ← or_fail indeterminate_command s.current_cmd
    if is_blackbox c
        then ok (record s { multicommand = (s.multicommand + 1) % 2 ^ 64 })
        else if is_ok
        then answer (codes "1") s
        else if is_position c
        then answer (codes "-1") s
        else answer (codes "0") s
