-- ===== src/Redis/Handlers.antt =====
-- The completion handlers of `redis_connection`.
use eiptnd.Prelude.{
  ℕ, zero, suc, ◌+◌, ◌-◌, ◌%◌, ◌^◌, Bool, true, false, not, ◌||◌, Option, none, some, List, [], ◌∷◌,
  Bytes, codes, equal, length, if◌then◌else◌, ◌==◌, ltb,
}
use eiptnd.Boost.Io.{Streambuf, hits_end, getline}
use eiptnd.Redis.Connection.{
  Library, Connection, Result, ok, err, ◌>>=◌, end_iterator, empty_queue, out_of_range, ErrorCode,
  success, operation_aborted, Endpoint, Callback, no_ping, socket_cancel, op, resolve, connect,
  timeout_no_ping, invoke, write, ping, read, reconnect,
}

abbrev is_aborted : ErrorCode → Bool
is_aborted operation_aborted = true
is_aborted _ = false

-- a - b in a 64-bit `std::size_t`
abbrev pub sub64 : ℕ → ℕ → ℕ
sub64 a b = (a + 2 ^ 64 - b) % 2 ^ 64

abbrev pub last? : Bytes → Option ℕ
last? [] = none
last? (c ∷ []) = some c
last? (c ∷ d ∷ cs) = last? (d ∷ cs)

-- The replies that `handle_read` takes: an integer, or the answer to PING.
abbrev pub is_reply : Bytes → Bool
is_reply [] = false
is_reply (c ∷ cs) = c == b':' || equal (c ∷ cs) (codes "+PONG\r")

-- How the loop of `handle_read` ends: with so many callbacks left and so many bytes, or by the
-- return behind `reconnect`.
pub data LoopEnd (S : Type 0) : Type 0 where
  done : ℕ → ℕ → S → LoopEnd S
  returned : S → LoopEnd S

-- std::getline on one stream over the buffer: once it met the end, it reads nothing and leaves
-- the text as it was.
unfoldable pub stream_getline : (S : Streambuf) → Bool → Bytes → S.Buf → Bytes × Bool × S.Buf
stream_getline S true text b = (text, true, b)
stream_getline S false text b = let (next, rest) = getline S b in (next, hits_end (S.input b), rest)

module _ {L : Library} where
  unfoldable pub handle_resolve : ErrorCode → List Endpoint → Connection L → Result (Connection L)
  handle_resolve success [] s = err end_iterator
  handle_resolve success (e ∷ es) s =
      connect (e ∷ es) s >>= λ t. ok (record t { host = e.host_name; port = e.service_name })
  handle_resolve ec [] s = err end_iterator
  handle_resolve ec (e ∷ es) s = ok (resolve e.host_name e.service_name s)

  unfoldable pub timeout_connect : ErrorCode → List Endpoint → Connection L → Result (Connection L)
  timeout_connect ec es s =
      let t = op socket_cancel s in
      if is_aborted ec then ok s else if s.timeout_connect == 0 then ok t else connect es t

  unfoldable pub timeout_ping : ErrorCode → Connection L → Result (Connection L)
  timeout_ping ec s = if is_aborted ec then ok s else ping no_ping s

  -- `++endpoint_iterator`, and `connect` if that is not the end.
  unfoldable pub next_endpoint : List Endpoint → Connection L → Result (Connection L)
  next_endpoint [] s = err end_iterator
  next_endpoint (e ∷ []) s = ok s
  next_endpoint (e ∷ f ∷ es) s = connect (f ∷ es) s

  unfoldable pub handle_connect : ErrorCode → List Endpoint → Connection L → Result (Connection L)
  handle_connect success es s =
      let t = record (timeout_no_ping true s) { is_connected = true } in
      if length t.out_buf.callbacks == 0 then ok t else write false t
  handle_connect ec es s = next_endpoint es s

  unfoldable pub handle_write : ErrorCode → Connection L → Connection L
  handle_write success s = read s
  handle_write ec s = reconnect s

  -- The callback in front is called with `true`, and taken off the queue.
  unfoldable pub answer_front : List Callback → Connection L → Result (Connection L)
  answer_front [] s = err empty_queue
  answer_front (c ∷ cs) s =
      let t = invoke c true s in
      ok (record t { out_tmp_buf = record { bytes = t.out_tmp_buf.bytes; callbacks = cs } })

  -- A round of the loop behind `getline`, `next` being the others.
  unfoldable pub read_round :
      (ℕ → Connection L → Result (LoopEnd (Connection L)))
      → ℕ
      → ℕ
      → Bytes
      → Connection L
      → Result (LoopEnd (Connection L))
  read_round next i left text s = elim (last? text) [
    | none ↦ err out_of_range
    | some c ↦
        if not (c == b'\r')
        then ok (done (suc i) left s)
        else if not (is_reply text)
        then ok (returned (reconnect s))
        else (answer_front s.out_tmp_buf.callbacks s >>= λ t. next (sub64 left (length text + 1)) t)
  ]

  -- The loop: `i` callbacks wait, `left` bytes are taken to be unread.
  unfoldable pub read_loop : ℕ → ℕ → Bool → Bytes → Connection L → Result (LoopEnd (Connection L))
  read_loop zero left eof text s = ok (done 0 left s)
  read_loop (suc i) left eof text s =
      let (text', eof', b) = stream_getline L.buffer eof text s.in_buf in
      if ltb left 4
      then ok (done (suc i) left s)
      else read_round (λ l t. read_loop i l eof' text' t) i left text' (record s { in_buf = b })

  -- What follows the loop.
  unfoldable pub after_loop : LoopEnd (Connection L) → Result (Connection L)
  after_loop (returned s) = ok s
  after_loop (done i left s) =
      let size = length (L.buffer.input s.in_buf) in
      let t = record s { in_buf = L.buffer.consume (sub64 size left) s.in_buf } in
      if ltb 0 i
      then ok (read t)
      else if length t.out_buf.callbacks == 0
      then ok (record t { busy = false })
      else write true t

  unfoldable pub handle_read : ErrorCode → Connection L → Result (Connection L)
  handle_read success s =
      read_loop (length s.out_tmp_buf.callbacks) (length (L.buffer.input s.in_buf)) false [] s
      >>= after_loop
  handle_read ec s = ok (reconnect s)
