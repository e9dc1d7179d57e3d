-- ===== src/Redis/Connection.antt =====
-- The state of `redis_connection` and the operations that touch its queues, its buffers and its
-- mutex: publish, ping, write, read, drop, close and what leads to a new connection. Log records
-- are left out. An operation returns the new state, or the fault that stops it.
use eiptnd.Prelude.{
  ℕ, ◌+◌, ◌^◌, ◌<◌, ◌≤◌, ◌≡◌, some, Bool, true, false, not, ◌&&◌, ◌||◌, List, [], ◌∷◌, ◌++◌, Bytes,
  codes, length, if◌then◌else◌, ◌==◌, leb,
}
use eiptnd.Boost.Io.{Streambuf, read_number}

-- `assertion_failed` is a BOOST_ASSERT; `end_iterator` follows the end of a resolver's results;
-- `empty_queue` takes the front of an empty queue; `out_of_range` is thrown by `at` and not caught.
-- The dispatcher has two more: a tree that JSON cannot show, which is thrown and not caught, and a
-- null pointer in place of the connection.
pub data Fault : Type 0 where
  assertion_failed end_iterator empty_queue out_of_range bad_json null_connection : Fault

pub data Result (A : Type 0) : Type 0 where
  ok : A → Result A
  err : Fault → Result A

infixl 5 ◌>>=◌
abbrev pub ◌>>=◌ : {A B : Type 0} → Result A → (A → Result B) → Result B
ok a >>= f = f a
err e >>= f = err e

-- An error code: none, the one of a cancelled operation, or another.
pub data ErrorCode : Type 0 where
  success operation_aborted failure : ErrorCode

pub record Endpoint : Type 0 where
  pub host_name : Bytes
  pub service_name : Bytes

-- A callback that waits for a reply: one that a caller of `publish` gave, by its number, or the
-- connection's own `timeout_no_ping`.
pub data Callback : Type 0 where
  user : ℕ → Callback
  no_ping : Callback

-- What the connection does to the outside: operations that it starts on its resolver, its socket
-- and its timer, and calls of the callers' callbacks.
pub data Op : Type 0 where
  async_resolve : Bytes → Bytes → Op
  async_connect : List Endpoint → Op
  async_write : Bytes → Op
  async_read : Op
  socket_cancel socket_shutdown socket_close : Op
  timer_cancel : Op
  wait_connect : ℕ → List Endpoint → Op
  wait_ping : ℕ → Op
  called : ℕ → Bool → Op

-- The libraries: stream buffers, and `karma::uint_`, which prints a 32-bit
-- number in decimal.
pub record Library : Type 1 where
  pub buffer : Streambuf
  pub uint : ℕ → Bytes
  pub length-uint_le : (n : ℕ) → n < 2 ^ 32 → length (uint n) ≤ 10
  pub read_number-uint : (n : ℕ) → n < 2 ^ 32 → read_number (uint n) ≡ some n

pub record RequestQueue (L : Library) : Type 0 where
  pub bytes : L.buffer.Buf
  pub callbacks : List Callback

-- `busy` says whether `busy_mutex_` is locked. Each operation below is one step: `io_mutex_` is held in
-- `publish`, `ping` and at the end of a read, but not around what `handle_connect` and `drop` do to
-- the queues, so the steps are those of the program where no other thread publishes meanwhile.
-- `ops` holds what was done to the outside, the latest first.
pub record Connection (L : Library) : Type 0 where
  pub in_buf : L.buffer.Buf
  pub timeout_connect : ℕ
  pub timeout_ping : ℕ
  pub host : Bytes
  pub port : Bytes
  pub is_connected : Bool
  pub is_open : Bool
  pub out_buf : RequestQueue L
  pub out_tmp_buf : RequestQueue L
  pub busy : Bool
  pub ops : List Op

module _ (L : Library) where
  unfoldable pub create : Connection L
  create = record {
    in_buf = L.buffer.empty;
    timeout_connect = 10;
    timeout_ping = 30;
    host = [];
    port = [];
    is_connected = false;
    is_open = false;
    out_buf = record { bytes = L.buffer.empty; callbacks = [] };
    out_tmp_buf = record { bytes = L.buffer.empty; callbacks = [] };
    busy = false;
    ops = [];
  }

  -- The bytes of a request, as `publish` generates them.
  unfoldable pub publish_text : Bytes → Bytes → Bytes
  publish_text channel message =
      codes "*3\r\n$7\r\nPUBLISH\r\n$"
      ++ (L.uint (length channel)
          ++ (codes "\r\n"
              ++ (channel
                  ++ (codes "\r\n$"
                      ++ (L.uint (length message)
                          ++ (codes "\r\n" ++ (message ++ codes "\r\n")))))))

abbrev pub ping_text : Bytes
ping_text = codes "*1\r\n$4\r\nPING\r\n"

module _ {L : Library} where
  abbrev pub op : Op → Connection L → Connection L
  op o s = record s { ops = o ∷ s.ops }

  unfoldable pub set_timeouts : ℕ → ℕ → Connection L → Connection L
  set_timeouts connect ping s = record s { timeout_connect = connect; timeout_ping = ping }

  -- connect(host, port)
  unfoldable pub resolve : Bytes → Bytes → Connection L → Connection L
  resolve host port s = op (async_resolve host port) s

  -- connect(endpoint_iterator); asio opens the socket.
  unfoldable pub connect : List Endpoint → Connection L → Result (Connection L)
  connect [] s = err end_iterator
  connect (e ∷ es) s = ok (
      op (async_connect (e ∷ es))
        (op (wait_connect s.timeout_connect (e ∷ es)) (record s { is_open = true })))

  unfoldable pub timeout_no_ping : Bool → Connection L → Connection L
  timeout_no_ping true s =
      let t = op timer_cancel s in
      if s.timeout_ping == 0 then t else op (wait_ping s.timeout_ping) t
  timeout_no_ping false s = s

  -- A callback is called: a caller's, which only the outside sees, or `timeout_no_ping`.
  unfoldable pub invoke : Callback → Bool → Connection L → Connection L
  unfolding timeout_no_ping
  invoke (user k) is_ok s = op (called k is_ok) s
  invoke no_ping is_ok s = timeout_no_ping is_ok s

  -- The two queues change places, and what was waiting is written.
  unfoldable pub start_write : Connection L → Result (Connection L)
  start_write s =
      let text = L.buffer.input s.out_buf.bytes in
      if length s.out_buf.callbacks == 0 || length text == 0
      then err assertion_failed
      else ok
          (op (async_write text) (record s { out_buf = s.out_tmp_buf; out_tmp_buf = s.out_buf }))

  unfoldable pub write : Bool → Connection L → Result (Connection L)
  write already_locked s =
      if not already_locked && s.busy then ok s else start_write (record s { busy = true })

  abbrev pub enqueue : Bytes → Callback → Connection L → Connection L
  enqueue text callback s = record s {
    out_buf = record {
      bytes = L.buffer.commit text s.out_buf.bytes;
      callbacks = s.out_buf.callbacks ++ (callback ∷ []);
    };
  }

  -- `buf_size` is what `publish` asks of `prepare`; its assertion says that the text fits.
  unfoldable pub publish : Bytes → Bytes → Callback → Connection L → Result (Connection L)
  publish channel message callback s =
      let text = publish_text L channel message in
      let buf_size = 4 + 13 + (5 + 10 + length channel) + (5 + 10 + length message) in
      if not s.is_connected
      then ok (invoke callback false s)
      else if leb (length text) buf_size
      then write false (enqueue text callback s)
      else err assertion_failed

  unfoldable pub ping : Callback → Connection L → Result (Connection L)
  ping callback s =
      if not s.is_connected
      then ok (invoke callback false s)
      else write false (enqueue ping_text callback s)

  unfoldable pub read : Connection L → Connection L
  read s = op async_read s

  unfoldable pub close : Connection L → Connection L
  close s =
      let t = op timer_cancel (record s { is_connected = false }) in
      if s.is_open then op socket_close (op socket_shutdown (record t { is_open = false })) else t

  -- Every callback of the queue is called with `false`, the first one first.
  unfoldable pub drop_all : List Callback → Connection L → Connection L
  drop_all [] s = s
  drop_all (c ∷ cs) s = drop_all cs (invoke c false s)

  unfoldable pub drop : Connection L → Connection L
  drop s =
      let t = drop_all s.out_tmp_buf.callbacks s in
      record t {
        out_tmp_buf = record { bytes = t.out_tmp_buf.bytes; callbacks = [] };
        busy = false;
      }

  unfoldable pub reconnect : Connection L → Connection L
  unfolding drop close resolve
  reconnect s = let t = drop (close s) in resolve t.host t.port t
