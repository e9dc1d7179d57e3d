-- ===== src/Redis/Invariant.antt =====
-- What holds of the connection between two handlers, and that no handler breaks it.
pub mod Replies
use eiptnd.Prelude.{
  Option-cases, ℕ, zero, suc, ◌+◌, ◌^◌, ◌<◌, ◌≤◌, ◌≡◌, ◌≢◌, refl, ap, sym, ◌∙◌, Bool, true, false,
  not, ◌&&◌, ◌⊎◌, inl, inr, List, [], ◌∷◌, ◌++◌, Bytes, codes, length, length-append, arith,
  if◌then◌else◌, ◌==◌, Bool-cases,
}
use eiptnd.Boost.Io.{Streambuf}
use eiptnd.Redis.Connection.{
  Library, Connection, Result, ok, err, ◌>>=◌, Fault, end_iterator, out_of_range, ErrorCode,
  success, operation_aborted, failure, Endpoint, Callback, user, no_ping, create, publish_text,
  ping_text, connect, invoke, start_write, write, enqueue, publish, ping, drop_all, drop, close,
  reconnect, timeout_no_ping, read, resolve, set_timeouts,
}
use eiptnd.Redis.Handlers.{
  handle_resolve, timeout_connect, timeout_ping, next_endpoint, handle_connect, handle_write,
  read_round, read_loop, after_loop, last?, handle_read, LoopEnd, done, returned, answer_front,
  stream_getline, sub64,
}

snoc_ne_nil : (cs : List Callback) (c : Callback) → cs ++ (c ∷ []) ≢ []
snoc_ne_nil [] c = λ e. cc
snoc_ne_nil (x ∷ cs) c = λ e. cc

pub publish_text_pos : (L : Library) (ch msg : Bytes) → 0 < length (publish_text L ch msg)
unfolding publish_text
publish_text_pos L ch msg = omega arith

-- For texts of 32-bit lengths the bytes of a request are no more than `publish` asks for.
pub length-publish_text_le :
    (L : Library) (channel message : Bytes)
    → length channel < 2 ^ 32
    → length message < 2 ^ 32
    → length (publish_text L channel message)
      ≤ 4 + 13 + (5 + 10 + length channel) + (5 + 10 + length message)
unfolding publish_text
length-publish_text_le L ch msg h k =
    simp length-append
      (omega (arith, L.length-uint_le (length ch) h, L.length-uint_le (length msg) k))

module _ {L : Library} where
  -- While nothing is on the wire, no callback is on its way; a queue with callbacks has bytes to
  -- write; and a connected client with requests that wait has something on the wire.
  pub record Inv (s : Connection L) : Type 0 where
    pub quiet : s.busy ≡ false → s.out_tmp_buf.callbacks ≡ []
    pub filled : s.out_buf.callbacks ≢ [] → 0 < length (L.buffer.input s.out_buf.bytes)
    pub awake : s.is_connected ≡ true → s.busy ≡ false → s.out_buf.callbacks ≡ []

  -- No assertion fails and no queue is taken from when it is empty.
  abbrev pub Keeps : Result (Connection L) → Type 0
  Keeps (ok t) = Inv t
  Keeps (err f) = (f ≡ end_iterator) ⊎ (f ≡ out_of_range)

  pub create-Inv : Inv (create L)
  unfolding create
  create-Inv = record { quiet = λ _. refl; filled = λ n. absurd (n refl); awake = λ _ _. refl }

  -- A callback changes nothing that the invariant reads.
  pub invoke-Inv : (c : Callback) (b : Bool) (s : Connection L) → Inv s → Inv (invoke c b s)
  unfolding invoke timeout_no_ping
  invoke-Inv c b s v = ground arith

  -- A write keeps the invariant where the requests on the wire are all answered, and at least one
  -- request waits.
  pub start_write-Keeps :
      (s : Connection L)
      → s.busy ≡ true
      → s.out_tmp_buf.callbacks ≡ []
      → s.out_buf.callbacks ≢ []
      → 0 < length (L.buffer.input s.out_buf.bytes)
      → Keeps (start_write s)
  unfolding start_write
  start_write-Keeps s b t o f = ground arith

  write-Keeps :
      (s : Connection L)
      → (s.busy ≡ false → s.out_tmp_buf.callbacks ≡ [])
      → s.out_buf.callbacks ≢ []
      → 0 < length (L.buffer.input s.out_buf.bytes)
      → Keeps (write false s)
  unfolding write
  write-Keeps s q o f = ground (arith, start_write-Keeps (record s { busy = true }) refl)

  enqueued_length :
      (text : Bytes) (s : Connection L)
      → length text + length (L.buffer.input s.out_buf.bytes)
        ≡ length (L.buffer.input (L.buffer.commit text s.out_buf.bytes))
  enqueued_length text s = omega (
    arith,
    ap length (L.buffer.input-commit text s.out_buf.bytes),
    length-append (L.buffer.input s.out_buf.bytes) text,
  )

  enqueue-Keeps :
      (text : Bytes) (c : Callback) (s : Connection L)
      → 0 < length text
      → Inv s
      → Keeps (write false (enqueue text c s))
  enqueue-Keeps text c s h v =
      write-Keeps (enqueue text c s) v.quiet (snoc_ne_nil s.out_buf.callbacks c)
        (omega (arith, enqueued_length text s))

  pub ping-Keeps : (c : Callback) (s : Connection L) → Inv s → Keeps (ping c s)
  unfolding ping
  ping-Keeps c s v =
      ground (arith, invoke-Inv c false s v, enqueue-Keeps ping_text c s (omega arith) v)

  pub connect-Inv : (es : List Endpoint) (s : Connection L) → Inv s → Keeps (connect es s)
  unfolding connect
  connect-Inv [] s v = inl refl
  connect-Inv (e ∷ es) s v = ground arith

  drop_all-Inv : (cs : List Callback) (s : Connection L) → Inv s → Inv (drop_all cs s)
  unfolding drop_all
  drop_all-Inv [] s v = v
  drop_all-Inv (c ∷ cs) s v = drop_all-Inv cs (invoke c false s) (invoke-Inv c false s v)

  invoke-is_connected :
      (c : Callback) (s : Connection L) → (invoke c false s).is_connected ≡ s.is_connected
  unfolding invoke
  invoke-is_connected c s = ground arith

  drop_all-is_connected :
      (cs : List Callback) (s : Connection L) → (drop_all cs s).is_connected ≡ s.is_connected
  unfolding drop_all
  drop_all-is_connected [] s = refl
  drop_all-is_connected (c ∷ cs) s =
      drop_all-is_connected cs (invoke c false s) ∙ invoke-is_connected c s

  close-Inv : (s : Connection L) → Inv s → Inv (close s)
  unfolding close
  close-Inv s v = ground arith

  close-is_connected : (s : Connection L) → (close s).is_connected ≡ false
  unfolding close
  close-is_connected s = ground arith

  drop-Inv : (s : Connection L) → s.is_connected ≡ false → Inv s → Inv (drop s)
  unfolding drop
  drop-Inv s n v =
      let w = drop_all-Inv s.out_tmp_buf.callbacks s v in
      record {
        quiet = λ _. refl;
        filled = w.filled;
        awake = λ c _. absurd (ground (arith, drop_all-is_connected s.out_tmp_buf.callbacks s));
      }

  pub reconnect-Inv : (s : Connection L) → Inv s → Inv (reconnect s)
  unfolding reconnect
  reconnect-Inv s v =
      let w = drop-Inv (close s) (close-is_connected s) (close-Inv s v) in
      record { quiet = w.quiet; filled = w.filled; awake = w.awake }

  -- For texts of 32-bit lengths the request has no more bytes than `publish` asks of its buffer, so
  -- its assertion holds: a connected client puts the request and its callback at the end of the
  -- queue and writes, and another calls the callback with `false`.
  pub publish_lem :
      (channel message : Bytes) (c : Callback) (s : Connection L)
      → length channel < 2 ^ 32
      → length message < 2 ^ 32
      → publish channel message c s ≡ (
          if s.is_connected
          then write false (enqueue (publish_text L channel message) c s)
          else ok (invoke c false s))
  unfolding publish
  publish_lem ch msg c s h k = ground (arith, length-publish_text_le L ch msg h k)

  -- For texts of 32-bit lengths and from a state that satisfies the invariant, publishing keeps
  -- the invariant, and no assertion of `publish` or `write` fails.
  pub publish-Keeps :
      (channel message : Bytes) (c : Callback) (s : Connection L)
      → length channel < 2 ^ 32
      → length message < 2 ^ 32
      → Inv s
      → Keeps (publish channel message c s)
  unfolding publish
  publish-Keeps ch msg c s h k v = ground (
    arith,
    length-publish_text_le L ch msg h k,
    invoke-Inv c false s v,
    enqueue-Keeps (publish_text L ch msg) c s (publish_text_pos L ch msg) v,
  )

  connected-Keeps :
      (t : Connection L)
      → Inv t
      → let u = record t { is_connected = true } in
        Keeps (if length u.out_buf.callbacks == 0 then ok u else write false u)
  connected-Keeps t v = ground (arith, write-Keeps (record t { is_connected = true }) v.quiet)

  next_endpoint-Keeps : (es : List Endpoint) (s : Connection L) → Inv s → Keeps (next_endpoint es s)
  unfolding next_endpoint
  next_endpoint-Keeps [] s v = inl refl
  next_endpoint-Keeps (e ∷ []) s v = v
  next_endpoint-Keeps (e ∷ f ∷ es) s v = connect-Inv (f ∷ es) s v

  pub handle_connect-Keeps :
      (ec : ErrorCode) (es : List Endpoint) (s : Connection L)
      → Inv s
      → Keeps (handle_connect ec es s)
  unfolding handle_connect invoke
  handle_connect-Keeps success es s v =
      connected-Keeps (timeout_no_ping true s) (invoke-Inv no_ping true s v)
  handle_connect-Keeps operation_aborted es s v = next_endpoint-Keeps es s v
  handle_connect-Keeps failure es s v = next_endpoint-Keeps es s v

  pub resolve-Inv : (host port : Bytes) (s : Connection L) → Inv s → Inv (resolve host port s)
  unfolding resolve
  resolve-Inv host port s v = record { quiet = v.quiet; filled = v.filled; awake = v.awake }
