-- ===== src/Redis/Cycle.antt =====
-- A request on a connection with nothing to do: from `publish` to the call of its callback.
use eiptnd.Prelude.{
  ℕ, ◌+◌, ◌^◌, ◌<◌, ◌≡◌, refl, ap, ◌∙◌, true, false, [], ◌∷◌, ◌++◌, Bytes, length, length-append,
  arith, ◌==◌, leb, drop,
}
use eiptnd.Boost.Io.{Streambuf}
use eiptnd.Redis.Connection.{
  Library, Connection, ok, success, user, called, async_write, async_read, publish, publish_text,
  op, write, start_write, read,
}
use eiptnd.Redis.Handlers.{handle_write, handle_read}
use eiptnd.Redis.Events.{sent, received}
use eiptnd.Redis.Invariant.{length-publish_text_le, publish_text_pos}
use eiptnd.Redis.Replies.{continue, handle_read-Answered}
use eiptnd.Redis.Replies.Lines.{IsReply, matched, all_matched, stream}

drop_all : (xs : Bytes) → drop (length xs) xs ≡ []
drop_all [] = refl
drop_all (x ∷ xs) = drop_all xs

pub all_consumed : (S : Streambuf) (b : S.Buf) → S.input (S.consume (length (S.input b)) b) ≡ []
all_consumed S b = S.input-consume _ b ∙ drop_all (S.input b)

module _ {L : Library} where
  -- A connected client that waits for nothing; the queues hold the bytes `m` and `n` of requests
  -- that have no callbacks any more, `m` in the one that `publish` appends to.
  pub record Idle (m n : Bytes) (s : Connection L) : Type 0 where
    pub is_connected : s.is_connected ≡ true
    pub busy : s.busy ≡ false
    pub unread : L.buffer.input s.in_buf ≡ []
    pub to_write : L.buffer.input s.out_buf.bytes ≡ m
    pub to_be_written : s.out_buf.callbacks ≡ []
    pub written : L.buffer.input s.out_tmp_buf.bytes ≡ n
    pub waiting : s.out_tmp_buf.callbacks ≡ []

  -- The request `text` of the callback `k` is written, behind the bytes `m`.
  abbrev pub requested : Bytes → Bytes → ℕ → Connection L → Connection L
  requested m text k s = op (async_write (m ++ text)) (record s {
    busy = true;
    out_buf = s.out_tmp_buf;
    out_tmp_buf = record { bytes = L.buffer.commit text s.out_buf.bytes; callbacks = user k ∷ [] };
  })

  pub publish-Idle :
      (channel message : Bytes) (k : ℕ) (m n : Bytes) (s : Connection L)
      → Idle m n s
      → length channel < 2 ^ 32
      → length message < 2 ^ 32
      → publish channel message (user k) s ≡ ok (requested m (publish_text L channel message) k s)
  unfolding publish write start_write
  publish-Idle ch msg k m n s i h l =
      let text = publish_text L ch msg in
      let e = L.buffer.input-commit text s.out_buf.bytes ∙ ap (λ b. b ++ text) i.to_write in
      let fits : leb (length text) (4 + 13 + (5 + 10 + length ch) + (5 + 10 + length msg)) ≡ true =
        ground (arith, length-publish_text_le L ch msg h l) in
      let some_bytes : (length (m ++ text) == 0) ≡ false =
        ground (arith, publish_text_pos L ch msg, length-append m text) in
      rw (i.is_connected, i.busy, i.to_be_written, fits, e, some_bytes) refl

  -- The socket took all bytes, the write completes, and the reply is received.
  abbrev pub after_write : Connection L → Connection L
  after_write s = handle_write success (sent (length (L.buffer.input s.out_tmp_buf.bytes)) s)

  continue_done :
      (t : Connection L) → t.out_buf.callbacks ≡ [] → continue [] t ≡ ok (record t { busy = false })
  continue_done t e = rw e refl

  -- On a connected client that waits for nothing, a request is written at once, behind the bytes
  -- that its queue still holds; when the bytes were sent and a reply has arrived, its callback is
  -- called once, with `true`, nothing else is done, and the client waits for nothing again, the
  -- queue that `publish` appends to being the other one.
  pub publish-handle_read :
      (channel message : Bytes) (k : ℕ) (r m n : Bytes) (s : Connection L)
      → Idle m n s
      → length channel < 2 ^ 32
      → length message < 2 ^ 32
      → IsReply r
      → length r < 2 ^ 32
      → (t u : Connection L) × (publish channel message (user k) s ≡ ok t)
        × (t.ops ≡ async_write (m ++ publish_text L channel message) ∷ s.ops)
        × (handle_read success (received (stream (r ∷ [])) (after_write t)) ≡ ok u)
        × Idle n [] u
        × (u.ops ≡ called k true ∷ async_read ∷ t.ops)
  unfolding handle_write read
  publish-handle_read ch msg k r m n s i h l rep b =
      let t = requested m (publish_text L ch msg) k s in
      let (u, g, v) =
        handle_read-Answered (user k ∷ []) [] (r ∷ []) (received (stream (r ∷ [])) (after_write t))
          (matched (user k) rep all_matched) refl
          (L.buffer.input-commit (stream (r ∷ [])) s.in_buf
            ∙ ap (λ x. x ++ stream (r ∷ [])) i.unread)
          (omega (arith, length-append r (b'\r' ∷ b'\n' ∷ []))) in
      let idle : Idle n [] (record u { busy = false }) = record {
        is_connected = v.is_connected ∙ i.is_connected;
        busy = refl;
        unread = v.unread;
        to_write = ap (λ q. L.buffer.input q.bytes) v.out_buf ∙ i.written;
        to_be_written = ap (λ q. q.callbacks) v.out_buf ∙ i.waiting;
        written = ap L.buffer.input v.sent ∙ all_consumed L.buffer t.out_tmp_buf.bytes;
        waiting = v.callbacks;
      } in
      (
        t,
        record u { busy = false },
        publish-Idle ch msg k m n s i h l,
        refl,
        g ∙ continue_done u (ap (λ q. q.callbacks) v.out_buf ∙ i.waiting),
        idle,
        v.ops,
      )
