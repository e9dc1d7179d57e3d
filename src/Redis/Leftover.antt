-- ===== src/Redis/Leftover.antt =====
-- What becomes of the bytes of a request whose write has failed.
use eiptnd.Prelude.{arith, ℕ, ◌^◌, ◌<◌, ◌≡◌, refl, ap, ◌∙◌, [], ◌∷◌, ◌++◌, Bytes, length, drop}
use eiptnd.Redis.Connection.{
  Library, Connection, ok, success, failure, user, async_write, publish, publish_text, close,
  reconnect, resolve,
}
use eiptnd.Redis.Handlers.{handle_write, handle_read}
use eiptnd.Redis.Events.{sent, received}
use eiptnd.Redis.Callbacks.{drop_all-tally}
use eiptnd.Redis.Replies.Lines.{IsReply, stream}
use eiptnd.Redis.Cycle.{Idle, after_write, publish-handle_read, publish-Idle, requested}

module _ {L : Library} where
  close-out_tmp_buf : (s : Connection L) → (close s).out_tmp_buf ≡ s.out_tmp_buf
  unfolding close
  close-out_tmp_buf s = ground arith

  -- When a write fails after `n` bytes, the requests on the wire have no callback any more, and
  -- their other bytes stay in the queue.
  pub handle_write-failure :
      (n : ℕ) (s : Connection L)
      → ((handle_write failure (sent n s)).out_tmp_buf.callbacks ≡ [])
        × (L.buffer.input (handle_write failure (sent n s)).out_tmp_buf.bytes
            ≡ drop n (L.buffer.input s.out_tmp_buf.bytes))
  unfolding handle_write reconnect close resolve
  handle_write-failure n s =
      let t = close (sent n s) in
      let (called, kept, waiting) = drop_all-tally 0 t.out_tmp_buf.callbacks t in
      (
        refl,
        ap (λ q. L.buffer.input q.bytes) (kept ∙ close-out_tmp_buf (sent n s))
            ∙ L.buffer.input-consume n s.out_tmp_buf.bytes,
      )

  -- When a client is connected again, and a queue holds the bytes `n` of requests that were given
  -- up, they are sent with the second request: a first request is written and answered, and then
  -- what is written for the second one, with the one callback, is `n` and its own bytes. The texts
  -- and the reply are below 2 ^ 32 bytes.
  pub leftover_sent :
      (channel first second : Bytes) (j k : ℕ) (r n : Bytes) (s : Connection L)
      → Idle [] n s
      → length channel < 2 ^ 32
      → length first < 2 ^ 32
      → length second < 2 ^ 32
      → IsReply r
      → length r < 2 ^ 32
      → (t u v : Connection L) × (publish channel first (user j) s ≡ ok t)
        × (handle_read success (received (stream (r ∷ [])) (after_write t)) ≡ ok u)
        × (publish channel second (user k) u ≡ ok v)
        × (v.out_tmp_buf.callbacks ≡ user k ∷ [])
        × (v.ops ≡ async_write (n ++ publish_text L channel second) ∷ u.ops)
  leftover_sent ch a b j k r n s i h la lb rep m =
      let (t, u, first, out, read, idle, ops) = publish-handle_read ch a j r [] n s i h la rep m in
      let second = publish-Idle ch b k n [] u idle h lb in
      (t, u, requested n (publish_text L ch b) k u, first, read, second, refl, refl)
