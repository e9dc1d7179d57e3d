-- ===== src/Redis/Events.antt =====
-- The connection as a state machine: what its callers and the event loop may do next, in any order.
use eiptnd.Prelude.{
  ℕ, ap, ◌+◌, ◌^◌, ◌<◌, ◌≡◌, true, List, Bytes, length, arith, if◌then◌else◌, ◌==◌,
}
use mathlib.Core.Path.{subst}
use eiptnd.Redis.Connection.{
  Library, Connection, Result, ok, err, ErrorCode, Endpoint, user, create, publish, resolve,
}
use eiptnd.Redis.Handlers.{
  handle_resolve, timeout_connect, timeout_ping, handle_connect, handle_write, handle_read,
}
use eiptnd.Redis.Callbacks.{
  tally, Tallies, publish-Tallies, handle_resolve-Tallies, handle_connect-Tallies,
  timeout_connect-Tallies, timeout_ping-Tallies, handle_write-tally, resolve-tally, create-tally,
  handle_read-Tallies,
}
use eiptnd.Redis.Invariant.{
  Inv, Keeps, create-Inv, publish-Keeps, handle_connect-Keeps, resolve-Inv,
}
use eiptnd.Redis.Invariant.Replies.{
  handle_resolve-Keeps, timeout_connect-Keeps, timeout_ping-Keeps, handle_read-Keeps,
  handle_write-Inv,
}

module _ {L : Library} where
  -- asio takes from the buffer what it wrote, and puts into the other what it read.
  abbrev pub sent : ℕ → Connection L → Connection L
  sent n s = record s {
    out_tmp_buf = record {
      bytes = L.buffer.consume n s.out_tmp_buf.bytes;
      callbacks = s.out_tmp_buf.callbacks;
    };
  }

  abbrev pub received : Bytes → Connection L → Connection L
  received bs s = record s { in_buf = L.buffer.commit bs s.in_buf }

  -- A write or a read can complete only while one is on the wire.
  pub data Step : Connection L → Connection L → Type 0 where
    starts : (host port : Bytes) {s t : Connection L} → resolve host port s ≡ t → Step s t
    publishes :
        (channel message : Bytes) (k : ℕ) {s t : Connection L}
        → length channel < 2 ^ 32
        → length message < 2 ^ 32
        → publish channel message (user k) s ≡ ok t
        → Step s t
    resolved :
        (ec : ErrorCode) (es : List Endpoint) {s t : Connection L}
        → handle_resolve ec es s ≡ ok t
        → Step s t
    connected :
        (ec : ErrorCode) (es : List Endpoint) {s t : Connection L}
        → handle_connect ec es s ≡ ok t
        → Step s t
    connect_timer :
        (ec : ErrorCode) (es : List Endpoint) {s t : Connection L}
        → timeout_connect ec es s ≡ ok t
        → Step s t
    ping_timer : (ec : ErrorCode) {s t : Connection L} → timeout_ping ec s ≡ ok t → Step s t
    written :
        (ec : ErrorCode) (n : ℕ) {s t : Connection L}
        → s.busy ≡ true
        → handle_write ec (sent n s) ≡ t
        → Step s t
    read :
        (ec : ErrorCode) (bs : Bytes) {s t : Connection L}
        → s.busy ≡ true
        → handle_read ec (received bs s) ≡ ok t
        → Step s t

  pub data Reach (s : Connection L) : Connection L → Type 0 where
    here : Reach s s
    next : {t u : Connection L} → Reach s t → Step t u → Reach s u

  kept : (r : Result (Connection L)) {t : Connection L} → Keeps r → r ≡ ok t → Inv t
  kept (ok u) {t} v e = subst Inv (ground arith) v
  kept (err f) v e = absurd cc

  Step-Inv : {s t : Connection L} → Step s t → Inv s → Inv t
  Step-Inv {s} (starts host port e) v = subst Inv e (resolve-Inv host port s v)
  Step-Inv (publishes ch msg k h l e) v = kept _ (publish-Keeps ch msg (user k) _ h l v) e
  Step-Inv (resolved ec es e) v = kept _ (handle_resolve-Keeps ec es _ v) e
  Step-Inv (connected ec es e) v = kept _ (handle_connect-Keeps ec es _ v) e
  Step-Inv (connect_timer ec es e) v = kept _ (timeout_connect-Keeps ec es _ v) e
  Step-Inv (ping_timer ec e) v = kept _ (timeout_ping-Keeps ec _ v) e
  Step-Inv {s} (written ec n b e) v = subst Inv e (
      handle_write-Inv ec (sent n s)
        (record { quiet = v.quiet; filled = v.filled; awake = v.awake }))
  Step-Inv {s} (read ec bs b e) v =
      kept _
        (handle_read-Keeps ec (received bs s)
          (record { quiet = v.quiet; filled = v.filled; awake = v.awake }) b)
        e

  Reach-Inv : {s t : Connection L} → Reach s t → Inv s → Inv t
  Reach-Inv here v = v
  Reach-Inv (next r st) v = Step-Inv st (Reach-Inv r v)

  -- Every state that a new connection comes to satisfies the invariant.
  pub Reach-create-Inv : (t : Connection L) → Reach (create L) t → Inv t
  Reach-create-Inv t r = Reach-Inv r create-Inv

  -- How often the callback was given to `publish` on the way.
  abbrev pub submitted : ℕ → {s t : Connection L} → Step s t → ℕ
  submitted k (publishes ch msg j h l e) = if j == k then 1 else 0
  submitted k _ = 0

  abbrev pub published : ℕ → {s t : Connection L} → Reach s t → ℕ
  published k here = 0
  published k (next r st) = published k r + submitted k st

  same :
      (k n : ℕ) (r : Result (Connection L)) {t : Connection L}
      → Tallies k n r
      → r ≡ ok t
      → tally k t ≡ n
  same k n (ok u) {t} v e = subst (λ x. tally k x ≡ n) {x = u} {y = t} (ground arith) v
  same k n (err f) v e = absurd cc

  Step-tally : (k : ℕ) {s t : Connection L} (st : Step s t) → tally k t ≡ tally k s + submitted k st
  Step-tally k {s} (starts host port e) = omega (arith, ap (tally k) e, resolve-tally k host port s)
  Step-tally k {s} (publishes ch msg j h l e) =
      omega (arith, same k _ _ (publish-Tallies k ch msg (user j) s) e)
  Step-tally k {s} (resolved ec es e) =
      omega (arith, same k _ _ (handle_resolve-Tallies k ec es s) e)
  Step-tally k {s} (connected ec es e) =
      omega (arith, same k _ _ (handle_connect-Tallies k ec es s) e)
  Step-tally k {s} (connect_timer ec es e) =
      omega (arith, same k _ _ (timeout_connect-Tallies k ec es s) e)
  Step-tally k {s} (ping_timer ec e) = omega (arith, same k _ _ (timeout_ping-Tallies k ec s) e)
  Step-tally k {s} (written ec n b e) =
      omega (arith, ap (tally k) e, handle_write-tally k ec (sent n s))
  Step-tally k {s} (read ec bs b e) =
      omega (arith, same k _ _ (handle_read-Tallies k ec (received bs s)) e)

  -- As long as no handler was stopped by a fault, after any requests with texts of 32-bit lengths
  -- and any completions, in any order, a caller's callback was called, or waits in a queue, as
  -- often in all as it was given to `publish`.
  pub tally-Reach : (k : ℕ) {t : Connection L} (r : Reach (create L) t) → tally k t ≡ published k r
  tally-Reach k here = create-tally L k
  tally-Reach k (next r st) = omega (arith, Step-tally k st, tally-Reach k r)
