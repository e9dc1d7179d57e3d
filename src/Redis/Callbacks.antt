-- ===== src/Redis/Callbacks.antt =====
-- How often a callback is called: each operation and handler keeps, for each caller's callback, the
-- number of its calls and of its places in the queues.
use eiptnd.Prelude.{
  ℕ, zero, suc, ◌+◌, ◌≡◌, refl, ap, ◌∙◌, Bool, true, false, List, [], ◌∷◌, ◌++◌, Bytes, length,
  arith, if◌then◌else◌, ◌==◌, Option-cases, inl, inr,
}
use mathlib.Core.Path.{subst}
use eiptnd.Redis.Connection.{
  Library, Connection, Result, ok, err, ◌>>=◌, ErrorCode, success, operation_aborted, failure,
  Endpoint, Callback, user, no_ping, Op, called, ping_text, create, publish_text, connect, invoke,
  start_write, write, enqueue, publish, ping, drop_all, drop, close, reconnect, timeout_no_ping,
  read, resolve,
}
use eiptnd.Redis.Handlers.{
  handle_resolve, timeout_connect, timeout_ping, next_endpoint, handle_connect, handle_write,
  read_round, read_loop, after_loop, handle_read, LoopEnd, done, returned, answer_front,
  stream_getline, sub64, last?,
}

abbrev pub calls_of : ℕ → List Op → ℕ
calls_of k [] = 0
calls_of k (called j b ∷ os) = (if j == k then 1 else 0) + calls_of k os
calls_of k (_ ∷ os) = calls_of k os

abbrev pub waiting : ℕ → List Callback → ℕ
waiting k [] = 0
waiting k (user j ∷ cs) = (if j == k then 1 else 0) + waiting k cs
waiting k (no_ping ∷ cs) = waiting k cs

waiting-snoc :
    (k : ℕ) (cs : List Callback) (c : Callback)
    → waiting k (cs ++ (c ∷ [])) ≡ waiting k cs + waiting k (c ∷ [])
waiting-snoc k [] c = omega arith
waiting-snoc k (user j ∷ cs) c = omega (arith, waiting-snoc k cs c)
waiting-snoc k (no_ping ∷ cs) c = omega (arith, waiting-snoc k cs c)

waiting-cons :
    (k : ℕ) (c : Callback) (cs : List Callback)
    → waiting k (c ∷ cs) ≡ waiting k (c ∷ []) + waiting k cs
waiting-cons k (user j) cs = omega arith
waiting-cons k no_ping cs = omega arith

module _ {L : Library} where
  -- Calls made, and requests that wait.
  abbrev pub tally : ℕ → Connection L → ℕ
  tally k s = calls_of k s.ops + waiting k s.out_tmp_buf.callbacks + waiting k s.out_buf.callbacks

  abbrev pub Tallies : ℕ → ℕ → Result (Connection L) → Type 0
  Tallies k n (ok t) = tally k t ≡ n
  Tallies k n (err f) = Unit {0}

  invoke-tally :
      (k : ℕ) (c : Callback) (b : Bool) (s : Connection L)
      → (calls_of k (invoke c b s).ops ≡ calls_of k s.ops + waiting k (c ∷ []))
        × ((invoke c b s).out_tmp_buf ≡ s.out_tmp_buf)
        × ((invoke c b s).out_buf ≡ s.out_buf)
  unfolding invoke timeout_no_ping
  invoke-tally k (user j) b s = (omega arith, refl, refl)
  invoke-tally k no_ping true s = (ground arith, ground arith, ground arith)
  invoke-tally k no_ping false s = (omega arith, refl, refl)

  write-Tallies : (k : ℕ) (b : Bool) (s : Connection L) → Tallies k (tally k s) (write b s)
  unfolding write start_write
  write-Tallies k b s = ground arith

  enqueue-Tallies :
      (k : ℕ) (text : Bytes) (c : Callback) (s : Connection L)
      → Tallies k (tally k s + waiting k (c ∷ [])) (write false (enqueue text c s))
  enqueue-Tallies k text c s =
      ground (arith, write-Tallies k false (enqueue text c s), waiting-snoc k s.out_buf.callbacks c)

  pub publish-Tallies :
      (k : ℕ) (channel message : Bytes) (c : Callback) (s : Connection L)
      → Tallies k (tally k s + waiting k (c ∷ [])) (publish channel message c s)
  unfolding publish
  publish-Tallies k ch msg c s =
      ground (arith, invoke-tally k c false s, enqueue-Tallies k (publish_text L ch msg) c s)

  ping-Tallies : (k : ℕ) (s : Connection L) → Tallies k (tally k s) (ping no_ping s)
  unfolding ping
  ping-Tallies k s =
      ground (arith, invoke-tally k no_ping false s, enqueue-Tallies k ping_text no_ping s)

  pub drop_all-tally :
      (k : ℕ) (cs : List Callback) (s : Connection L)
      → (calls_of k (drop_all cs s).ops ≡ calls_of k s.ops + waiting k cs)
        × ((drop_all cs s).out_tmp_buf ≡ s.out_tmp_buf)
        × ((drop_all cs s).out_buf ≡ s.out_buf)
  unfolding drop_all
  drop_all-tally k [] s = (omega arith, refl, refl)
  drop_all-tally k (c ∷ cs) s =
      let (n, t, o) = invoke-tally k c false s in
      let (m, u, p) = drop_all-tally k cs (invoke c false s) in
      (omega (arith, n, m, waiting-cons k c cs), u ∙ t, p ∙ o)

  drop-tally : (k : ℕ) (s : Connection L) → tally k (drop s) ≡ tally k s
  unfolding drop
  drop-tally k s =
      let (n, t, o) = drop_all-tally k s.out_tmp_buf.callbacks s in
      omega (arith, n, ap (λ q. waiting k q.callbacks) o)

  close-tally : (k : ℕ) (s : Connection L) → tally k (close s) ≡ tally k s
  unfolding close
  close-tally k s = ground arith

  reconnect-tally : (k : ℕ) (s : Connection L) → tally k (reconnect s) ≡ tally k s
  unfolding reconnect
  reconnect-tally k s = drop-tally k (close s) ∙ close-tally k s

  abbrev LoopTallies : ℕ → ℕ → Result (LoopEnd (Connection L)) → Type 0
  LoopTallies k n (ok (done i left t)) = tally k t ≡ n
  LoopTallies k n (ok (returned t)) = tally k t ≡ n
  LoopTallies k n (err f) = Unit {0}

  answer_front-LoopTallies :
      (k n i left : ℕ) (next : ℕ → Connection L → Result (LoopEnd (Connection L)))
      (cs : List Callback) (s : Connection L)
      → calls_of k s.ops + waiting k cs + waiting k s.out_buf.callbacks ≡ n
      → ((l : ℕ) (t : Connection L) → tally k t ≡ n → LoopTallies k n (next l t))
      → LoopTallies k n (answer_front cs s >>= λ t. next left t)
  unfolding answer_front
  answer_front-LoopTallies k n i left next [] s h g = tt
  answer_front-LoopTallies k n i left next (c ∷ cs) s h g =
      let (m, t, o) = invoke-tally k c true s in
      g left _ (omega (arith, m, ap (λ q. waiting k q.callbacks) o, waiting-cons k c cs, h))

  read_round-LoopTallies :
      (k i left : ℕ) (next : ℕ → Connection L → Result (LoopEnd (Connection L))) (text : Bytes)
      (s : Connection L)
      → ((l : ℕ) (t : Connection L) → tally k t ≡ tally k s → LoopTallies k (tally k s) (next l t))
      → LoopTallies k (tally k s) (read_round next i left text s)
  unfolding read_round
  read_round-LoopTallies k i left next text s g = elim (Option-cases (last? text)) [
    | inl e ↦ rw (e, read_round) tt
    | inr (c, e) ↦
        rw (e, read_round)
          (ground (
            arith,
            reconnect-tally k s,
            answer_front-LoopTallies k (tally k s) i (sub64 left (length text + 1)) next
                s.out_tmp_buf.callbacks s refl g,
          ))
  ]

  read_loop-LoopTallies :
      (k i left : ℕ) (eof : Bool) (text : Bytes) (s : Connection L)
      → LoopTallies k (tally k s) (read_loop i left eof text s)
  unfolding read_loop
  read_loop-LoopTallies k zero left eof text s = refl
  read_loop-LoopTallies k (suc i) left eof text s =
      let (text', eof', rest) = stream_getline L.buffer eof text s.in_buf in
      let u : Connection L = record s { in_buf = rest } in
      let round =
        read_round-LoopTallies k i left (λ l t. read_loop i l eof' text' t) text' u
          (λ l t e.
            subst (λ n. LoopTallies k n (read_loop i l eof' text' t)) e
              (read_loop-LoopTallies k i l eof' text' t)) in
      ground (arith, round)

  after_loop-Tallies :
      (k n : ℕ) (e : Result (LoopEnd (Connection L)))
      → LoopTallies k n e
      → Tallies k n (e >>= after_loop)
  unfolding after_loop read
  after_loop-Tallies k n (ok (returned t)) h = h
  after_loop-Tallies k n (err f) h = tt
  after_loop-Tallies k n (ok (done i left t)) h =
      let size = length (L.buffer.input t.in_buf) in
      ground (
        arith,
        write-Tallies k true (record t { in_buf = L.buffer.consume (sub64 size left) t.in_buf }),
      )

  pub handle_read-Tallies :
      (k : ℕ) (ec : ErrorCode) (s : Connection L) → Tallies k (tally k s) (handle_read ec s)
  unfolding handle_read
  handle_read-Tallies k success s =
      after_loop-Tallies k (tally k s) _
        (read_loop-LoopTallies k _ (length (L.buffer.input s.in_buf)) false [] s)
  handle_read-Tallies k operation_aborted s = reconnect-tally k s
  handle_read-Tallies k failure s = reconnect-tally k s

  pub handle_write-tally :
      (k : ℕ) (ec : ErrorCode) (s : Connection L) → tally k (handle_write ec s) ≡ tally k s
  unfolding handle_write read
  handle_write-tally k success s = refl
  handle_write-tally k operation_aborted s = reconnect-tally k s
  handle_write-tally k failure s = reconnect-tally k s

  connect-Tallies :
      (k : ℕ) (es : List Endpoint) (s : Connection L) → Tallies k (tally k s) (connect es s)
  unfolding connect
  connect-Tallies k [] s = tt
  connect-Tallies k (e ∷ es) s = refl

  connected-Tallies :
      (k : ℕ) (t : Connection L)
      → let u = record t { is_connected = true } in
        Tallies k (tally k t) (if length u.out_buf.callbacks == 0 then ok u else write false u)
  connected-Tallies k t = ground (arith, write-Tallies k false (record t { is_connected = true }))

  timeout_no_ping-tally : (k : ℕ) (s : Connection L) → tally k (timeout_no_ping true s) ≡ tally k s
  unfolding timeout_no_ping
  timeout_no_ping-tally k s = ground arith

  next_endpoint-Tallies :
      (k : ℕ) (es : List Endpoint) (s : Connection L) → Tallies k (tally k s) (next_endpoint es s)
  unfolding next_endpoint
  next_endpoint-Tallies k [] s = tt
  next_endpoint-Tallies k (e ∷ []) s = refl
  next_endpoint-Tallies k (e ∷ f ∷ es) s = connect-Tallies k (f ∷ es) s

  pub handle_connect-Tallies :
      (k : ℕ) (ec : ErrorCode) (es : List Endpoint) (s : Connection L)
      → Tallies k (tally k s) (handle_connect ec es s)
  unfolding handle_connect
  handle_connect-Tallies k success es s =
      subst (λ n. Tallies k n (handle_connect success es s)) (timeout_no_ping-tally k s)
        (connected-Tallies k (timeout_no_ping true s))
  handle_connect-Tallies k operation_aborted es s = next_endpoint-Tallies k es s
  handle_connect-Tallies k failure es s = next_endpoint-Tallies k es s

  pub handle_resolve-Tallies :
      (k : ℕ) (ec : ErrorCode) (es : List Endpoint) (s : Connection L)
      → Tallies k (tally k s) (handle_resolve ec es s)
  unfolding handle_resolve connect resolve
  handle_resolve-Tallies k success [] s = tt
  handle_resolve-Tallies k success (e ∷ es) s = refl
  handle_resolve-Tallies k operation_aborted [] s = tt
  handle_resolve-Tallies k operation_aborted (e ∷ es) s = refl
  handle_resolve-Tallies k failure [] s = tt
  handle_resolve-Tallies k failure (e ∷ es) s = refl

  pub timeout_connect-Tallies :
      (k : ℕ) (ec : ErrorCode) (es : List Endpoint) (s : Connection L)
      → Tallies k (tally k s) (timeout_connect ec es s)
  unfolding timeout_connect connect
  timeout_connect-Tallies k ec [] s = ground arith
  timeout_connect-Tallies k ec (e ∷ es) s = ground arith

  pub timeout_ping-Tallies :
      (k : ℕ) (ec : ErrorCode) (s : Connection L) → Tallies k (tally k s) (timeout_ping ec s)
  unfolding timeout_ping
  timeout_ping-Tallies k ec s = ground (arith, ping-Tallies k s)

  pub resolve-tally :
      (k : ℕ) (host port : Bytes) (s : Connection L) → tally k (resolve host port s) ≡ tally k s
  unfolding resolve
  resolve-tally k host port s = refl

pub create-tally : (L : Library) (k : ℕ) → tally k (create L) ≡ 0
unfolding create
create-tally L k = omega arith
