-- ===== src/Redis/Occupied.antt =====
-- While the mutex is locked, some callback waits for its reply.
use Prim.{tt, Unit}
use eiptnd.Prelude.{
  ℕ, zero, suc, ◌≡◌, ◌<◌, refl, sym, Bool, true, false, List, [], ◌∷◌, Bytes, length, arith,
  if◌then◌else◌, ◌==◌, Option-cases, inl, inr, ◌+◌,
}
use mathlib.Core.Path.{subst}
use eiptnd.Redis.Connection.{
  Library, Connection, Result, ok, err, ◌>>=◌, ErrorCode, success, operation_aborted, failure,
  Endpoint, Callback, user, no_ping, create, connect, invoke, start_write, write, enqueue, publish,
  ping, reconnect, timeout_no_ping, read, resolve, publish_text, ping_text,
}
use eiptnd.Redis.Handlers.{
  handle_resolve, timeout_connect, timeout_ping, next_endpoint, handle_connect, handle_write,
  read_round, read_loop, after_loop, last?, handle_read, LoopEnd, done, returned, answer_front,
  stream_getline, sub64,
}
use eiptnd.Redis.Failure.{reconnect-failed}
use eiptnd.Redis.Invariant.{Inv}
use eiptnd.Redis.Events.{
  sent, received, Step, starts, publishes, resolved, connected, connect_timer, ping_timer, written,
  Reach, here, next, Reach-create-Inv,
}

module _ {L : Library} where
  -- While the mutex is locked, some callback waits for its reply.
  abbrev pub IsOccupied : Connection L → Type 0
  IsOccupied s = s.busy ≡ true → 0 < length s.out_tmp_buf.callbacks

  abbrev pub Occupies : Result (Connection L) → Type 0
  Occupies (ok t) = IsOccupied t
  Occupies (err f) = Unit {0}

  start_write-Occupies : (s : Connection L) → Occupies (start_write s)
  unfolding start_write
  start_write-Occupies s = ground arith

  write-Occupies : (b : Bool) (s : Connection L) → IsOccupied s → Occupies (write b s)
  unfolding write
  write-Occupies b s o = ground (arith, start_write-Occupies (record s { busy = true }))

  reconnect-IsOccupied : (s : Connection L) → IsOccupied (reconnect s)
  reconnect-IsOccupied s = subst IsOccupied (sym (reconnect-failed s)) (λ e. absurd cc)

  invoke-IsOccupied :
      (c : Callback) (b : Bool) (s : Connection L) → IsOccupied s → IsOccupied (invoke c b s)
  unfolding invoke timeout_no_ping
  invoke-IsOccupied c b s o = ground arith

  publish-Occupies :
      (ch msg : Bytes) (c : Callback) (s : Connection L)
      → IsOccupied s
      → Occupies (publish ch msg c s)
  unfolding publish
  publish-Occupies ch msg c s o = ground (
    arith,
    invoke-IsOccupied c false s o,
    write-Occupies false (enqueue (publish_text L ch msg) c s) o,
  )

  ping-Occupies : (c : Callback) (s : Connection L) → IsOccupied s → Occupies (ping c s)
  unfolding ping
  ping-Occupies c s o =
      ground (arith, invoke-IsOccupied c false s o, write-Occupies false (enqueue ping_text c s) o)

  connect-Occupies :
      (es : List Endpoint) (s : Connection L) → IsOccupied s → Occupies (connect es s)
  unfolding connect
  connect-Occupies [] s o = tt
  connect-Occupies (e ∷ es) s o = o

  handle_connect-Occupies :
      (ec : ErrorCode) (es : List Endpoint) (s : Connection L)
      → IsOccupied s
      → Occupies (handle_connect ec es s)
  unfolding handle_connect next_endpoint timeout_no_ping invoke
  handle_connect-Occupies success es s o =
      let p = invoke-IsOccupied no_ping true s o in
      let t : Connection L = record (timeout_no_ping true s) { is_connected = true } in
      tested (length t.out_buf.callbacks == 0) t p
    where
      tested :
          (b : Bool) (t : Connection L)
          → IsOccupied t
          → Occupies (if b then ok t else write false t)
      tested true t p = p
      tested false t p = write-Occupies false t p
  handle_connect-Occupies ec [] s o = tt
  handle_connect-Occupies ec (e ∷ []) s o = o
  handle_connect-Occupies ec (e ∷ f ∷ es) s o = connect-Occupies (f ∷ es) s o

  handle_resolve-Occupies :
      (ec : ErrorCode) (es : List Endpoint) (s : Connection L)
      → IsOccupied s
      → Occupies (handle_resolve ec es s)
  unfolding handle_resolve connect resolve
  handle_resolve-Occupies ec [] s o = ground arith
  handle_resolve-Occupies success (e ∷ es) s o = o
  handle_resolve-Occupies ec (e ∷ es) s o = o

  timeout_connect-Occupies :
      (ec : ErrorCode) (es : List Endpoint) (s : Connection L)
      → IsOccupied s
      → Occupies (timeout_connect ec es s)
  unfolding timeout_connect connect
  timeout_connect-Occupies ec [] s o = ground arith
  timeout_connect-Occupies ec (e ∷ es) s o = ground arith

  timeout_ping-Occupies :
      (ec : ErrorCode) (s : Connection L) → IsOccupied s → Occupies (timeout_ping ec s)
  unfolding timeout_ping
  timeout_ping-Occupies ec s o = ground (arith, ping-Occupies no_ping s o)

  handle_write-IsOccupied :
      (ec : ErrorCode) (s : Connection L) → IsOccupied s → IsOccupied (handle_write ec s)
  unfolding handle_write read
  handle_write-IsOccupied success s o = o
  handle_write-IsOccupied operation_aborted s o = reconnect-IsOccupied s
  handle_write-IsOccupied failure s o = reconnect-IsOccupied s

  -- The loop says how many callbacks wait.
  abbrev Counts : Result (LoopEnd (Connection L)) → Type 0
  Counts (ok (done i left t)) = length t.out_tmp_buf.callbacks ≡ i
  Counts (ok (returned t)) = IsOccupied t
  Counts (err f) = Unit {0}

  answer_front-Counts :
      (rounds : Connection L → Result (LoopEnd (Connection L))) (i : ℕ) (cs : List Callback)
      (s : Connection L)
      → length cs ≡ suc i
      → ((t : Connection L) → length t.out_tmp_buf.callbacks ≡ i → Counts (rounds t))
      → Counts (answer_front cs s >>= rounds)
  unfolding answer_front
  answer_front-Counts rounds i [] s l k = tt
  answer_front-Counts rounds i (c ∷ cs) s l k = k _ (omega (arith, l))

  read_round-Counts :
      (rounds : ℕ → Connection L → Result (LoopEnd (Connection L))) (i left : ℕ) (text : Bytes)
      (s : Connection L)
      → length s.out_tmp_buf.callbacks ≡ suc i
      → ((l : ℕ) (t : Connection L) → length t.out_tmp_buf.callbacks ≡ i → Counts (rounds l t))
      → Counts (read_round rounds i left text s)
  unfolding read_round
  read_round-Counts rounds i left text s l k = elim (Option-cases (last? text)) [
    | inl e ↦ rw (e, read_round) tt
    | inr (c, e) ↦
        rw (e, read_round)
          (ground (
            arith,
            reconnect-IsOccupied s,
            answer_front-Counts (rounds (sub64 left (length text + 1))) i s.out_tmp_buf.callbacks s
                l (k (sub64 left (length text + 1))),
          ))
  ]

  read_loop-Counts :
      (i left : ℕ) (eof : Bool) (text : Bytes) (s : Connection L)
      → length s.out_tmp_buf.callbacks ≡ i
      → Counts (read_loop i left eof text s)
  unfolding read_loop
  read_loop-Counts zero left eof text s l = l
  read_loop-Counts (suc i) left eof text s l =
      let (text', eof', rest) = stream_getline L.buffer eof text s.in_buf in
      let round =
        read_round-Counts (λ k t. read_loop i k eof' text' t) i left text'
          (record s { in_buf = rest }) l (λ k t m. read_loop-Counts i k eof' text' t m) in
      ground (arith, round)

  after_loop-Occupies :
      (e : Result (LoopEnd (Connection L))) → Counts e → Occupies (e >>= after_loop)
  unfolding after_loop read write
  after_loop-Occupies (ok (returned t)) o = o
  after_loop-Occupies (err f) o = tt
  after_loop-Occupies (ok (done zero left t)) l = last_one (record t {
    in_buf = L.buffer.consume (sub64 (length (L.buffer.input t.in_buf)) left) t.in_buf;
  })
    where
      last_one :
          (t : Connection L)
          → Occupies (
              if length t.out_buf.callbacks == 0
              then ok (record t { busy = false })
              else write true t)
      last_one t = ground (arith, start_write-Occupies (record t { busy = true }))
  after_loop-Occupies (ok (done (suc i) left t)) l = ground arith

  handle_read-Occupies : (ec : ErrorCode) (s : Connection L) → Occupies (handle_read ec s)
  unfolding handle_read
  handle_read-Occupies success s = after_loop-Occupies _ (read_loop-Counts _ _ false [] s refl)
  handle_read-Occupies operation_aborted s = reconnect-IsOccupied s
  handle_read-Occupies failure s = reconnect-IsOccupied s

  occupied : (r : Result (Connection L)) {t : Connection L} → Occupies r → r ≡ ok t → IsOccupied t
  occupied r o e = subst Occupies e o

  Step-IsOccupied : {s t : Connection L} → Step s t → IsOccupied s → IsOccupied t
  unfolding resolve
  Step-IsOccupied {s} (starts host port e) o = subst IsOccupied e o
  Step-IsOccupied (publishes ch msg k h l e) o = occupied _ (publish-Occupies ch msg (user k) _ o) e
  Step-IsOccupied (resolved ec es e) o = occupied _ (handle_resolve-Occupies ec es _ o) e
  Step-IsOccupied (connected ec es e) o = occupied _ (handle_connect-Occupies ec es _ o) e
  Step-IsOccupied (connect_timer ec es e) o = occupied _ (timeout_connect-Occupies ec es _ o) e
  Step-IsOccupied (ping_timer ec e) o = occupied _ (timeout_ping-Occupies ec _ o) e
  Step-IsOccupied {s} (written ec n b e) o =
      subst IsOccupied e (handle_write-IsOccupied ec (sent n s) o)
  Step-IsOccupied {s} (Step.read ec bs b e) o =
      occupied _ (handle_read-Occupies ec (received bs s)) e

  Reach-IsOccupied : {t : Connection L} → Reach (create L) t → IsOccupied t
  unfolding create
  Reach-IsOccupied here = λ e. absurd cc
  Reach-IsOccupied (next r st) = Step-IsOccupied st (Reach-IsOccupied r)

  -- In every state that a new connection comes to, by any requests with texts of 32-bit lengths
  -- and any completions, in any order and with no handler stopped by a fault: the mutex is locked
  -- exactly while some callback waits for its reply; a queue with requests has bytes to write; and
  -- in a connected client, requests wait to be written only while some callback waits for its
  -- reply.
  pub Reach-create-IsOccupied : (t : Connection L) → Reach (create L) t → Inv t × IsOccupied t
  Reach-create-IsOccupied t r = (Reach-create-Inv t r, Reach-IsOccupied r)
