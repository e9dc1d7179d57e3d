-- ===== src/Redis/Invariant/Replies.antt =====
-- The loop of `handle_read`, and the other completion handlers, keep the invariant.
use eiptnd.Prelude.{
  Option-cases, ℕ, zero, suc, ◌+◌, ◌≡◌, refl, Bool, true, false, ◌⊎◌, inl, inr, List, [], ◌∷◌,
  Bytes, length, arith, if◌then◌else◌, ◌==◌,
}
use eiptnd.Redis.Connection.{
  Library, Connection, Result, ok, err, ◌>>=◌, end_iterator, out_of_range, ErrorCode, success,
  operation_aborted, failure, Endpoint, Callback, no_ping, connect, invoke, write, timeout_no_ping,
  read, resolve,
}
use eiptnd.Redis.Handlers.{
  handle_resolve, timeout_connect, timeout_ping, handle_write, read_round, read_loop, after_loop,
  last?, handle_read, LoopEnd, done, returned, answer_front, stream_getline, sub64,
}
use eiptnd.Redis.Invariant.{Inv, Keeps, start_write-Keeps, reconnect-Inv, ping-Keeps}

nil_of_length : (cs : List Callback) → length cs ≡ 0 → cs ≡ []
nil_of_length [] h = refl
nil_of_length (c ∷ cs) h = absurd (omega arith)

module _ {L : Library} where
  -- The state after a reply is taken: the request in front is answered.
  abbrev answered : Callback → List Callback → Connection L → Connection L
  answered c cs s =
      let t = invoke c true s in
      record t { out_tmp_buf = record { bytes = t.out_tmp_buf.bytes; callbacks = cs } }

  answered-Inv :
      (c : Callback) (cs : List Callback) (s : Connection L)
      → Inv s
      → s.busy ≡ true
      → Inv (answered c cs s) × ((answered c cs s).busy ≡ true)
  unfolding invoke timeout_no_ping
  answered-Inv c cs s v b = ground arith

  -- The loop keeps the invariant and the lock, and says how many requests it left unanswered.
  abbrev LoopKeeps : Result (LoopEnd (Connection L)) → Type 0
  LoopKeeps (ok (done i left t)) = Inv t × (t.busy ≡ true) × (length t.out_tmp_buf.callbacks ≡ i)
  LoopKeeps (ok (returned t)) = Inv t
  LoopKeeps (err f) = (f ≡ end_iterator) ⊎ (f ≡ out_of_range)

  answer_front-LoopKeeps :
      (next : ℕ → Connection L → Result (LoopEnd (Connection L))) (i left : ℕ) (cs : List Callback)
      (s : Connection L)
      → Inv s
      → s.busy ≡ true
      → length cs ≡ suc i
      → ((l : ℕ) (t : Connection L)
          → Inv t
          → t.busy ≡ true
          → length t.out_tmp_buf.callbacks ≡ i
          → LoopKeeps (next l t))
      → LoopKeeps (answer_front cs s >>= λ t. next left t)
  unfolding answer_front
  answer_front-LoopKeeps next i left [] s v b l k = absurd (omega arith)
  answer_front-LoopKeeps next i left (c ∷ cs) s v b l k =
      let (w, d) = answered-Inv c cs s v b in k left (answered c cs s) w d (omega arith)

  read_round-LoopKeeps :
      (next : ℕ → Connection L → Result (LoopEnd (Connection L))) (i left : ℕ) (text : Bytes)
      (s : Connection L)
      → Inv s
      → s.busy ≡ true
      → length s.out_tmp_buf.callbacks ≡ suc i
      → ((l : ℕ) (t : Connection L)
          → Inv t
          → t.busy ≡ true
          → length t.out_tmp_buf.callbacks ≡ i
          → LoopKeeps (next l t))
      → LoopKeeps (read_round next i left text s)
  unfolding read_round
  read_round-LoopKeeps next i left text s v b l k = elim (Option-cases (last? text)) [
    | inl e ↦ rw (e, read_round) (inr refl)
    | inr (c, e) ↦
        rw (e, read_round)
          (ground (
            arith,
            reconnect-Inv s v,
            answer_front-LoopKeeps next i (sub64 left (length text + 1)) s.out_tmp_buf.callbacks s v
                b l k,
          ))
  ]

  read_loop-LoopKeeps :
      (i left : ℕ) (eof : Bool) (text : Bytes) (s : Connection L)
      → Inv s
      → s.busy ≡ true
      → length s.out_tmp_buf.callbacks ≡ i
      → LoopKeeps (read_loop i left eof text s)
  unfolding read_loop
  read_loop-LoopKeeps zero left eof text s v b l = (v, b, l)
  read_loop-LoopKeeps (suc i) left eof text s v b l =
      let (text', eof', rest) = stream_getline L.buffer eof text s.in_buf in
      let u : Connection L = record s { in_buf = rest } in
      let w : Inv u = record { quiet = v.quiet; filled = v.filled; awake = v.awake } in
      let round =
        read_round-LoopKeeps (λ k t. read_loop i k eof' text' t) i left text' u w b l
          (λ k t x d m. read_loop-LoopKeeps i k eof' text' t x d m) in
      ground (arith, round)

  all_answered-Keeps :
      (t : Connection L)
      → Inv t
      → t.busy ≡ true
      → t.out_tmp_buf.callbacks ≡ []
      → Keeps
          (if length t.out_buf.callbacks == 0 then ok (record t { busy = false }) else write true t)
  unfolding write
  all_answered-Keeps t v b e = ground (arith, start_write-Keeps (record t { busy = true }) refl e)

  after_loop-Keeps : (e : Result (LoopEnd (Connection L))) → LoopKeeps e → Keeps (e >>= after_loop)
  unfolding after_loop read
  after_loop-Keeps (ok (returned t)) v = v
  after_loop-Keeps (err f) h = h
  after_loop-Keeps (ok (done zero left t)) (v, b, l) =
      all_answered-Keeps
        (record t {
          in_buf = L.buffer.consume (sub64 (length (L.buffer.input t.in_buf)) left) t.in_buf;
        })
        (record { quiet = v.quiet; filled = v.filled; awake = v.awake }) b
        (nil_of_length t.out_tmp_buf.callbacks l)
  after_loop-Keeps (ok (done (suc i) left t)) (v, b, l) = ground arith

  -- While something is on the wire, the end of a read, with any bytes or any error, keeps the
  -- invariant: no assertion fails and no callback is taken from an empty queue. The only faults that
  -- may stop it are the exception of an empty line and an end iterator that is followed.
  pub handle_read-Keeps :
      (ec : ErrorCode) (s : Connection L) → Inv s → s.busy ≡ true → Keeps (handle_read ec s)
  unfolding handle_read
  handle_read-Keeps success s v b = after_loop-Keeps _ (read_loop-LoopKeeps _ _ false [] s v b refl)
  handle_read-Keeps operation_aborted s v b = reconnect-Inv s v
  handle_read-Keeps failure s v b = reconnect-Inv s v

  pub handle_write-Inv : (ec : ErrorCode) (s : Connection L) → Inv s → Inv (handle_write ec s)
  unfolding handle_write read
  handle_write-Inv success s v = record { quiet = v.quiet; filled = v.filled; awake = v.awake }
  handle_write-Inv operation_aborted s v = reconnect-Inv s v
  handle_write-Inv failure s v = reconnect-Inv s v

  pub handle_resolve-Keeps :
      (ec : ErrorCode) (es : List Endpoint) (s : Connection L)
      → Inv s
      → Keeps (handle_resolve ec es s)
  unfolding handle_resolve connect resolve
  handle_resolve-Keeps success [] s v = inl refl
  handle_resolve-Keeps success (e ∷ es) s v = ground arith
  handle_resolve-Keeps operation_aborted [] s v = inl refl
  handle_resolve-Keeps operation_aborted (e ∷ es) s v = ground arith
  handle_resolve-Keeps failure [] s v = inl refl
  handle_resolve-Keeps failure (e ∷ es) s v = ground arith

  pub timeout_connect-Keeps :
      (ec : ErrorCode) (es : List Endpoint) (s : Connection L)
      → Inv s
      → Keeps (timeout_connect ec es s)
  unfolding timeout_connect connect
  timeout_connect-Keeps ec [] s v = ground arith
  timeout_connect-Keeps ec (e ∷ es) s v = ground arith

  pub timeout_ping-Keeps : (ec : ErrorCode) (s : Connection L) → Inv s → Keeps (timeout_ping ec s)
  unfolding timeout_ping
  timeout_ping-Keeps ec s v = ground (arith, ping-Keeps no_ping s v)
