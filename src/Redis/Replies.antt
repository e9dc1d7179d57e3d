-- ===== src/Redis/Replies.antt =====
-- What `handle_read` does when whole replies have arrived.
pub mod Lines
use eiptnd.Prelude.{
  ℕ, zero, suc, ◌+◌, ◌^◌, ◌<◌, ◌≤◌, ◌≡◌, refl, ap, sym, ◌∙◌, true, false, some, List, [], ◌∷◌, ◌++◌,
  Bytes, length, length-append, arith, if◌then◌else◌, ◌==◌, ltb, drop, append_assoc, drop-add,
  drop-append, drop_nil,
}
use eiptnd.Boost.Io.{Streambuf, getline, hits_end, line}
use eiptnd.Redis.Connection.{
  Library, Connection, Result, ok, ◌>>=◌, success, Callback, user, no_ping, Op, called,
  timer_cancel, wait_ping, invoke, timeout_no_ping, write, read,
}
use eiptnd.Redis.Handlers.{
  read_round, read_loop, after_loop, handle_read, LoopEnd, done, answer_front, stream_getline,
  sub64, last?, is_reply,
}
use eiptnd.Redis.Replies.Lines.{
  IsReply, reply, stream, Match, all_matched, matched, drop-line, last?-snoc, getline-reply,
  input-rest,
}

-- What the callbacks do when each is called with `true`, the first one first.
abbrev pub answered : ℕ → List Callback → List Op → List Op
answered ping [] os = os
answered ping (user k ∷ cs) os = answered ping cs (called k true ∷ os)
answered ping (no_ping ∷ cs) os =
    answered ping cs (if ping == 0 then timer_cancel ∷ os else wait_ping ping ∷ (timer_cancel ∷ os))

module _ {L : Library} where
  -- `t` is `s` after the callbacks `cs` were called with `true`: `ds` wait on, and nothing is unread.
  pub record Answered (s : Connection L) (cs ds : List Callback) (t : Connection L) : Type 0 where
    pub callbacks : t.out_tmp_buf.callbacks ≡ ds
    pub unread : L.buffer.input t.in_buf ≡ []
    pub out_buf : t.out_buf ≡ s.out_buf
    pub sent : t.out_tmp_buf.bytes ≡ s.out_tmp_buf.bytes
    pub is_connected : t.is_connected ≡ s.is_connected
    pub busy : t.busy ≡ s.busy
    pub timeout_ping : t.timeout_ping ≡ s.timeout_ping
    pub ops : t.ops ≡ answered s.timeout_ping cs s.ops

  -- The callback in front was called with `true` and taken off the queue.
  abbrev called_front : Callback → List Callback → Connection L → Connection L
  called_front c cs s =
      let u = invoke c true s in
      record u { out_tmp_buf = record { bytes = u.out_tmp_buf.bytes; callbacks = cs } }

  read_round-reply :
      (next : ℕ → Connection L → Result (LoopEnd (Connection L))) (i left : ℕ) (c : Callback)
      (cs : List Callback) (r : Bytes) (s : Connection L)
      → s.out_tmp_buf.callbacks ≡ c ∷ cs
      → last? r ≡ some b'\r'
      → is_reply r ≡ true
      → read_round next i left r s ≡ next (sub64 left (length r + 1)) (called_front c cs s)
  unfolding answer_front read_round
  read_round-reply next i left c cs r s q l p = rw (l, read_round, p, q) refl

  read_loop-round :
      (i : ℕ) (c : Callback) (cs : List Callback) (r rest text : Bytes) (s : Connection L)
      → s.out_tmp_buf.callbacks ≡ c ∷ cs
      → L.buffer.input s.in_buf ≡ r ++ (b'\n' ∷ rest)
      → hits_end r ≡ true
      → last? r ≡ some b'\r'
      → is_reply r ≡ true
      → 3 ≤ length r
      → length r + 1 + length rest < 2 ^ 64
      → read_loop (suc i) (length r + 1 + length rest) false text s
        ≡ read_loop i
            (length rest)
            false
            r
            (called_front c cs (record s { in_buf = L.buffer.consume (length r + 1) s.in_buf }))
  unfolding read_loop
  read_loop-round i c cs r rest text s q e h l p n b =
      let long : ltb (length r + 1 + length rest) 4 ≡ false = ground arith in
      let left : sub64 (length r + 1 + length rest) (length r + 1) ≡ length rest = omega arith in
      let u : Connection L = record s { in_buf = L.buffer.consume (length r + 1) s.in_buf } in
      let next = λ (l' : ℕ) (t : Connection L). read_loop i l' false r t in
      rw (getline-reply L.buffer text r rest s.in_buf e h, long)
        (read_round-reply next i (length r + 1 + length rest) c cs r u q l p
          ∙ ap (λ n. read_loop i n false r (called_front c cs u)) left)

  called_front-Answered :
      (c : Callback) (cs ds : List Callback) (b : L.buffer.Buf) (s t : Connection L)
      → Answered (called_front c (cs ++ ds) (record s { in_buf = b })) cs ds t
      → Answered s (c ∷ cs) ds t
  unfolding invoke timeout_no_ping
  called_front-Answered (user k) cs ds b s t v = record {
    callbacks = v.callbacks;
    unread = v.unread;
    out_buf = v.out_buf;
    sent = v.sent;
    is_connected = v.is_connected;
    busy = v.busy;
    timeout_ping = v.timeout_ping;
    ops = v.ops;
  }
  called_front-Answered no_ping cs ds b s t v = ground arith

  invoke-in_buf : (c : Callback) (s : Connection L) → (invoke c true s).in_buf ≡ s.in_buf
  unfolding invoke timeout_no_ping
  invoke-in_buf c s = ground arith

  read_loop_end :
      (n : ℕ) (text : Bytes) (s : Connection L) → read_loop n 0 false text s ≡ ok (done n 0 s)
  unfolding read_loop
  read_loop_end zero text s = refl
  read_loop_end (suc n) text s = refl

  -- The loop takes the replies that have arrived, and leaves the other callbacks.
  read_loop-Answered :
      (cs ds : List Callback) (rs : List Bytes) (text : Bytes) (s : Connection L)
      → Match cs rs
      → s.out_tmp_buf.callbacks ≡ cs ++ ds
      → L.buffer.input s.in_buf ≡ stream rs
      → length (stream rs) < 2 ^ 64
      → (t : Connection L) × (read_loop (length (cs ++ ds)) (length (stream rs)) false text s
          ≡ ok (done (length ds) 0 t))
        × Answered s cs ds t
  read_loop-Answered [] ds [] text s all_matched q e b = (
    s,
    read_loop_end (length ds) text s,
    record {
      callbacks = q;
      unread = e;
      out_buf = refl;
      sent = refl;
      is_connected = refl;
      busy = refl;
      timeout_ping = refl;
      ops = refl;
    },
  )
  read_loop-Answered (c ∷ cs) ds (r ∷ rs) text s (matched _ (reply _ p h n) m) q e b =
      let text' = r ++ (b'\r' ∷ []) in
      let buf = L.buffer.consume (length text' + 1) s.in_buf in
      let e' : L.buffer.input s.in_buf ≡ text' ++ (b'\n' ∷ stream rs) =
        e ∙ sym (append_assoc r (b'\r' ∷ []) (b'\n' ∷ stream rs)) in
      let size : length (stream (r ∷ rs)) ≡ length text' + 1 + length (stream rs) =
        omega (arith, length-append r (b'\r' ∷ b'\n' ∷ stream rs), length-append r (b'\r' ∷ [])) in
      let u : Connection L = called_front c (cs ++ ds) (record s { in_buf = buf }) in
      let length-text' = length-append r (b'\r' ∷ []) in
      let first =
        read_loop-round (length (cs ++ ds)) c (cs ++ ds) text' (stream rs) text s q e' h
          (last?-snoc r b'\r') p (omega (arith, n, length-text')) (omega (arith, size, b)) in
      let rest =
        ap L.buffer.input (invoke-in_buf c (record s { in_buf = buf }))
        ∙ input-rest L.buffer text' (stream rs) s.in_buf e' in
      let (t, g, v) = read_loop-Answered cs ds rs text' u m refl rest (omega (arith, size, b)) in
      (
        t,
        ap (λ k. read_loop (suc (length (cs ++ ds))) k false text s) size ∙ (first ∙ g),
        called_front-Answered c cs ds buf s t v,
      )
  read_loop-Answered [] ds (r ∷ rs) text s m q e b = elim m [ ]
  read_loop-Answered (c ∷ cs) ds [] text s m q e b = elim m [ ]

  -- How `handle_read` goes on when it has read all there was: while callbacks wait, it reads on;
  -- else it writes what was published in the meantime, or unlocks the mutex.
  abbrev pub continue : List Callback → Connection L → Result (Connection L)
  continue ds t =
      if ltb 0 (length ds)
      then ok (read t)
      else if length t.out_buf.callbacks == 0
      then ok (record t { busy = false })
      else write true t

  -- When the buffer holds whole replies, one for each of the requests that wait first, and fewer
  -- than 2 ^ 64 bytes, `handle_read` calls their callbacks with `true`, in order, leaves nothing in
  -- the buffer and the other callbacks as they were, and goes on: it reads while callbacks wait,
  -- and else writes what was published in the meantime or unlocks the mutex.
  pub handle_read-Answered :
      (cs ds : List Callback) (rs : List Bytes) (s : Connection L)
      → Match cs rs
      → s.out_tmp_buf.callbacks ≡ cs ++ ds
      → L.buffer.input s.in_buf ≡ stream rs
      → length (stream rs) < 2 ^ 64
      → (t : Connection L) × (handle_read success s ≡ continue ds t) × Answered s cs ds t
  unfolding handle_read after_loop
  handle_read-Answered cs ds rs s m q e b =
      let (t, g, v) = read_loop-Answered cs ds rs [] s m q e b in
      let u : Connection L = record t {
        in_buf = L.buffer.consume (sub64 (length (L.buffer.input t.in_buf)) 0) t.in_buf;
      } in
      (
        u,
        ap (λ n. read_loop n (length (L.buffer.input s.in_buf)) false [] s >>= after_loop)
              (ap length q)
            ∙ (ap (λ n. read_loop (length (cs ++ ds)) n false [] s >>= after_loop) (ap length e)
                ∙ ap (λ r. r >>= after_loop) g),
        record {
          callbacks = v.callbacks;
          unread = L.buffer.input-consume _ t.in_buf ∙ (ap (drop _) v.unread ∙ drop_nil _);
          out_buf = v.out_buf;
          sent = v.sent;
          is_connected = v.is_connected;
          busy = v.busy;
          timeout_ping = v.timeout_ping;
          ops = v.ops;
        },
      )
