-- ===== src/Redis/Pairing/Answers.antt =====
-- The completions of a write and of a read keep each callback paired with its request.
use eiptnd.Redis.Pairing.Requests.{lock, start_write-Paired}
use eiptnd.Prelude.{
  ℕ, ◌^◌, ◌<◌, ◌≡◌, refl, ap, sym, ◌∙◌, true, false, List, [], ◌∷◌, ◌++◌, Bytes, length, arith,
  if◌then◌else◌, ◌==◌, append_assoc, append-nil,
}
use eiptnd.Redis.Connection.{
  Library, Connection, ok, success, Callback, user, no_ping, Op, called, timer_cancel, wait_ping,
  write, read,
}
use eiptnd.Redis.Handlers.{handle_read, handle_write}
use eiptnd.Redis.Events.{received}
use eiptnd.Redis.Cycle.{after_write, all_consumed}
use eiptnd.Redis.Replies.{answered, continue, handle_read-Answered, Answered}
use eiptnd.Redis.Replies.Lines.{stream, Match}
use eiptnd.Redis.Pairing.{
  writing, reading, is_locked, on_replies, bytes_written, confirmed, users, texts, Paired,
}

confirmed-answered :
    (p : ℕ) (cs : List Callback) (os : List Op)
    → confirmed (answered p cs os) ≡ confirmed os ++ users cs
confirmed-answered p [] os = sym (append-nil (confirmed os))
confirmed-answered p (user k ∷ cs) os =
    confirmed-answered p cs (called k true ∷ os) ∙ append_assoc (confirmed os) (k ∷ []) (users cs)
confirmed-answered p (no_ping ∷ cs) os =
    confirmed-answered p cs
      (if p == 0 then timer_cancel ∷ os else wait_ping p ∷ (timer_cancel ∷ os))
    ∙ ap (λ x. x ++ users cs) (ground arith)

bytes_written-answered :
    (p : ℕ) (cs : List Callback) (os : List Op)
    → bytes_written (answered p cs os) ≡ bytes_written os
bytes_written-answered p [] os = refl
bytes_written-answered p (user k ∷ cs) os = bytes_written-answered p cs (called k true ∷ os)
bytes_written-answered p (no_ping ∷ cs) os =
    bytes_written-answered p cs
      (if p == 0 then timer_cancel ∷ os else wait_ping p ∷ (timer_cancel ∷ os))
    ∙ ground arith

-- The callbacks whose requests are on the wire next: those that still wait for their replies, or, if
-- there are none, those of what was published in the meantime.
abbrev pub next_waiting : List Callback → List Callback → List Callback
next_waiting [] later = later
next_waiting (d ∷ ds) later = d ∷ ds

users-append : (cs ds : List Callback) → users (cs ++ ds) ≡ users cs ++ users ds
users-append [] ds = refl
users-append (user k ∷ cs) ds = ap (λ ks. k ∷ ks) (users-append cs ds)
users-append (no_ping ∷ cs) ds = users-append cs ds

module _ (request : ℕ → Bytes × Bytes) where
  module _ {L : Library} where
    pub after_write-Paired :
        (a : List Callback) (s : Connection L)
        → Paired request writing a s
        → Paired request reading a (after_write s)
    unfolding handle_write read
    after_write-Paired a s v = record {
      is_connected = v.is_connected;
      busy = v.busy;
      unread = v.unread;
      resting = λ h. absurd (let e = ap is_locked h in cc);
      to_write = v.to_write;
      to_send = all_consumed L.buffer s.out_tmp_buf.bytes;
      bytes_written = v.bytes_written;
      confirmed = v.confirmed;
    }

    -- The replies to the requests `cs`, which waited first, are taken.
    Answered-Paired :
        (a cs ds : List Callback) (bs : Bytes) (s t : Connection L)
        → Paired request reading a s
        → s.out_tmp_buf.callbacks ≡ cs ++ ds
        → Answered (received bs s) cs ds t
        → Paired request reading (a ++ cs) t
    Answered-Paired a cs ds bs s t v q w = record {
      is_connected = w.is_connected ∙ v.is_connected;
      busy = w.busy ∙ v.busy;
      unread = w.unread;
      resting = λ h. absurd (let e = ap is_locked h in cc);
      to_write =
          ap (λ b. L.buffer.input b.bytes) w.out_buf
          ∙ (v.to_write ∙ sym (ap (λ b. texts request L b.callbacks) w.out_buf));
      to_send = ap L.buffer.input w.sent ∙ v.to_send;
      bytes_written =
          ap bytes_written w.ops
          ∙ (bytes_written-answered s.timeout_ping cs s.ops
              ∙ (v.bytes_written
                  ∙ (ap (λ e. texts request L (a ++ e)) (q ∙ ap (λ e. cs ++ e) (sym w.callbacks))
                      ∙ ap (texts request L) (sym (append_assoc a cs t.out_tmp_buf.callbacks)))));
      confirmed =
          ap confirmed w.ops
          ∙ (confirmed-answered s.timeout_ping cs s.ops
              ∙ (ap (λ ks. ks ++ users cs) v.confirmed ∙ sym (users-append a cs)));
    }

    continue-Paired :
        (a ds later : List Callback) (t : Connection L)
        → Paired request reading a t
        → t.out_tmp_buf.callbacks ≡ ds
        → t.out_buf.callbacks ≡ later
        → (u : Connection L) × (continue ds t ≡ ok u)
          × Paired request (on_replies ds later) a u
          × (u.out_tmp_buf.callbacks ≡ next_waiting ds later)
    unfolding write read
    continue-Paired a (d ∷ ds) later t v e q = (
      read t,
      ground arith,
      record {
        is_connected = v.is_connected;
        busy = v.busy;
        unread = v.unread;
        resting = λ h. absurd (let e = ap is_locked h in cc);
        to_write = v.to_write;
        to_send = v.to_send;
        bytes_written = v.bytes_written;
        confirmed = v.confirmed;
      },
      e,
    )
    continue-Paired a [] (c ∷ cs) t v e q =
        let (u, g, w, p) =
          start_write-Paired request a c cs (record t { busy = true })
            (lock request a reading t refl v) e q in
        let some_callbacks : (length t.out_buf.callbacks == 0) ≡ false =
          ground (arith, ap length q) in
        (u, rw some_callbacks g, w, p)
    continue-Paired a [] [] t v e q = (
      record t { busy = false },
      rw q refl,
      record {
        is_connected = v.is_connected;
        busy = refl;
        unread = v.unread;
        resting = λ _. (q, e);
        to_write = v.to_write;
        to_send = v.to_send;
        bytes_written = v.bytes_written;
        confirmed = v.confirmed;
      },
      e,
    )

    pub handle_read-Paired :
        (a cs ds : List Callback) (rs : List Bytes) (s : Connection L)
        → Paired request reading a s
        → s.out_tmp_buf.callbacks ≡ cs ++ ds
        → Match cs rs
        → length (stream rs) < 2 ^ 64
        → (t : Connection L) × (handle_read success (received (stream rs) s) ≡ ok t)
          × Paired request (on_replies ds s.out_buf.callbacks) (a ++ cs) t
          × (t.out_tmp_buf.callbacks ≡ next_waiting ds s.out_buf.callbacks)
    handle_read-Paired a cs ds rs s v q m b =
        let r : Connection L = received (stream rs) s in
        let (t, g, w) =
          handle_read-Answered cs ds rs r m q
            (L.buffer.input-commit (stream rs) s.in_buf ∙ ap (λ x. x ++ stream rs) v.unread) b in
        let (u, h, x, p) =
          continue-Paired (a ++ cs) ds s.out_buf.callbacks t
            (Answered-Paired a cs ds (stream rs) s t v q w) w.callbacks
            (ap (λ q. q.callbacks) w.out_buf) in
        (u, g ∙ h, x, p)
