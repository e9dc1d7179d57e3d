-- ===== src/Redis/Pairing/Requests.antt =====
-- A request that is published, or a ping, is paired with its callback, whatever is under way.
use eiptnd.Prelude.{
  ℕ, ◌^◌, ◌<◌, ◌≡◌, refl, ap, sym, ◌∙◌, true, false, List, [], ◌∷◌, ◌++◌, Bytes, length,
  length-append, arith, ◌==◌, append_assoc, append-nil,
}
use eiptnd.Redis.Connection.{
  Library, Connection, ok, success, Callback, user, no_ping, async_write, publish, publish_text,
  ping_text, ping, enqueue, write, start_write, op,
}
use eiptnd.Redis.Handlers.{timeout_ping}
use eiptnd.Redis.Invariant.{length-publish_text_le, publish_text_pos}
use eiptnd.Redis.Pairing.{
  Phase, idle, writing, reading, is_locked, on_request, still, text_of, texts, Paired,
}

module _ (request : ℕ → Bytes × Bytes) where
  pub texts-append :
      (L : Library) (cs ds : List Callback)
      → texts request L (cs ++ ds) ≡ texts request L cs ++ texts request L ds
  texts-append L [] ds = refl
  texts-append L (c ∷ cs) ds =
      ap (λ t. text_of request L c ++ t) (texts-append L cs ds)
      ∙ sym (append_assoc (text_of request L c) (texts request L cs) (texts request L ds))

  text_of_pos : (L : Library) (c : Callback) → 0 < length (text_of request L c)
  text_of_pos L (user k) = publish_text_pos L (request k).0 (request k).1
  text_of_pos L no_ping = omega arith

  module _ {L : Library} where
    enqueue-Paired :
        (p : Phase) (a : List Callback) (c : Callback) (s : Connection L)
        → is_locked p ≡ true
        → Paired request p a s
        → Paired request p a (enqueue (text_of request L c) c s)
    enqueue-Paired p a c s l v = record {
      is_connected = v.is_connected;
      busy = v.busy;
      unread = v.unread;
      resting = λ h. absurd (let e = ap is_locked h in cc);
      to_write =
          L.buffer.input-commit (text_of request L c) s.out_buf.bytes
          ∙ (ap (λ b. b ++ text_of request L c) v.to_write
              ∙ (ap (λ b. texts request L s.out_buf.callbacks ++ b)
                    (sym (append-nil (text_of request L c)))
                  ∙ sym (texts-append L s.out_buf.callbacks (c ∷ []))));
      to_send = v.to_send;
      bytes_written = v.bytes_written;
      confirmed = v.confirmed;
    }

    -- The mutex is locked, if it was not.
    pub lock :
        (a : List Callback) (p : Phase) (s : Connection L)
        → still p (texts request L s.out_tmp_buf.callbacks) ≡ []
        → Paired request p a s
        → Paired request reading a (record s { busy = true })
    lock a p s h v = record {
      is_connected = v.is_connected;
      busy = refl;
      unread = v.unread;
      resting = λ h. absurd (let e = ap is_locked h in cc);
      to_write = v.to_write;
      to_send = v.to_send ∙ h;
      bytes_written = v.bytes_written;
      confirmed = v.confirmed;
    }

    -- With the mutex locked and nothing on the wire, what waits is written.
    pub start_write-Paired :
        (a : List Callback) (c : Callback) (cs : List Callback) (s : Connection L)
        → Paired request reading a s
        → s.out_tmp_buf.callbacks ≡ []
        → s.out_buf.callbacks ≡ c ∷ cs
        → (t : Connection L) × (start_write s ≡ ok t)
          × Paired request writing a t
          × (t.out_tmp_buf.callbacks ≡ c ∷ cs)
    unfolding start_write
    start_write-Paired a c cs s v e q =
        let text = L.buffer.input s.out_buf.bytes in
        let t : Connection L =
          op (async_write text) (record s { out_buf = s.out_tmp_buf; out_tmp_buf = s.out_buf }) in
        let some_callbacks : (length s.out_buf.callbacks == 0) ≡ false =
          ground (arith, ap length q) in
        let front : text ≡ text_of request L c ++ texts request L cs =
          v.to_write ∙ ap (texts request L) q in
        let some_bytes : (length text == 0) ≡ false = ground (
          arith,
          text_of_pos L c,
          ap length front,
          length-append (text_of request L c) (texts request L cs),
        ) in
        (
          t,
          rw (some_callbacks, some_bytes) refl,
          record {
            is_connected = v.is_connected;
            busy = v.busy;
            unread = v.unread;
            resting = λ h. absurd (let e = ap is_locked h in cc);
            to_write = v.to_send ∙ sym (ap (texts request L) e);
            to_send = v.to_write;
            bytes_written =
                ap (λ b. b ++ text)
                  (v.bytes_written
                    ∙ ap (λ ds. texts request L (a ++ ds)) e
                    ∙ ap (texts request L) (append-nil a))
                ∙ (ap (λ b. texts request L a ++ b) v.to_write
                    ∙ sym (texts-append L a s.out_buf.callbacks));
            confirmed = v.confirmed;
          },
          q,
        )

    write-unlocked :
        (s : Connection L) → s.busy ≡ false → write false s ≡ start_write (record s { busy = true })
    unfolding write
    write-unlocked s e = ground arith

    request-Paired :
        (p : Phase) (a : List Callback) (c : Callback) (s : Connection L)
        → Paired request p a s
        → (t : Connection L) × (write false (enqueue (text_of request L c) c s) ≡ ok t)
          × Paired request (on_request p) a t
    unfolding write
    request-Paired idle a c s v =
        let locked : Connection L = record s { busy = true } in
        let w = lock a idle s refl v in
        let (t, e, u, _) =
          start_write-Paired a c [] (enqueue (text_of request L c) c locked)
            (enqueue-Paired reading a c locked refl w) (v.resting refl).1
            (ap (λ cs. cs ++ (c ∷ [])) (v.resting refl).0) in
        (t, write-unlocked (enqueue (text_of request L c) c s) v.busy ∙ e, u)
    request-Paired writing a c s v =
        let locked : s.busy ≡ true = v.busy in
        (enqueue (text_of request L c) c s, rw locked refl, enqueue-Paired writing a c s refl v)
    request-Paired reading a c s v =
        let locked : s.busy ≡ true = v.busy in
        (enqueue (text_of request L c) c s, rw locked refl, enqueue-Paired reading a c s refl v)

    publish-enqueue :
        (ch msg : Bytes) (c : Callback) (s : Connection L)
        → s.is_connected ≡ true
        → length ch < 2 ^ 32
        → length msg < 2 ^ 32
        → publish ch msg c s ≡ write false (enqueue (publish_text L ch msg) c s)
    unfolding publish
    publish-enqueue ch msg c s e h l = ground (arith, length-publish_text_le L ch msg h l)

    ping-enqueue :
        (s : Connection L)
        → s.is_connected ≡ true
        → timeout_ping success s ≡ write false (enqueue ping_text no_ping s)
    unfolding timeout_ping ping
    ping-enqueue s e = ground arith

    pub publish-Paired :
        (p : Phase) (a : List Callback) (k : ℕ) (s : Connection L)
        → length (request k).0 < 2 ^ 32
        → length (request k).1 < 2 ^ 32
        → Paired request p a s
        → (t : Connection L) × (publish (request k).0 (request k).1 (user k) s ≡ ok t)
          × Paired request (on_request p) a t
    publish-Paired p a k s h l v =
        let (t, e, u) = request-Paired p a (user k) s v in
        (t, publish-enqueue (request k).0 (request k).1 (user k) s v.is_connected h l ∙ e, u)

    pub timeout_ping-Paired :
        (p : Phase) (a : List Callback) (s : Connection L)
        → Paired request p a s
        → (t : Connection L) × (timeout_ping success s ≡ ok t) × Paired request (on_request p) a t
    timeout_ping-Paired p a s v =
        let (t, e, u) = request-Paired p a no_ping s v in (t, ping-enqueue s v.is_connected ∙ e, u)
