-- ===== src/Redis/Pairing/Served.antt =====
-- Each command that the server reads is that of the callback which its reply calls.
use eiptnd.Prelude.{
  ℕ, zero, suc, ◌^◌, ◌<◌, ◌≡◌, refl, ap, sym, ◌∙◌, Option, some, List, [], ◌∷◌, ◌++◌, Bytes, length,
  map,
}
use mathlib.Core.Path.{subst}
use eiptnd.Redis.Connection.{Library, Connection, Result, ok, success, Callback, user, no_ping}
use eiptnd.Redis.Handlers.{handle_read}
use eiptnd.Redis.Events.{received}
use eiptnd.Redis.Replies.Lines.{stream, Match}
use eiptnd.Redis.Wire.{◌>>=?◌, read_command, read_command-publish_text, read_command-ping_text}
use eiptnd.Redis.Cycle.{Idle}
use eiptnd.Redis.Pairing.{
  idle, reading, is_locked, on_replies, bytes_written, confirmed, users, command, text_of, texts,
  Online, Step, publishes, ping_timer, written, replied, Run, here, next, Paired,
}
use eiptnd.Redis.Pairing.Requests.{publish-Paired, timeout_ping-Paired}
use eiptnd.Redis.Pairing.Answers.{next_waiting, after_write-Paired, handle_read-Paired}

-- So many commands, one behind another, and the bytes behind them.
abbrev pub read_commands : ℕ → Bytes → Option (List (List Bytes) × Bytes)
read_commands zero cs = some ([], cs)
read_commands (suc n) cs = read_command cs >>=? λ (c, rest).
    read_commands n rest >>=? λ (commands, rest'). some (c ∷ commands, rest')

ok_inj : {S : Type 0} {t u : S} → ok t ≡ ok u → t ≡ u
ok_inj e = cc

-- A result that was computed has what was shown of it.
found :
    {S : Type 0} {P : S → Type 0} {r : Result S} {t : S}
    → (u : S) × (r ≡ ok u) × P u
    → r ≡ ok t
    → P t
found {P = P} {t = t} (u, e, p) f = subst P {x = u} {y = t} (ok_inj (sym e ∙ f)) p

module _ (request : ℕ → Bytes × Bytes) where
  module _
      (fits : (k : ℕ) → (length (request k).0 < 2 ^ 32) × (length (request k).1 < 2 ^ 32)) where
    read_command-text_of :
        (L : Library) (c : Callback) (rest : Bytes)
        → read_command (text_of request L c ++ rest) ≡ some (command request c, rest)
    read_command-text_of L (user k) rest =
        read_command-publish_text L (request k).0 (request k).1 rest (fits k).0 (fits k).1
    read_command-text_of L no_ping rest = read_command-ping_text rest

    read_commands-texts :
        (L : Library) (cs : List Callback)
        → read_commands (length cs) (texts request L cs) ≡ some (map (command request) cs, [])
    read_commands-texts L [] = refl
    read_commands-texts L (c ∷ cs) =
        rw (read_command-text_of L c (texts request L cs), read_commands-texts L cs) refl

    module _ {L : Library} where
      Step-Paired :
          {o p : Online L}
          → Step request o p
          → Paired request o.phase o.answered o.client
          → Paired request p.phase p.answered p.client
      Step-Paired (publishes k o t e) v =
          found (publish-Paired request o.phase o.answered k o.client (fits k).0 (fits k).1 v) e
      Step-Paired (ping_timer o t e) v =
          found (timeout_ping-Paired request o.phase o.answered o.client v) e
      Step-Paired (written o h) v =
          after_write-Paired request o.answered o.client
            (subst (λ p. Paired request p o.answered o.client) h v)
      Step-Paired (replied cs ds rs o t h q m b e) v =
          let (u, f, w, _) =
            handle_read-Paired request o.answered cs ds rs o.client
              (subst (λ p. Paired request p o.answered o.client) h v) q m b in
          found {P = Paired request (on_replies ds o.client.out_buf.callbacks) (o.answered ++ cs)}
            (u, f, w) e

      Run-Paired :
          {o p : Online L}
          → Run request o p
          → Paired request o.phase o.answered o.client
          → Paired request p.phase p.answered p.client
      Run-Paired here v = v
      Run-Paired (next r st) v = Step-Paired st (Run-Paired r v)

      Idle-Paired :
          (s : Connection L)
          → Idle [] [] s
          → bytes_written s.ops ≡ []
          → confirmed s.ops ≡ []
          → Paired request idle [] s
      Idle-Paired s i w c = record {
        is_connected = i.is_connected;
        busy = i.busy;
        unread = i.unread;
        resting = λ _. (i.to_be_written, i.waiting);
        to_write = i.to_write ∙ sym (ap (texts request L) i.to_be_written);
        to_send = i.written;
        bytes_written = w ∙ sym (ap (texts request L) i.waiting);
        confirmed = c;
      }

      -- From a connected client that has written nothing and waits for nothing, with any requests
      -- with texts of 32-bit lengths and any pings, in any order, as long as every write completes
      -- with all its bytes and the server sends whole replies, one for each request: a server that
      -- reads all bytes that were given to writes so far reads one command for each callback that was
      -- answered and for each that waits, the command of that callback's own request, in that order,
      -- with no bytes left over; and the callers' callbacks among those answered were called with
      -- `true`, once each and in that order.
      pub Run-served :
          (s : Connection L) (o : Online L)
          → Idle [] [] s
          → bytes_written s.ops ≡ []
          → confirmed s.ops ≡ []
          → Run request (record { phase = idle; answered = []; client = s }) o
          → (read_commands
                (length (o.answered ++ o.client.out_tmp_buf.callbacks))
                (bytes_written o.client.ops)
              ≡ some (map (command request) (o.answered ++ o.client.out_tmp_buf.callbacks), []))
            × (confirmed o.client.ops ≡ users o.answered)
      Run-served s o i w c r =
          let v = Run-Paired r (Idle-Paired s i w c) in
          let cs = o.answered ++ o.client.out_tmp_buf.callbacks in
          (ap (read_commands (length cs)) v.bytes_written ∙ read_commands-texts L cs, v.confirmed)

      -- In every state of such a run in which the connection reads, when whole replies of less than
      -- 2 ^ 64 bytes in all arrive, one for each of the callbacks that wait first, these are taken:
      -- the callers' callbacks among them have now been called with `true` too, in order, and all
      -- that was written are the requests of the callbacks that were answered and of those that
      -- wait now; these are the others that waited for their replies, or, if there are none, all
      -- that was published in the meantime, which so is written now. The mutex is locked exactly if
      -- one of them waits.
      pub Run-serves :
          (s : Connection L) (o : Online L) (cs ds : List Callback) (rs : List Bytes)
          → Idle [] [] s
          → bytes_written s.ops ≡ []
          → confirmed s.ops ≡ []
          → Run request (record { phase = idle; answered = []; client = s }) o
          → o.phase ≡ reading
          → o.client.out_tmp_buf.callbacks ≡ cs ++ ds
          → Match cs rs
          → length (stream rs) < 2 ^ 64
          → (t : Connection L) × (handle_read success (received (stream rs) o.client) ≡ ok t)
            × (confirmed t.ops ≡ users (o.answered ++ cs))
            × (bytes_written t.ops
                ≡ texts request L ((o.answered ++ cs) ++ t.out_tmp_buf.callbacks))
            × (t.out_tmp_buf.callbacks ≡ next_waiting ds o.client.out_buf.callbacks)
            × (t.busy ≡ is_locked (on_replies ds o.client.out_buf.callbacks))
      Run-serves s o cs ds rs i w c r h q m b =
          let v = Run-Paired r (Idle-Paired s i w c) in
          let (t, e, u, p) =
            handle_read-Paired request o.answered cs ds rs o.client
              (subst (λ p. Paired request p o.answered o.client) h v) q m b in
          (t, e, u.confirmed, u.bytes_written, p, u.busy)
