-- ===== src/Redis/Dispatcher/Delivery.antt =====
-- What the dispatcher delivers: from a tree to the bytes on the wire and the call of the callback.
use eiptnd.Prelude.{
  ℕ, ◌^◌, ◌<◌, ◌≡◌, refl, true, false, some, [], ◌∷◌, ◌++◌, Bytes, codes, length, arith, append-nil,
}
use mathlib.Core.Path.{subst}
use eiptnd.Json.Values.{Cast, Dptree}
use eiptnd.Json.Writer.{write_json_helper}
use eiptnd.Json.Grammar.{Text}
use eiptnd.Json.Wellformed.{json_of, AllPrintable, write_json_helper-Text}
use eiptnd.Redis.Connection.{
  Library, Connection, ok, success, called, async_read, async_write, async_resolve, user, create,
  publish, publish_text, resolve, set_timeouts,
}
use eiptnd.Redis.Handlers.{handle_read}
use eiptnd.Redis.Invariant.{Inv, resolve-Inv}
use eiptnd.Redis.Events.{received}
use eiptnd.Redis.Replies.Lines.{IsReply, stream}
use eiptnd.Redis.Wire.{read_command, read_command-publish_text}
use eiptnd.Redis.Cycle.{Idle, after_write, publish-handle_read}
use eiptnd.Redis.Dispatcher.{Settings, WriteJson, Dispatcher, load_settings, handle_process_data}

module _ {L : Library} {C : Cast} (json : WriteJson C) where
  -- `u` is the dispatcher with the connection `t`, which was asked to publish `b`.
  process_data-publish :
      (tree : Dptree C) (k : ℕ) (d : Dispatcher L) (s t : Connection L) (b : Bytes)
      → d.rcon ≡ some s
      → json.write_json tree d.pretty ≡ some b
      → publish (codes "foo") b (user k) s ≡ ok t
      → handle_process_data json tree k d ≡ ok (record d { rcon = some t })
  unfolding handle_process_data
  process_data-publish tree k d s t b e w p = rw (w, e, p) refl

  -- On a connected client that waits for nothing and has nothing to send, a tree of printable
  -- values that `write_json` does not refuse, with a text below 2 ^ 32 bytes, is written at once: a
  -- server reads one command PUBLISH on the channel "foo", and its message is a text of JSON that
  -- means the tree, and the end of a line. When the bytes were sent and a reply has arrived, an
  -- integer or the answer to PING in fewer than 2 ^ 32 bytes, the callback is called once, with
  -- `true`, and the client is as idle as before.
  pub handle_process_data-handle_read :
      (tree : Dptree C) (k : ℕ) (d : Dispatcher L) (s : Connection L) (b r : Bytes)
      → d.rcon ≡ some s
      → Idle [] [] s
      → AllPrintable tree
      → json.write_json tree d.pretty ≡ some b
      → length b < 2 ^ 32
      → IsReply r
      → length r < 2 ^ 32
      → (t u : Connection L) × (text wire : Bytes) × (handle_process_data json tree k d
          ≡ ok (record d { rcon = some t }))
        × (t.ops ≡ async_write wire ∷ s.ops)
        × (read_command wire ≡ some (codes "PUBLISH" ∷ codes "foo" ∷ b ∷ [], []))
        × (b ≡ text ++ (b'\n' ∷ []))
        × Text (json_of tree false) text
        × (handle_read success (received (stream (r ∷ [])) (after_write t)) ≡ ok u)
        × Idle [] [] u
        × (u.ops ≡ called k true ∷ async_read ∷ t.ops)
  handle_process_data-handle_read tree k d s b r e i p w l rep m =
      let foo = codes "foo" in
      let wire = publish_text L foo b in
      let (t, u, sent, out, read, idle, ops) =
        publish-handle_read foo b k r [] [] s i (omega arith) l rep m in
      let command = read_command-publish_text L foo b [] (omega arith) l in
      let printed = write_json_helper json.create_escapes tree 0 d.pretty in
      (
        t,
        u,
        printed,
        wire,
        process_data-publish tree k d s t b e w sent,
        out,
        subst (λ bs. read_command bs ≡ some (codes "PUBLISH" ∷ foo ∷ b ∷ [], [])) (append-nil wire)
            command,
        json.write_json-some tree d.pretty b w,
        write_json_helper-Text json.create_escapes json.escapes tree 0 d.pretty p,
        read,
        idle,
        ops,
      )

-- After `load_settings` there is a connection: nothing was done but that its resolver was asked for
-- the host and the port that the dispatcher keeps, and the invariant of the connection holds.
pub load_settings-Inv :
    {L : Library} (settings : Settings) (d : Dispatcher L)
    → (s : Connection L) × ((load_settings settings d).rcon ≡ some s)
      × Inv s
      × (s.ops ≡ async_resolve (load_settings settings d).host (load_settings settings d).port ∷ [])
unfolding load_settings resolve create set_timeouts
load_settings-Inv {L} settings d = (
  _,
  refl,
  resolve-Inv _ _ _
      (record { quiet = λ _. refl; filled = λ n. absurd (n refl); awake = λ _ _. refl }),
  refl,
)
