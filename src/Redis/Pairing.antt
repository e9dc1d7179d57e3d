-- ===== src/Redis/Pairing.antt =====
-- The connection while all goes well: every write completes with all its bytes, and the server
-- sends whole replies, one for each request, in order. Requests come at any time. Which request
-- stands behind which callback, and what was sent and answered, as functions of the state.
pub mod Requests
pub mod Answers
pub mod Served
use eiptnd.Prelude.{
  ℕ, ◌+◌, ◌^◌, ◌<◌, ◌≡◌, Bool, true, false, List, [], ◌∷◌, ◌++◌, Bytes, codes, length,
}
use eiptnd.Redis.Connection.{
  Library, Connection, ok, success, Callback, user, no_ping, Op, async_write, called, publish,
  publish_text, ping_text,
}
use eiptnd.Redis.Handlers.{timeout_ping, handle_read}
use eiptnd.Redis.Events.{received}
use eiptnd.Redis.Cycle.{after_write}
use eiptnd.Redis.Replies.Lines.{stream, Match}

-- What is under way on the socket.
pub data Phase : Type 0 where
  idle writing reading : Phase

abbrev pub is_locked : Phase → Bool
is_locked idle = false
is_locked writing = true
is_locked reading = true

-- A request that comes while nothing is under way is written; others wait.
abbrev pub on_request : Phase → Phase
on_request idle = writing
on_request writing = writing
on_request reading = reading

-- While callbacks wait the connection reads on, else it writes what was published meanwhile.
abbrev pub on_replies : List Callback → List Callback → Phase
on_replies (d ∷ ds) later = reading
on_replies [] (c ∷ cs) = writing
on_replies [] [] = idle

-- What a write that is under way has still to send.
abbrev pub still : Phase → Bytes → Bytes
still writing text = text
still reading text = []
still idle text = []

-- All that was written, the first bytes first.
abbrev pub bytes_written : List Op → Bytes
bytes_written [] = []
bytes_written (async_write text ∷ os) = bytes_written os ++ text
bytes_written (_ ∷ os) = bytes_written os

-- The callers' callbacks that were called with `true`, the first one first.
abbrev pub confirmed : List Op → List ℕ
confirmed [] = []
confirmed (called k true ∷ os) = confirmed os ++ (k ∷ [])
confirmed (_ ∷ os) = confirmed os

abbrev pub users : List Callback → List ℕ
users [] = []
users (user k ∷ cs) = k ∷ users cs
users (no_ping ∷ cs) = users cs

-- The client in a phase, behind the callbacks that were answered so far.
pub record Online (L : Library) : Type 0 where
  pub phase : Phase
  pub answered : List Callback
  pub client : Connection L

-- A number stands for a request of a caller: its channel and its message.
module _ (request : ℕ → Bytes × Bytes) where
  -- The command of the request that a callback belongs to.
  abbrev pub command : Callback → List Bytes
  command (user k) = codes "PUBLISH" ∷ (request k).0 ∷ (request k).1 ∷ []
  command no_ping = codes "PING" ∷ []

  module _ (L : Library) where
    abbrev pub text_of : Callback → Bytes
    text_of (user k) = publish_text L (request k).0 (request k).1
    text_of no_ping = ping_text

    abbrev pub texts : List Callback → Bytes
    texts [] = []
    texts (c ∷ cs) = text_of c ++ texts cs

  module _ {L : Library} where
    pub data Step : Online L → Online L → Type 0 where
      publishes :
          (k : ℕ) (o : Online L) (t : Connection L)
          → publish (request k).0 (request k).1 (user k) o.client ≡ ok t
          → Step o (record o { phase = on_request o.phase; client = t })
      ping_timer :
          (o : Online L) (t : Connection L)
          → timeout_ping success o.client ≡ ok t
          → Step o (record o { phase = on_request o.phase; client = t })
      written :
          (o : Online L)
          → o.phase ≡ writing
          → Step o (record o { phase = reading; client = after_write o.client })
      replied :
          (cs ds : List Callback) (rs : List Bytes) (o : Online L) (t : Connection L)
          → o.phase ≡ reading
          → o.client.out_tmp_buf.callbacks ≡ cs ++ ds
          → Match cs rs
          → length (stream rs) < 2 ^ 64
          → handle_read success (received (stream rs) o.client) ≡ ok t
          → Step o (record {
            phase = on_replies ds o.client.out_buf.callbacks;
            answered = o.answered ++ cs;
            client = t;
          })

    pub data Run (o : Online L) : Online L → Type 0 where
      here : Run o o
      next : {p q : Online L} → Run o p → Step p q → Run o q

    -- The requests in a queue are those of its callbacks, in order; all that was written are the
    -- requests of the callbacks that were answered and of those that wait for a reply, in order;
    -- and the callers' callbacks were called in that order.
    pub record Paired (phase : Phase) (answered : List Callback) (s : Connection L) : Type 0 where
      pub is_connected : s.is_connected ≡ true
      pub busy : s.busy ≡ is_locked phase
      pub unread : L.buffer.input s.in_buf ≡ []
      pub resting : phase ≡ idle → (s.out_buf.callbacks ≡ []) × (s.out_tmp_buf.callbacks ≡ [])
      pub to_write : L.buffer.input s.out_buf.bytes ≡ texts L s.out_buf.callbacks
      pub to_send :
          L.buffer.input s.out_tmp_buf.bytes ≡ still phase (texts L s.out_tmp_buf.callbacks)
      pub bytes_written : bytes_written s.ops ≡ texts L (answered ++ s.out_tmp_buf.callbacks)
      pub confirmed : confirmed s.ops ≡ users answered
