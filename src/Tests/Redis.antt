-- ===== src/Tests/Redis.antt =====
-- The connection of redis_connection.cpp on short exchanges.
use eiptnd.Prelude.{◌≡◌, refl, true, false, [], ◌∷◌, Bytes, codes, arith, equal, ◌++◌, some}
use eiptnd.Boost.Io.{hits_end}
use eiptnd.Boost.Instances.{byte_buffer, digits, length-digits_le, read_number-digits}
use eiptnd.Redis.Connection.{
  Library, Connection, user, no_ping, ping_text, Op, create, success, failure, ok, publish,
  publish_text, op, write, enqueue, invoke,
}
use eiptnd.Redis.Occupied.{IsOccupied, Reach-create-IsOccupied}
use eiptnd.Redis.Failure.{failed, publish-failed}
use eiptnd.Redis.Handlers.{handle_read, handle_write}
use eiptnd.Redis.Invariant.{Inv, publish_lem}
use eiptnd.Redis.Events.{received, Reach, here, next, publishes, tally-Reach, published}
use eiptnd.Redis.Callbacks.{tally}
use eiptnd.Redis.Replies.{Answered, continue, handle_read-Answered}
use eiptnd.Redis.Replies.Lines.{IsReply, reply, stream, matched, all_matched}
use eiptnd.Redis.Wire.{read_command, read_command-publish_text}
use eiptnd.Redis.Cycle.{Idle, after_write}
use eiptnd.Redis.Leftover.{leftover_sent}

abbrev pub redis : Library
redis = record {
  buffer = byte_buffer;
  uint = λ n. digits 10 n [];
  length-uint_le = λ n h. length-digits_le 10 n [];
  read_number-uint = λ n h. read_number-digits 9 n (omega arith);
}

abbrev fresh : Connection redis
fresh = record {
  in_buf = [];
  timeout_connect = 10;
  timeout_ping = 30;
  host = [];
  port = [];
  is_connected = false;
  is_open = false;
  out_buf = record { bytes = []; callbacks = [] };
  out_tmp_buf = record { bytes = []; callbacks = [] };
  busy = false;
  ops = [];
}

-- A connected client.
abbrev pub ready : Connection redis
ready = record fresh { is_connected = true; is_open = true }

publish_lem_example :
    publish (codes "foo") (codes "{}") (user 3) ready
    ≡ write false (enqueue (publish_text redis (codes "foo") (codes "{}")) (user 3) ready)
publish_lem_example =
    publish_lem (codes "foo") (codes "{}") (user 3) ready (omega arith) (omega arith)

-- A request waits for its reply, which has arrived.
abbrev replied : Connection redis
replied = record ready {
  in_buf = codes ":1\r\n";
  out_tmp_buf = record { bytes = []; callbacks = user 3 ∷ [] };
  busy = true;
}

pub one : IsReply (codes ":1")
unfolding hits_end
one = reply (codes ":1") refl refl (omega arith)

pong : IsReply (codes "+PONG")
unfolding hits_end equal
pong = reply (codes "+PONG") refl refl (omega arith)

-- Two of three replies have arrived.
abbrev three_wait : Connection redis
three_wait = record replied {
  in_buf = codes ":1\r\n+PONG\r\n";
  out_tmp_buf = record { bytes = []; callbacks = user 3 ∷ no_ping ∷ user 4 ∷ [] };
}

handle_read-Answered_example :
    (t : Connection redis) × (handle_read success three_wait ≡ continue (user 4 ∷ []) t)
    × Answered three_wait (user 3 ∷ no_ping ∷ []) (user 4 ∷ []) t
handle_read-Answered_example =
    handle_read-Answered (user 3 ∷ no_ping ∷ []) (user 4 ∷ []) (codes ":1" ∷ codes "+PONG" ∷ [])
      three_wait (matched (user 3) one (matched no_ping pong all_matched)) refl refl (omega arith)

read_command-publish_text_example :
    read_command (publish_text redis (codes "foo") (codes "\r\n") ++ ping_text)
    ≡ some (codes "PUBLISH" ∷ codes "foo" ∷ codes "\r\n" ∷ [], ping_text)
read_command-publish_text_example =
    read_command-publish_text redis (codes "foo") (codes "\r\n") ping_text (omega arith)
      (omega arith)

-- A connected client with a queue that holds the bytes of a request without a callback.
abbrev with_leftover : Bytes → Connection redis
with_leftover n = record ready { out_tmp_buf = record { bytes = n; callbacks = [] } }

pub with_leftover-Idle : (n : Bytes) → Idle [] n (with_leftover n)
with_leftover-Idle n = record {
  is_connected = refl;
  busy = refl;
  unread = refl;
  to_write = refl;
  to_be_written = refl;
  written = refl;
  waiting = refl;
}

leftover_sent_example :
    (t u v : Connection redis) × (publish
        (codes "foo")
        (codes "{}")
        (user 3)
        (with_leftover ping_text)
      ≡ ok t)
    × (handle_read success (received (stream (codes ":1" ∷ [])) (after_write t)) ≡ ok u)
    × (publish (codes "foo") (codes "[]") (user 4) u ≡ ok v)
    × (v.out_tmp_buf.callbacks ≡ user 4 ∷ [])
    × (v.ops ≡ Op.async_write (ping_text ++ publish_text redis (codes "foo") (codes "[]")) ∷ u.ops)
leftover_sent_example =
    leftover_sent (codes "foo") (codes "{}") (codes "[]") 3 4 (codes ":1") ping_text
      (with_leftover ping_text) (with_leftover-Idle ping_text) (omega arith) (omega arith)
      (omega arith) one (omega arith)

-- Of the reply only a part has arrived.
abbrev partial : Connection redis
partial = record replied { in_buf = codes ":100" }

-- Two callbacks of a client that is not connected.
abbrev once : Connection redis
once = record fresh { ops = Op.called 7 false ∷ [] }

abbrev twice : Connection redis
twice = record fresh { ops = Op.called 7 false ∷ Op.called 7 false ∷ [] }

two_calls : Reach (create redis) twice
unfolding create publish invoke
two_calls =
    next
      (next here (
        publishes (codes "foo") (codes "{}") 7 {s = create redis} {t = once} (omega arith)
          (omega arith) refl))
      (publishes (codes "foo") (codes "{}") 7 {s = once} {t = twice} (omega arith) (omega arith)
        refl)

tally-Reach_example : tally 7 twice ≡ published 7 two_calls
tally-Reach_example = tally-Reach 7 two_calls

Reach-create-IsOccupied_example : Inv twice × IsOccupied twice
Reach-create-IsOccupied_example = Reach-create-IsOccupied twice two_calls

publish-failed_example :
    (handle_write failure three_wait ≡ failed three_wait)
    × (handle_read failure three_wait ≡ ok (failed three_wait))
    × ((failed three_wait).is_connected ≡ false)
    × (publish (codes "foo") (codes "{}") (user 5) fresh ≡ ok (op (Op.called 5 false) fresh))
publish-failed_example =
    publish-failed failure (codes "foo") (codes "{}") 5 three_wait fresh (λ e. absurd cc) refl
