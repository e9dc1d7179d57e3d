-- ===== src/Tests/Pairing.antt =====
-- A run of the Redis client on which all goes well.
use eiptnd.Prelude.{
  ℕ, ◌^◌, ◌<◌, ◌≡◌, refl, zero, suc, true, false, some, [], ◌∷◌, ◌++◌, Bytes, codes, equal, length,
  arith,
}
use eiptnd.Redis.Connection.{
  Connection, ok, success, user, publish, publish_text, write, start_write, read, invoke,
  async_write, async_read, called,
}
use eiptnd.Redis.Handlers.{
  handle_read, handle_write, read_loop, stream_getline, read_round, answer_front, after_loop,
}
use eiptnd.Boost.Io.{getline, line, hits_end}
use eiptnd.Redis.Events.{received}
use eiptnd.Redis.Replies.Lines.{stream, matched, all_matched}
use eiptnd.Redis.Cycle.{after_write}
use eiptnd.Redis.Pairing.{
  idle, writing, reading, bytes_written, confirmed, texts, Online, Run, here, next, publishes,
  written, replied,
}
use eiptnd.Redis.Pairing.Served.{read_commands, Run-served, Run-serves}
use eiptnd.Tests.Redis.{redis, ready, with_leftover-Idle, one}

abbrev words : ℕ → Bytes × Bytes
words zero = (codes "foo", codes "{}")
words (suc k) = (codes "bar", codes "[1]")

words-short : (k : ℕ) → (length (words k).0 < 2 ^ 32) × (length (words k).1 < 2 ^ 32)
words-short zero = (omega arith, omega arith)
words-short (suc k) = (omega arith, omega arith)

abbrev start : Online redis
start = record { phase = idle; answered = []; client = ready }

-- The first request is on its way, the second waits.
abbrev first_text : Bytes
first_text = publish_text redis (codes "foo") (codes "{}")

abbrev second_text : Bytes
second_text = publish_text redis (codes "bar") (codes "[1]")

abbrev first : Connection redis
first = record ready {
  busy = true;
  out_tmp_buf = record { bytes = first_text; callbacks = user 0 ∷ [] };
  ops = async_write first_text ∷ [];
}

abbrev both : Connection redis
both = record first { out_buf = record { bytes = second_text; callbacks = user 1 ∷ [] } }

first_published : publish (codes "foo") (codes "{}") (user 0) ready ≡ ok first
unfolding publish publish_text write start_write
first_published = refl

second_published : publish (codes "bar") (codes "[1]") (user 1) first ≡ ok both
unfolding publish publish_text write
second_published = refl

-- The reply to the first request has come, and the second is on its way.
abbrev replied_once : Connection redis
replied_once = record ready {
  busy = true;
  out_tmp_buf = record { bytes = second_text; callbacks = user 1 ∷ [] };
  ops = async_write second_text ∷ called 0 true ∷ async_read ∷ async_write first_text ∷ [];
}

first_replied :
    handle_read success (received (stream (codes ":1" ∷ [])) (after_write both)) ≡ ok replied_once
unfolding handle_read handle_write read read_loop stream_getline getline line hits_end read_round
    equal answer_front invoke after_loop write start_write publish_text
first_replied = refl

run : Run words start (record { phase = writing; answered = user 0 ∷ []; client = replied_once })
unfolding handle_write read
run =
    next
      (next
        (next (next here (publishes 0 start first first_published)) (
          publishes 1 (record { phase = writing; answered = []; client = first }) both
            second_published))
        (written (record { phase = writing; answered = []; client = both }) refl))
      (replied (user 0 ∷ []) [] (codes ":1" ∷ [])
        (record { phase = reading; answered = []; client = after_write both }) replied_once refl
        refl (matched (user 0) one all_matched) (omega arith) first_replied)

Run-served_example :
    (read_commands 2 (first_text ++ second_text)
      ≡ some (
        (codes "PUBLISH" ∷ codes "foo" ∷ codes "{}" ∷ [])
            ∷ (codes "PUBLISH" ∷ codes "bar" ∷ codes "[1]" ∷ [])
            ∷ [],
        [],
      ))
    × (confirmed replied_once.ops ≡ 0 ∷ [])
Run-served_example =
    Run-served words words-short ready
      (record { phase = writing; answered = user 0 ∷ []; client = replied_once })
      (with_leftover-Idle []) refl refl run

-- The second write has completed, and its reply arrives.
abbrev reading_again : Online redis
reading_again = record {
  phase = reading;
  answered = user 0 ∷ [];
  client = after_write replied_once;
}

run_on : Run words start reading_again
run_on =
    next run
      (written (record { phase = writing; answered = user 0 ∷ []; client = replied_once }) refl)

Run-serves_example :
    (t : Connection redis) × (handle_read success
        (received (stream (codes ":1" ∷ [])) (after_write replied_once))
      ≡ ok t)
    × (confirmed t.ops ≡ 0 ∷ 1 ∷ [])
    × (bytes_written t.ops ≡ texts words redis ((user 0 ∷ user 1 ∷ []) ++ t.out_tmp_buf.callbacks))
    × (t.out_tmp_buf.callbacks ≡ [])
    × (t.busy ≡ false)
unfolding handle_write read
Run-serves_example =
    Run-serves words words-short ready reading_again (user 1 ∷ []) [] (codes ":1" ∷ [])
      (with_leftover-Idle []) refl refl run_on refl refl (matched (user 1) one all_matched)
      (omega arith)
