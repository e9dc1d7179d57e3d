-- ===== src/Tests/Dispatcher.antt =====
-- The dispatcher of dispatcher_redis.cpp on a short tree.
use eiptnd.Prelude.{
  ◌≡◌, refl, true, false, none, some, [], ◌∷◌, ◌++◌, Bytes, codes, arith, equal, if◌then◌else◌,
}
use eiptnd.Json.Writer.{write_json_helper}
use eiptnd.Json.Grammar.{Text}
use eiptnd.Json.Wellformed.{json_of}
use eiptnd.Redis.Connection.{
  Connection, Op, async_read, called, success, ok, resolve, set_timeouts, create,
}
use eiptnd.Redis.Handlers.{handle_read}
use eiptnd.Redis.Events.{received}
use eiptnd.Redis.Replies.Lines.{stream}
use eiptnd.Redis.Wire.{read_command}
use eiptnd.Redis.Cycle.{Idle, after_write}
use eiptnd.Redis.Dispatcher.{Settings, WriteJson, Dispatcher, load_settings, handle_process_data}
use eiptnd.Redis.Dispatcher.Delivery.{handle_process_data-handle_read}
use eiptnd.Tests.Redis.{redis, ready, one, with_leftover-Idle}
use eiptnd.Tests.Json.{cast, escape, escape-Escapes, tree, tree-AllPrintable}

-- A printer that refuses no tree.
abbrev pub json : WriteJson cast
json = record {
  create_escapes = escape;
  write_json = λ t pretty. some (write_json_helper {C = cast} escape t 0 pretty ++ (b'\n' ∷ []));
  escapes = escape-Escapes;
  write_json-some = λ t pretty b e. cc;
}

abbrev dispatcher : Dispatcher redis
dispatcher = record {
  host = codes "localhost";
  port = codes "6379";
  pretty = false;
  rcon = some ready;
}

abbrev pub message : Bytes
message = codes "{\"id\":\"a\\\"b\",\"pos\":[25,-7,true]}\n"

handle_process_data-handle_read_example :
    (t u : Connection redis) × (text wire : Bytes) × (handle_process_data json tree 3 dispatcher
      ≡ ok (record dispatcher { rcon = some t }))
    × (t.ops ≡ Op.async_write wire ∷ [])
    × (read_command wire ≡ some (codes "PUBLISH" ∷ codes "foo" ∷ message ∷ [], []))
    × (message ≡ text ++ (b'\n' ∷ []))
    × Text (json_of tree false) text
    × (handle_read success (received (stream (codes ":1" ∷ [])) (after_write t)) ≡ ok u)
    × Idle [] [] u
    × (u.ops ≡ called 3 true ∷ async_read ∷ t.ops)
unfolding write_json_helper
handle_process_data-handle_read_example =
    handle_process_data-handle_read json tree 3 dispatcher ready message (codes ":1") refl
      (with_leftover-Idle []) tree-AllPrintable refl (omega arith) one (omega arith)

-- A file that sets only the host.
abbrev only_host : Settings
only_host = record {
  get_string = λ path. if equal path (codes "host") then some (codes "db") else none;
  get_bool = λ path. none;
  get_size = λ path. none;
}

load_settings-only_host : load_settings only_host dispatcher ≡ record {
  host = codes "db";
  port = codes "6379";
  pretty = false;
  rcon = some (resolve (codes "db") (codes "6379") (set_timeouts 10 30 (create redis)));
}
unfolding load_settings equal
load_settings-only_host = refl
