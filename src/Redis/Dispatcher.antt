-- ===== src/Redis/Dispatcher.antt =====
-- The dispatcher of dispatcher_redis.cpp: it prints a tree as JSON and publishes it. Log records
-- are left out.
pub mod Delivery
use eiptnd.Prelude.{
  ℕ, ◌+◌, ◌^◌, ◌<◌, ◌≡◌, refl, ap, ◌∙◌, Bool, true, false, Option, none, some, List, [], ◌∷◌, ◌++◌,
  Bytes, codes, length, arith,
}
use eiptnd.Json.Values.{Cast, Dptree}
use eiptnd.Json.Writer.{write_json_helper}
use eiptnd.Json.Grammar.{Escapes, Text}
use eiptnd.Json.Wellformed.{json_of, AllPrintable, write_json_helper-Text}
use eiptnd.Redis.Connection.{
  Library, Connection, Result, ok, err, ◌>>=◌, Fault, bad_json, null_connection, Callback, user,
  create, publish, publish_text, set_timeouts, resolve,
}

-- What `get` finds at a path of the settings, if there is a value and it can be converted.
pub record Settings : Type 0 where
  pub get_string : Bytes → Option Bytes
  pub get_bool : Bytes → Option Bool
  pub get_size : Bytes → Option ℕ

-- boost::property_tree::write_json: it throws where a tree is no JSON; else it writes what the
-- printer prints and ends the line. `create_escapes` writes what is to stand between quotes.
pub record WriteJson (C : Cast) : Type 0 where
  pub create_escapes : Bytes → Bytes
  pub write_json : Dptree C → Bool → Option Bytes
  pub escapes : (s : Bytes) → Escapes s (create_escapes s)
  pub write_json-some :
      (t : Dptree C) (pretty : Bool) (b : Bytes)
      → write_json t pretty ≡ some b
      → b ≡ write_json_helper create_escapes t 0 pretty ++ (b'\n' ∷ [])

-- `rcon` is `none` for the null pointer.
pub record Dispatcher (L : Library) : Type 0 where
  pub host : Bytes
  pub port : Bytes
  pub pretty : Bool
  pub rcon : Option (Connection L)

abbrev get_or : {A : Type 0} → A → Option A → A
get_or a none = a
get_or a (some b) = b

abbrev or_fail : {A : Type 0} → Fault → Option A → Result A
or_fail f none = err f
or_fail f (some a) = ok a

module _ {L : Library} where
  unfoldable pub load_settings : Settings → Dispatcher L → Dispatcher L
  load_settings settings d =
      let host = get_or (codes "localhost") (settings.get_string (codes "host")) in
      let port = get_or (codes "6379") (settings.get_string (codes "port")) in
      let timeout_connect = get_or 10 (settings.get_size (codes "timeout.connect")) in
      let timeout_ping = get_or 30 (settings.get_size (codes "timeout.ping")) in
      record {
        host = host;
        port = port;
        pretty = get_or false (settings.get_bool (codes "pretty"));
        rcon = some (resolve host port (set_timeouts timeout_connect timeout_ping (create L)));
      }

  module _ {C : Cast} (json : WriteJson C) where
    -- The callback is the caller's, by its number.
    unfoldable pub handle_process_data : Dptree C → ℕ → Dispatcher L → Result (Dispatcher L)
    handle_process_data tree callback d =
        or_fail bad_json (json.write_json tree d.pretty) >>= λ text.
        or_fail null_connection d.rcon >>= λ s.
        publish (codes "foo") text (user callback) s >>= λ t. ok (record d { rcon = some t })
