-- ===== src/Example/Echo.antt =====
-- The translator of example/translator_echo/echo_plugin.{hpp,cpp}, which sends back what it reads.
-- Of the log records only that is kept which may fail.
pub mod Exchange
use eiptnd.Prelude.{
  ℕ, Bool, true, false, ◌||◌, Option, none, some, List, [], ◌∷◌, ◌++◌, Bytes, length, take, drop,
  if◌then◌else◌, ◌==◌,
}
use eiptnd.Net.Session.{some_bytes, Request, do_read, do_write, Translator}

-- Whether a C string ends in the array.
abbrev pub has_nul : Bytes → Bool
has_nul [] = false
has_nul (c ∷ cs) = c == 0 || has_nul cs

-- The plugin asks the router nothing.
pub data Question : Type 0 where

-- What asio does to the array when a read puts bytes into it.
abbrev pub received : Bytes → Bytes → Bytes
received bytes buffer = bytes ++ drop (length bytes) buffer

unfoldable pub handle_write : Bytes → Option (Bytes × List (Request Question))
handle_write buffer = some (buffer, do_read some_bytes ∷ [])

unfoldable pub handle_start : Bytes → Option (Bytes × List (Request Question))
handle_start buffer = handle_write buffer

-- `data` is a part of the C string that starts where the array does: without an end, it is read
-- past the end of the array.
unfoldable pub handle_read : ℕ → Bytes → Option (Bytes × List (Request Question))
handle_read bytes_transferred buffer =
    if has_nul buffer then some (buffer, do_write (take bytes_transferred buffer) ∷ []) else none

-- The state is the array `buffer_` of 8192 bytes, which nothing initializes.
abbrev pub translator : Translator
translator = record {
  State = Bytes;
  Question = Question;
  received = received;
  handle_start = handle_start;
  handle_read = handle_read;
  handle_write = handle_write;
  handle_answer = λ q is_ok buffer. elim q [ ];
}
