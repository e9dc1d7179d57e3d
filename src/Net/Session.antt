-- ===== src/Net/Session.antt =====
-- The connection of src/connection.cpp: the operations that it starts on its socket, their
-- completion handlers, and the shared pointers that keep it and its translator. Log records are
-- left out.
use eiptnd.Prelude.{
  ℕ, ◌+◌, ◌-◌, Bool, true, false, ◌&&◌, Option, none, some, List, [], ◌∷◌, ◌++◌, Bytes,
  if◌then◌else◌, ◌==◌, ltb,
}

-- A read that was started on the socket.
pub data Read : Type 0 where
  at_least : ℕ → Read
  until : Bytes → Read
  some_bytes : Read

-- What a translator does through its `api_`: it starts reads and writes, and asks the request
-- router, to authenticate or to process data, with a callback that holds the translator. A question
-- is one whose callback is called later, by a handler of the io_service that no strand holds back.
pub data Request (Question : Type 0) : Type 0 where
  do_read : Read → Request Question
  do_write : Bytes → Request Question
  ask : Question → Request Question

-- A translator, which a plugin defines. `received` is what asio does to its buffer before a read
-- completes; a handler gives `none` where the plugin throws.
pub record Translator : Type 1 where
  pub State : Type 0
  pub Question : Type 0
  pub received : Bytes → State → State
  pub handle_start : State → Option (State × List (Request Question))
  pub handle_read : ℕ → State → Option (State × List (Request Question))
  pub handle_write : State → Option (State × List (Request Question))
  pub handle_answer : Question → Bool → State → Option (State × List (Request Question))

-- `expired`: a handler is bound to the translator when that was destroyed.
pub data Fault : Type 0 where
  expired thrown : Fault

pub data Result (A : Type 0) : Type 0 where
  ok : A → Result A
  err : Fault → Result A

infixl 5 ◌>>=◌
abbrev pub ◌>>=◌ : {A B : Type 0} → Result A → (A → Result B) → Result B
ok a >>= f = f a
err e >>= f = err e

-- The counters are those of the shared pointers; an object is destroyed when its counter gets 0.
-- `reads` and `writes` are the operations under way, `asked` the questions
-- whose callbacks wait; `is_shutdown` says whether the socket was shut down.
pub record Session (T : Translator) : Type 0 where
  pub translator : T.State
  pub translator_refs : ℕ
  pub connection_refs : ℕ
  pub reads : List Read
  pub writes : List Bytes
  pub asked : List T.Question
  pub is_shutdown : Bool

module _ {T : Translator} where
  -- A new connection is held by the server that waits for a client; it has no translator yet.
  unfoldable pub create : T.State → Session T
  create translator = record {
    translator = translator;
    translator_refs = 0;
    connection_refs = 1;
    reads = [];
    writes = [];
    asked = [];
    is_shutdown = false;
  }

  -- The handler of an operation holds the connection, and the translator by `lock`.
  abbrev pub bind_handler : Session T → Result (Session T)
  bind_handler s =
      if s.translator_refs == 0
      then err expired
      else ok (record s {
        translator_refs = s.translator_refs + 1;
        connection_refs = s.connection_refs + 1;
      })

  unfoldable pub start_read : Read → Session T → Result (Session T)
  start_read r s = bind_handler s >>= λ t. ok (record t { reads = s.reads ++ (r ∷ []) })

  unfoldable pub start_write : Bytes → Session T → Result (Session T)
  start_write b s = bind_handler s >>= λ t. ok (record t { writes = s.writes ++ (b ∷ []) })

  unfoldable pub perform : Request T.Question → Session T → Result (Session T)
  perform (do_read r) s = start_read r s
  perform (do_write b) s = start_write b s
  perform (ask q) s =
      if s.translator_refs == 0
      then err expired
      else ok (record s { translator_refs = s.translator_refs + 1; asked = s.asked ++ (q ∷ []) })

  unfoldable pub perform_all : List (Request T.Question) → Session T → Result (Session T)
  perform_all [] s = ok s
  perform_all (q ∷ qs) s = perform q s >>= λ t. perform_all qs t

  -- A handler of the translator has run.
  unfoldable pub handled :
      Option (T.State × List (Request T.Question)) → Session T → Result (Session T)
  handled none s = err thrown
  handled (some (t, qs)) s = perform_all qs (record s { translator = t })

  unfoldable pub release_connection : Session T → Session T
  release_connection s = record s { connection_refs = s.connection_refs - 1 }

  -- With the translator goes its `api_`, which holds the connection in `do_write`.
  unfoldable pub release_translator : Session T → Session T
  release_translator s =
      let t : Session T = record s { translator_refs = s.translator_refs - 1 } in
      if t.translator_refs == 0 then release_connection t else t

  -- The translator is created and starts; `process_handler` and `papi` go out of scope.
  unfoldable pub on_connection : Session T → Result (Session T)
  on_connection s =
      let t : Session T = record s {
        translator_refs = 1;
        connection_refs = s.connection_refs + 1;
      } in
      handled (T.handle_start t.translator) t >>= λ u. ok (release_translator u)

  unfoldable pub handle_read : Bool → ℕ → Session T → Result (Session T)
  handle_read success bytes_transferred s =
      if success && ltb 0 bytes_transferred
      then handled (T.handle_read bytes_transferred s.translator) s
      else ok s

  unfoldable pub handle_write : Bool → Session T → Result (Session T)
  handle_write success s = if success then handled (T.handle_write s.translator) s else ok s

  -- A completion handler has run and is destroyed.
  abbrev pub destroy_handler : Session T → Session T
  destroy_handler s = release_connection (release_translator s)

  -- A read completes that stood behind `before`: `bytes` went into the translator's buffer.
  unfoldable pub read_completes :
      List Read → List Read → Bool → Bytes → ℕ → Session T → Result (Session T)
  read_completes before after success bytes n s =
      handle_read success n
        (record s { reads = before ++ after; translator = T.received bytes s.translator })
      >>= λ t. ok (destroy_handler t)

  unfoldable pub write_completes : List Bytes → List Bytes → Bool → Session T → Result (Session T)
  write_completes before after success s =
      handle_write success (record s { writes = before ++ after }) >>= λ t. ok (destroy_handler t)

  -- What is under way goes on to complete, with an error or without.
  unfoldable pub close : Session T → Session T
  close s = record s { is_shutdown = true }

  -- A callback is called and destroyed.
  unfoldable pub answer :
      List T.Question → T.Question → List T.Question → Bool → Session T → Result (Session T)
  answer before q after is_ok s =
      handled (T.handle_answer q is_ok s.translator) (record s { asked = before ++ after }) >>= λ t.
      ok (release_translator t)
