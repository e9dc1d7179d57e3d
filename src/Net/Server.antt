-- ===== src/Net/Server.antt =====
-- The server of src/tcp_server.cpp, which waits for clients on one port, with its connections. Log
-- records are left out.
use eiptnd.Prelude.{ℕ, ◌≡◌, Bool, true, false, List, [], ◌∷◌, ◌++◌, Bytes, if◌then◌else◌}
use eiptnd.Net.Session.{
  Read, Translator, Result, ok, ◌>>=◌, Session, create, on_connection, release_connection,
  read_completes, write_completes, answer, close,
}

-- `accepting` says whether an accept is under way, into `new_connection`, and `is_cancelled` whether
-- the acceptor was told to cancel; `sessions` are the
-- connections that were accepted.
pub record Server (T : Translator) : Type 0 where
  pub accepting : Bool
  pub is_cancelled : Bool
  pub new_connection : Session T
  pub sessions : List (Session T)

module _ {T : Translator} where
  -- The next connection; its translator is going to be created in the state `t`.
  unfoldable pub start_accept : T.State → Server T → Server T
  start_accept t s = record s { accepting = true; new_connection = create t }

  -- The accept under way goes on to complete, as a rule with an error.
  unfoldable pub cancel : Server T → Server T
  cancel s = record s { is_cancelled = true }

  -- The pointer to the connection is given up for one to the next connection.
  unfoldable pub handle_accept : Bool → T.State → Server T → Result (Server T)
  handle_accept success t s =
      let rest : Server T = record s { accepting = false } in
      if success
      then (on_connection s.new_connection >>= λ u.
          ok (start_accept t (record rest { sessions = release_connection u ∷ s.sessions })))
      else ok rest

  -- A connection's operations complete, its callbacks are called, and it is closed.
  pub data SessionStep : Session T → Session T → Type 0 where
    read_done :
        (before after : List Read) (r : Read) (success : Bool) (bytes : Bytes) (n : ℕ)
        {s t : Session T}
        → s.reads ≡ before ++ (r ∷ after)
        → read_completes before after success bytes n s ≡ ok t
        → SessionStep s t
    write_done :
        (before after : List Bytes) (b : Bytes) (success : Bool) {s t : Session T}
        → s.writes ≡ before ++ (b ∷ after)
        → write_completes before after success s ≡ ok t
        → SessionStep s t
    answered :
        (before after : List T.Question) (q : T.Question) (is_ok : Bool) {s t : Session T}
        → s.asked ≡ before ++ (q ∷ after)
        → answer before q after is_ok s ≡ ok t
        → SessionStep s t
    closed : {s t : Session T} → close s ≡ t → SessionStep s t

  pub data Step : Server T → Server T → Type 0 where
    accept_done :
        (success : Bool) (u : T.State) {s t : Server T}
        → s.accepting ≡ true
        → handle_accept success u s ≡ ok t
        → Step s t
    runs :
        (before after : List (Session T)) {x y : Session T} {s t : Server T}
        → s.sessions ≡ before ++ (x ∷ after)
        → SessionStep x y
        → t ≡ record s { sessions = before ++ (y ∷ after) }
        → Step s t
    cancels : {s t : Server T} → cancel s ≡ t → Step s t

  pub data Reach (s : Server T) : Server T → Type 0 where
    here : Reach s s
    next : {t u : Server T} → Reach s t → Step t u → Reach s u

-- A server whose acceptor is open and that waits for no client yet.
abbrev pub opened : {T : Translator} → T.State → Server T
opened t = record {
  accepting = false;
  is_cancelled = false;
  new_connection = create t;
  sessions = [];
}
