-- ===== src/Net/Wialon.antt =====
-- The translator of wialon_plugin.cpp in a connection.
use Prim.{tt}
use eiptnd.Prelude.{ℕ, ◌+◌, ◌≤◌, ◌≡◌, Bool, Option, none, some, List, [], ◌∷◌, ◌++◌, arith, length}
use eiptnd.Wialon.Machine.{
  Library, Parser, Result, ok, err, Call, do_read_until, authenticate, process_data,
}
use eiptnd.Wialon.Machine
use eiptnd.Wialon.Session
use eiptnd.Wialon.Rereads.{
  Rereads, handle_read-Rereads, handle_authenticate-Rereads, handle_process_data-Rereads,
}
use eiptnd.Wialon.Rereads
use eiptnd.Wialon.Events.{received}
use eiptnd.Net.Session.{Request, do_read, do_write, ask, until, Translator, Session}
use eiptnd.Net.OneRead.{reads_of, Reads, OneRead, Reach-reads_le}
use eiptnd.Net.Server.{Server, Reach, start_accept, opened}

-- What the request router is asked.
pub data Question : Type 0 where
  admission delivery : Question

-- Whether the answer to `authenticate` is still to come.
abbrev asked : Option Bool → List (Request Question) → List (Request Question)
asked none later = ask admission ∷ later
asked (some is_ok) later = later

-- The calls, which stand the latest first, in the order in which they were made.
abbrev requests :
    (L : Library) → List (Call L.tree.Ptree) → List (Request Question) → List (Request Question)
requests L [] later = later
requests L (do_read_until delim ∷ cs) later = requests L cs (do_read (until delim) ∷ later)
requests L (Machine.do_write bytes ∷ cs) later = requests L cs (do_write bytes ∷ later)
requests L (authenticate login password ∷ cs) later =
    requests L cs (asked (L.authenticates login password) later)
requests L (process_data address tree ∷ cs) later = requests L cs (ask delivery ∷ later)

module _ (L : Library) where
  -- The state and the calls of a handler.
  abbrev outcome : Result (Parser L) → Option (Parser L × List (Request Question))
  outcome (ok s) = some (record s { calls = [] }, requests L s.calls [])
  outcome (err f) = none

  abbrev handle_answer : Question → Bool → Parser L → Result (Parser L)
  handle_answer admission is_ok s = Machine.handle_authenticate is_ok s
  handle_answer delivery is_ok s = Session.handle_process_data is_ok s

  abbrev fresh : Parser L → Parser L
  fresh s = record s { calls = [] }

  abbrev pub translator : Translator
  translator = record {
    State = Parser L;
    Question = Question;
    received = λ bytes s. received bytes s;
    handle_start = λ s. outcome (ok (Session.handle_start (fresh s)));
    handle_read = λ n s. outcome (Session.handle_read (fresh s));
    handle_write = λ s. outcome (ok (Session.handle_write (fresh s)));
    handle_answer = λ q is_ok s. outcome (handle_answer q is_ok (fresh s));
  }

  reads_of-asked :
      (o : Option Bool) (later : List (Request Question))
      → reads_of (asked o later) ≡ reads_of later
  reads_of-asked none later = omega arith
  reads_of-asked (some is_ok) later = omega arith

  reads_of-requests :
      (cs : List (Call L.tree.Ptree)) (later : List (Request Question))
      → reads_of (requests L cs later) ≡ Rereads.reads_of cs + reads_of later
  reads_of-requests [] later = omega arith
  reads_of-requests (do_read_until d ∷ cs) later =
      omega (arith, reads_of-requests cs (do_read (until d) ∷ later))
  reads_of-requests (Machine.do_write b ∷ cs) later =
      omega (arith, reads_of-requests cs (do_write b ∷ later))
  reads_of-requests (authenticate i p ∷ cs) later = omega (
    arith,
    reads_of-requests cs (asked (L.authenticates i p) later),
    reads_of-asked (L.authenticates i p) later,
  )
  reads_of-requests (process_data a t ∷ cs) later =
      omega (arith, reads_of-requests cs (ask delivery ∷ later))

  outcome-Reads :
      (n : ℕ) (s : Parser L) (r : Result (Parser L)) → Rereads n (fresh s) r → Reads n (outcome r)
  outcome-Reads n s (ok t) h = omega (arith, h, reads_of-requests t.calls [])
  outcome-Reads n s (err f) h = tt

  handle_answer-Reads :
      (q : Question) (is_ok : Bool) (s : Parser L)
      → Reads 0 (outcome (handle_answer q is_ok (fresh s)))
  handle_answer-Reads admission is_ok s =
      outcome-Reads 0 s _ (handle_authenticate-Rereads is_ok (fresh s))
  handle_answer-Reads delivery is_ok s =
      outcome-Reads 0 s _ (handle_process_data-Rereads is_ok (fresh s))

  translator-OneRead : OneRead translator
  unfolding Session.handle_start Session.handle_write
  translator-OneRead = record {
    start = λ s. omega arith;
    read = λ n s. outcome-Reads 1 s _ (handle_read-Rereads (fresh s));
    write = λ s. omega arith;
    answer = handle_answer-Reads;
  }

  -- On a server for the translator of Wialon messages no connection has more than one read under
  -- way, whatever clients send and whatever completes in whatever order, as long as no handler
  -- fails.
  pub Reach-translator_reads_le :
      (a b : Parser L) (s : Server translator) (before after : List (Session translator))
      (x : Session translator)
      → Reach (start_accept a (opened b)) s
      → s.sessions ≡ before ++ (x ∷ after)
      → length x.reads ≤ 1
  Reach-translator_reads_le = Reach-reads_le translator-OneRead
