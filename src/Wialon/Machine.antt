-- ===== src/Wialon/Machine.antt =====
-- The parser of wialon_plugin.cpp: the object's state, what it calls through `api_`, and
-- `consume_token` with all that it calls. Log records are left out, and so are the texts that go
-- only into them.
use eiptnd.Prelude.{
  ℕ, suc, ◌+◌, Bool, true, false, Option, none, some, List, [], ◌∷◌, ◌++◌, Bytes, codes,
  if◌then◌else◌, ◌==◌, leb, length,
}
use eiptnd.Boost.Containers.{FlatMap, Tree}
use eiptnd.Boost.Io.{Streambuf, Numeral}
use eiptnd.Wialon.Protocol.{
  State, state_initial, state_binary_data, Command, command_login, command_data, command_ping,
  command_shortdata, command_blackbox, command_message, command_image,
}

-- What is not defined in C++, and what is thrown and caught nowhere.
pub data Fault : Type 0 where
  null_tree indeterminate_command bad_index buffer_overrun bad_iterator : Fault
  out_of_range bad_path bad_lexical_cast out_of_fuel : Fault

pub data Result (A : Type 0) : Type 0 where
  ok : A → Result A
  err : Fault → Result A

infixl 5 ◌>>=◌
abbrev pub ◌>>=◌ : {A B : Type 0} → Result A → (A → Result B) → Result B
ok a >>= f = f a
err e >>= f = err e

abbrev pub or_fail : {A : Type 0} → Fault → Option A → Result A
or_fail e none = err e
or_fail e (some a) = ok a

-- What the translator calls. `tokens` is boost::tokenizer with the separator (";", "#|",
-- keep_empty_tokens). `authenticates` says what `api_->authenticate` does with its callback before
-- it returns: it calls it with a value, as the request router does, or it keeps it for later.
pub record Library : Type 1 where
  pub tree : Tree
  pub estimates_map : FlatMap Bytes (ℕ × Command)
  pub buffer : Streambuf
  pub numeral : Numeral
  pub tokens : Bytes → List Bytes
  pub authenticates : Bytes → Bytes → Option Bool

-- A call through `api_`. A tree is passed by pointer: its address stands beside its contents.
pub data Call (Ptree : Type 0) : Type 0 where
  do_read_until : Bytes → Call Ptree
  do_write : Bytes → Call Ptree
  authenticate : Bytes → Bytes → Call Ptree
  process_data : ℕ → Ptree → Call Ptree

-- The object. `tree_at` is the address in `tree_`, 0 for the null pointer; each `make_shared` gives
-- the next one. `current_cmd` is `none` as long as the member was not assigned. `calls` holds the
-- calls made so far, the latest first.
pub record Parser (L : Library) : Type 0 where
  pub sbuf : L.buffer.Buf
  pub estimate : ℕ
  pub tree_at : ℕ
  pub tree : L.tree.Ptree
  pub multicommand : ℕ
  pub authenticated : Bool
  pub is_parser_error : Bool
  pub state : State
  pub cmd : Bytes
  pub current_cmd : Option Command
  pub calls : List (Call L.tree.Ptree)

-- "#A", the command, "#", the message and the end of the line.
abbrev pub reply_text : Bytes → Bytes → Bytes
reply_text cmd msg = b'#' ∷ b'A' ∷ (cmd ++ (b'#' ∷ (msg ++ (b'\r' ∷ b'\n' ∷ []))))

module _ (L : Library) where
  -- The constructor sets two members; the plain ones among the others hold any value.
  unfoldable pub create : ℕ → ℕ → Bool → Parser L
  create estimate multicommand is_parser_error = record {
    sbuf = L.buffer.empty;
    estimate = estimate;
    tree_at = 0;
    tree = L.tree.empty;
    multicommand = multicommand;
    authenticated = false;
    is_parser_error = is_parser_error;
    state = state_initial;
    cmd = [];
    current_cmd = none;
    calls = [];
  }

module _ {L : Library} where
  abbrev pub call : Call L.tree.Ptree → Parser L → Parser L
  call c s = record s { calls = c ∷ s.calls }

  -- boost::make_shared<dptree>().swap(tree_)
  abbrev pub new_tree : Parser L → Parser L
  new_tree s = record s { tree_at = suc s.tree_at; tree = L.tree.empty }

  abbrev pub parser_error : Parser L → Parser L
  parser_error s = record s { is_parser_error = true }

  -- It calls `parser_error` with a text about both tokens.
  abbrev pub unexpected_token : Bytes → Bytes → Parser L → Parser L
  unexpected_token expected got s = parser_error s

  -- `answer_buffer_` has 32 bytes: a longer reply is cut by the sink, and then read past its end.
  unfoldable pub answer : Bytes → Parser L → Result (Parser L)
  answer msg s =
      let size = 2 + length s.cmd + 1 + length msg + 2 in
      if leb size 32 then ok (call (do_write (reply_text s.cmd msg)) s) else err buffer_overrun

  -- The callback of `api_->authenticate`.
  unfoldable pub handle_authenticate : Bool → Parser L → Result (Parser L)
  handle_authenticate true s =
      answer (codes "1") (record s { state = state_initial; authenticated = true })
  handle_authenticate false s = answer (codes "01") (record s { state = state_initial })

  -- The callback, if it is called before `authenticate` returns.
  abbrev pub authenticated_at_once : Option Bool → Parser L → Result (Parser L)
  authenticated_at_once none s = ok s
  authenticated_at_once (some is_ok) s = handle_authenticate is_ok s

  unfoldable pub store_data : Parser L → Result (Parser L)
  store_data s = ok (call (process_data s.tree_at s.tree) s)

  abbrev pub get_string : Bytes → Parser L → Result Bytes
  get_string key s = or_fail bad_path (L.tree.get key s.tree)

  -- The switch of `commit_command`.
  unfoldable pub commit : Command → Parser L → Result (Parser L)
  unfolding answer store_data handle_authenticate
  commit command_login s =
      if s.is_parser_error
      then answer (codes "0") s
      else get_string (codes "imei") s >>= λ imei. get_string (codes "password") s >>= λ password.
          authenticated_at_once (L.authenticates imei password)
            (call (authenticate imei password) s)
  commit command_shortdata s = store_data s
  commit command_data s = store_data s
  commit command_ping s = answer [] s
  commit command_message s = store_data s
  commit command_blackbox s = answer (L.numeral.to_string s.multicommand) s
  commit command_image s =
      let t = record s { state = state_binary_data } in
      get_string (codes "sz") t >>= λ sz.
      or_fail bad_lexical_cast (L.numeral.to_size sz) >>= λ n. ok (record t { estimate = n })

  -- The tree is written as JSON for the log, so a null pointer is followed.
  unfoldable pub commit_command : Parser L → Result (Parser L)
  commit_command s =
      if s.tree_at == 0
      then err null_tree
      else or_fail indeterminate_command s.current_cmd >>= λ c. commit c s
