-- ===== src/Tests/Wialon.antt =====
-- The translator of wialon_plugin.cpp on messages of its protocol.
use Prim.{tt}
use eiptnd.Prelude.{
  ◌≡◌, ◌≢◌, refl, inr, true, false, List, [], ◌∷◌, Bytes, codes, drop, length, arith, ap, none,
  some,
}
use eiptnd.Boost.Instances.{assoc_map, plain_tree, byte_buffer, decimal, split}
use eiptnd.Prelude.{equal, equal_iff}
use eiptnd.Boost.Io.{hits_end, getline, line}
use eiptnd.Wialon.Protocol.{
  estimates, estimates_onto, Command, name, command_login, command_data, command_message,
  command_blackbox, state_initial, state_bar, state_skip_to_bar_or_end,
}
use eiptnd.Wialon.Machine.{
  Library, Parser, create, commit, commit_command, answer, ok, err, ◌>>=◌, buffer_overrun,
  out_of_fuel, process_data, authenticate, do_read_until, do_write, reply_text, handle_authenticate,
}
use eiptnd.Wialon.Token.{
  parse_string, step, select_command, body_token, put_field, finish_line, crlf, consume_token,
  consume_tokens,
}
use eiptnd.Wialon.Session.{
  read_round, handle_read, handle_start, handle_message, handle_process_data, read_message, message,
}
use eiptnd.Wialon.Invariant.{Inv, length-name_le}
use eiptnd.Wialon.Access.{Quiet}
use eiptnd.Wialon.Safety.{handle_read-Quiet}
use eiptnd.Wialon.Fields.{consume_message, header, at_body, put_all, parameters, body_end}
use eiptnd.Wialon.Dialogue.{at_end, login_message, report_message}
use eiptnd.Wialon.Answers.{late_answer_overruns}
use eiptnd.Wialon.Events.{
  Reach, here, next, starts, reads, admits, Reach-Inv_of_create, Reach-IsClosed, IsClosed,
}
use eiptnd.Wialon.BlackBox.{next_block_lost}
use eiptnd.Wialon.Reading.{read_message_total, read_message_line}

abbrev pub wialon : Library
wialon = record {
  tree = plain_tree;
  estimates_map = assoc_map equal equal_iff;
  buffer = byte_buffer;
  numeral = decimal;
  tokens = split [];
  authenticates = λ id password. some true;
}

-- The same, with an api that calls back later.
abbrev later : Library
later = record wialon { authenticates = λ id password. none }

abbrev pub fresh : Parser wialon
fresh = record {
  sbuf = [];
  estimate = 0;
  tree_at = 0;
  tree = [];
  multicommand = 0;
  authenticated = false;
  is_parser_error = false;
  state = state_initial;
  cmd = [];
  current_cmd = none;
  calls = [];
}

-- A login has arrived.
abbrev waiting : Parser wialon
waiting = record fresh { sbuf = codes "#L#imei;pass\r\n" }

-- A user is logged in.
abbrev pub user : Parser wialon
user = record fresh { authenticated = true }

-- The same with the other api.
abbrev begun : Parser later
begun = record {
  sbuf = [];
  estimate = 0;
  tree_at = 0;
  tree = [];
  multicommand = 0;
  authenticated = false;
  is_parser_error = false;
  state = state_initial;
  cmd = [];
  current_cmd = none;
  calls = [];
}

abbrev waiting_later : Parser later
waiting_later = record begun { sbuf = codes "#L#imei;pass\r\n" }

waiting_later-Inv : Inv waiting_later
waiting_later-Inv = record { counter = omega arith; place = tt }

handle_read-Quiet_example : Quiet waiting_later (handle_read waiting_later)
handle_read-Quiet_example = handle_read-Quiet waiting_later refl waiting_later-Inv

report_message_example :
    handle_message (codes "#M#hello") user
    ≡ ok (record (at_end command_message (codes "hello" ∷ []) user) {
      state = state_initial;
      calls =
          do_read_until crlf
          ∷ process_data 1 (put_all plain_tree (parameters command_message) (codes "hello" ∷ []) [])
          ∷ [];
    })
unfolding equal
report_message_example =
    report_message (codes "#M#hello") [] command_message (codes "hello" ∷ []) user refl refl refl
      refl refl refl ((refl, refl), tt)

consume_message_example :
    consume_tokens (header [] command_message (codes "hello" ∷ [])) user
    ≡ ok (record (at_body command_message user) {
      estimate = 0;
      tree = put_all plain_tree (parameters command_message) (codes "hello" ∷ []) [];
      state = body_end command_message;
    })
unfolding equal
consume_message_example =
    consume_message [] command_message (codes "hello" ∷ []) user refl refl (inr refl) (λ e. cc) refl
      ((refl, refl), tt)

abbrev login : List Bytes
login = codes "imei" ∷ codes "pass" ∷ []

login_message_example :
    handle_message (codes "#L#imei;pass") fresh
    ≡ ok (record (at_end command_login login fresh) {
      state = state_initial;
      authenticated = true;
      calls =
          do_read_until crlf
          ∷ do_write (codes "#AL#1\r\n")
          ∷ authenticate (codes "imei") (codes "pass")
          ∷ [];
    })
unfolding equal
login_message_example =
    login_message (codes "#L#imei;pass") [] (codes "imei") (codes "pass") (some true) fresh refl
      refl refl ((refl, refl), ((refl, refl), tt)) refl

-- A login is being checked.
abbrev checked : Parser wialon
checked = record fresh { cmd = codes "L"; current_cmd = some command_login }

-- A report of a position is being stored.
abbrev stored : Parser wialon
stored = record user { cmd = codes "D"; current_cmd = some command_data }

abbrev long_word : Bytes
long_word = codes "ABCDEFGHIJKLMNOPQRSTUVWXYZA"

unknown : (c : Command) → long_word ≢ name c
unknown c e = omega (arith, length-name_le c, ap length e)

late_answer_overruns_example :
    (handle_message (codes "#ABCDEFGHIJKLMNOPQRSTUVWXYZA") stored >>= λ t.
    handle_process_data true t)
    ≡ err buffer_overrun
unfolding equal
late_answer_overruns_example =
    late_answer_overruns true command_data (codes "#ABCDEFGHIJKLMNOPQRSTUVWXYZA") [] long_word
      stored refl refl refl refl refl refl unknown (omega arith)

-- A first block of a black box is complete.
abbrev behind_block : Parser wialon
behind_block = record user {
  tree_at = 1;
  state = state_bar;
  cmd = codes "B";
  current_cmd = some command_blackbox;
}

next_block_lost_example :
    consume_tokens (codes "|" ∷ codes "1" ∷ codes "2" ∷ []) behind_block
    ≡ ok (record behind_block {
      state = state_skip_to_bar_or_end;
      is_parser_error = true;
      calls = process_data 1 [] ∷ process_data 1 [] ∷ [];
    })
unfolding equal
next_block_lost_example =
    next_block_lost (codes "1") (codes "2") [] behind_block refl refl refl
      ((refl, refl), ((refl, refl), tt))

abbrev block : List Bytes
block =
    codes "a"
    ∷ codes "b"
    ∷ codes "c"
    ∷ codes "d"
    ∷ codes "e"
    ∷ codes "f"
    ∷ codes "g"
    ∷ codes "h"
    ∷ codes "i"
    ∷ codes "j"
    ∷ codes "k"
    ∷ codes "l"
    ∷ codes "m"
    ∷ codes "n"
    ∷ codes "o"
    ∷ codes "p"
    ∷ []

read_message_total_example : read_message byte_buffer 5 [] (codes "ab\r\n") ≢ err out_of_fuel
read_message_total_example = read_message_total byte_buffer 5 [] (codes "ab\r\n") (omega arith)

read_message_line_example :
    (b : Bytes) × (read_message byte_buffer 1 [] (codes "ab\r\ncdefg")
      ≡ ok (message (codes "ab") b))
    × (b ≡ drop 4 (codes "cdefg"))
unfolding hits_end
read_message_line_example =
    read_message_line byte_buffer 0 [] (codes "ab") (codes "cdefg") (codes "ab\r\ncdefg") refl refl

-- An object whose members that the constructor leaves alone hold 5, 7 and true has started.
abbrev started : Parser later
started = record begun {
  estimate = 5;
  multicommand = 7;
  is_parser_error = true;
  calls = do_read_until crlf ∷ [];
}

-- A login has been read, and then rejected.
abbrev asked : Parser later
asked = record started {
  estimate = 0;
  tree_at = 1;
  tree = (codes "password", codes "pass") ∷ ((codes "imei", codes "imei") ∷ []);
  multicommand = 0;
  is_parser_error = false;
  cmd = codes "L";
  current_cmd = some command_login;
  calls =
      do_read_until crlf ∷ (authenticate (codes "imei") (codes "pass") ∷ (do_read_until crlf ∷ []));
}

abbrev rejected : Parser later
rejected = record asked { calls = do_write (reply_text (codes "L") (codes "01")) ∷ asked.calls }

rejected_login : Reach (create later 5 7 true) rejected
unfolding create handle_start handle_read read_message read_round getline line handle_message
    parse_string consume_tokens consume_token step select_command estimates estimates_onto equal
    body_token put_field finish_line commit_command commit handle_authenticate answer
rejected_login =
    next
      (next (next here (starts {s = create later 5 7 true} {t = started} refl))
        (reads (codes "#L#imei;pass\r\n") {s = started} {t = asked} refl))
      (admits false {s = asked} {t = rejected} refl)

Reach-Inv_of_create_example : Inv rejected
Reach-Inv_of_create_example = Reach-Inv_of_create 5 7 true (omega arith) rejected_login

Reach-IsClosed_example : IsClosed rejected
unfolding rejected_login
Reach-IsClosed_example = Reach-IsClosed 5 7 true (omega arith) rejected_login refl
