-- ===== src/Report.antt =====
-- A report on its way through the program: from a connection of a translator of Wialon messages
-- through the request router of src/request_router.cpp to the dispatchers of its route, and back as
-- the answer to the client.
pub mod Transcript
use eiptnd.Prelude.{
  suc, ◌≡◌, refl, ap, sym, ◌∙◌, Bool, true, false, List, [], ◌∷◌, ◌++◌, Bytes, equal, length, map,
  drop_nil, arith, if◌then◌else◌, ◌+◌, ◌%◌, ◌^◌,
}
use eiptnd.Wialon.Protocol.{Command, state_initial, name, arity, is_blackbox}
use eiptnd.Wialon.Machine.{
  Parser, Result, ok, ◌>>=◌, do_read_until, process_data, do_write, reply_text,
}
use eiptnd.Wialon.Machine
use eiptnd.Wialon.Token.{crlf}
use eiptnd.Wialon.Session.{
  read_message, handle_input, handle_read, handle_message, handle_process_data,
}
use eiptnd.Wialon.Reading.{read_message_line}
use eiptnd.Boost.Io.{hits_end}
use eiptnd.Wialon.Fields.{AreOrdinary, header, put_all, parameters}
use eiptnd.Wialon.Dialogue.{is_report, report_message, at_end}
use eiptnd.Wialon.Answers
use eiptnd.Router.Routes.{RouteKey, Router, Settings, load_settings, targets}
use eiptnd.Router.Routes
use eiptnd.Router.Combiner.{answers}
use eiptnd.Router.Process
use eiptnd.Router.Targets.Steps.{Inv}
use eiptnd.Router.Targets.Settings.{is_ready, picks, settings_of, load_settings-targets}

-- The callback of the router is called with these values, one after another.
abbrev pub called_back : {W : Machine.Library} → List Bool → Parser W → Result (Parser W)
called_back [] s = ok s
called_back (is_ok ∷ rest) s = handle_process_data is_ok s >>= λ t. called_back rest t

-- The dispatchers of a route, as the settings name them: what `load_settings` makes of a router
-- that has loaded its dispatchers and nothing else.
abbrev pub route : RouteKey → Settings → List Routes.Dispatcher
route key settings = picks key (settings_of 0 settings)

report_lem : (c : Command) → is_report c ≡ true → is_blackbox c ≡ false
report_lem c h = ground arith

module _ {W : Machine.Library} where
  -- The one line in the buffer is the message.
  pub handle_read-handle_message :
      (msg : Bytes) (s : Parser W)
      → W.buffer.input s.sbuf ≡ msg ++ crlf
      → hits_end msg ≡ true
      → (b : W.buffer.Buf) × (handle_read s ≡ handle_message msg (record s { sbuf = b }))
        × (W.buffer.input b ≡ [])
  unfolding handle_read
  handle_read-handle_message msg s e h =
      let n = length (W.buffer.input s.sbuf) in
      let fuel : n + 1 ≡ suc n = omega arith in
      let (b, f, g) = read_message_line W.buffer n [] msg [] s.sbuf e h in
      (
        b,
        ap (λ k. read_message W.buffer k [] s.sbuf >>= λ i. handle_input i s) fuel
            ∙ ap (λ r. r >>= λ i. handle_input i s) f,
        g ∙ drop_nil (length msg + 2),
      )

module _ {W : Machine.Library} {R : Routes.Library} where
  -- The settings of a new router, which name loaded dispatchers only, each of which takes its own
  -- settings, and whose ports are numbers, are loaded. A user who is logged in sends one line: a
  -- report with as many tokens as its command takes, none of them an end of line. Each of the
  -- dispatchers answers whose settings list the port and the translator of the connection. Then
  -- `handle_read` takes the line from the buffer, hands the tree over once, with every parameter
  -- under its name, and reads on; and when the callback is called, exactly one reply is written: "1"
  -- if there is such a dispatcher and all of them answered true, else "-1" to a position and "0" to a
  -- text.
  pub handle_read-called_back :
      (settings : Settings) (r : Router R) (key : RouteKey) (bs : List Bool) (msg lead : Bytes)
      (c : Command) (toks : List Bytes) (s : Parser W)
      → is_ready R settings r.loaded_dispatchers ≡ true
      → Inv r
      → targets key r ≡ []
      → r.created ≡ 0
      → length bs ≡ length (route key settings)
      → W.buffer.input s.sbuf ≡ msg ++ crlf
      → hits_end msg ≡ true
      → s.state ≡ state_initial
      → s.authenticated ≡ true
      → is_report c ≡ true
      → W.tokens msg ≡ header lead c toks
      → length toks ≡ arity c
      → equal crlf lead ≡ false
      → AreOrdinary c toks
      → (r' : Router R) × (t u : Parser W) × (load_settings settings r ≡ Routes.ok r')
        × (handle_read s ≡ ok t)
        × (W.buffer.input t.sbuf ≡ [])
        × (t.calls
            ≡ do_read_until crlf
              ∷ process_data (suc s.tree_at) (put_all W.tree (parameters c) toks W.tree.empty)
              ∷ s.calls)
        × (called_back (Process.outcome (Process.process_data (targets key r')) (map answers bs)) t
            ≡ ok u)
        × (u.calls
            ≡ do_write (reply_text (name c) (Answers.verdict c (Process.verdict bs))) ∷ t.calls)
  handle_read-called_back settings r key bs msg lead c toks s ready i n z l inp nolf b a rep tk len
        o ord =
      let (r', e, j, tg) = load_settings-targets settings r ready i in
      let all : targets key r' ≡ route key settings =
        tg key
        ∙ (ap (λ ds. ds ++ picks key (settings_of r.created settings)) n
            ∙ ap (λ k. picks key (settings_of k settings)) z) in
      let (buf, rd, empty) = handle_read-handle_message msg s inp nolf in
      let s' : Parser W = record s { sbuf = buf } in
      let t : Parser W = record (at_end c toks s') {
        state = state_initial;
        calls =
            do_read_until crlf
            ∷ process_data (suc s.tree_at) (put_all W.tree (parameters c) toks W.tree.empty)
            ∷ s.calls;
      } in
      let v = Process.verdict bs in
      let u : Parser W = record t {
        calls = do_write (reply_text (name c) (Answers.verdict c v)) ∷ t.calls;
      } in
      let once = Process.process_data_lem (targets key r') bs (l ∙ sym (ap length all)) in
      let reply : handle_process_data v t ≡ ok u =
        Answers.handle_process_data_lem v c t refl refl
        ∙ ap (λ x. ok (if x then record t { multicommand = (t.multicommand + 1) % 2 ^ 64 } else u))
            (report_lem c rep) in
      (
        r',
        t,
        u,
        e,
        rd ∙ report_message msg lead c toks s' b a rep tk len o ord,
        empty,
        refl,
        ap (λ x. called_back x t) once ∙ ap (λ x. x >>= λ y. ok y) reply,
        refl,
      )
