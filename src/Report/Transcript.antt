-- ===== src/Report/Transcript.antt =====
-- All that a connection does for a new client who logs in and sends a report.
use eiptnd.Prelude.{
  ℕ, suc, some, false, ◌≡◌, refl, ap, ◌∙◌, Bool, true, List, [], ◌∷◌, ◌++◌, Bytes, codes, equal,
  length, map,
}
use eiptnd.Boost.Io.{hits_end}
use eiptnd.Wialon.Protocol.{Command, command_login, state_initial, name, arity}
use eiptnd.Wialon.Machine.{
  Parser, ok, ◌>>=◌, create, do_read_until, authenticate, process_data, do_write, reply_text,
  handle_authenticate,
}
use eiptnd.Wialon.Machine
use eiptnd.Wialon.Token.{crlf}
use eiptnd.Wialon.Session.{handle_start, handle_read}
use eiptnd.Wialon.Events.{received}
use eiptnd.Wialon.Fields.{AreOrdinary, header, put_all, parameters}
use eiptnd.Wialon.Dialogue.{is_report, login_message}
use eiptnd.Wialon.Answers
use eiptnd.Router.Routes.{RouteKey, Router, Settings, load_settings, targets}
use eiptnd.Router.Routes
use eiptnd.Router.Combiner.{answers}
use eiptnd.Router.Process
use eiptnd.Router.Targets.Steps.{Inv}
use eiptnd.Router.Targets.Settings.{is_ready}
use eiptnd.Report.{route, called_back, handle_read-handle_message, handle_read-called_back}

module _ {W : Machine.Library} where
  -- A new client has sent the line of a login, and the router has admitted the user.
  logged_in :
      (msg lead imei password : Bytes) (e m : ℕ) (p : Bool)
      → W.tokens msg ≡ header lead command_login (imei ∷ password ∷ [])
      → equal crlf lead ≡ false
      → AreOrdinary command_login (imei ∷ password ∷ [])
      → W.authenticates imei password ≡ some true
      → hits_end msg ≡ true
      → (t : Parser W) × (handle_read (received (msg ++ crlf) (handle_start (create W e m p)))
          ≡ ok t)
        × (t.state ≡ state_initial)
        × (t.authenticated ≡ true)
        × (t.tree_at ≡ 1)
        × (W.buffer.input t.sbuf ≡ [])
        × (t.calls
            ≡ do_read_until crlf
              ∷ do_write (reply_text (codes "L") (codes "1"))
              ∷ authenticate imei password
              ∷ do_read_until crlf
              ∷ [])
  unfolding handle_start create
  logged_in msg lead imei password e m p tk o ord a h =
      let s : Parser W = received (msg ++ crlf) (handle_start (create W e m p)) in
      let arrived =
        W.buffer.input-commit (msg ++ crlf) W.buffer.empty
        ∙ ap (λ b. b ++ (msg ++ crlf)) W.buffer.input-empty in
      let (b, f, empty) = handle_read-handle_message msg s arrived h in
      let s' : Parser W = record s { sbuf = b } in
      (
        _,
        f ∙ login_message msg lead imei password (some true) s' refl tk o ord a,
        refl,
        refl,
        refl,
        empty,
        refl,
      )

module _ {W : Machine.Library} {R : Routes.Library} where
  -- The translator's `authenticate` is that of the router, which calls back before it returns. A
  -- new router loads settings that name loaded dispatchers only, each of which takes its own
  -- settings, and whose ports are numbers. A new client sends one line with a login. Then the client
  -- sends one line with a report of as many tokens as its command takes, none of them an end of line,
  -- and each of the dispatchers whose settings list the port and the translator of the connection
  -- answers. No handler fails, and the calls that the translator makes are these, in this order: it
  -- reads; it asks for authentication with the texts of the login, writes "#AL#1" and reads; it hands
  -- over the tree of the report once, with every parameter under its name, and reads; and it writes
  -- one answer to the report, "1" if there is such a dispatcher and all of them answered true, else
  -- "-1" to a position and "0" to a text.
  pub handle_start-called_back :
      (settings : Settings) (r : Router R) (key : RouteKey) (bs : List Bool)
      (login lead imei password : Bytes) (e m : ℕ) (p : Bool) (msg start : Bytes) (c : Command)
      (toks : List Bytes)
      → ((id secret : Bytes) (at : Router R)
          → W.authenticates id secret ≡ Routes.authenticate id secret some at)
      → is_ready R settings r.loaded_dispatchers ≡ true
      → Inv r
      → targets key r ≡ []
      → r.created ≡ 0
      → length bs ≡ length (route key settings)
      → W.tokens login ≡ header lead command_login (imei ∷ password ∷ [])
      → equal crlf lead ≡ false
      → AreOrdinary command_login (imei ∷ password ∷ [])
      → hits_end login ≡ true
      → hits_end msg ≡ true
      → is_report c ≡ true
      → W.tokens msg ≡ header start c toks
      → length toks ≡ arity c
      → equal crlf start ≡ false
      → AreOrdinary c toks
      → (r' : Router R) × (t v w : Parser W) × (load_settings settings r ≡ Routes.ok r')
        × (handle_read (received (login ++ crlf) (handle_start (create W e m p))) ≡ ok t)
        × (handle_read (received (msg ++ crlf) t) ≡ ok v)
        × (called_back (Process.outcome (Process.process_data (targets key r')) (map answers bs)) v
            ≡ ok w)
        × (w.calls
            ≡ do_write (reply_text (name c) (Answers.verdict c (Process.verdict bs)))
              ∷ do_read_until crlf
              ∷ process_data 2 (put_all W.tree (parameters c) toks W.tree.empty)
              ∷ do_read_until crlf
              ∷ do_write (reply_text (codes "L") (codes "1"))
              ∷ authenticate imei password
              ∷ do_read_until crlf
              ∷ [])
  unfolding Routes.authenticate
  handle_start-called_back settings r key bs login lead imei password e m p msg start c toks api
        ready i n z l tk o ord h h' rep tk' len o' ord' =
      let (t, read, st, au, tree, empty, calls) =
        logged_in login lead imei password e m p tk o ord (api imei password r) h in
      let arrived =
        W.buffer.input-commit (msg ++ crlf) t.sbuf ∙ ap (λ b. b ++ (msg ++ crlf)) empty in
      let (r', v, w, loaded, read', _, calls', told, calls'') =
        handle_read-called_back settings r key bs msg start c toks (received (msg ++ crlf) t) ready
          i n z l arrived h' st au rep tk' len o' ord' in
      let put = put_all W.tree (parameters c) toks W.tree.empty in
      (
        r',
        t,
        v,
        w,
        loaded,
        read,
        read',
        told,
        calls''
            ∙ ap
                (λ cs. do_write (reply_text (name c) (Answers.verdict c (Process.verdict bs))) ∷ cs)
                (calls'
                  ∙ (ap (λ n. do_read_until crlf ∷ process_data (suc n) put ∷ t.calls) tree
                      ∙ ap (λ cs. do_read_until crlf ∷ process_data 2 put ∷ cs) calls)),
      )
