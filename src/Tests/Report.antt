-- ===== src/Tests/Report.antt =====
-- A client who logs in and sends a text, which goes to one dispatcher.
use Prim.{tt}
use eiptnd.Prelude.{◌≡◌, refl, true, [], ◌∷◌, ◌++◌, codes, equal, map}
use eiptnd.Boost.Io.{hits_end}
use eiptnd.Boost.Instances.{plain_tree}
use eiptnd.Wialon.Protocol.{command_message}
use eiptnd.Wialon.Machine.{Parser, ok, create, do_read_until, authenticate, process_data, do_write}
use eiptnd.Wialon.Token.{crlf}
use eiptnd.Wialon.Session.{handle_start, handle_read}
use eiptnd.Wialon.Events.{received}
use eiptnd.Wialon.Fields.{put_all, parameters}
use eiptnd.Router.Routes.{Router, load_settings, targets}
use eiptnd.Router.Routes
use eiptnd.Router.Combiner.{answers}
use eiptnd.Router.Process
use eiptnd.Report.{called_back}
use eiptnd.Report.Transcript.{handle_start-called_back}
use eiptnd.Tests.Router.{routing, bare, bare-Inv, settings}
use eiptnd.Tests.Wialon.{wialon}

handle_start-called_back_example :
    (r : Router routing) × (t v w : Parser wialon) × (load_settings settings bare ≡ Routes.ok r)
    × (handle_read (received (codes "#L#imei;pass" ++ crlf) (handle_start (create wialon 0 0 true)))
        ≡ ok t)
    × (handle_read (received (codes "#M#hello" ++ crlf) t) ≡ ok v)
    × (called_back
          (Process.outcome
            (Process.process_data (targets (1234, codes "wialon") r))
            (map answers (true ∷ [])))
          v
        ≡ ok w)
    × (w.calls
        ≡ do_write (codes "#AM#1\r\n")
          ∷ do_read_until crlf
          ∷ process_data 2 (put_all plain_tree (parameters command_message) (codes "hello" ∷ []) [])
          ∷ do_read_until crlf
          ∷ do_write (codes "#AL#1\r\n")
          ∷ authenticate (codes "imei") (codes "pass")
          ∷ do_read_until crlf
          ∷ [])
unfolding equal hits_end Routes.authenticate
handle_start-called_back_example =
    handle_start-called_back settings bare (1234, codes "wialon") (true ∷ []) (codes "#L#imei;pass")
      [] (codes "imei") (codes "pass") 0 0 true (codes "#M#hello") [] command_message
      (codes "hello" ∷ []) (λ id secret at. refl) refl bare-Inv refl refl refl refl refl
      ((refl, refl), ((refl, refl), tt)) refl refl refl refl refl refl ((refl, refl), tt)
