-- ===== src/Tests/Net.antt =====
-- A server for the translator of Wialon messages, with one client.
use eiptnd.Prelude.{
  ◌≡◌, ◌↔◌, ◌≤◌, ◌+◌, refl, Bool, true, false, List, [], ◌∷◌, ◌++◌, Bytes, ℕ, length,
}
use eiptnd.Wialon.Token.{crlf}
use eiptnd.Wialon.Session.{handle_start}
use eiptnd.Net.Session.{
  Read, until, Session, create, on_connection, handled, perform_all, perform, start_read,
  release_translator, release_connection, read_completes, write_completes, answer, handle_read,
}
use eiptnd.Net.Lifetime.{under_way}
use eiptnd.Net.Server.{
  Server, start_accept, handle_accept, opened, Reach, here, next, accept_done, runs, read_done,
}
use eiptnd.Net.Events.{Reach-destroyed, Reach-OnlyThrown, OnlyThrown, handle_accept-Reach}
use eiptnd.Net.Draining.{Reach-drains}
use eiptnd.Net.Wialon.{Question, translator, Reach-translator_reads_le}
use eiptnd.Tests.Wialon.{wialon, fresh}

-- The client is connected: a read is under way.
abbrev session : Session (translator wialon)
session = record {
  translator = fresh;
  translator_refs = 1;
  connection_refs = 2;
  reads = until crlf ∷ [];
  writes = [];
  asked = [];
  is_shutdown = false;
}

-- The client has closed its connection.
abbrev gone : Session (translator wialon)
gone = record {
  translator = fresh;
  translator_refs = 0;
  connection_refs = 0;
  reads = [];
  writes = [];
  asked = [];
  is_shutdown = false;
}

abbrev new : Session (translator wialon)
new = record {
  translator = fresh;
  translator_refs = 0;
  connection_refs = 1;
  reads = [];
  writes = [];
  asked = [];
  is_shutdown = false;
}

abbrev server : List (Session (translator wialon)) → Server (translator wialon)
server sessions = record {
  accepting = true;
  is_cancelled = false;
  new_connection = new;
  sessions = sessions;
}

accepted : Reach (start_accept fresh (opened {T = translator wialon} fresh)) (server (session ∷ []))
unfolding start_accept create handle_accept on_connection handled perform_all perform start_read
    release_translator release_connection handle_start
accepted = next here (accept_done true fresh refl refl)

closed : Reach (start_accept fresh (opened {T = translator wialon} fresh)) (server (gone ∷ []))
unfolding read_completes handle_read release_translator release_connection
closed = next accepted (
    runs [] [] {x = session} {y = gone} refl (read_done [] [] (until crlf) false [] 0 refl refl)
      refl)

Reach-destroyed_example :
    ((gone.connection_refs ≡ 0) ↔ (under_way gone + length gone.asked ≡ 0))
    × ((gone.translator_refs ≡ 0) ↔ (under_way gone + length gone.asked ≡ 0))
Reach-destroyed_example = Reach-destroyed fresh fresh (server (gone ∷ [])) [] [] gone closed refl

Reach-OnlyThrown_example :
    ((i j : List Read) (r : Read) (success : Bool) (bytes : Bytes) (n : ℕ)
      → session.reads ≡ i ++ (r ∷ j)
      → OnlyThrown (read_completes i j success bytes n session))
    × ((i j : List Bytes) (w : Bytes) (success : Bool)
        → session.writes ≡ i ++ (w ∷ j)
        → OnlyThrown (write_completes i j success session))
    × ((i j : List Question) (k : Question) (is_ok : Bool)
        → session.asked ≡ i ++ (k ∷ j)
        → OnlyThrown (answer i k j is_ok session))
Reach-OnlyThrown_example =
    Reach-OnlyThrown fresh fresh (server (session ∷ [])) [] [] session accepted refl

Reach-translator_reads_le_example : length session.reads ≤ 1
Reach-translator_reads_le_example =
    Reach-translator_reads_le wialon fresh fresh (server (session ∷ [])) [] [] session accepted refl

Reach-drains_example :
    (y : Session (translator wialon)) × Reach (server (session ∷ [])) (server (y ∷ []))
    × (y.reads ≡ [])
    × (y.writes ≡ [])
    × (y.asked ≡ [])
    × (y.translator_refs ≡ 0)
    × (y.connection_refs ≡ 0)
Reach-drains_example = Reach-drains fresh fresh (server (session ∷ [])) [] [] session accepted refl

-- An accept fails while one client is connected.
abbrev failed : List (Session (translator wialon)) → Server (translator wialon)
failed sessions = record (server sessions) { accepting = false }

handle_accept-Reach_example :
    ((failed (gone ∷ [])).accepting ≡ false)
    × (length (failed (gone ∷ [])).sessions ≡ length (server (session ∷ [])).sessions)
unfolding handle_accept read_completes handle_read release_translator release_connection
handle_accept-Reach_example =
    handle_accept-Reach fresh (server (session ∷ [])) (failed (gone ∷ [])) (failed (session ∷ []))
      refl
      (next here (
        runs [] [] {x = session} {y = gone} refl (read_done [] [] (until crlf) false [] 0 refl refl)
          refl))
