-- ===== src/Net/Draining.antt =====
-- When a socket fails, as it does when the client is gone or the socket is closed, all operations
-- under way complete with errors, and the connection goes.
use eiptnd.Prelude.{
  ◌≡◌, refl, ap, ◌∙◌, false, List, [], ◌∷◌, ◌++◌, Bytes, length, arith, if◌then◌else◌, ◌==◌,
}
use mathlib.Core.Path.{subst}
use eiptnd.Net.Session.{
  Read, Translator, Session, release_connection, release_translator, destroy_handler, handle_read,
  handle_write, read_completes, write_completes,
}
use eiptnd.Net.Lifetime.{Counted}
use eiptnd.Net.Server.{
  Server, start_accept, SessionStep, read_done, write_done, runs, Reach, here, next, opened,
}
use eiptnd.Net.Events.{SessionStep-Counted, Reach-Counted}

module _ {T : Translator} where
  -- Steps of one connection.
  data Runs (x : Session T) : Session T → Type 0 where
    stays : Runs x x
    goes : {y z : Session T} → Runs x y → SessionStep y z → Runs x z

  destroy_handler-kept :
      (s : Session T)
      → ((destroy_handler s).reads ≡ s.reads)
        × ((destroy_handler s).writes ≡ s.writes)
        × ((destroy_handler s).asked ≡ s.asked)
  unfolding release_translator release_connection
  destroy_handler-kept s = (ground arith, ground arith, ground arith)

  -- `y` is `x` when its reads, and then its writes, have failed.
  record Drained (x y : Session T) (left : List Bytes) : Type 0 where
    pub run : Runs x y
    pub counted : Counted 0 0 y
    pub reads : y.reads ≡ []
    pub writes : y.writes ≡ left
    pub asked : y.asked ≡ x.asked

  first : {x y z : Session T} → SessionStep x y → Runs y z → Runs x z
  first st stays = goes stays st
  first st (goes r st') = goes (first st r) st'

  fail_writes :
      (ws : List Bytes) (x : Session T)
      → Counted 0 0 x
      → x.reads ≡ []
      → x.writes ≡ ws
      → (y : Session T) × Drained x y []
  unfolding write_completes handle_write
  fail_writes [] x v r e =
      (x, record { run = stays; counted = v; reads = r; writes = e; asked = refl })
  fail_writes (w ∷ ws) x v r e =
      let s : Session T = record x { writes = ws } in
      let st : SessionStep x (destroy_handler s) = write_done [] ws w false e refl in
      let (k, l, m) = destroy_handler-kept s in
      let (y, d) =
        fail_writes ws (destroy_handler s) (SessionStep-Counted x (destroy_handler s) st v) (k ∙ r)
          l in
      (
        y,
        record {
          run = first st d.run;
          counted = d.counted;
          reads = d.reads;
          writes = d.writes;
          asked = d.asked ∙ m;
        },
      )

  fail_reads :
      (rs : List Read) (x : Session T)
      → Counted 0 0 x
      → x.reads ≡ rs
      → (y : Session T) × Drained x y x.writes
  unfolding read_completes handle_read
  fail_reads [] x v e =
      (x, record { run = stays; counted = v; reads = e; writes = refl; asked = refl })
  fail_reads (r ∷ rs) x v e =
      let s : Session T = record x { reads = rs; translator = T.received [] x.translator } in
      let st : SessionStep x (destroy_handler s) = read_done [] rs r false [] 0 e refl in
      let (k, l, m) = destroy_handler-kept s in
      let (y, d) =
        fail_reads rs (destroy_handler s) (SessionStep-Counted x (destroy_handler s) st v) k in
      (
        y,
        record {
          run = first st d.run;
          counted = d.counted;
          reads = d.reads;
          writes = d.writes ∙ l;
          asked = d.asked ∙ m;
        },
      )

  join : {x y z : Session T} → Runs x y → Runs y z → Runs x z
  join r stays = r
  join r (goes q st) = goes (join r q) st

  lift :
      (s : Server T) (before after : List (Session T)) {x y : Session T}
      → s.sessions ≡ before ++ (x ∷ after)
      → Runs x y
      → Reach s (record s { sessions = before ++ (y ∷ after) })
  lift s before after e stays = subst (λ l. Reach s (record s { sessions = l })) e here
  lift s before after e (goes r st) =
      next (lift s before after e r) (runs before after refl st refl)

  -- Whatever completed before, as long as no handler of a translator threw: for each connection
  -- that a server accepted, all reads and writes under way can complete with errors, one after
  -- another; then none is under way, no callback was called, the translator is held by the callbacks
  -- that wait and by nothing else, and where none waits the connection and its translator are
  -- destroyed.
  pub Reach-drains :
      (a b : T.State) (s : Server T) (before after : List (Session T)) (x : Session T)
      → Reach (start_accept a (opened b)) s
      → s.sessions ≡ before ++ (x ∷ after)
      → (y : Session T) × Reach s (record s { sessions = before ++ (y ∷ after) })
        × (y.reads ≡ [])
        × (y.writes ≡ [])
        × (y.asked ≡ x.asked)
        × (y.translator_refs ≡ length x.asked)
        × (y.connection_refs ≡ (if length x.asked == 0 then 0 else 1))
  Reach-drains a b s before after x r q =
      let (y, d) = fail_reads x.reads x (Reach-Counted a b s before after x r q) refl in
      let (z, e) = fail_writes y.writes y d.counted d.reads refl in
      let refs : z.translator_refs ≡ length x.asked = omega (
        arith,
        e.counted.translator,
        ap length e.reads,
        ap length e.writes,
        ap length e.asked,
        ap length d.asked,
      ) in
      (
        z,
        lift s before after q (join d.run e.run),
        e.reads,
        e.writes,
        e.asked ∙ d.asked,
        refs,
        ground (arith, e.counted.connection, refs, ap length e.reads, ap length e.writes),
      )
