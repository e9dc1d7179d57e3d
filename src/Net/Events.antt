-- ===== src/Net/Events.antt =====
-- A server with its connections, whatever completes in whatever order.
use eiptnd.Prelude.{
  ℕ, ◌+◌, ◌≡◌, ◌↔◌, refl, sym, ap, ◌∙◌, Bool, false, List, ◌∷◌, ◌++◌, Bytes, length, length-append,
  arith,
}
use mathlib.Core.Path.{subst}
use Prim.{Unit, tt}
use eiptnd.Net.Session.{
  Read, Translator, Result, ok, err, thrown, Session, create, on_connection, release_connection,
  read_completes, write_completes, answer, close,
}
use eiptnd.Net.Lifetime.{
  under_way, Counted, Counts, on_connection-Counts, release_connection-Counted,
  read_completes-Counts, write_completes-Counts, answer-Counts,
}
use eiptnd.Net.Each.{Reach-each}
use eiptnd.Net.Server.{
  Server, start_accept, handle_accept, SessionStep, read_done, write_done, answered, Step,
  accept_done, runs, cancels, cancel, closed, Reach, here, next, opened,
}

abbrev pub OnlyThrown : {T : Translator} → Result (Session T) → Type 0
OnlyThrown (ok x) = Unit {0}
OnlyThrown (err f) = f ≡ thrown

Counts-OnlyThrown :
    {T : Translator} (m n : ℕ) (r : Result (Session T)) → Counts m n r → OnlyThrown r
Counts-OnlyThrown m n (ok t) v = tt
Counts-OnlyThrown m n (err f) v = v

module _ {T : Translator} where
  kept : (r : Result (Session T)) {t : Session T} → Counts 0 0 r → r ≡ ok t → Counted 0 0 t
  kept (ok u) {t} v e = subst (Counted 0 0) {x = u} {y = t} (ground arith) v
  kept (err f) v e = absurd cc

  pub SessionStep-Counted : (s t : Session T) → SessionStep s t → Counted 0 0 s → Counted 0 0 t
  unfolding close
  SessionStep-Counted s t (read_done before after r b bs n q e) v =
      kept _ (read_completes-Counts before after r b bs n _ q v) e
  SessionStep-Counted s t (write_done before after x b q e) v =
      kept _ (write_completes-Counts before after x b _ q v) e
  SessionStep-Counted s t (answered before after k b q e) v =
      kept _ (answer-Counts before after k b _ q v) e
  SessionStep-Counted s t (closed e) v =
      subst (Counted 0 0) e (record { translator = v.translator; connection = v.connection })

  accepted-Counted :
      (t : T.State) (u : Session T)
      → on_connection (create t) ≡ ok u
      → Counted 0 0 (release_connection u)
  accepted-Counted t u e = given_up (on_connection (create t)) (on_connection-Counts T t) e
    where
      given_up :
          (r : Result (Session T)) → Counts 0 1 r → r ≡ ok u → Counted 0 0 (release_connection u)
      given_up (ok x) v h =
          subst (λ y. Counted 0 0 (release_connection y)) {x = x} {y = u} (ground arith)
            (release_connection-Counted 0 0 x v)
      given_up (err f) v h = absurd cc

  pub Reach-Counted :
      (a b : T.State) (s : Server T) (before after : List (Session T)) (x : Session T)
      → Reach (start_accept a (opened b)) s
      → s.sessions ≡ before ++ (x ∷ after)
      → Counted 0 0 x
  Reach-Counted = Reach-each (Counted 0 0) accepted-Counted SessionStep-Counted

  -- Whatever completes in whatever order, as long as no handler of a translator throws: each
  -- connection that a server accepted is destroyed exactly when no read and no write is under way
  -- and no callback waits, and so is its translator.
  pub Reach-destroyed :
      (a b : T.State) (s : Server T) (before after : List (Session T)) (x : Session T)
      → Reach (start_accept a (opened b)) s
      → s.sessions ≡ before ++ (x ∷ after)
      → ((x.connection_refs ≡ 0) ↔ (under_way x + length x.asked ≡ 0))
        × ((x.translator_refs ≡ 0) ↔ (under_way x + length x.asked ≡ 0))
  Reach-destroyed a b s before after x r q =
      let v = Reach-Counted a b s before after x r q in
      let e = v.translator in
      let f = v.connection in
      (
        ((λ h. ground arith), (λ h. ground arith)),
        ((λ h. omega (arith, e, h)), (λ h. omega (arith, e, h))),
      )

  -- Whatever completes in whatever order, as long as no handler of a translator throws: when a read
  -- or a write of a connection completes or a callback is called, the only fault is that a handler
  -- throws; no operation is started for a translator that was destroyed.
  pub Reach-OnlyThrown :
      (a b : T.State) (s : Server T) (before after : List (Session T)) (x : Session T)
      → Reach (start_accept a (opened b)) s
      → s.sessions ≡ before ++ (x ∷ after)
      → ((i j : List Read) (r : Read) (success : Bool) (bytes : Bytes) (n : ℕ)
          → x.reads ≡ i ++ (r ∷ j)
          → OnlyThrown (read_completes i j success bytes n x))
        × ((i j : List Bytes) (w : Bytes) (success : Bool)
            → x.writes ≡ i ++ (w ∷ j)
            → OnlyThrown (write_completes i j success x))
        × ((i j : List T.Question) (k : T.Question) (is_ok : Bool)
            → x.asked ≡ i ++ (k ∷ j)
            → OnlyThrown (answer i k j is_ok x))
  Reach-OnlyThrown a b s before after x r q =
      let v = Reach-Counted a b s before after x r q in
      (
        (λ i j r' success bytes n e.
            Counts-OnlyThrown 0 0 _ (read_completes-Counts i j r' success bytes n x e v)),
        (λ i j w success e. Counts-OnlyThrown 0 0 _ (write_completes-Counts i j w success x e v)),
        (λ i j k is_ok e. Counts-OnlyThrown 0 0 _ (answer-Counts i j k is_ok x e v)),
      )

  stopped :
      {s t : Server T}
      → Step s t
      → s.accepting ≡ false
      → (t.accepting ≡ false) × (length t.sessions ≡ length s.sessions)
  unfolding cancel
  stopped (accept_done b u h e) g = absurd cc
  stopped {s} {t} (runs before after {x} {y} q st e) g = (
    ap (λ z. z.accepting) e ∙ g,
    omega (
      arith,
      ap (λ z. length z.sessions) e,
      ap length q,
      length-append before (x ∷ after),
      length-append before (y ∷ after),
    ),
  )
  stopped {s} {t} (cancels e) g =
      (ap (λ z. z.accepting) (sym e) ∙ g, ap (λ z. length z.sessions) (sym e))

  Reach-stopped :
      {s t : Server T}
      → Reach s t
      → s.accepting ≡ false
      → (t.accepting ≡ false) × (length t.sessions ≡ length s.sessions)
  Reach-stopped here g = (g, refl)
  Reach-stopped (next r st) g =
      let (h, n) = Reach-stopped r g in let (k, m) = stopped st h in (k, m ∙ n)

  -- When an accept fails, with any error, the server accepts no connection any more, whatever
  -- completes afterwards: it has as many as when the accept failed.
  pub handle_accept-Reach :
      (u : T.State) (s t r : Server T)
      → handle_accept false u s ≡ ok r
      → Reach r t
      → (t.accepting ≡ false) × (length t.sessions ≡ length s.sessions)
  unfolding handle_accept
  handle_accept-Reach u s t r e p =
      let q : record s { accepting = false } ≡ r = ground arith in
      let (h, n) = Reach-stopped p (ap (λ x. x.accepting) (sym q)) in
      (h, n ∙ ap (λ x. length x.sessions) (sym q))
