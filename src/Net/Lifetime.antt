-- ===== src/Net/Lifetime.antt =====
-- A connection and its translator live exactly as long as something can still call them.
use eiptnd.Prelude.{
  ℕ, suc, ◌+◌, ◌-◌, ◌<◌, ◌≡◌, refl, ap, Bool, true, false, ◌&&◌, Option, none, some, List, [], ◌∷◌,
  ◌++◌, Bytes, length, length-append, arith, if◌then◌else◌, ◌==◌, ltb, Bool-cases, inl, inr,
}
use eiptnd.Net.Session.{
  Read, Request, do_read, do_write, ask, Translator, thrown, Result, ok, err, ◌>>=◌, Session,
  create, start_read, start_write, perform, perform_all, handled, release_connection,
  release_translator, on_connection, handle_read, handle_write, destroy_handler, read_completes,
  write_completes, answer,
}

pub removed_one {ℓ} :
    {A : Type ℓ} (xs before after : List A) (x : A)
    → xs ≡ before ++ (x ∷ after)
    → length xs ≡ suc (length (before ++ after))
removed_one xs before after x e =
    omega (arith, ap length e, length-append before (x ∷ after), length-append before after)

module _ {T : Translator} where
  -- What may still run and holds both the connection and the translator.
  abbrev pub under_way : Session T → ℕ
  under_way s = length s.reads + length s.writes

  -- The counters, when `held` local pointers hold the translator and `held'` the connection. The
  -- translator itself holds the connection.
  pub record Counted (held held' : ℕ) (s : Session T) : Type 0 where
    pub translator : s.translator_refs ≡ under_way s + length s.asked + held
    pub connection :
        s.connection_refs ≡ under_way s + (if s.translator_refs == 0 then 0 else 1) + held'

  abbrev pub Counts : ℕ → ℕ → Result (Session T) → Type 0
  Counts held held' (ok t) = Counted held held' t
  Counts held held' (err f) = f ≡ thrown

  alive : {a b : ℕ} (s : Session T) → 0 < a → Counted a b s → (s.translator_refs == 0) ≡ false
  alive s h v = let e = v.translator in ground arith

  perform-Counts :
      (q : Request T.Question) (a b : ℕ) (s : Session T)
      → 0 < a
      → Counted a b s
      → Counts a b (perform q s)
  unfolding perform start_read start_write
  perform-Counts (do_read r) a b s h v =
      let e = v.translator in
      let f = v.connection in
      rw (alive s h v) (record {
        translator = omega (arith, e, length-append s.reads (r ∷ []));
        connection = ground (arith, length-append s.reads (r ∷ []));
      })
  perform-Counts (do_write bs) a b s h v =
      let e = v.translator in
      let f = v.connection in
      rw (alive s h v) (record {
        translator = omega (arith, e, length-append s.writes (bs ∷ []));
        connection = ground (arith, length-append s.writes (bs ∷ []));
      })
  perform-Counts (ask q) a b s h v =
      let e = v.translator in
      let f = v.connection in
      rw (alive s h v) (record {
        translator = omega (arith, e, length-append s.asked (q ∷ []));
        connection = ground arith;
      })

  bound-Counts :
      {a b : ℕ} (c d : ℕ) (r : Result (Session T)) (f : Session T → Result (Session T))
      → Counts a b r
      → ((t : Session T) → Counted a b t → Counts c d (f t))
      → Counts c d (r >>= f)
  bound-Counts c d (ok t) f v g = g t v
  bound-Counts c d (err e) f v g = v

  perform_all-Counts :
      (qs : List (Request T.Question)) (a b : ℕ) (s : Session T)
      → 0 < a
      → Counted a b s
      → Counts a b (perform_all qs s)
  unfolding perform_all
  perform_all-Counts [] a b s h v = v
  perform_all-Counts (q ∷ qs) a b s h v =
      bound-Counts a b (perform q s) (perform_all qs) (perform-Counts q a b s h v)
        (λ t w. perform_all-Counts qs a b t h w)

  handled-Counts :
      (o : Option (T.State × List (Request T.Question))) (a b : ℕ) (s : Session T)
      → 0 < a
      → Counted a b s
      → Counts a b (handled o s)
  unfolding handled
  handled-Counts none a b s h v = refl
  handled-Counts (some (t, qs)) a b s h v =
      perform_all-Counts qs a b (record s { translator = t }) h
        (record { translator = v.translator; connection = v.connection })

  release_translator-Counted :
      (a b : ℕ) (s : Session T) → Counted (suc a) b s → Counted a b (release_translator s)
  unfolding release_translator release_connection
  release_translator-Counted a b s v =
      let e = v.translator in
      let f = v.connection in
      elim (Bool-cases (s.translator_refs - 1 == 0)) [
        | inl h ↦ rw h (record { translator = omega (arith, e); connection = ground arith })
        | inr h ↦ rw h (record { translator = omega (arith, e); connection = ground arith })
      ]

  pub release_connection-Counted :
      (a b : ℕ) (s : Session T) → Counted a (suc b) s → Counted a b (release_connection s)
  unfolding release_connection
  release_connection-Counted a b s v =
      let e = v.connection in record { translator = v.translator; connection = omega (arith, e) }

  release_translator_ok :
      (a b : ℕ) (r : Result (Session T))
      → Counts (suc a) b r
      → Counts a b (r >>= λ t. ok (release_translator t))
  release_translator_ok a b r v =
      bound-Counts a b r (λ t. ok (release_translator t)) v
        (λ t w. release_translator-Counted a b t w)

  destroyed-Counts :
      (r : Result (Session T)) → Counts 1 1 r → Counts 0 0 (r >>= λ t. ok (destroy_handler t))
  destroyed-Counts r v =
      bound-Counts 0 0 r (λ t. ok (destroy_handler t)) v
        (λ t w.
          release_connection-Counted 0 0 (release_translator t)
            (release_translator-Counted 0 1 t w))

  handle_read-Counts :
      (success : Bool) (n : ℕ) (s : Session T)
      → Counted 1 1 s
      → Counts 1 1 (handle_read success n s)
  unfolding handle_read
  handle_read-Counts success n s v = elim (Bool-cases (success && ltb 0 n)) [
    | inl h ↦ rw h (handled-Counts (T.handle_read n s.translator) 1 1 s (omega arith) v)
    | inr h ↦ rw h v
  ]

  handle_write-Counts :
      (success : Bool) (s : Session T) → Counted 1 1 s → Counts 1 1 (handle_write success s)
  unfolding handle_write
  handle_write-Counts true s v = handled-Counts (T.handle_write s.translator) 1 1 s (omega arith) v
  handle_write-Counts false s v = v

  pub read_completes-Counts :
      (before after : List Read) (r : Read) (success : Bool) (bytes : Bytes) (n : ℕ) (s : Session T)
      → s.reads ≡ before ++ (r ∷ after)
      → Counted 0 0 s
      → Counts 0 0 (read_completes before after success bytes n s)
  unfolding read_completes
  read_completes-Counts before after r success bytes n s q v =
      let e = v.translator in
      let f = v.connection in
      let removed = removed_one s.reads before after r q in
      destroyed-Counts _ (
        handle_read-Counts success n _ (record {
          translator = omega (arith, e, removed);
          connection = omega (arith, f, removed);
        }))

  pub write_completes-Counts :
      (before after : List Bytes) (b : Bytes) (success : Bool) (s : Session T)
      → s.writes ≡ before ++ (b ∷ after)
      → Counted 0 0 s
      → Counts 0 0 (write_completes before after success s)
  unfolding write_completes
  write_completes-Counts before after b success s q v =
      let e = v.translator in
      let f = v.connection in
      let removed = removed_one s.writes before after b q in
      destroyed-Counts _ (
        handle_write-Counts success _ (record {
          translator = omega (arith, e, removed);
          connection = omega (arith, f, removed);
        }))

  pub answer-Counts :
      (before after : List T.Question) (k : T.Question) (is_ok : Bool) (s : Session T)
      → s.asked ≡ before ++ (k ∷ after)
      → Counted 0 0 s
      → Counts 0 0 (answer before k after is_ok s)
  unfolding answer
  answer-Counts before after k is_ok s q v =
      let e = v.translator in
      let f = v.connection in
      let removed = removed_one s.asked before after k q in
      release_translator_ok 0 0 _ (
        handled-Counts (T.handle_answer k is_ok s.translator) 1 0 _ (omega arith)
          (record { translator = omega (arith, e, removed); connection = omega (arith, f) }))

-- The connection that the server gives up when it waits for the next client.
pub on_connection-Counts :
    (T : Translator) (t : T.State) → Counts {T = T} 0 1 (on_connection (create t))
unfolding on_connection create
on_connection-Counts T t = release_translator_ok 0 1 _ (
    handled-Counts (T.handle_start t) 1 1
      (record {
        translator = t;
        translator_refs = 1;
        connection_refs = 2;
        reads = [];
        writes = [];
        asked = [];
        is_shutdown = false;
      })
      (omega arith) (record { translator = refl; connection = refl }))
