-- ===== src/Net/OneRead.antt =====
-- A connection reads no two things at once, if its translator starts reads one after another.
use Prim.{tt, Unit}
use eiptnd.Prelude.{
  ℕ, suc, ◌+◌, ◌≤◌, ◌≡◌, refl, ap, ◌∙◌, Bool, true, false, ◌&&◌, Option, none, some, List, [], ◌∷◌,
  ◌++◌, Bytes, length, length-append, arith, ◌==◌, ltb, Bool-cases, inl, inr,
}
use mathlib.Core.Path.{subst}
use eiptnd.Net.Session.{
  Read, Request, do_read, do_write, ask, Translator, Result, ok, err, ◌>>=◌, Session, create,
  start_read, start_write, perform, perform_all, handled, release_connection, release_translator,
  on_connection, handle_read, handle_write, read_completes, write_completes, answer, close,
}
use eiptnd.Net.Lifetime.{removed_one}
use eiptnd.Net.Each.{Reach-each}
use eiptnd.Net.Server.{
  Server, start_accept, SessionStep, read_done, write_done, answered, closed, Reach, opened,
}

abbrev pub reads_of : {Q : Type 0} → List (Request Q) → ℕ
reads_of [] = 0
reads_of (do_read r ∷ qs) = suc (reads_of qs)
reads_of (do_write b ∷ qs) = reads_of qs
reads_of (ask q ∷ qs) = reads_of qs

-- A handler that throws, or starts `n` reads at most.
abbrev pub Reads : {S Q : Type 0} → ℕ → Option (S × List (Request Q)) → Type 0
Reads n none = Unit {0}
Reads n (some (t, qs)) = reads_of qs ≤ n

-- A translator that starts one read, and another only when one has completed.
pub record OneRead (T : Translator) : Type 0 where
  pub start : (t : T.State) → Reads 1 (T.handle_start t)
  pub read : (n : ℕ) (t : T.State) → Reads 1 (T.handle_read n t)
  pub write : (t : T.State) → Reads 0 (T.handle_write t)
  pub answer : (q : T.Question) (is_ok : Bool) (t : T.State) → Reads 0 (T.handle_answer q is_ok t)

module _ {T : Translator} where
  -- No more than `n` reads are under way.
  abbrev AtMost : ℕ → Result (Session T) → Type 0
  AtMost n (ok t) = length t.reads ≤ n
  AtMost n (err f) = Unit {0}

  perform_all-AtMost :
      (qs : List (Request T.Question)) (s : Session T)
      → AtMost (length s.reads + reads_of qs) (perform_all qs s)
  unfolding perform_all perform start_read start_write
  perform_all-AtMost [] s = omega arith
  perform_all-AtMost (do_read r ∷ qs) s =
      let t : Session T = record s {
        translator_refs = s.translator_refs + 1;
        connection_refs = s.connection_refs + 1;
        reads = s.reads ++ (r ∷ []);
      } in
      elim (Bool-cases (s.translator_refs == 0)) [
        | inl h ↦ rw h tt
        | inr h ↦ rw h (
            subst (λ n. AtMost n (perform_all qs t)) (omega (arith, length-append s.reads (r ∷ [])))
              (perform_all-AtMost qs t))
      ]
  perform_all-AtMost (do_write b ∷ qs) s = elim (Bool-cases (s.translator_refs == 0)) [
    | inl h ↦ rw h tt
    | inr h ↦ rw h (perform_all-AtMost qs _)
  ]
  perform_all-AtMost (ask q ∷ qs) s = elim (Bool-cases (s.translator_refs == 0)) [
    | inl h ↦ rw h tt
    | inr h ↦ rw h (perform_all-AtMost qs _)
  ]

  relaxed : (m n : ℕ) (r : Result (Session T)) → m ≤ n → AtMost m r → AtMost n r
  relaxed m n (ok t) h v = omega (arith, h, v)
  relaxed m n (err f) h v = tt

  bind-AtMost :
      (n : ℕ) (r : Result (Session T)) (f : Session T → Session T)
      → ((t : Session T) → (f t).reads ≡ t.reads)
      → AtMost n r
      → AtMost n (r >>= λ t. ok (f t))
  bind-AtMost n (ok t) f h v = omega (arith, ap length (h t), v)
  bind-AtMost n (err e) f h v = tt

  handled-AtMost :
      (m n : ℕ) (o : Option (T.State × List (Request T.Question))) (s : Session T)
      → Reads m o
      → length s.reads + m ≤ n
      → AtMost n (handled o s)
  unfolding handled
  handled-AtMost m n none s h l = tt
  handled-AtMost m n (some (t, qs)) s h l =
      relaxed _ n _ (omega (arith, h, l)) (perform_all-AtMost qs (record s { translator = t }))

  release_connection-reads : (s : Session T) → (release_connection s).reads ≡ s.reads
  unfolding release_connection
  release_connection-reads s = refl

  release_translator-reads : (s : Session T) → (release_translator s).reads ≡ s.reads
  unfolding release_translator release_connection
  release_translator-reads s = ground arith

  destroy_handler-reads :
      (s : Session T) → (release_connection (release_translator s)).reads ≡ s.reads
  destroy_handler-reads s =
      release_connection-reads (release_translator s) ∙ release_translator-reads s

  on_connection-AtMost : OneRead T → (t : T.State) → AtMost 1 (on_connection (create t))
  unfolding on_connection create
  on_connection-AtMost one t =
      bind-AtMost 1 _ release_translator release_translator-reads
        (handled-AtMost 1 1 (T.handle_start t) _ (one.start t) (omega arith))

  module _ (one : OneRead T) where
    read_completes-AtMost :
        (before after : List Read) (r : Read) (success : Bool) (bytes : Bytes) (n : ℕ)
        (s : Session T)
        → s.reads ≡ before ++ (r ∷ after)
        → length s.reads ≤ 1
        → AtMost 1 (read_completes before after success bytes n s)
    unfolding read_completes handle_read
    read_completes-AtMost before after r success bytes n s q h =
        let few : length (before ++ after) + 1 ≤ 1 =
          omega (arith, h, removed_one s.reads before after r q) in
        bind-AtMost 1 _ _ destroy_handler-reads (elim (Bool-cases (success && ltb 0 n)) [
          | inl g ↦ rw g (
              handled-AtMost 1 1 (T.handle_read n (T.received bytes s.translator)) _ (one.read n _)
                few)
          | inr g ↦ rw g (omega (arith, few))
        ])

    write_completes-AtMost :
        (before after : List Bytes) (success : Bool) (s : Session T)
        → length s.reads ≤ 1
        → AtMost 1 (write_completes before after success s)
    unfolding write_completes handle_write
    write_completes-AtMost before after true s h =
        bind-AtMost 1 _ _ destroy_handler-reads
          (handled-AtMost 0 1 (T.handle_write s.translator) _ (one.write _) (omega (arith, h)))
    write_completes-AtMost before after false s h =
        omega (arith, ap length (destroy_handler-reads (record s { writes = before ++ after })), h)

    answer-AtMost :
        (before after : List T.Question) (k : T.Question) (is_ok : Bool) (s : Session T)
        → length s.reads ≤ 1
        → AtMost 1 (answer before k after is_ok s)
    unfolding answer
    answer-AtMost before after k is_ok s h = bind-AtMost 1 _ _ release_translator-reads (
        handled-AtMost 0 1 (T.handle_answer k is_ok s.translator) _ (one.answer k is_ok _)
          (omega (arith, h)))

    on_wire : (r : Result (Session T)) {t : Session T} → AtMost 1 r → r ≡ ok t → length t.reads ≤ 1
    on_wire (ok u) {t} v e = subst (λ x. length x.reads ≤ 1) {x = u} {y = t} (ground arith) v
    on_wire (err f) v e = absurd cc

    SessionStep-reads_le :
        (s t : Session T) → SessionStep s t → length s.reads ≤ 1 → length t.reads ≤ 1
    unfolding close
    SessionStep-reads_le s t (read_done before after r b bs n q e) v =
        on_wire _ (read_completes-AtMost before after r b bs n s q v) e
    SessionStep-reads_le s t (write_done before after x b q e) v =
        on_wire _ (write_completes-AtMost before after b s v) e
    SessionStep-reads_le s t (answered before after k b q e) v =
        on_wire _ (answer-AtMost before after k b s v) e
    SessionStep-reads_le s t (closed e) v = omega (arith, ap (λ x. length x.reads) e, v)

    accepted-reads_le :
        (t : T.State) (u : Session T)
        → on_connection (create t) ≡ ok u
        → length (release_connection u).reads ≤ 1
    accepted-reads_le t u e =
        omega
          (arith, ap length (release_connection-reads u), on_wire _ (on_connection-AtMost one t) e)

    -- With such a translator no connection has more than one read under way, so no two reads fill
    -- one buffer, whatever completes in whatever order, as long as no handler throws.
    pub Reach-reads_le :
        (a b : T.State) (s : Server T) (before after : List (Session T)) (x : Session T)
        → Reach (start_accept a (opened b)) s
        → s.sessions ≡ before ++ (x ∷ after)
        → length x.reads ≤ 1
    Reach-reads_le = Reach-each (λ x. length x.reads ≤ 1) accepted-reads_le SessionStep-reads_le
