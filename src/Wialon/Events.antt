-- ===== src/Wialon/Events.antt =====
-- The whole session of a translator: bytes arrive, reads complete, and the answers of the request
-- router come back, in any order.
use eiptnd.Prelude.{
  ℕ, zero, suc, ◌-◌, ◌+◌, ◌%◌, ◌^◌, ◌<◌, ◌≡◌, refl, ◌∙◌, Bool, true, false, List, Bytes, arith,
  codes, leb, length, Option, none, some, if◌then◌else◌,
}
use Prim.{tt, Unit}
use mathlib.Core.Path.{subst}
use eiptnd.Wialon.Protocol.{
  State, state_initial, state_imei, state_command, state_body, state_hash_first, state_hash_second,
  state_bar, state_end, state_skip_to_bar_or_end, state_skip_to_end, state_binary_data, Command,
  is_blackbox,
}
use eiptnd.Wialon.Machine.{
  Library, Parser, Result, ok, err, ◌>>=◌, Call, create, answer, or_fail, indeterminate_command,
  handle_authenticate,
}
use eiptnd.Wialon.Session.{handle_start, handle_read, handle_process_data}
use eiptnd.Wialon.Grants.{granted, LogsIn}
use eiptnd.Wialon.Invariant.{Inv, Place}
use eiptnd.Wialon.Invariant.Step.{moved}
use eiptnd.Wialon.Access.{Quiet, submissions}
use eiptnd.Wialon.Safety.{ReadHandled, handle_read-Inv, handle_read-Quiet}

module _ {L : Library} where
  -- asio has put these bytes into the buffer.
  abbrev pub received : Bytes → Parser L → Parser L
  received bs s = record s { sbuf = L.buffer.commit bs s.sbuf }

  pub data Step : Parser L → Parser L → Type 0 where
    starts : {s t : Parser L} → handle_start s ≡ t → Step s t
    reads : (bs : Bytes) {s t : Parser L} → handle_read (received bs s) ≡ ok t → Step s t
    admits : (is_ok : Bool) {s t : Parser L} → handle_authenticate is_ok s ≡ ok t → Step s t
    reports : (is_ok : Bool) {s t : Parser L} → handle_process_data is_ok s ≡ ok t → Step s t

  pub data Reach (s : Parser L) : Parser L → Type 0 where
    here : Reach s s
    next : {t u : Parser L} → Reach s t → Step t u → Reach s u

  -- What the handlers touch besides the parser's own members.
  abbrev touched : L.buffer.Buf → ℕ → List (Call L.tree.Ptree) → Parser L → Parser L
  touched b m cs s = record s { sbuf = b; multicommand = m; calls = cs }

  touched-Place :
      (st : State) (b : L.buffer.Buf) (m : ℕ) (cs : List (Call L.tree.Ptree)) (s : Parser L)
      → Place st s
      → Place st (touched b m cs s)
  touched-Place state_initial b m cs s p = p
  touched-Place state_imei b m cs s p = p
  touched-Place state_command b m cs s p = p
  touched-Place state_body b m cs s (c, k, h, l) = (c, moved k refl refl refl refl, h, l)
  touched-Place state_hash_first b m cs s p = p
  touched-Place state_hash_second b m cs s (c, k, e) = (c, moved k refl refl refl refl, e)
  touched-Place state_bar b m cs s (k, e) = (moved k refl refl refl refl, e)
  touched-Place state_end b m cs s (c, k, l) = (c, moved k refl refl refl refl, l)
  touched-Place state_skip_to_bar_or_end b m cs s (k, e) = (moved k refl refl refl refl, e)
  touched-Place state_skip_to_end b m cs s p = p
  touched-Place state_binary_data b m cs s p = p

  touched-Inv :
      (b : L.buffer.Buf) (m : ℕ) (cs : List (Call L.tree.Ptree)) (s : Parser L)
      → m < 2 ^ 64
      → Inv s
      → Inv (touched b m cs s)
  touched-Inv b m cs s h v = record { counter = h; place = touched-Place s.state b m cs s v.place }

  -- No tree was handed over, and nobody was logged in or out.
  abbrev Same : Parser L → Parser L → Type 0
  Same s t = (submissions t.calls ≡ submissions s.calls) × (t.authenticated ≡ s.authenticated)

  abbrev Lasts : Parser L → Result (Parser L) → Type 0
  Lasts s (ok t) = Inv t × Same s t
  Lasts s (err f) = Unit {0}

  if-Lasts :
      (s : Parser L) (b : Bool) (x y : Result (Parser L))
      → Lasts s x
      → Lasts s y
      → Lasts s (if b then x else y)
  if-Lasts s true x y h g = h
  if-Lasts s false x y h g = g

  known-Lasts :
      (s : Parser L) (o : Option Command) (f : Command → Result (Parser L))
      → ((c : Command) → Lasts s (f c))
      → Lasts s (or_fail indeterminate_command o >>= f)
  known-Lasts s none f h = tt
  known-Lasts s (some c) f h = h c

  answer-Lasts : (msg : Bytes) (s : Parser L) → Inv s → Lasts s (answer msg s)
  unfolding answer
  answer-Lasts msg s v =
      if-Lasts s (leb (2 + length s.cmd + 1 + length msg + 2) 32) _ _
        (touched-Inv s.sbuf s.multicommand _ s v.counter v, (refl, refl)) tt

  handle_process_data-Lasts :
      (is_ok : Bool) (s : Parser L) → Inv s → Lasts s (handle_process_data is_ok s)
  unfolding handle_process_data
  handle_process_data-Lasts is_ok s v = known-Lasts s s.current_cmd _ λ c.
      if-Lasts s (is_blackbox c) _ _
        (touched-Inv s.sbuf ((s.multicommand + 1) % 2 ^ 64) s.calls s (omega arith) v, (refl, refl))
        (if-Lasts s is_ok _ _ (answer-Lasts _ s v)
          (if-Lasts s _ _ _ (answer-Lasts _ s v) (answer-Lasts _ s v)))

  handle_authenticate-Lasts : (s : Parser L) → Inv s → Lasts s (handle_authenticate false s)
  unfolding handle_authenticate
  handle_authenticate-Lasts s v =
      answer-Lasts (codes "01") (record s { state = state_initial })
        (record { counter = v.counter; place = tt })

  lasting :
      (s : Parser L) (r : Result (Parser L)) {t : Parser L} → Lasts s r → r ≡ ok t → Lasts s (ok t)
  lasting s (ok u) h e = subst (λ x. Lasts s (ok x)) (ground arith) h
  lasting s (err f) h e = absurd cc

  admitted-Inv : (s t : Parser L) → Inv s → handle_authenticate true s ≡ ok t → Inv t
  unfolding handle_authenticate
  admitted-Inv s t v e =
      (lasting (record s { state = state_initial; authenticated = true }) _
        (answer-Lasts (codes "1") (record s { state = state_initial; authenticated = true })
          (record { counter = v.counter; place = tt }))
        e).0

  read_ok :
      (s : Parser L) (r : Result (Parser L)) {t : Parser L}
      → ReadHandled s r
      → r ≡ ok t
      → Inv t × LogsIn s t
  read_ok s r h e = subst (ReadHandled s) e h

  received-Inv : (bs : Bytes) (s : Parser L) → Inv s → Inv (received bs s)
  received-Inv bs s v = touched-Inv (L.buffer.commit bs s.sbuf) s.multicommand s.calls s v.counter v

  Step-Inv : {s t : Parser L} → Step s t → Inv s → Inv t
  unfolding handle_start
  Step-Inv {s} (starts e) v = subst Inv e (touched-Inv s.sbuf s.multicommand _ s v.counter v)
  Step-Inv {s} (reads bs e) v =
      (read_ok (received bs s) _ (handle_read-Inv (received bs s) (received-Inv bs s v)) e).0
  Step-Inv (admits true e) v = admitted-Inv _ _ v e
  Step-Inv {s} (admits false e) v = (lasting s _ (handle_authenticate-Lasts s v) e).0
  Step-Inv {s} (reports is_ok e) v = (lasting s _ (handle_process_data-Lasts is_ok s v) e).0

  Reach-Inv_from : {s t : Parser L} → Reach s t → Inv s → Inv t
  Reach-Inv_from here v = v
  Reach-Inv_from (next r st) v = Step-Inv st (Reach-Inv_from r v)

  create-Inv : (estimate m : ℕ) (p : Bool) → m < 2 ^ 64 → Inv (create L estimate m p)
  unfolding create
  create-Inv estimate m p h = record { counter = h; place = tt }

  -- How many successful authentications were reported, during a read or later.
  abbrev pub admission : {s t : Parser L} → Step s t → ℕ
  admission (admits true e) = 1
  admission (reads bs {s} {t} e) = granted L t.calls - granted L s.calls
  admission _ = 0

  abbrev pub admissions : {s t : Parser L} → Reach s t → ℕ
  admissions here = 0
  admissions (next r st) = admissions r + admission st

  -- Nobody is logged in, and nothing was handed over.
  abbrev pub IsClosed : Parser L → Type 0
  IsClosed s = (submissions s.calls ≡ 0) × (s.authenticated ≡ false)

  closed : (s t : Parser L) → Same s t → IsClosed s → IsClosed t
  closed s t q c = (q.0 ∙ c.0, q.1 ∙ c.1)

  read-IsClosed :
      (s t : Parser L)
      → LogsIn s t
      → Quiet s (ok t)
      → granted L t.calls - granted L s.calls ≡ 0
      → IsClosed s
      → IsClosed t
  read-IsClosed s t (zero, g, a) q n c = (q (omega (arith, g)) ∙ c.0, a ∙ c.1)
  read-IsClosed s t (suc m, g, a) q n c = absurd (omega (arith, g, n))

  Step-IsClosed :
      {s t : Parser L} (st : Step s t) → admission st ≡ 0 → Inv s → IsClosed s → IsClosed t
  unfolding handle_start
  Step-IsClosed (starts e) n v c = subst IsClosed e c
  Step-IsClosed {s} {t} (reads bs e) n v c =
      let w = received-Inv bs s v in
      read-IsClosed (received bs s) t
        (read_ok (received bs s) _ (handle_read-Inv (received bs s) w) e).1
        (subst (Quiet (received bs s)) e (handle_read-Quiet (received bs s) c.1 w)) n c
  Step-IsClosed (admits true e) n v c = absurd (omega (arith, n))
  Step-IsClosed {s} {t} (admits false e) n v c =
      closed s t (lasting s _ (handle_authenticate-Lasts s v) e).1 c
  Step-IsClosed {s} {t} (reports is_ok e) n v c =
      closed s t (lasting s _ (handle_process_data-Lasts is_ok s v) e).1 c

  Reach-IsClosed_from :
      {s t : Parser L} (r : Reach s t) → admissions r ≡ 0 → Inv s → IsClosed s → IsClosed t
  Reach-IsClosed_from here n v c = c
  Reach-IsClosed_from (next r st) n v c =
      Step-IsClosed st (omega (arith, n)) (Reach-Inv_from r v)
        (Reach-IsClosed_from r (omega (arith, n)) v c)

  -- Every state that a new object comes to satisfies the invariant, whatever bytes arrive in
  -- whatever pieces and whatever answers come back at whatever time, as long as no handler was
  -- stopped by a fault; the members that the constructor leaves alone may hold any values, a
  -- 64-bit one in the counter.
  pub Reach-Inv_of_create :
      (estimate m : ℕ) (p : Bool) {t : Parser L}
      → m < 2 ^ 64
      → Reach (create L estimate m p) t
      → Inv t
  Reach-Inv_of_create estimate m p h r = Reach-Inv_from r (create-Inv estimate m p h)

  -- In a session of a new object where no successful authentication was reported and no handler
  -- was stopped by a fault, nobody is logged in and no tree was handed to the dispatchers,
  -- whatever bytes arrived and whatever other answers came back.
  pub Reach-IsClosed :
      (estimate m : ℕ) (p : Bool) {t : Parser L}
      → m < 2 ^ 64
      → (r : Reach (create L estimate m p) t) → admissions r ≡ 0
      → IsClosed t
  unfolding create
  Reach-IsClosed estimate m p h r n =
      Reach-IsClosed_from r n (create-Inv estimate m p h) (refl, refl)
