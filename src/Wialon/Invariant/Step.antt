-- ===== src/Wialon/Invariant/Step.antt =====
-- One token: `consume_token` keeps the invariant and does not fail.
use eiptnd.Prelude.{
  equal_iff, ℕ, zero, sym, ap, ◌∙◌, ==_iff, not, if◌then◌else◌, suc, ◌-◌, ◌^◌, ◌≤◌, ◌<◌, ◌≡◌, refl,
  inl, inr, true, false, some, Bytes, codes, arith, Option-cases, Bool-cases, ◌==◌, equal,
  get_elem?, ◌&&◌,
}
use mathlib.Core.Path.{subst}
use eiptnd.Wialon.Protocol.{
  is_login, State, state_initial, state_imei, state_command, state_body, state_hash_first,
  state_hash_second, state_bar, state_end, state_skip_to_bar_or_end, state_skip_to_end,
  state_binary_data, Command, command_blackbox, name, arity, estimates, is_blackbox, fields,
}
use eiptnd.Wialon.Protocol.Lookup.{find-estimates_name, find-estimates-IsEntry}
use eiptnd.Wialon.Machine.{◌>>=◌, Library, Parser, Result, ok, err, store_data}
use eiptnd.Wialon.Token.{
  crlf, step, select_command, next_block, put_field, body_token, end_of_body, consume_token,
  finish_line,
}
use eiptnd.Wialon.Invariant.{
  LoginParts-start, LoginParts-put, LoginParts, Knows, Place, Inv, ImageFault, field_total,
}
use eiptnd.Wialon.Invariant.Line.{LineEnds, finish_line-LineEnds}

module _ {L : Library} where
  abbrev pub Keeps : Result (Parser L) → Type 0
  Keeps (ok t) = Inv t
  Keeps (err f) = ⊥

  -- The invariant at a state that is known by an equation.
  Inv-at : (t : Parser L) (st : State) → t.state ≡ st → t.multicommand < 2 ^ 64 → Place st t → Inv t
  Inv-at t st e m p = record { counter = m; place = subst (λ x. Place x t) (sym e) p }

  -- `Knows` reads four members only.
  pub moved :
      {c : Command} {s t : Parser L}
      → Knows c s
      → t.current_cmd ≡ s.current_cmd
      → t.cmd ≡ s.cmd
      → t.authenticated ≡ s.authenticated
      → t.tree_at ≡ s.tree_at
      → Knows c t
  moved k e f g h = record {
    current = e ∙ k.current;
    named = f ∙ k.named;
    allowed = ground arith;
    has_tree = omega arith;
  }

  full_body-Inv :
      (c : Command) (s : Parser L)
      → s.multicommand < 2 ^ 64
      → Knows c s
      → s.estimate ≡ 0
      → LoginParts L.tree c 0 s.tree
      → Inv (record s { state = if is_blackbox c then state_bar else state_end })
  full_body-Inv command_blackbox s m k z p = record {
    counter = m;
    place = (moved k refl refl refl refl, z);
  }
  full_body-Inv c s m k z p = record { counter = m; place = (c, moved k refl refl refl refl, p) }

  end_of_body-Inv :
      (c : Command) (s : Parser L)
      → s.state ≡ state_body
      → s.multicommand < 2 ^ 64
      → Knows c s
      → s.estimate ≤ arity c
      → LoginParts L.tree c s.estimate s.tree
      → Inv (end_of_body c s)
  end_of_body-Inv c s b m k h p = elim (Bool-cases (s.estimate == 0)) [
    | inl e ↦ rw e (
        full_body-Inv c s m k ((==_iff _ _).0 e)
          (subst (λ n. LoginParts L.tree c n s.tree) ((==_iff _ _).0 e) p))
    | inr e ↦ rw e (Inv-at s state_body b m (c, k, h, p))
  ]

  pub put_field_lem :
      (c : Command) (tok key : Bytes) (s : Parser L) (n : ℕ)
      → s.estimate ≡ suc n
      → 1 ≤ s.tree_at
      → get_elem? (fields c) n ≡ some key
      → put_field c tok s ≡ ok (record s { estimate = n; tree = L.tree.put key tok s.tree })
  unfolding put_field
  put_field_lem c tok key s n e h k =
      let q : s.estimate - 1 ≡ n = omega arith in rw (q, k) (ground arith)

  selected-Inv :
      (s : Parser L) (c : Command)
      → s.multicommand < 2 ^ 64
      → 1 ≤ s.tree_at
      → s.cmd ≡ name c
      → Inv (select_command (some (arity c, c)) s)
  unfolding select_command
  selected-Inv s c m h e = elim (Bool-cases (not s.authenticated && not (is_login c))) [
    | inl rejected ↦ rw rejected (record { counter = m; place = h })
    | inr allowed ↦ rw allowed (record {
      counter = m;
      place = (c, record { current = refl; named = e; allowed = ground arith; has_tree = h }, refl);
    })
  ]

  select_command-Inv :
      (s : Parser L)
      → s.multicommand < 2 ^ 64
      → 1 ≤ s.tree_at
      → Inv (select_command (L.estimates_map.find s.cmd (estimates L.estimates_map)) s)
  unfolding select_command
  select_command-Inv s m h =
      elim (Option-cases (L.estimates_map.find s.cmd (estimates L.estimates_map))) [
        | inl e ↦ rw e (record { counter = m; place = h })
        | inr ((n, c), e) ↦
            let (named, count) = find-estimates-IsEntry L.estimates_map s.cmd (n, c) e in
            rw (e, count) (selected-Inv s c m h named)
      ]

  find_named :
      (c : Command) (s : Parser L)
      → s.cmd ≡ name c
      → L.estimates_map.find s.cmd (estimates L.estimates_map) ≡ some (arity c, c)
  find_named c s e =
      ap (λ x. L.estimates_map.find x (estimates L.estimates_map)) e
      ∙ find-estimates_name L.estimates_map c

  next_block-Keeps :
      (s : Parser L)
      → s.state ≡ state_body
      → s.multicommand < 2 ^ 64
      → Knows command_blackbox s
      → Keeps (next_block s)
  unfolding next_block store_data
  next_block-Keeps s b m k = rw (find_named command_blackbox s k.named) (
      Inv-at _ state_body b m (
        command_blackbox,
        record { current = refl; named = k.named; allowed = k.allowed; has_tree = omega arith },
        omega arith,
        tt,
      ))

  body_token-Keeps :
      (c : Command) (tok : Bytes) (s : Parser L)
      → s.state ≡ state_body
      → s.multicommand < 2 ^ 64
      → Knows c s
      → s.estimate ≤ arity c
      → LoginParts L.tree c s.estimate s.tree
      → (n : ℕ) → s.estimate ≡ n
      → Keeps (body_token c tok s)
  unfolding body_token
  body_token-Keeps c tok s b m k h p zero e =
      let z : (s.estimate == 0) ≡ true = (==_iff _ _).1 e in rw z (end_of_body-Inv c s b m k h p)
  body_token-Keeps c tok s b m k h p (suc n) e =
      let z : (s.estimate == 0) ≡ false = ground arith in
      let (key, found) = field_total c n (omega arith) in
      rw (z, put_field_lem c tok key s n e k.has_tree found)
        (end_of_body-Inv c (record s { estimate = n; tree = L.tree.put key tok s.tree }) b m
          (moved k refl refl refl refl) (omega arith)
          (LoginParts-put L.tree c n key tok s.tree (omega arith) found
            (subst (λ i. LoginParts L.tree c i s.tree) e p)))

  body-Keeps :
      (c : Command) (tok : Bytes) (s : Parser L)
      → s.state ≡ state_body
      → s.multicommand < 2 ^ 64
      → Knows c s
      → s.estimate ≤ arity c
      → LoginParts L.tree c s.estimate s.tree
      → Keeps (step state_body tok s)
  unfolding step
  body-Keeps command_blackbox tok s b m k h p = elim (Bool-cases (equal (codes "|") tok)) [
    | inl bar ↦ simp (k.current, bar) (next_block-Keeps s b m k)
    | inr other ↦ simp (k.current, other) (body_token-Keeps command_blackbox tok s b m k h p _ refl)
  ]
  body-Keeps c tok s b m k h p = simp k.current (body_token-Keeps c tok s b m k h p _ refl)

  step-Keeps :
      (st : State) (tok : Bytes) (s : Parser L)
      → s.state ≡ st
      → s.multicommand < 2 ^ 64
      → Place st s
      → Keeps (step st tok s)
  unfolding step store_data
  step-Keeps state_initial tok s b m p = record { counter = omega arith; place = omega arith }
  step-Keeps state_imei tok s b m p = absurd p
  step-Keeps state_binary_data tok s b m p = absurd p
  step-Keeps state_command tok s b m p = select_command-Inv (record s { cmd = tok }) m p
  step-Keeps state_body tok s b m (c, k, h, p) = body-Keeps c tok s b m k h p
  step-Keeps state_hash_first tok s b m p = elim (Bool-cases (equal (codes "#") tok)) [
    | inl e ↦ rw e (record { counter = m; place = p })
    | inr e ↦ rw e (record { counter = m; place = p })
  ]
  step-Keeps state_hash_second tok s b m (c, k, h) = elim (Bool-cases (equal (codes "#") tok)) [
    | inl e ↦ rw e (record {
      counter = m;
      place = (
        c,
        moved k refl refl refl refl,
        omega arith,
        LoginParts-start L.tree c s.estimate s.tree h,
      );
    })
    | inr e ↦ rw e (record { counter = m; place = k.has_tree })
  ]
  step-Keeps state_bar tok s b m (k, h) = elim (Bool-cases (equal (codes "|") tok)) [
    | inl e ↦ rw e (record {
      counter = m;
      place = (command_blackbox, moved k refl refl refl refl, omega arith, tt);
    })
    | inr e ↦ rw e (record { counter = m; place = (moved k refl refl refl refl, h) })
  ]
  step-Keeps state_skip_to_bar_or_end tok s b m (k, h) = elim (Bool-cases (equal (codes "|") tok)) [
    | inl e ↦ rw e (record {
      counter = m;
      place = (command_blackbox, moved k refl refl refl refl, omega arith, tt);
    })
    | inr e ↦ rw e (Inv-at s state_skip_to_bar_or_end b m (k, h))
  ]
  step-Keeps state_skip_to_end tok s b m p = Inv-at s state_skip_to_end b m p
  step-Keeps state_end tok s b m (c, k, p) = record { counter = m; place = k.has_tree }

  -- What may come of one token: the invariant, or the fault of an image command.
  abbrev pub Safe : Parser L → Bytes → Result (Parser L) → Type 0
  Safe s tok (ok t) = Inv t
  Safe s tok (err f) = (tok ≡ crlf) × ImageFault s.current_cmd s.authenticated f

  abbrev to_initial : Result (Parser L) → Result (Parser L)
  to_initial r = r >>= λ t. ok (record t { state = state_initial })

  ended-Safe :
      (s : Parser L) (tok : Bytes) (r : Result (Parser L))
      → s.multicommand < 2 ^ 64
      → tok ≡ crlf
      → LineEnds s r
      → Safe s tok (to_initial r)
  ended-Safe s tok (ok t) m e h = record { counter = rw h.0 m; place = tt }
  ended-Safe s tok (err f) m e h = (e, h)

  kept-Safe : (s : Parser L) (tok : Bytes) (r : Result (Parser L)) → Keeps r → Safe s tok r
  kept-Safe s tok (ok t) h = h
  kept-Safe s tok (err f) h = absurd h

  -- From a state that satisfies the invariant, any token leads to such a state, with no null
  -- pointer followed, no member read before it was assigned, no index out of its array and no reply
  -- longer than its buffer. Only the end of a line of an authenticated image command may throw.
  pub consume_token-Inv : (tok : Bytes) (s : Parser L) → Inv s → Safe s tok (consume_token tok s)
  unfolding consume_token
  consume_token-Inv tok s v = elim (Bool-cases (equal crlf tok)) [
    | inl e ↦ rw e (
        ended-Safe s tok (finish_line s.state s) v.counter (sym ((equal_iff crlf tok).0 e))
          (finish_line-LineEnds s.state s v.counter v.place))
    | inr e ↦
        rw e
          (kept-Safe s tok (step s.state tok s) (step-Keeps s.state tok s refl v.counter v.place))
  ]
