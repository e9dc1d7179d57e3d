-- ===== src/Wialon/Invariant/Line.antt =====
-- The end of a line: `commit_command` and what leads to it.
use eiptnd.Prelude.{
  Option, none, some, ℕ, Bool, true, not, ap, inl, inr, ◌+◌, ◌≤◌, ◌==◌, Bytes, length, ◌∷◌,
  Option-cases, sym, if◌then◌else◌, ◌^◌, ◌<◌, ◌≡◌, refl, false, codes, [], arith,
}
use eiptnd.Wialon.Protocol.{
  State, state_initial, state_binary_data, state_command, state_body, state_hash_first,
  state_hash_second, state_bar, state_end, state_skip_to_bar_or_end, Command, command_login,
  command_data, command_ping, command_shortdata, command_blackbox, command_message, command_image,
}
use eiptnd.Wialon.Machine.{
  Library, Parser, Result, ok, err, store_data, commit, commit_command, call, process_data,
  parser_error, unexpected_token, answer, Fault, or_fail, ◌>>=◌, indeterminate_command, bad_path,
  bad_lexical_cast, authenticate, authenticated_at_once, handle_authenticate,
}
use eiptnd.Wialon.Grants.{LogsIn, granted, grants}
use mathlib.Core.Path.{subst}
use eiptnd.Wialon.Token.{crlf, finish_line}
use eiptnd.Wialon.Invariant.{LoginParts, Knows, Place, ImageFault, answer_fits}

module _ {L : Library} where
  -- A line that ends keeps the counter, and logs in who was granted it; or it is an image with a
  -- bad size.
  abbrev pub LineEnds : Parser L → Result (Parser L) → Type 0
  LineEnds s (ok t) = (t.multicommand ≡ s.multicommand) × LogsIn s t
  LineEnds s (err f) = ImageFault s.current_cmd s.authenticated f

  if-LineEnds :
      (s : Parser L) (b : Bool) (x y : Result (Parser L))
      → (b ≡ true → LineEnds s x)
      → (b ≡ false → LineEnds s y)
      → LineEnds s (if b then x else y)
  if-LineEnds s true x y h g = h refl
  if-LineEnds s false x y h g = g refl

  found-LineEnds :
      {A : Type 0} (s : Parser L) (f : Fault) (a : A) (k : A → Result (Parser L)) {o : Option A}
      → o ≡ some a
      → LineEnds s (k a)
      → LineEnds s (or_fail f o >>= k)
  found-LineEnds s f a k e h = subst (λ x. LineEnds s (or_fail f x >>= k)) (sym e) h

  answer-LineEnds :
      (msg : Bytes) (s : Parser L) → length s.cmd ≤ 2 → length msg ≤ 20 → LineEnds s (answer msg s)
  answer-LineEnds msg s h k = rw (answer_fits msg s h k) (refl, (0, omega arith, refl))

  -- What the router's callback does to a login that it was asked for.
  at_once-LineEnds :
      (i p : Bytes) (o : Option Bool) (s : Parser L)
      → L.authenticates i p ≡ o
      → length s.cmd ≤ 2
      → LineEnds s (authenticated_at_once o (call {L = L} (authenticate i p) s))
  unfolding handle_authenticate
  at_once-LineEnds i p none s e h = (refl, (0, ap (λ o. grants o + granted L s.calls) e, refl))
  at_once-LineEnds i p (some false) s e h =
      rw
        (answer_fits (codes "01")
          (record s { state = state_initial; calls = authenticate i p ∷ s.calls }) h (omega arith))
        (refl, (0, ap (λ o. grants o + granted L s.calls) e, refl))
  at_once-LineEnds i p (some true) s e h =
      rw
        (answer_fits (codes "1")
          (record s {
            state = state_initial;
            authenticated = true;
            calls = authenticate i p ∷ s.calls;
          })
          h (omega arith))
        (refl, (1, ap (λ o. grants o + granted L s.calls) e, refl))

  login-LineEnds :
      (s : Parser L)
      → length s.cmd ≤ 2
      → (s.is_parser_error ≡ false → LoginParts L.tree command_login 0 s.tree)
      → LineEnds s (commit command_login s)
  unfolding commit
  login-LineEnds s h p =
      if-LineEnds s s.is_parser_error _ _ (λ e. answer-LineEnds (codes "0") s h (omega arith))
        λ e. elim (Option-cases (L.tree.get (codes "imei") s.tree)) [
          | inl missing ↦ absurd ((p e).0 (omega arith) missing)
          | inr (i, x) ↦ elim (Option-cases (L.tree.get (codes "password") s.tree)) [
            | inl missing ↦ absurd ((p e).1 refl missing)
            | inr (w, y) ↦ found-LineEnds s bad_path i _ x (
                found-LineEnds s bad_path w _ y
                  (at_once-LineEnds i w (L.authenticates i w) s refl h))
          ]
        ]

  commit-LineEnds :
      (c : Command) (s : Parser L)
      → s.multicommand < 2 ^ 64
      → Knows c s
      → (s.is_parser_error ≡ false → LoginParts L.tree c 0 s.tree)
      → LineEnds s (commit c s)
  unfolding commit store_data
  commit-LineEnds command_login s m k p = login-LineEnds s (ground (arith, k.named)) p
  commit-LineEnds command_data s m k p = (refl, (0, omega arith, refl))
  commit-LineEnds command_ping s m k p =
      answer-LineEnds [] s (ground (arith, k.named)) (omega arith)
  commit-LineEnds command_shortdata s m k p = (refl, (0, omega arith, refl))
  commit-LineEnds command_blackbox s m k p =
      answer-LineEnds (L.numeral.to_string s.multicommand) s (ground (arith, k.named))
        (L.numeral.length-to_string_le s.multicommand m)
  commit-LineEnds command_message s m k p = (refl, (0, omega arith, refl))
  commit-LineEnds command_image s m k p = image_ends (L.tree.get (codes "sz") s.tree)
    where
      user : s.authenticated ≡ true
      user = elim k.allowed [ inl h ↦ absurd cc | inr h ↦ h ]

      sized :
          (o : Option ℕ)
          → LineEnds s (
              or_fail bad_lexical_cast o >>= λ n.
              ok (record s { state = state_binary_data; estimate = n }))
      sized none = record { at_image = k.current; by_user = user; thrown = inr refl }
      sized (some n) = (refl, (0, omega arith, refl))

      image_ends :
          (o : Option Bytes)
          → LineEnds s (
              or_fail bad_path o >>= λ sz. or_fail bad_lexical_cast (L.numeral.to_size sz) >>= λ n.
              ok (record s { state = state_binary_data; estimate = n }))
      image_ends none = record { at_image = k.current; by_user = user; thrown = inl refl }
      image_ends (some sz) = sized (L.numeral.to_size sz)

  commit_command-LineEnds :
      (c : Command) (s : Parser L)
      → s.multicommand < 2 ^ 64
      → Knows c s
      → (s.is_parser_error ≡ false → LoginParts L.tree c 0 s.tree)
      → LineEnds s (commit_command s)
  unfolding commit_command
  commit_command-LineEnds c s m k p =
      if-LineEnds s (s.tree_at == 0) _ _ (λ e. absurd (ground (arith, k.has_tree)))
        λ e. found-LineEnds s indeterminate_command c _ k.current (commit-LineEnds c s m k p)

  -- The last block of a black box.
  store_and_commit-LineEnds :
      (s : Parser L)
      → s.multicommand < 2 ^ 64
      → Knows command_blackbox s
      → LineEnds s (commit_command (call {L = L} (process_data s.tree_at s.tree) s))
  store_and_commit-LineEnds s m k =
      commit_command-LineEnds command_blackbox (call {L = L} (process_data s.tree_at s.tree) s) m
        (record {
          current = k.current;
          named = k.named;
          allowed = k.allowed;
          has_tree = k.has_tree;
        })
        (λ _. tt)

  finish_body-LineEnds :
      (c : Command) (s : Parser L)
      → s.multicommand < 2 ^ 64
      → Knows c s
      → LineEnds s (finish_line state_body s)
  unfolding finish_line store_data
  finish_body-LineEnds command_blackbox s m k =
      found-LineEnds s indeterminate_command command_blackbox _ k.current
        (store_and_commit-LineEnds s m k)
  finish_body-LineEnds c s m k = found-LineEnds s indeterminate_command c _ k.current (
      commit_command-LineEnds c (parser_error s) m
        (record {
          current = k.current;
          named = k.named;
          allowed = k.allowed;
          has_tree = k.has_tree;
        })
        (λ e. absurd cc))

  pub finish_line-LineEnds :
      (st : State) (s : Parser L)
      → s.multicommand < 2 ^ 64
      → Place st s
      → LineEnds s (finish_line st s)
  unfolding finish_line store_data
  finish_line-LineEnds state_body s m (c, k, _, _) = finish_body-LineEnds c s m k
  finish_line-LineEnds state_bar s m (k, _) = store_and_commit-LineEnds s m k
  finish_line-LineEnds state_skip_to_bar_or_end s m (k, _) =
      commit_command-LineEnds command_blackbox s m k (λ _. tt)
  finish_line-LineEnds state_end s m (c, k, p) = commit_command-LineEnds c s m k (λ _. p)
  finish_line-LineEnds state_command s m k = command_ends (not s.authenticated)
    where
      command_ends :
          (b : Bool)
          → LineEnds s (
              ok (
                if b
                then unexpected_token (codes "L") crlf s
                else unexpected_token (codes "B|D|I|M|P|SD") crlf s))
      command_ends true = (refl, (0, omega arith, refl))
      command_ends false = (refl, (0, omega arith, refl))
  finish_line-LineEnds state_hash_first s m k = (refl, (0, omega arith, refl))
  finish_line-LineEnds state_hash_second s m k = (refl, (0, omega arith, refl))
  finish_line-LineEnds _ s m k = (refl, (0, omega arith, refl))
