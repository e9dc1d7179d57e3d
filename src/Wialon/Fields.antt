-- ===== src/Wialon/Fields.antt =====
-- The body of a message: each token goes to the field that the protocol names at its place.
use eiptnd.Prelude.{
  ℕ, zero, suc, sym, ap, ◌∙◌, ◌≤◌, ◌<◌, ◌≡◌, ◌≢◌, refl, ◌⊎◌, true, false, not, ◌&&◌, Option, none,
  some, List, [], ◌∷◌, ◌++◌, Bytes, codes, length, get_elem?, arith, equal, ◌==◌, if◌then◌else◌,
}
use eiptnd.Boost.Containers.{Tree}
use eiptnd.Wialon.Protocol.{
  State, state_initial, state_body, state_hash_first, state_bar, state_end, Command, command_login,
  command_data, command_ping, command_shortdata, command_blackbox, command_message, command_image,
  is_login, is_blackbox, name, arity, fields,
}
use eiptnd.Wialon.Protocol.Lookup.{find-estimates_name}
use eiptnd.Wialon.Machine.{Library, Parser, ok, new_tree}
use eiptnd.Wialon.Token.{
  crlf, step, select_command, body_token, end_of_body, consume_token, consume_tokens,
}
use eiptnd.Wialon.Invariant.{field_total}
use eiptnd.Wialon.Invariant.Step.{put_field_lem}

abbrev position_parameters : List Bytes
position_parameters =
    codes "date"
    ∷ codes "time"
    ∷ codes "lat1"
    ∷ codes "lat2"
    ∷ codes "lon1"
    ∷ codes "lon2"
    ∷ codes "speed"
    ∷ codes "course"
    ∷ codes "height"
    ∷ codes "sats"
    ∷ []

abbrev long_parameters : List Bytes
long_parameters =
    position_parameters
    ++ (codes "hdop"
        ∷ codes "inputs"
        ∷ codes "outputs"
        ∷ codes "adc"
        ∷ codes "ibutton"
        ∷ codes "params"
        ∷ [])

-- The parameters of a command in the order in which a message gives them.
abbrev pub parameters : Command → List Bytes
parameters command_login = codes "imei" ∷ codes "password" ∷ []
parameters command_data = long_parameters
parameters command_ping = []
parameters command_shortdata = position_parameters
parameters command_blackbox = long_parameters
parameters command_message = codes "message" ∷ []
parameters command_image =
    codes "sz" ∷ codes "ind" ∷ codes "count" ∷ codes "date" ∷ codes "time" ∷ codes "name" ∷ []

-- A token that is no end of line, and in a black box no bar.
abbrev pub IsOrdinary : Command → Bytes → Type 0
IsOrdinary c tok = (equal crlf tok ≡ false) × ((is_blackbox c && equal (codes "|") tok) ≡ false)

abbrev pub AreOrdinary : Command → List Bytes → Type 0
AreOrdinary c [] = Unit {0}
AreOrdinary c (tok ∷ toks) = IsOrdinary c tok × AreOrdinary c toks

abbrev key_at : Option Bytes → Bytes
key_at none = []
key_at (some k) = k

-- The fields that so many tokens fill, the next one first.
abbrev upcoming : Command → ℕ → List Bytes
upcoming c zero = []
upcoming c (suc n) = key_at (get_elem? (fields c) n) ∷ upcoming c n

upcoming-arity : (c : Command) → upcoming c (arity c) ≡ parameters c
upcoming-arity command_login = refl
upcoming-arity command_data = refl
upcoming-arity command_ping = refl
upcoming-arity command_shortdata = refl
upcoming-arity command_blackbox = refl
upcoming-arity command_message = refl
upcoming-arity command_image = refl

abbrev pub body_end : Command → State
body_end c = if is_blackbox c then state_bar else state_end

module _ (T : Tree) where
  -- One `put` after the other.
  abbrev pub put_all : List Bytes → List Bytes → T.Ptree → T.Ptree
  put_all (k ∷ ks) (v ∷ vs) t = put_all ks vs (T.put k v t)
  put_all _ _ t = t

-- The tokens before a body: what is before the first separator, the separators and the command.
abbrev pub header : Bytes → Command → List Bytes → List Bytes
header lead c toks = lead ∷ codes "#" ∷ name c ∷ codes "#" ∷ toks

not-crlf_name : (c : Command) → equal crlf (name c) ≡ false
unfolding equal
not-crlf_name command_shortdata = refl
not-crlf_name c = refl

arity_pos : (c : Command) → c ≢ command_ping → (n : ℕ) × (arity c ≡ suc n)
arity_pos command_login h = (1, refl)
arity_pos command_data h = (15, refl)
arity_pos command_ping h = absurd (h refl)
arity_pos command_shortdata h = (9, refl)
arity_pos command_blackbox h = (15, refl)
arity_pos command_message h = (0, refl)
arity_pos command_image h = (5, refl)

module _ {L : Library} where
  pub consume_token-body :
      (c : Command) (tok : Bytes) (s : Parser L)
      → s.state ≡ state_body
      → s.current_cmd ≡ some c
      → IsOrdinary c tok
      → consume_token tok s ≡ body_token c tok s
  unfolding consume_token step
  consume_token-body c tok s b k o = rw o.0 (simp (b, k) (rw o.1))

  -- One ordinary token of a body that waits for it.
  consume_field :
      (c : Command) (tok key : Bytes) (s : Parser L) (n : ℕ)
      → s.state ≡ state_body
      → s.current_cmd ≡ some c
      → s.estimate ≡ suc n
      → 1 ≤ s.tree_at
      → IsOrdinary c tok
      → get_elem? (fields c) n ≡ some key
      → consume_token tok s
        ≡ ok (end_of_body c (record s { estimate = n; tree = L.tree.put key tok s.tree }))
  unfolding body_token
  consume_field c tok key s n b k e h o f =
      let z : (s.estimate == 0) ≡ false = ground arith in
      consume_token-body c tok s b k o ∙ rw (z, put_field_lem c tok key s n e h f)

  consume_body :
      (c : Command) (toks : List Bytes) (s : Parser L) (n : ℕ)
      → s.state ≡ state_body
      → s.current_cmd ≡ some c
      → s.estimate ≡ suc n
      → length toks ≡ suc n
      → n < arity c
      → 1 ≤ s.tree_at
      → AreOrdinary c toks
      → consume_tokens toks s
        ≡ ok (record s {
          estimate = 0;
          tree = put_all L.tree (upcoming c (suc n)) toks s.tree;
          state = body_end c;
        })
  unfolding consume_tokens
  consume_body c [] s n b k e l h a o = absurd (omega arith)
  consume_body c (tok ∷ []) s zero b k e l h a o =
      let (key, f) = field_total c zero h in rw (consume_field c tok key s zero b k e a o.0 f, f)
  consume_body c (tok ∷ v ∷ toks) s zero b k e l h a o = absurd (omega arith)
  consume_body c (tok ∷ toks) s (suc n) b k e l h a o =
      let (key, f) = field_total c (suc n) h in
      let more : (suc n == 0) ≡ false = ground arith in
      rw (consume_field c tok key s (suc n) b k e a o.0 f, more, f)
        (consume_body c toks (record s { estimate = suc n; tree = L.tree.put key tok s.tree }) n b k
          refl (omega arith) (omega arith) a o.1)

  -- The parser where a body begins.
  abbrev pub at_body : Command → Parser L → Parser L
  at_body c s = record (new_tree s) {
    estimate = arity c;
    multicommand = 0;
    is_parser_error = false;
    state = state_body;
    cmd = name c;
    current_cmd = some c;
  }

  allowed_step :
      (c : Command) (s : Parser L)
      → (is_login c ≡ true) ⊎ (s.authenticated ≡ true)
      → (not s.authenticated && not (is_login c)) ≡ false
  allowed_step c s a = ground arith

  pub consume_lead :
      (lead : Bytes) (s : Parser L)
      → s.state ≡ state_initial
      → equal crlf lead ≡ false
      → consume_token lead s
        ≡ ok (record (new_tree s) {
          is_parser_error = false;
          multicommand = 0;
          cmd = codes "<not initialized>";
          state = state_hash_first;
        })
  unfolding consume_token step
  consume_lead lead s b o = rw o (simp b)

  consume_header :
      (lead : Bytes) (c : Command) (toks : List Bytes) (s : Parser L)
      → s.state ≡ state_initial
      → equal crlf lead ≡ false
      → (is_login c ≡ true) ⊎ (s.authenticated ≡ true)
      → consume_tokens (header lead c toks) s ≡ consume_tokens toks (at_body c s)
  unfolding consume_tokens consume_token step select_command equal
  consume_header lead c toks s b o a =
      rw (consume_lead lead s b o)
        (rw (not-crlf_name c, find-estimates_name L.estimates_map c, allowed_step c s a))

  -- The tokens of a message of a command that takes parameters, from a sender who may give it, as
  -- many as it takes and none of them an end of line (or a bar, in a black box), read at the start
  -- of a line: the parser then waits for the end of the line (or for a bar), and its new tree
  -- holds each token under the protocol's name for it.
  pub consume_message :
      (lead : Bytes) (c : Command) (toks : List Bytes) (s : Parser L)
      → s.state ≡ state_initial
      → equal crlf lead ≡ false
      → (is_login c ≡ true) ⊎ (s.authenticated ≡ true)
      → c ≢ command_ping
      → length toks ≡ arity c
      → AreOrdinary c toks
      → consume_tokens (header lead c toks) s
        ≡ ok (record (at_body c s) {
          estimate = 0;
          tree = put_all L.tree (parameters c) toks L.tree.empty;
          state = body_end c;
        })
  consume_message lead c toks s b o a np l ord =
      let (n, e) = arity_pos c np in
      let q : upcoming c (suc n) ≡ parameters c = ap (upcoming c) (sym e) ∙ upcoming-arity c in
      consume_header lead c toks s b o a
      ∙ rw (← q)
          (consume_body c toks (at_body c s) n refl refl e (l ∙ e) (omega arith) (omega arith) ord)
