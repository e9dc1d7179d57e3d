-- ===== src/Wialon/Invariant.antt =====
-- What holds of the parser of wialon_plugin.cpp between two tokens.
pub mod Line
pub mod Step
use eiptnd.Prelude.{
  ℕ, zero, suc, ◌+◌, ◌^◌, ◌≤◌, ◌<◌, ◌≡◌, ◌≢◌, refl, ◌⊎◌, Bool, true, false, Option, none, some,
  Bytes, codes, List, [], ◌∷◌, length, get_elem?, arith,
}
use eiptnd.Boost.Containers.{Tree}
use eiptnd.Wialon.Protocol.{
  State, state_initial, state_imei, state_command, state_body, state_hash_first, state_hash_second,
  state_bar, state_end, state_skip_to_bar_or_end, state_skip_to_end, state_binary_data, Command,
  command_login, command_data, command_ping, command_shortdata, command_blackbox, command_message,
  command_image, is_login, name, arity, fields,
}
use eiptnd.Wialon.Machine.{
  Library, Parser, Result, ok, err, Fault, bad_path, bad_lexical_cast, call, do_write, reply_text,
  answer,
}

-- Which parts of a login are in the tree while so many tokens are to come.
abbrev pub LoginParts : (T : Tree) → Command → ℕ → T.Ptree → Type 0
LoginParts T command_login n t =
    (n ≤ 1 → T.get (codes "imei") t ≢ none) × (n ≡ 0 → T.get (codes "password") t ≢ none)
LoginParts T _ n t = Unit {0}

-- Only the end of an image command may throw, on a size that is missing or is no number.
pub record ImageFault (current_cmd : Option Command) (authenticated : Bool) (f : Fault)
    : Type 0 where
  pub at_image : current_cmd ≡ some command_image
  pub by_user : authenticated ≡ true
  pub thrown : (f ≡ bad_path) ⊎ (f ≡ bad_lexical_cast)

pub LoginParts-start :
    (T : Tree) (c : Command) (n : ℕ) (t : T.Ptree) → n ≡ arity c → LoginParts T c n t
LoginParts-start T command_login n t e = (λ h. absurd (omega arith), λ h. absurd (omega arith))
LoginParts-start T _ n t e = tt

pub LoginParts-put :
    (T : Tree) (c : Command) (n : ℕ) (key tok : Bytes) (t : T.Ptree)
    → n < arity c
    → get_elem? (fields c) n ≡ some key
    → LoginParts T c (suc n) t
    → LoginParts T c n (T.put key tok t)
LoginParts-put T command_login zero key tok t h k p = ground (
  arith,
  T.get-put_self (codes "password") tok t refl,
  T.get-put_ne (codes "imei") (codes "password") tok t refl refl (λ e. cc),
  p.0 (omega arith),
)
LoginParts-put T command_login (suc zero) key tok t h k p =
    ground (arith, T.get-put_self (codes "imei") tok t refl)
LoginParts-put T command_login (suc (suc n)) key tok t h k p = absurd (omega arith)
LoginParts-put T _ n key tok t h k p = tt

module _ {L : Library} where
  -- The command of the message is read, and its sender may give it.
  pub record Knows (c : Command) (s : Parser L) : Type 0 where
    pub current : s.current_cmd ≡ some c
    pub named : s.cmd ≡ name c
    pub allowed : (is_login c ≡ true) ⊎ (s.authenticated ≡ true)
    pub has_tree : 1 ≤ s.tree_at

  -- `state_imei` and `state_binary_data` are never entered between two tokens.
  abbrev pub Place : State → Parser L → Type 0
  Place state_initial s = Unit {0}
  Place state_imei s = ⊥
  Place state_binary_data s = ⊥
  Place state_hash_second s = (c : Command) × Knows c s × (s.estimate ≡ arity c)
  Place state_body s =
      (c : Command) × Knows c s × (s.estimate ≤ arity c) × LoginParts L.tree c s.estimate s.tree
  Place state_end s = (c : Command) × Knows c s × LoginParts L.tree c 0 s.tree
  Place state_bar s = Knows command_blackbox s × (s.estimate ≡ 0)
  Place state_skip_to_bar_or_end s = Knows command_blackbox s × (s.estimate ≡ 0)
  Place _ s = 1 ≤ s.tree_at

  pub record Inv (s : Parser L) : Type 0 where
    pub counter : s.multicommand < 2 ^ 64
    pub place : Place s.state s

  pub answer_fits :
      (msg : Bytes) (s : Parser L)
      → length s.cmd ≤ 2
      → length msg ≤ 20
      → answer msg s ≡ ok (call (do_write (reply_text s.cmd msg)) s)
  unfolding answer
  answer_fits msg s h k = ground arith

pub length-name_le : (c : Command) → length (name c) ≤ 2
length-name_le command_login = omega arith
length-name_le command_data = omega arith
length-name_le command_ping = omega arith
length-name_le command_shortdata = omega arith
length-name_le command_blackbox = omega arith
length-name_le command_message = omega arith
length-name_le command_image = omega arith

pub length-fields : (c : Command) → length (fields c) ≡ arity c
length-fields command_login = refl
length-fields command_data = refl
length-fields command_ping = refl
length-fields command_shortdata = refl
length-fields command_blackbox = refl
length-fields command_message = refl
length-fields command_image = refl

get_elem?_total {ℓ} :
    {A : Type ℓ} (xs : List A) (n : ℕ) → n < length xs → (a : A) × (get_elem? xs n ≡ some a)
get_elem?_total [] n h = elim h [ ]
get_elem?_total (x ∷ xs) zero h = (x, refl)
get_elem?_total (x ∷ xs) (suc n) h = get_elem?_total xs n (omega arith)

-- Every token of a body has a field to go to.
pub field_total :
    (c : Command) (n : ℕ) → n < arity c → (k : Bytes) × (get_elem? (fields c) n ≡ some k)
field_total c n h = get_elem?_total (fields c) n (omega (arith, length-fields c))
