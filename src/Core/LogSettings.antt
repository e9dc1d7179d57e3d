-- ===== src/Core/LogSettings.antt =====
-- `convert_log_settings` of src/core.cpp: the settings of the log, as a tree, become settings by
-- their full names. Log records are left out.
use eiptnd.Prelude.{
  ◌≡◌, refl, sym, ap, ◌∙◌, Bool, true, false, List, [], ◌∷◌, ◌++◌, map, Bytes, codes, if◌then◌else◌,
  append_assoc,
}

-- A property tree: its value, and its children with their keys.
mutual
  pub data Ptree : Type 0 where
    tree : Bytes → Branches → Ptree

  pub data Branches : Type 0 where
    none : Branches
    branch : Bytes → Ptree → Branches → Branches

abbrev pub is_empty : Branches → Bool
is_empty none = true
is_empty (branch key t ts) = false

-- The names of a value: the keys on the way to it, one at least.
abbrev pub Names : Type 0
Names = Bytes × List Bytes

-- The keys with dots between them.
abbrev pub dotted : Bytes → List Bytes → Bytes
dotted key [] = key
dotted key (k ∷ ks) = key ++ (b'.' ∷ dotted k ks)

-- boost::log::settings, to which texts and truth values are assigned, and whether
-- init_from_settings accepts them.
pub record Log : Type 1 where
  pub Store : Type 0
  pub empty : Store
  pub assign : Bytes → Bytes → Store → Store
  pub assign_bool : Bytes → Bool → Store → Store
  pub init_from_settings : Store → Bool

-- The settings that `init_logging` makes.
unfoldable pub default_settings : (G : Log) → G.Store
default_settings G =
    let filter = G.assign (codes "Core.Filter") (codes "%Severity% >= normal") G.empty in
    let destination = G.assign (codes "Sinks.Console.Destination") (codes "Console") filter in
    let format =
      G.assign (codes "Sinks.Console.Format")
        (codes "[%TimeStamp%] <%Severity%>\t[%Channel%] - %Message%") destination in
    let flush = G.assign_bool (codes "Sinks.Console.AutoFlush") true format in
    G.assign_bool (codes "Sinks.Console.Asynchronous") true flush

-- `assign` is what `log_settings[path] = value` does to the settings.
module _ {S : Type 0} (assign : Bytes → Bytes → S → S) where
  unfoldable mutual
    pub convert_log_settings : Branches → Bytes → S → S
    convert_log_settings none path s = s
    convert_log_settings (branch key t ts) path s =
        convert_log_settings ts path (convert_node t (path ++ key) s)

    -- A node of the loop: a value is assigned, and other nodes are entered.
    pub convert_node : Ptree → Bytes → S → S
    convert_node (tree value ts) path s =
        let entered = convert_log_settings ts (path ++ (b'.' ∷ [])) s in
        if is_empty ts then assign path value s else entered

  -- One assignment for each of the values, in their order.
  unfoldable pub assign_all : (Names → Bytes) → List (Names × Bytes) → S → S
  assign_all name [] s = s
  assign_all name ((path, value) ∷ rest) s = assign_all name rest (assign (name path) value s)

-- A value below a node with another key.
abbrev pub below : Bytes → Names × Bytes → Names × Bytes
below key ((k, ks), value) = ((key, k ∷ ks), value)

-- The values of the nodes without children, with the keys on the way to each, in their order.
unfoldable mutual
  pub leaves : Branches → List (Names × Bytes)
  leaves none = []
  leaves (branch key t ts) = leaves_under key t ++ leaves ts

  pub leaves_under : Bytes → Ptree → List (Names × Bytes)
  leaves_under key (tree value ts) =
      let deeper = map (below key) (leaves ts) in
      if is_empty ts then ((key, []), value) ∷ [] else deeper

module _ {S : Type 0} (assign : Bytes → Bytes → S → S) where
  assign_all-append :
      (name : Names → Bytes) (xs ys : List (Names × Bytes)) (s : S)
      → assign_all assign name (xs ++ ys) s
        ≡ assign_all assign name ys (assign_all assign name xs s)
  unfolding assign_all
  assign_all-append name [] ys s = refl
  assign_all-append name ((path, value) ∷ xs) ys s =
      assign_all-append name xs ys (assign (name path) value s)

  assign_all-below :
      (key : Bytes) (name inner : Names → Bytes)
      → ((k : Bytes) (ks : List Bytes) → inner (k, ks) ≡ name (key, k ∷ ks))
      → (xs : List (Names × Bytes)) (s : S)
      → assign_all assign inner xs s ≡ assign_all assign name (map (below key) xs) s
  unfolding assign_all
  assign_all-below key name inner h [] s = refl
  assign_all-below key name inner h (((k, ks), value) ∷ xs) s =
      ap (λ n. assign_all assign inner xs (assign n value s)) (h k ks)
      ∙ assign_all-below key name inner h xs (assign (name (key, k ∷ ks)) value s)

  -- A name behind the prefix `path`.
  abbrev named : Bytes → Names → Bytes
  named path (k, ks) = path ++ dotted k ks

  mutual
    unfolding convert_log_settings leaves assign_all

    convert-leaves :
        (ts : Branches) (path : Bytes) (s : S)
        → convert_log_settings assign ts path s ≡ assign_all assign (named path) (leaves ts) s
    convert-leaves none path s = refl
    convert-leaves (branch key t ts) path s =
        ap (convert_log_settings assign ts path) (node-leaves t key path s)
        ∙ (convert-leaves ts path (assign_all assign (named path) (leaves_under key t) s)
            ∙ sym (assign_all-append (named path) (leaves_under key t) (leaves ts) s))

    node-leaves :
        (t : Ptree) (key path : Bytes) (s : S)
        → convert_node assign t (path ++ key) s
          ≡ assign_all assign (named path) (leaves_under key t) s
    node-leaves (tree value none) key path s = refl
    node-leaves (tree value (branch k t ts)) key path s =
        convert-leaves (branch k t ts) ((path ++ key) ++ (b'.' ∷ [])) s
        ∙ assign_all-below key (named path) (named ((path ++ key) ++ (b'.' ∷ [])))
            (λ j js. simp append_assoc) (leaves (branch k t ts)) s

-- The conversion of a whole tree makes one assignment for each value of a node without children, in
-- the order of the tree; the name is the keys on the way to it with dots between them.
pub convert_log_settings-leaves :
    {S : Type 0} (assign : Bytes → Bytes → S → S) (ts : Branches) (s : S)
    → convert_log_settings assign ts [] s ≡ assign_all assign (λ (k, ks). dotted k ks) (leaves ts) s
convert_log_settings-leaves assign ts s = convert-leaves assign ts [] s
