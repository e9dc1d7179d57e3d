-- ===== src/Plugins/Ports.antt =====
-- Lists of ports and of the uids that they are mapped to, and what settings of translators ask for.
use eiptnd.Prelude.{
  both, ℕ, ◌≡◌, refl, Bool, true, false, ◌&&◌, ◌||◌, Option, none, some, List, [], ◌∷◌, ◌++◌, Bytes,
}
use eiptnd.Plugins.Manager.{PluginInfo, Result, ok, err, is_translator, last_uid, Settings}

abbrev pub every {ℓ} : {A : Type ℓ} → (A → Bool) → List A → Bool
every p [] = true
every p (x ∷ xs) = p x && every p xs

pub and_intro : (a b : Bool) → a ≡ true → b ≡ true → (a && b) ≡ true
and_intro a b h g = rw (h, g)

-- A translator was found.
abbrev pub is_served : Option PluginInfo → Bool
is_served none = false
is_served (some info) = is_translator info.plugin_type

abbrev pub accepts : Result PluginInfo → Bool
accepts (ok info) = is_translator info.plugin_type
accepts (err e) = false

abbrev pub is_filled {ℓ} : {A : Type ℓ} → List A → Bool
is_filled [] = false
is_filled (x ∷ xs) = true

pub every-insert {ℓ} :
    {A : Type ℓ} (p : A → Bool) (xs ys : List A) (y : A)
    → every p (xs ++ ys) ≡ true
    → p y ≡ true
    → every p (xs ++ (y ∷ ys)) ≡ true
every-insert p [] ys y h g = and_intro (p y) (every p ys) g h
every-insert p (x ∷ xs) ys y h g =
    let (a, b) = both (p x) (every p (xs ++ ys)) h in
    and_intro (p x) (every p (xs ++ (y ∷ ys))) a (every-insert p xs ys y b g)

pub filled-insert {ℓ} : {A : Type ℓ} (xs ys : List A) (y : A) → is_filled (xs ++ (y ∷ ys)) ≡ true
filled-insert [] ys y = refl
filled-insert (x ∷ xs) ys y = refl

pub last_uid-every :
    (p : Bytes → Bool) (puid : Bytes) (uids : List Bytes)
    → is_filled uids ≡ true
    → every p uids ≡ true
    → p (last_uid puid uids) ≡ true
unfolding last_uid
last_uid-every p puid [] f h = absurd cc
last_uid-every p puid (uid ∷ []) f h = (both (p uid) true h).0
last_uid-every p puid (uid ∷ v ∷ uids) f h =
    last_uid-every p uid (v ∷ uids) refl (both (p uid) (every p (v ∷ uids)) h).1

-- The values are an array, and every one is a port number.
abbrev pub are_numbers : List (Bytes × Option ℕ) → Bool
are_numbers [] = true
are_numbers ((c ∷ key, value) ∷ ps) = false
are_numbers (([], none) ∷ ps) = false
are_numbers (([], some port_num) ∷ ps) = are_numbers ps

-- Some value has a key.
abbrev pub has_key : List (Bytes × Option ℕ) → Bool
has_key [] = false
has_key ((c ∷ key, value) ∷ ps) = true
has_key (([], value) ∷ ps) = has_key ps

abbrev pub have_key : Settings → Bool
have_key [] = false
have_key ((uid, is_taken, ports) ∷ rest) = has_key ports || have_key rest

-- The ports that one translator, and all of them, are to be mapped to.
abbrev pub numbers : List (Bytes × Option ℕ) → List ℕ
numbers [] = []
numbers ((key, none) ∷ ps) = numbers ps
numbers ((key, some port_num) ∷ ps) = port_num ∷ numbers ps

abbrev pub all_ports : Settings → List ℕ
all_ports [] = []
all_ports ((uid, is_taken, ports) ∷ rest) = numbers ports ++ all_ports rest

pub every-append {ℓ} :
    {A : Type ℓ} (p : A → Bool) (xs ys : List A)
    → every p xs ≡ true
    → every p ys ≡ true
    → every p (xs ++ ys) ≡ true
every-append p [] ys h g = g
every-append p (x ∷ xs) ys h g =
    let (a, b) = both (p x) (every p xs) h in
    and_intro (p x) (every p (xs ++ ys)) a (every-append p xs ys b g)

pub every-map :
    (p q : ℕ → Bool) (xs : List ℕ)
    → ((x : ℕ) → p x ≡ true → q x ≡ true)
    → every p xs ≡ true
    → every q xs ≡ true
every-map p q [] f h = refl
every-map p q (x ∷ xs) f h =
    let (a, b) = both (p x) (every p xs) h in
    and_intro (q x) (every q xs) (f x a) (every-map p q xs f b)
