-- ===== src/Net/Each.antt =====
-- What holds of each connection of a server.
use Prim.{Unit, tt}
use eiptnd.Prelude.{◌≡◌, refl, sym, ap, ◌∙◌, Bool, true, false, List, [], ◌∷◌, ◌++◌, arith}
use mathlib.Core.Path.{subst}
use eiptnd.Net.Session.{
  Translator, Result, ok, err, ◌>>=◌, Session, create, on_connection, release_connection,
}
use eiptnd.Net.Server.{
  Server, start_accept, handle_accept, SessionStep, Step, accept_done, runs, cancels, cancel, Reach,
  here, next, opened,
}

-- `P` holds when a connection was accepted, and each of its steps keeps it.
module _ {T : Translator} (P : Session T → Type 0)
    (accepted : (t : T.State) (u : Session T)
      → on_connection (create t) ≡ ok u
      → P (release_connection u))
    (steps : (x y : Session T) → SessionStep x y → P x → P y) where
  abbrev All : List (Session T) → Type 0
  All [] = Unit {0}
  All (s ∷ ss) = P s × All ss

  -- It holds of every connection, and the one that waits for a client is new.
  record Inv (s : Server T) : Type 0 where
    pub sessions : All s.sessions
    pub waits : (t : T.State) × (s.new_connection ≡ create t)

  replaced :
      (before after : List (Session T)) (x y : Session T)
      → (P x → P y)
      → All (before ++ (x ∷ after))
      → All (before ++ (y ∷ after))
  replaced [] after x y f (v, vs) = (f v, vs)
  replaced (z ∷ before) after x y f (v, vs) = (v, replaced before after x y f vs)

  -- The server after the connection `x` was accepted.
  abbrev grown : T.State → Server T → Session T → Server T
  grown u s x =
      start_accept u (record s { accepting = false; sessions = release_connection x ∷ s.sessions })

  accepted-Inv :
      (u : T.State) (s : Server T) (c : Result (Session T)) {t : Server T}
      → All s.sessions
      → ((x : Session T) → c ≡ ok x → P (release_connection x))
      → (c >>= λ x. ok (grown u s x)) ≡ ok t
      → Inv t
  unfolding start_accept
  accepted-Inv u s (ok x) {t} vs p e =
      subst Inv {x = grown u s x} {y = t} (ground arith)
        (record { sessions = (p x refl, vs); waits = (u, refl) })
  accepted-Inv u s (err f) vs p e = absurd cc

  handle_accept-Inv :
      (success : Bool) (u : T.State) (s : Server T) {t : Server T}
      → Inv s
      → handle_accept success u s ≡ ok t
      → Inv t
  unfolding handle_accept
  handle_accept-Inv false u s {t} v e =
      subst Inv {x = record s { accepting = false }} {y = t} (ground arith)
        (record { sessions = v.sessions; waits = v.waits })
  handle_accept-Inv true u s v e =
      let (n, q) = v.waits in
      accepted-Inv u s (on_connection s.new_connection) v.sessions
        (λ x h. accepted n x (ap on_connection (sym q) ∙ h)) e

  Step-Inv : {s t : Server T} → Step s t → Inv s → Inv t
  unfolding cancel
  Step-Inv {s} {t} (accept_done b u h e) v = handle_accept-Inv b u s v e
  Step-Inv {s} {t} (runs before after {x} {y} q st e) v = subst Inv (sym e) (record {
    sessions = replaced before after x y (steps x y st) (subst All q v.sessions);
    waits = v.waits;
  })
  Step-Inv {s} (cancels e) v = subst Inv e (record { sessions = v.sessions; waits = v.waits })

  Reach-Inv : {s t : Server T} → Reach s t → Inv s → Inv t
  Reach-Inv here v = v
  Reach-Inv (next r st) v = Step-Inv st (Reach-Inv r v)

  one_of : (before after : List (Session T)) (x : Session T) → All (before ++ (x ∷ after)) → P x
  one_of [] after x (v, vs) = v
  one_of (y ∷ before) after x (v, vs) = one_of before after x vs

  started-Inv : (a b : T.State) → Inv (start_accept a (opened b))
  unfolding start_accept
  started-Inv a b = record { sessions = tt; waits = (a, refl) }

  pub Reach-each :
      (a b : T.State) (s : Server T) (before after : List (Session T)) (x : Session T)
      → Reach (start_accept a (opened b)) s
      → s.sessions ≡ before ++ (x ∷ after)
      → P x
  Reach-each a b s before after x r q =
      one_of before after x (subst All q (Inv.sessions (Reach-Inv r (started-Inv a b))))
