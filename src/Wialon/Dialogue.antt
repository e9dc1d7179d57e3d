-- ===== src/Wialon/Dialogue.antt =====
-- Whole messages through `handle_message`, and what is answered.
use eiptnd.Prelude.{
  ℕ, zero, suc, ap, ◌∙◌, ◌≡◌, ◌≢◌, refl, ◌⊎◌, inl, inr, Bool, true, false, not, ◌&&◌, none, some,
  Option, ◌==◌, ◌++◌, List, [], ◌∷◌, Bytes, codes, length, get_elem?, arith, equal, equal_iff,
}
use eiptnd.Boost.Containers.{Tree, is_plain}
use eiptnd.Wialon.Protocol.{
  state_initial, state_end, Command, command_login, command_data, command_ping, command_shortdata,
  command_blackbox, command_message, command_image, is_login, arity,
}
use eiptnd.Wialon.Machine.{
  Library, Parser, ok, do_read_until, authenticate, process_data, store_data, commit,
  commit_command, call, authenticated_at_once, handle_authenticate, answer, do_write, reply_text,
  Call,
}
use eiptnd.Wialon.Grants.{grants, logged_in_after}
use eiptnd.Wialon.Token.{crlf, finish_line, consume_token, consume_tokens, parse_string}
use eiptnd.Wialon.Session.{handle_message}
use eiptnd.Wialon.Fields.{
  parameters, put_all, header, at_body, body_end, AreOrdinary, consume_message,
}

-- A list of plain keys, all different.
abbrev is_fresh : Bytes → List Bytes → Bool
is_fresh k [] = true
is_fresh k (j ∷ ks) = not (equal j k) && is_fresh k ks

abbrev are_fresh : List Bytes → Bool
are_fresh [] = true
are_fresh (k ∷ ks) = is_plain k && is_fresh k ks && are_fresh ks

parameters_fresh : (c : Command) → are_fresh (parameters c) ≡ true
unfolding equal
parameters_fresh command_login = refl
parameters_fresh command_data = refl
parameters_fresh command_ping = refl
parameters_fresh command_shortdata = refl
parameters_fresh command_blackbox = refl
parameters_fresh command_message = refl
parameters_fresh command_image = refl

module _ (T : Tree) where
  get-put_all_other :
      (k : Bytes) (ks vs : List Bytes) (t : T.Ptree)
      → is_plain k ≡ true
      → is_fresh k ks ≡ true
      → are_fresh ks ≡ true
      → T.get k (put_all T ks vs t) ≡ T.get k t
  get-put_all_other k [] vs t p f a = refl
  get-put_all_other k (j ∷ ks) [] t p f a = refl
  get-put_all_other k (j ∷ ks) (v ∷ vs) t p f a =
      get-put_all_other k ks vs (T.put j v t) p (ground arith) (ground arith)
      ∙ T.get-put_ne k j v t p (ground arith) (λ e. ground (arith, equal_iff j k))

  get-put_all :
      (i : ℕ) (k v : Bytes) (ks vs : List Bytes) (t : T.Ptree)
      → are_fresh ks ≡ true
      → get_elem? ks i ≡ some k
      → get_elem? vs i ≡ some v
      → T.get k (put_all T ks vs t) ≡ some v
  get-put_all i k v [] vs t a e f = cc
  get-put_all i k v (j ∷ ks) [] t a e f = cc
  get-put_all zero k v (j ∷ ks) (w ∷ vs) t a e f = ground (
    arith,
    get-put_all_other j ks vs (T.put j w t) (ground arith) (ground arith) (ground arith),
    T.get-put_self j w t (ground arith),
  )
  get-put_all (suc i) k v (j ∷ ks) (w ∷ vs) t a e f =
      get-put_all i k v ks vs (T.put j w t) (ground arith) e f

  -- What a dispatcher reads in the tree of a message: the token that stands at the place of a
  -- parameter is found under the name of that parameter.
  get-parameters :
      (c : Command) (i : ℕ) (k v : Bytes) (toks : List Bytes)
      → get_elem? (parameters c) i ≡ some k
      → get_elem? toks i ≡ some v
      → T.get k (put_all T (parameters c) toks T.empty) ≡ some v
  get-parameters c i k v toks e f =
      get-put_all i k v (parameters c) toks T.empty (parameters_fresh c) e f

-- The commands whose tree goes to the dispatchers at the end of the line.
abbrev pub is_report : Command → Bool
is_report command_data = true
is_report command_shortdata = true
is_report command_message = true
is_report _ = false

-- What is written at once in reply to a login.
abbrev pub login_replies : {A : Type 0} → Option Bool → List (Call A)
login_replies none = []
login_replies (some true) = do_write (reply_text (codes "L") (codes "1")) ∷ []
login_replies (some false) = do_write (reply_text (codes "L") (codes "01")) ∷ []

module _ {L : Library} where
  handle_message_lem :
      (msg : Bytes) (s t u : Parser L)
      → consume_tokens (L.tokens msg) s ≡ ok t
      → finish_line t.state t ≡ ok u
      → handle_message msg s ≡ ok (call (do_read_until crlf) (record u { state = state_initial }))
  unfolding handle_message parse_string consume_token equal
  handle_message_lem msg s t u e f = rw (e, f)

  -- The parser when a message is read whole, and its line is to end.
  abbrev pub at_end : Command → List Bytes → Parser L → Parser L
  at_end c toks s = record (at_body c s) {
    estimate = 0;
    tree = put_all L.tree (parameters c) toks L.tree.empty;
    state = body_end c;
  }

  pub message_lem :
      (msg lead : Bytes) (c : Command) (toks : List Bytes) (s u : Parser L)
      → s.state ≡ state_initial
      → L.tokens msg ≡ header lead c toks
      → equal crlf lead ≡ false
      → (is_login c ≡ true) ⊎ (s.authenticated ≡ true)
      → c ≢ command_ping
      → length toks ≡ arity c
      → AreOrdinary c toks
      → finish_line (body_end c) (at_end c toks s) ≡ ok u
      → handle_message msg s ≡ ok (call (do_read_until crlf) (record u { state = state_initial }))
  message_lem msg lead c toks s u b tk o a np l ord f =
      handle_message_lem msg s (at_end c toks s) u
        (ap (λ x. consume_tokens x s) tk ∙ consume_message lead c toks s b o a np l ord) f

  login_end :
      (imei password : Bytes) (s : Parser L)
      → finish_line state_end (at_end command_login (imei ∷ password ∷ []) s)
        ≡ authenticated_at_once
            (L.authenticates imei password)
            (call (authenticate imei password) (at_end command_login (imei ∷ password ∷ []) s))
  unfolding finish_line commit_command commit
  login_end imei password s =
      let toks = imei ∷ password ∷ [] in
      let named = get-parameters L.tree command_login 0 (codes "imei") imei toks refl refl in
      let secret =
        get-parameters L.tree command_login 1 (codes "password") password toks refl refl in
      let new : (suc s.tree_at == 0) ≡ false = ground arith in rw (new, named, secret) refl

  -- The parser after a login that was answered in this way.
  abbrev pub after_login : Option Bool → List Bytes → List (Call L.tree.Ptree) → Parser L → Parser L
  after_login o toks asked s = record (at_end command_login toks s) {
    state = state_initial;
    authenticated = logged_in_after (grants o) s.authenticated;
    calls = do_read_until crlf ∷ (login_replies o ++ asked);
  }

  -- A login message of two texts, read at the start of a line, asks for authentication with these
  -- texts. If the callback is called before that returns, as the router does, the reply is written
  -- then, and the user is logged in if it was called with true. Who is logged in already stays so.
  -- Then the parser waits for the next message.
  pub login_message :
      (msg lead imei password : Bytes) (o : Option Bool) (s : Parser L)
      → s.state ≡ state_initial
      → L.tokens msg ≡ header lead command_login (imei ∷ password ∷ [])
      → equal crlf lead ≡ false
      → AreOrdinary command_login (imei ∷ password ∷ [])
      → L.authenticates imei password ≡ o
      → handle_message msg s
        ≡ ok (after_login o (imei ∷ password ∷ []) (authenticate imei password ∷ s.calls) s)
  unfolding handle_authenticate answer
  login_message msg lead imei password o s b tk ord no_end a = answered o a
    where
      toks : List Bytes
      toks = imei ∷ password ∷ []

      asked : Parser L
      asked = call (authenticate imei password) (at_end command_login toks s)

      ended :
          (u : Parser L)
          → authenticated_at_once (L.authenticates imei password) asked ≡ ok u
          → handle_message msg s
            ≡ ok (call (do_read_until crlf) (record u { state = state_initial }))
      ended u e =
          message_lem msg lead command_login toks s u b tk ord (inl refl) (λ e. cc) refl no_end
            (login_end imei password s ∙ e)

      answered :
          (o : Option Bool)
          → L.authenticates imei password ≡ o
          → handle_message msg s ≡ ok (after_login o toks (authenticate imei password ∷ s.calls) s)
      answered none e = ended _ (ap (λ x. authenticated_at_once x asked) e)
      answered (some true) e = ended _ (ap (λ x. authenticated_at_once x asked) e)
      answered (some false) e = ended _ (ap (λ x. authenticated_at_once x asked) e)

  report_end :
      (c : Command) (toks : List Bytes) (s : Parser L)
      → is_report c ≡ true
      → finish_line (body_end c) (at_end c toks s)
        ≡ ok (
            call
              (process_data (suc s.tree_at) (put_all L.tree (parameters c) toks L.tree.empty))
              (at_end c toks s))
  unfolding finish_line commit_command commit store_data
  report_end c toks s r = ground arith

  -- A report (of a position or a text) of a user who is logged in, with as many tokens as the
  -- command takes, none of them an end of line: its tree, with every parameter under its name,
  -- goes to the dispatchers once, under a new address, and the parser waits for the next message.
  pub report_message :
      (msg lead : Bytes) (c : Command) (toks : List Bytes) (s : Parser L)
      → s.state ≡ state_initial
      → s.authenticated ≡ true
      → is_report c ≡ true
      → L.tokens msg ≡ header lead c toks
      → length toks ≡ arity c
      → equal crlf lead ≡ false
      → AreOrdinary c toks
      → handle_message msg s
        ≡ ok (record (at_end c toks s) {
          state = state_initial;
          calls =
              do_read_until crlf
              ∷ process_data (suc s.tree_at) (put_all L.tree (parameters c) toks L.tree.empty)
              ∷ s.calls;
        })
  report_message msg lead c toks s b a r tk l o ord =
      message_lem msg lead c toks s _ b tk o (inr a) (λ e. ground arith) l ord
        (report_end c toks s r)
