-- ===== src/Main/Exit.antt =====
-- What the exit status of the program says.
use eiptnd.Prelude.{
  ℕ, ◌≡◌, ◌↔◌, ◌⊎◌, inl, inr, refl, ap, sym, ◌∙◌, Bool, true, false, Option, none, some, List, [],
  ◌∷◌, ◌++◌, Bytes, arith, if◌then◌else◌,
}
use mathlib.Core.Path.{subst}
use eiptnd.Core.Startup.{Library, System}
use eiptnd.Core.Service.{File, Core, create, start, init_logging, caught, and_then}
use eiptnd.Core.Listeners.{Started, start-Started, keyed}
use eiptnd.Main.{
  VariablesMap, Mode, common, server, Line, Boost, general, network, default_num_threads, run_core,
  main, parsed, launch, launched, exit_status, daemon_info, deamonizing, exit_success, exit_failure,
}

abbrev pub mode : VariablesMap → Mode
mode vm = if vm.foreground then common else server

-- What cannot be.
pub data Empty : Type 0 where

-- The exit status, if the program comes to its end.
abbrev pub status : Option (ℕ × List Line) → Option ℕ
status none = none
status (some (result, ls)) = some result

module _ (L : Library) (system : System) (read_file : Bytes → Option File) (boost : Boost) where
  -- The file of settings was read, the service was started as `Started` says, and its launch ended
  -- without an error.
  pub record Served (vm : VariablesMap) : Type 0 where
    pub launched : (boost.launch (mode vm) exit_success).1 ≡ false
    pub file : File
    pub reads : read_file vm.config_file ≡ some file
    pub core : Core L
    pub starts : start {L = L} system (some file) vm.bind vm.num_threads ≡ some (true, core)
    pub runs : Started (keyed (some file)) file.log vm.bind vm.num_threads (some (true, core))

  -- The command line is understood, and the program is asked for its version or for help, or serves.
  abbrev pub Succeeds : Option VariablesMap → Type 0
  Succeeds none = Empty
  Succeeds (some vm) = (vm.version ≡ true) ⊎ ((vm.help ≡ true) ⊎ Served vm)

  launched_lem :
      (r : ℕ × Bool) → ((launched L system read_file boost r).0 ≡ 0) ↔ ((r.1 ≡ false) × (r.0 ≡ 0))
  launched_lem (r, false) = (λ e. (refl, e), λ (h, e). e)
  launched_lem (r, true) = (λ e. absurd (omega (arith, e)), λ (h, e). absurd cc)

  unread_fails :
      (b : List Bytes) (n : ℕ) (c : Core L) → start {L = L} system none b n ≡ some (true, c) → Empty
  unfolding start
  unread_fails b n c e = fails (init_logging create) e
    where
      fails :
          (p : Bool × Core L)
          → caught (some (and_then p (λ d. (false, d)))) ≡ some (true, c)
          → Empty
      fails (true, d) h = absurd cc
      fails (false, d) h = absurd cc

  start-Served :
      (vm : VariablesMap) (o : Option File) (c : Core L)
      → read_file vm.config_file ≡ o
      → start {L = L} system o vm.bind vm.num_threads ≡ some (true, c)
      → (boost.launch (mode vm) exit_success).1 ≡ false
      → Served vm
  start-Served vm none c r e h = elim (unread_fails vm.bind vm.num_threads c e) [ ]
  start-Served vm (some file) c r e h = record {
    launched = h;
    file = file;
    reads = r;
    core = c;
    starts = e;
    runs =
        subst (Started (keyed (some file)) file.log vm.bind vm.num_threads) e
          (start-Started L system (some file) vm.bind vm.num_threads);
  }

  started :
      (vm : VariablesMap)
      → Served vm
      → (c : Core L) × (start {L = L} system (read_file vm.config_file) vm.bind vm.num_threads
          ≡ some (true, c))
  started vm s =
      (s.core, ap (λ o. start {L = L} system o vm.bind vm.num_threads) s.reads ∙ s.starts)

  served_lem :
      (vm : VariablesMap) (ls : List Line) (m : Mode)
      → mode vm ≡ m
      → (o : Option (Bool × Core L))
      → start {L = L} system (read_file vm.config_file) vm.bind vm.num_threads ≡ o
      → (status (launch L system read_file boost ls m (exit_status L system read_file o)) ≡ some 0)
        ↔ Served vm
  served_lem vm ls m e none s = (λ h. absurd cc, λ v. let (c, f) = started vm v in absurd cc)
  served_lem vm ls m e (some (true, c)) s =
      let (to, from) = launched_lem (boost.launch m exit_success) in
      (
        λ h.
            let (g, z) = to (cc) in
            start-Served vm (read_file vm.config_file) c refl s
              (ap (λ x. (boost.launch x exit_success).1) e ∙ g),
        λ v.
            let g = sym (ap (λ x. (boost.launch x exit_success).1) e) ∙ v.launched in
            ap some (from (g, boost.launch-result m exit_success g)),
      )
  served_lem vm ls m e (some (false, c)) s =
      let (to, from) = launched_lem (boost.launch m exit_failure) in
      (
        λ h.
            let (g, z) = to (cc) in absurd (omega (arith, z, boost.launch-result m exit_failure g)),
        λ v. let (c, f) = started vm v in absurd cc,
      )

  first_of :
      {B : Type 0} (b : Bool) (x y : Option (ℕ × List Line))
      → status x ≡ some 0
      → ((status y ≡ some 0) ↔ B)
      → (status (if b then x else y) ≡ some 0) ↔ ((b ≡ true) ⊎ B)
  first_of true x y e f = (λ _. inl refl, λ _. e)
  first_of false x y e (to, from) =
      (λ h. inr (to h), λ s. elim s [ inl h ↦ absurd cc | inr h ↦ from h ])

  mode_lem :
      (vm : VariablesMap) (b : Bool)
      → vm.foreground ≡ b
      → (status (
            if b
            then launch L system read_file boost
                (daemon_info ∷ [])
                common
                (run_core L system read_file vm)
            else launch L system read_file boost
                (daemon_info ∷ deamonizing ∷ [])
                server
                (run_core L system read_file vm))
          ≡ some 0)
        ↔ Served vm
  unfolding run_core
  mode_lem vm true e =
      served_lem vm (daemon_info ∷ []) common (ap (λ b. if b then common else server) e) _ refl
  mode_lem vm false e =
      served_lem vm (daemon_info ∷ deamonizing ∷ []) server
        (ap (λ b. if b then common else server) e) _ refl

  parsed-Succeeds :
      (o : Option VariablesMap) → (status (parsed L system read_file boost o) ≡ some 0) ↔ Succeeds o
  parsed-Succeeds none = (λ e. absurd cc, λ s. elim s [ ])
  parsed-Succeeds (some vm) =
      first_of vm.version _ _ refl (first_of vm.help _ _ refl (mode_lem vm vm.foreground refl))

  -- The exit status of the program is EXIT_SUCCESS exactly if the command line could be parsed and
  -- asks for the version or for help, or the service was launched without an error, in the
  -- foreground if that was asked for and as a server else, and its start went through: the file of
  -- settings could be read, the log was set up with the program's settings and those of the file, a
  -- server runs at each address for each key of the port mapping, each of which can serve its
  -- clients, and the threads run.
  pub main-Succeeds :
      (argv : List Bytes) (hardware_concurrency : ℕ)
      → (status (main L system read_file boost argv hardware_concurrency) ≡ some 0)
        ↔ Succeeds
            (boost.parse (general ++ network (default_num_threads hardware_concurrency)) argv)
  unfolding main
  main-Succeeds argv n =
      parsed-Succeeds (boost.parse (general ++ network (default_num_threads n)) argv)
