-- ===== src/Core/Listeners.antt =====
-- Which servers run after the start, and that each of them can serve its clients.
use eiptnd.Prelude.{
  ℕ, ◌≡◌, refl, ap, sym, ◌∙◌, Bool, true, false, Option, none, some, List, [], ◌∷◌, ◌++◌, map,
  Bytes, append_assoc, append-nil, both, ◌<◌, Bool-cases, Option-cases, inl, inr, arith,
}
use eiptnd.Plugins.Manager.{Result, ok, err, assertion_failed, ◌>>=◌, Manager, on_connection}
use eiptnd.Plugins.Manager
use eiptnd.Plugins.Assertion.{Asserts}
use eiptnd.Plugins.Assertion
use eiptnd.Router.Exceptions
use eiptnd.Plugins.Ports.{have_key, every, every-append, accepts, and_intro}
use eiptnd.Plugins.Mapped.{Inv, on_connection_lem}
use eiptnd.Plugins.Kept.{Keeps, load_settings-Keeps}
use eiptnd.Plugins.Factory.{Factory, create_factory}
use eiptnd.Router.Routes.{Router}
use eiptnd.Router.Routes
use eiptnd.Core.Startup.{
  Library, System, Settings, Plugins, manager_library, router_library, load_settings, load_paths,
  new_manager, new_router, count,
}
use eiptnd.Core.LogSettings.{
  default_settings, Log, Branches, assign_all, dotted, leaves, convert_log_settings,
  convert_log_settings-leaves,
}
use eiptnd.Core.Service.{
  File, set_log, init_logging, Core, create, stop, open_ports, open_all, listen, run_with, run,
  caught, start,
}

-- Every port at every address, the addresses one after another.
abbrev pub pairs : List Bytes → List ℕ → List (Bytes × ℕ)
pairs [] ports = []
pairs (address ∷ bind_list) ports =
    map (λ port_num. (address, port_num)) ports ++ pairs bind_list ports

module _ (system : System) where
  -- Without an exception the loops open every server that there is to open.
  abbrev Opens : List (Bytes × ℕ) → Bool × List (Bytes × ℕ) → Type 0
  Opens ls (is_open, opened) = is_open ≡ true → opened ≡ ls

  open_ports-Opens :
      (address : Bytes) (ports : List ℕ) (ls : List (Bytes × ℕ))
      → Opens
          (ls ++ map (λ port_num. (address, port_num)) ports)
          (open_ports system address ports ls)
  unfolding open_ports
  open_ports-Opens address [] ls = λ h. sym (append-nil ls)
  open_ports-Opens address (p ∷ ps) ls = elim (Bool-cases (system.opens address p ls)) [
    | inl e ↦ rw e (λ h.
        open_ports-Opens address ps (ls ++ ((address, p) ∷ [])) h
        ∙ append_assoc ls ((address, p) ∷ []) _)
    | inr e ↦ rw e (λ h. absurd cc)
  ]

  open_all-Opens :
      (bind_list : List Bytes) (ports : List ℕ) (ls : List (Bytes × ℕ))
      → Opens (ls ++ pairs bind_list ports) (open_all system bind_list ports ls)
  unfolding open_all
  open_all-Opens [] ports ls = λ h. sym (append-nil ls)
  open_all-Opens (a ∷ rest) ports ls =
      let first = open_ports system a ports ls in
      let others = open_all-Opens rest ports first.1 in
      elim (Bool-cases first.0) [
        | inl e ↦ rw e (λ h.
            others h
            ∙ (ap (λ x. x ++ pairs rest ports) (open_ports-Opens a ports ls e)
                ∙ append_assoc ls _ _))
        | inr e ↦ rw e (λ h. absurd cc)
      ]

every-counted :
    (f : ℕ → Bool) (qs : List ℕ) → ((p : ℕ) → 0 < count p qs → f p ≡ true) → every f qs ≡ true
every-counted f [] h = refl
every-counted f (q ∷ qs) h =
    and_intro (f q) (every f qs) (h q (ground arith))
      (every-counted f qs (λ p g. h p (omega (arith, g))))

abbrev at_port : (ℕ → Bool) → Bytes × ℕ → Bool
at_port f (address, port_num) = f port_num

every-pairs :
    (f : ℕ → Bool) (bind_list : List Bytes) (ports : List ℕ)
    → every f ports ≡ true
    → every (at_port f) (pairs bind_list ports) ≡ true
every-pairs f [] ports h = refl
every-pairs f (a ∷ rest) ports h =
    every-append (at_port f) (map (λ port_num. (a, port_num)) ports) (pairs rest ports)
      (one_address ports h) (every-pairs f rest ports h)
  where
    one_address :
        (ps : List ℕ)
        → every f ps ≡ true
        → every (at_port f) (map (λ port_num. (a, port_num)) ps) ≡ true
    one_address [] g = refl
    one_address (p ∷ ps) g =
        let (x, y) = both (f p) (every f ps) g in and_intro (f p) _ x (one_address ps y)

-- Whether the settings of a translator have a key under "tcp".
abbrev pub keyed : Option File → Bool
keyed none = false
keyed (some file) = have_key file.plugin.translator

abbrev pub log_of : Option File → Option Branches
log_of none = none
log_of (some file) = file.log

-- The log was set up with the settings of `init_logging`, and then with all values of its own
-- settings, if there are any.
abbrev pub IsLogged : (G : Log) → Option Branches → List G.Store → Type 0
IsLogged G none log = log ≡ default_settings G ∷ []
IsLogged G (some settings) log =
    log
    ≡ default_settings G
      ∷ assign_all G.assign (λ (k, ks). dotted k ks) (leaves settings) G.empty
      ∷ []

module _ {L : Library} where
  -- A connection to any of the servers gets a translator.
  abbrev pub all_served : Plugins L → List (Bytes × ℕ) → Bool
  all_served plugins =
      every (at_port (λ port_num. accepts (on_connection port_num plugins.manager)))

  key_served :
      (plugins : Plugins L)
      → Inv (manager_library L) plugins.manager
      → every
          (λ port_num. accepts (on_connection port_num plugins.manager))
          (L.keys plugins.manager.port_mapping)
        ≡ true
  key_served plugins i = every-counted _ (L.keys plugins.manager.port_mapping) λ p h.
      on_connection_lem (manager_library L) p plugins.manager i
        (ground (arith, L.count-keys p plugins.manager.port_mapping))

  -- How `operator()` ends: with EXIT_SUCCESS it has set up the log, and runs a server for each port
  -- that is mapped, at each address, and all can serve their clients; with EXIT_FAILURE it has
  -- stopped; a failed assertion has ended the program only if a translator has a key under "tcp".
  abbrev pub Started : Bool → Option Branches → List Bytes → ℕ → Option (Bool × Core L) → Type 0
  Started key log bind_list num_threads none = key ≡ true
  Started key log bind_list num_threads (some (true, c)) =
      (plugins : Plugins L) × (c.plugins ≡ some plugins)
      × (c.listeners ≡ pairs bind_list (L.keys plugins.manager.port_mapping))
      × (all_served plugins c.listeners ≡ true)
      × (c.io_service ≡ true)
      × (c.threads ≡ num_threads)
      × IsLogged L.log log c.log
  Started key log bind_list num_threads (some (false, c)) =
      (c.io_service ≡ false) × (c.cancelled ≡ true)

  stopped :
      (k : Bool) (l : Option Branches) (b : List Bytes) (n : ℕ) (c : Core L)
      → Started k l b n (some (false, stop c))
  unfolding stop
  stopped k l b n c = (refl, refl)

  listen-Started :
      (system : System) (k : Bool) (l : Option Branches) (b : List Bytes) (n : ℕ)
      (plugins : Plugins L) (c : Core L)
      → Inv (manager_library L) plugins.manager
      → c.listeners ≡ []
      → IsLogged L.log l c.log
      → Started k l b n (caught (some (listen system b n plugins c)))
  unfolding listen
  listen-Started system k l b n plugins c i q g =
      let ports = L.keys plugins.manager.port_mapping in
      rw q (elim (Bool-cases (open_all system b ports []).0) [
        | inl e ↦ rw e (
          plugins,
          refl,
          open_all-Opens system b ports [] e,
          rw (open_all-Opens system b ports [] e) (every-pairs _ b ports (key_served plugins i)),
          refl,
          refl,
          g,
        )
        | inr e ↦ rw e (stopped k l b n _)
      ])

module _ (L : Library) (system : System) (l : Option Branches) (b : List Bytes) (n : ℕ) where
  unmapped : (f : Factory L.loaded_map) → Inv (manager_library L) (new_manager L system f)
  unmapped f = record { mapped = λ p. rw (L.port_map.range-empty p) refl }

  loaded-Started :
      (f : Factory L.loaded_map) (k : Bool) (m : Result (Manager (manager_library L)))
      (r : Result (Router (router_library L))) (c : Core L)
      → Keeps (manager_library L) m
      → Asserts k m
      → Asserts false r
      → c.listeners ≡ []
      → IsLogged L.log l c.log
      → Started k l b n (
          caught (
            run_with {L = L} system
              (m >>= λ x. r >>= λ y. ok (record { factory = f; manager = x; router = y }))
              b
              n
              c))
  loaded-Started f k (ok m) (ok r) c i a a' q g =
      listen-Started system k l b n (record { factory = f; manager = m; router = r }) c i q g
  loaded-Started f k (ok m) (err assertion_failed) c i a a' q g = absurd cc
  loaded-Started f k (ok m) (err e) c i a a' q g = stopped k l b n _
  loaded-Started f k (err assertion_failed) r c i a a' q g = a
  loaded-Started f k (err e) r c i a a' q g = stopped k l b n _

  run-Started :
      (settings : Settings) (c : Core L)
      → c.listeners ≡ []
      → IsLogged L.log l c.log
      → Started (have_key settings.translator) l b n (caught (run system settings b n c))
  unfolding run load_settings
  run-Started settings c q g =
      let f = load_paths L system settings.path create_factory in
      loaded-Started f (have_key settings.translator)
        (Manager.load_settings settings.translator (new_manager L system f))
        (Routes.load_settings settings.dispatcher (new_router L system f)) c
        (load_settings-Keeps (manager_library L) settings.translator (new_manager L system f)
          (unmapped f))
        (Assertion.load_settings-Asserts settings.translator (new_manager L system f))
        (Exceptions.load_settings-Asserts settings.dispatcher (new_router L system f)) q g

-- Whatever the settings are, whatever plugins there are and whatever servers can be opened: when
-- the start succeeds, a server runs at each address for each key of the port mapping, a connection
-- to any of them gets a translator, the threads run, and the log was set up with the settings that
-- the program has for it and then with each value of those in the file, if there are any. A failed
-- assertion ends the program only if there is a key under the "tcp" of a translator. Else the core
-- has given up its io_service and cancelled the servers that it had opened.
pub start-Started :
    (L : Library) (system : System) (file : Option File) (bind_list : List Bytes) (num_threads : ℕ)
    → Started
        (keyed file)
        (log_of file)
        bind_list
        num_threads
        (start {L = L} system file bind_list num_threads)
unfolding start set_log init_logging
start-Started L system file b n =
    elim (Bool-cases (L.log.init_from_settings (default_settings L.log))) [
      | inl h ↦ initialized file h
      | inr h ↦ failed file h
    ]
  where
    initialized :
        (file : Option File)
        → L.log.init_from_settings (default_settings L.log) ≡ true
        → Started (keyed file) (log_of file) b n (start {L = L} system file b n)
    initialized none i = rw i (stopped false none b n _)
    initialized (some file) i = elim (Option-cases file.log) [
      | inl e ↦
          rw (i, e)
            (run-Started L system none b n file.plugin
              (record create { log = default_settings L.log ∷ [] }) refl refl)
      | inr (settings, e) ↦
          let store = convert_log_settings L.log.assign settings [] L.log.empty in
          rw (i, e)
            (elim (Bool-cases (L.log.init_from_settings store)) [
              | inl h ↦ rw h (
                  run-Started L system (some settings) b n file.plugin
                    (record create { log = default_settings L.log ∷ store ∷ [] }) refl
                    (ap (λ x. default_settings L.log ∷ x ∷ [])
                      (convert_log_settings-leaves L.log.assign settings L.log.empty)))
              | inr h ↦ rw h (stopped (have_key file.plugin.translator) (some settings) b n _)
            ])
    ]

    failed :
        (file : Option File)
        → L.log.init_from_settings (default_settings L.log) ≡ false
        → Started (keyed file) (log_of file) b n (start {L = L} system file b n)
    failed none i = rw i (stopped false none b n _)
    failed (some file) i = rw i (stopped (have_key file.plugin.translator) file.log b n _)
