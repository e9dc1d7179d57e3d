-- ===== src/Tests/Main.antt =====
-- The program in the foreground, with the service of the core's tests.
use eiptnd.Prelude.{◌≡◌, ◌↔◌, refl, true, false, some, [], ◌∷◌, codes}
use eiptnd.Main.{VariablesMap, Boost, default_config_path, main}
use eiptnd.Main.Exit.{Succeeds, status, main-Succeeds}
use eiptnd.Tests.Core.{library, system, file}

abbrev foreground : VariablesMap
foreground = record {
  help = false;
  version = false;
  foreground = true;
  config_file = default_config_path;
  bind = codes "::" ∷ [];
  num_threads = 4;
}

abbrev boost : Boost
boost = record {
  parse = λ options argv. some foreground;
  launch = λ m r. (r, false);
  launch-result = λ m r e. refl;
}

main-Succeeds_example :
    (status (main library system (λ path. some (file (some 1 ∷ []))) boost (codes "-F" ∷ []) 4)
      ≡ some 0)
    ↔ Succeeds library system (λ path. some (file (some 1 ∷ []))) boost (some foreground)
main-Succeeds_example =
    main-Succeeds library system (λ path. some (file (some 1 ∷ []))) boost (codes "-F" ∷ []) 4
