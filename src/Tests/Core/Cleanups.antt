-- ===== src/Tests/Core/Cleanups.antt =====
-- A cleanup on a device that lists two apps and refuses to uninstall one of them.
use yard.Prelude.{
  ℕ, ◌+◌, ◌≡◌, ◌↔◌, refl, Bool, true, false, some, List, [], ◌∷◌, Text, codes, ok, err, text_eq,
  text_key, if◌then◌else◌, map, length,
}
use yard.Core.Cleanup.Filter.{
  matches, lowercase, split_star, strip_prefix, find_after, ends_with, match_rest, to_lower,
}
use yard.Core.Cleanup.Glob.{Glob, matches-Glob}
use yard.Core.Cleanup.{
  Backend, failed, unsupported, uninstalls, CleanupSteps, fresh, run_with_protected, uninstall_each,
}
use yard.Core.Cleanup.Calls.{Permitted, AllCalls, run_with_protected-Permitted}
use yard.Core.Cleanup.Report.{IsSupported, entries, wanted, uninstall_each_complete}

matches_google : matches (codes "*.Google.*") (codes "com.google.android.gm") ≡ true
unfolding matches split_star strip_prefix find_after ends_with match_rest to_lower text_eq
matches_google = refl

matches_overlap : matches (codes "a*aa") (codes "aa") ≡ false
unfolding matches split_star strip_prefix find_after ends_with match_rest to_lower text_eq
matches_overlap = refl

matches-Glob_example :
    (matches (codes "*.Google.*") (codes "com.google.android.gm") ≡ true)
    ↔ Glob (lowercase (codes "*.Google.*")) (lowercase (codes "com.google.android.gm"))
matches-Glob_example = matches-Glob (codes "*.Google.*") (codes "com.google.android.gm")

abbrev apps : List Text
apps = codes "com.a" ∷ codes "com.b" ∷ []

-- Each listing is counted in the device's state.
abbrev phone : Backend ℕ
phone = record {
  apps = λ n. (n + 1, ok apps);
  uninstall =
      λ app n. (n, if text_eq app (codes "com.a") then err (failed (codes "busy")) else ok tt);
  clear_app_data = λ app n. (n, err (unsupported (codes "pm clear")));
  reset_screen = λ n. (n, ok tt);
  wipe_paths = λ ps n. (n, ok tt);
}

phone_supports : (app : Text) (n : ℕ) → IsSupported (phone.uninstall app n).1
phone_supports app n = refuses_none (text_eq app (codes "com.a"))
  where
    refuses_none : (c : Bool) → IsSupported (if c then err (failed (codes "busy")) else ok tt)
    refuses_none true = tt
    refuses_none false = tt

abbrev steps : CleanupSteps
steps = record {
  uninstall_apps = true;
  clear_app_data = true;
  reset_screen = true;
  wipe_folders = true;
}

run_with_protected-Permitted_example :
    AllCalls
      (Permitted steps (record { allow = []; deny = [] }) (some (codes "com.c" ∷ [])) [] [])
      (run_with_protected phone steps
        (record { allow = []; deny = [] })
        (some (codes "com.c" ∷ []))
        []
        []
        0).calls
run_with_protected-Permitted_example =
    run_with_protected-Permitted phone steps (record { allow = []; deny = [] })
      (some (codes "com.c" ∷ [])) [] [] 0

uninstall_each_complete_example :
    (entries (uninstall_each phone (codes "com.c" ∷ []) [] apps (fresh 0))
      ≡ 0 + length (wanted (codes "com.c" ∷ []) [] apps))
    × ((uninstall_each phone (codes "com.c" ∷ []) [] apps (fresh 0)).calls
        ≡ map uninstalls (wanted (codes "com.c" ∷ []) [] apps))
uninstall_each_complete_example =
    uninstall_each_complete phone phone_supports (codes "com.c" ∷ []) [] apps (fresh 0)
