-- ===== src/Core/Cleanup/Report.antt =====
-- No app is passed over in silence: every failure is in the report, and the loop goes on behind it.
use mathlib.Core.List.{append_assoc, append-nil, map-append}
use yard.Prelude.{
  ℕ, suc, ◌+◌, ◌≡◌, refl, sym, ap, ◌∙◌, true, not, ◌||◌, List, [], ◌∷◌, ◌++◌, map, Text, contains,
  text_key, ok, err, arith, Bool-cases, inl, inr, length, keep, length-append,
}
use yard.Core.Cleanup.{
  unavailable, unsupported, failed, Reply, Backend, uninstalls, Run, uninstall_one, uninstall_turn,
  uninstall_each, settle_uninstall, called,
}

-- The answer is not that the operation does not exist.
abbrev pub IsSupported : Reply (Unit {0}) → Type 0
IsSupported (err (unsupported op)) = ⊥
IsSupported (ok u) = Unit {0}
IsSupported (err (unavailable e)) = Unit {0}
IsSupported (err (failed e)) = Unit {0}

abbrev pub wanted : List Text → List Text → List Text → List Text
wanted known protected = keep λ app. not (contains known app || contains protected app)

-- The entries that the report has of uninstalls.
abbrev pub entries : {W : Type 0} → Run W → ℕ
entries r = length r.report.removed + length r.report.errors

settle_uninstall_entry :
    {W : Type 0} (app : Text) (reply : Reply (Unit {0})) (r : Run W)
    → IsSupported reply
    → ((settle_uninstall app reply r).0 ≡ true)
      × (entries (settle_uninstall app reply r).1 ≡ suc (entries r))
      × ((settle_uninstall app reply r).1.calls ≡ r.calls)
settle_uninstall_entry app (ok u) r h =
    (refl, omega (arith, length-append r.report.removed (app ∷ [])), refl)
settle_uninstall_entry app (err (unavailable e)) r h =
    (refl, omega (arith, length-append {0} r.report.errors), refl)
settle_uninstall_entry app (err (failed e)) r h =
    (refl, omega (arith, length-append {0} r.report.errors), refl)
settle_uninstall_entry app (err (unsupported op)) r h = absurd h

module _ {W : Type 0} (b : Backend W)
    (supports : (app : Text) (w : W) → IsSupported (b.uninstall app w).1)
    (known protected : List Text) where
  uninstall_each-turn :
      (app : Text) (apps : List Text) (r : Run W)
      → (uninstall_turn b known protected app r).0 ≡ true
      → uninstall_each b known protected (app ∷ apps) r
        ≡ uninstall_each b known protected apps (uninstall_turn b known protected app r).1
  unfolding uninstall_each
  uninstall_each-turn app apps r e = rw e

  -- The turn for one app: none for a known or protected one, and one call with one entry else.
  turn_entry :
      (app : Text) (r : Run W)
      → ((uninstall_turn b known protected app r).0 ≡ true)
        × (entries (uninstall_turn b known protected app r).1
            ≡ entries r + length (wanted known protected (app ∷ [])))
        × ((uninstall_turn b known protected app r).1.calls
            ≡ r.calls ++ map uninstalls (wanted known protected (app ∷ [])))
  unfolding uninstall_turn uninstall_one
  turn_entry app r = elim (Bool-cases (contains known app || contains protected app)) [
    | inl kept ↦ rw (kept, uninstall_turn) (refl, omega arith, sym (append-nil r.calls))
    | inr goes ↦
        let s =
          settle_uninstall_entry app (b.uninstall app r.device).1
            (called (uninstalls app) (b.uninstall app r.device).0 r) (supports app r.device) in
        rw (goes, uninstall_turn) (s.0, s.1 ∙ (omega arith), s.2)
  ]

  wanted_cons :
      (app : Text) (apps : List Text)
      → wanted known protected (app ∷ apps)
        ≡ wanted known protected (app ∷ []) ++ wanted known protected apps
  wanted_cons app apps = ground arith

  each_entries :
      (apps : List Text) (r : Run W)
      → (entries (uninstall_each b known protected apps r)
          ≡ entries r + length (wanted known protected apps))
        × ((uninstall_each b known protected apps r).calls
            ≡ r.calls ++ map uninstalls (wanted known protected apps))
  unfolding uninstall_each
  each_entries [] r = (omega arith, sym (append-nil r.calls))
  each_entries (app ∷ apps) r =
      let t = turn_entry app r in
      let r' = (uninstall_turn b known protected app r).1 in
      let ih = each_entries apps r' in
      let first = wanted known protected (app ∷ []) in
      let rest = wanted known protected apps in
      rw (t.0, uninstall_each, wanted_cons app apps, map-append)
        (
          omega (arith, ih.0, t.1, length-append first rest),
          ih.1
              ∙ ap (λ c. c ++ map uninstalls rest) t.2
              ∙ append_assoc r.calls (map uninstalls first) (map uninstalls rest),
        )

-- Where the backend can uninstall at all, every listed app outside the baseline and the protected
-- set is uninstalled exactly once and in the listed order, whatever came of those before it, and
-- each attempt adds one entry to the report, in `removed` or in `errors`.
pub uninstall_each_complete :
    {W : Type 0} (b : Backend W)
    → ((app : Text) (w : W) → IsSupported (b.uninstall app w).1)
    → (known protected apps : List Text) (r : Run W)
    → (entries (uninstall_each b known protected apps r)
        ≡ entries r + length (wanted known protected apps))
      × ((uninstall_each b known protected apps r).calls
          ≡ r.calls ++ map uninstalls (wanted known protected apps))
uninstall_each_complete b supports known protected = each_entries b supports known protected
