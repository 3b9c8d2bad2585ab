-- ===== src/Core/Cleanup/Calls.antt =====
-- Which calls of the backend a cleanup makes.
use yard.Prelude.{
  ◌≡◌, refl, Bool, true, false, not, ◌&&◌, ◌||◌, Option, none, some, List, [], ◌∷◌, ◌++◌, Text,
  codes, contains, text_key, is_empty, if◌then◌else◌, ok, err, arith, Bool-cases, inl, inr,
}
use yard.Core.Cleanup.Filter.{AppFilter, in_scope}
use yard.Core.Cleanup.{
  unavailable, unsupported, failed, Reply, CleanupSteps, Backend, Call, lists, uninstalls, clears,
  resets, wipes, Run, uninstall_one, uninstall_turn, clear_turn, uninstall_each, uninstall_new,
  clear_one, clear_each, clear_surviving, reset, wipe, is_new, fresh, called, uninstall_step,
  uninstall_phase, clear_phase, reset_phase, wipe_phase, run_with_protected, settle_uninstall,
  settle_clear, listed,
}

-- What the arguments of a cleanup permit.
abbrev pub Permitted :
    CleanupSteps → AppFilter → Option (List Text) → List Text → List Text → Call → Type 0
Permitted steps filter baseline paths protected lists = Unit {0}
Permitted steps filter baseline paths protected (uninstalls app) =
    (steps.uninstall_apps ≡ true)
    × ((known : List Text) × (baseline ≡ some known) × (contains known app ≡ false))
    × (contains protected app ≡ false)
Permitted steps filter baseline paths protected (clears app) =
    (steps.clear_app_data ≡ true) × (in_scope filter app ≡ true) × (is_new baseline app ≡ false)
Permitted steps filter baseline paths protected resets = steps.reset_screen ≡ true
Permitted steps filter baseline paths protected (wipes ps) =
    (steps.wipe_folders ≡ true) × (ps ≡ paths) × (is_empty ps ≡ false)

abbrev pub AllCalls : (Call → Type 0) → List Call → Type 0
AllCalls P [] = Unit {0}
AllCalls P (c ∷ cs) = P c × AllCalls P cs

AllCalls-push :
    (P : Call → Type 0) (cs : List Call) (c : Call)
    → AllCalls P cs
    → P c
    → AllCalls P (cs ++ c ∷ [])
AllCalls-push P [] c h k = (k, tt)
AllCalls-push P (d ∷ cs) c h k = (h.0, AllCalls-push P cs c h.1 k)

module _ {W : Type 0} where
  calls-settle_uninstall :
      (app : Text) (reply : Reply (Unit {0})) (r : Run W)
      → (settle_uninstall app reply r).1.calls ≡ r.calls
  calls-settle_uninstall app (ok u) r = refl
  calls-settle_uninstall app (err (unavailable e)) r = refl
  calls-settle_uninstall app (err (unsupported op)) r = refl
  calls-settle_uninstall app (err (failed e)) r = refl

  calls-settle_clear :
      (app : Text) (reply : Reply (Unit {0})) (r : Run W)
      → (settle_clear app reply r).1.calls ≡ r.calls
  calls-settle_clear app (ok u) r = refl
  calls-settle_clear app (err (unavailable e)) r = refl
  calls-settle_clear app (err (unsupported op)) r = refl
  calls-settle_clear app (err (failed e)) r = refl

  either-AllCalls :
      (P : Call → Type 0) (c : Bool) (x y : Run W)
      → AllCalls P x.calls
      → AllCalls P y.calls
      → AllCalls P (if c then x else y).calls
  either-AllCalls P true x y h k = h
  either-AllCalls P false x y h k = k

  -- A step that only its switch lets run.
  switch-AllCalls :
      (P : Call → Type 0) (c : Bool) (x y : Run W)
      → (c ≡ true → AllCalls P x.calls)
      → AllCalls P y.calls
      → AllCalls P (if c then x else y).calls
  switch-AllCalls P true x y h k = h refl
  switch-AllCalls P false x y h k = k

  listed-AllCalls :
      (P : Call → Type 0) (step : Text) (each : List Text → Run W → Run W)
      (reply : Reply (List Text)) (r : Run W)
      → ((apps : List Text) → AllCalls P (each apps r).calls)
      → AllCalls P r.calls
      → AllCalls P (listed step each reply r).calls
  listed-AllCalls P step each (ok apps) r k h = k apps
  listed-AllCalls P step each (err (unavailable e)) r k h = h
  listed-AllCalls P step each (err (unsupported op)) r k h = h
  listed-AllCalls P step each (err (failed e)) r k h = h

module _ {W : Type 0} (b : Backend W) where
  pub calls-uninstall_one :
      (app : Text) (r : Run W) → (uninstall_one b app r).1.calls ≡ r.calls ++ uninstalls app ∷ []
  unfolding uninstall_one
  calls-uninstall_one app r = calls-settle_uninstall app (b.uninstall app r.device).1 _

  calls-clear_one :
      (app : Text) (r : Run W) → (clear_one b app r).1.calls ≡ r.calls ++ clears app ∷ []
  unfolding clear_one
  calls-clear_one app r = calls-settle_clear app (b.clear_app_data app r.device).1 _

  module _ (P : Call → Type 0) where
    uninstall_turn-AllCalls :
        (known protected : List Text) (app : Text) (r : Run W)
        → (contains known app ≡ false → contains protected app ≡ false → P (uninstalls app))
        → AllCalls P r.calls
        → AllCalls P (uninstall_turn b known protected app r).1.calls
    unfolding uninstall_turn
    uninstall_turn-AllCalls known protected app r p h =
        elim (Bool-cases (contains known app || contains protected app)) [
          | inl kept ↦ rw (kept, uninstall_turn) h
          | inr goes ↦
              rw (goes, uninstall_turn, calls-uninstall_one app r)
                (AllCalls-push P r.calls (uninstalls app) h (p (ground arith) (ground arith)))
        ]

    uninstall_each-AllCalls :
        (known protected apps : List Text) (r : Run W)
        → ((app : Text)
            → contains known app ≡ false
            → contains protected app ≡ false
            → P (uninstalls app))
        → AllCalls P r.calls
        → AllCalls P (uninstall_each b known protected apps r).calls
    unfolding uninstall_each
    uninstall_each-AllCalls known protected [] r p h = h
    uninstall_each-AllCalls known protected (app ∷ apps) r p h =
        let t = uninstall_turn-AllCalls known protected app r (p app) h in
        let r' = (uninstall_turn b known protected app r).1 in
        either-AllCalls P (uninstall_turn b known protected app r).0 _ r'
          (uninstall_each-AllCalls known protected apps r' p t) t

    clear_turn-AllCalls :
        (filter : AppFilter) (baseline : Option (List Text)) (app : Text) (r : Run W)
        → (in_scope filter app ≡ true → is_new baseline app ≡ false → P (clears app))
        → AllCalls P r.calls
        → AllCalls P (clear_turn b filter baseline app r).1.calls
    unfolding clear_turn
    clear_turn-AllCalls filter baseline app r p h = elim (Bool-cases (is_new baseline app)) [
      | inl new ↦ rw (new, clear_turn) h
      | inr old ↦ elim (Bool-cases (in_scope filter app)) [
        | inl within ↦
            rw (old, within, clear_turn, calls-clear_one app r)
              (AllCalls-push P r.calls (clears app) h (p within old))
        | inr outside ↦ rw (old, outside, clear_turn) h
      ]
    ]

    clear_each-AllCalls :
        (filter : AppFilter) (baseline : Option (List Text)) (apps : List Text) (r : Run W)
        → ((app : Text) → in_scope filter app ≡ true → is_new baseline app ≡ false → P (clears app))
        → AllCalls P r.calls
        → AllCalls P (clear_each b filter baseline apps r).calls
    unfolding clear_each
    clear_each-AllCalls filter baseline [] r p h = h
    clear_each-AllCalls filter baseline (app ∷ apps) r p h =
        let t = clear_turn-AllCalls filter baseline app r (p app) h in
        let r' = (clear_turn b filter baseline app r).1 in
        either-AllCalls P (clear_turn b filter baseline app r).0 _ r'
          (clear_each-AllCalls filter baseline apps r' p t) t

module _ {W : Type 0} (b : Backend W) (steps : CleanupSteps) (filter : AppFilter)
    (baseline : Option (List Text)) (paths protected : List Text) where
  abbrev Allowed : Call → Type 0
  Allowed = Permitted steps filter baseline paths protected

  uninstall_new-Allowed :
      (known : List Text) (r : Run W)
      → steps.uninstall_apps ≡ true
      → baseline ≡ some known
      → AllCalls Allowed r.calls
      → AllCalls Allowed (uninstall_new b known protected r).calls
  unfolding uninstall_new
  uninstall_new-Allowed known r on e h =
      let r' = called lists (b.apps r.device).0 r in
      let h' = AllCalls-push Allowed r.calls lists h tt in
      listed-AllCalls Allowed (codes "uninstall") (uninstall_each b known protected)
        (b.apps r.device).1 r'
        (λ apps.
          uninstall_each-AllCalls b Allowed known protected apps r'
            (λ app x y. (on, (known, e, x), y)) h')
        h'

  uninstall_step-Allowed :
      (known : Option (List Text)) (r : Run W)
      → steps.uninstall_apps ≡ true
      → baseline ≡ known
      → AllCalls Allowed r.calls
      → AllCalls Allowed (uninstall_step b known protected r).calls
  uninstall_step-Allowed none r on e h = h
  uninstall_step-Allowed (some known) r on e h = uninstall_new-Allowed known r on e h

  uninstall_phase-Allowed :
      (r : Run W)
      → AllCalls Allowed r.calls
      → AllCalls Allowed (uninstall_phase b steps baseline protected r).calls
  unfolding uninstall_phase
  uninstall_phase-Allowed r h =
      switch-AllCalls Allowed steps.uninstall_apps _ r
        (λ on. uninstall_step-Allowed baseline r on refl h) h

  clear_phase-Allowed :
      (r : Run W)
      → AllCalls Allowed r.calls
      → AllCalls Allowed (clear_phase b steps filter baseline r).calls
  unfolding clear_phase clear_surviving
  clear_phase-Allowed r h =
      let r' = called lists (b.apps r.device).0 r in
      let h' = AllCalls-push Allowed r.calls lists h tt in
      switch-AllCalls Allowed steps.clear_app_data _ r
        (λ on.
          listed-AllCalls Allowed (codes "clear app data") (clear_each b filter baseline)
            (b.apps r.device).1 r'
            (λ apps.
              clear_each-AllCalls b Allowed filter baseline apps r' (λ app x y. (on, x, y)) h')
            h')
        h

  reset_phase-Allowed :
      (r : Run W) → AllCalls Allowed r.calls → AllCalls Allowed (reset_phase b steps r).calls
  unfolding reset_phase reset
  reset_phase-Allowed r h =
      switch-AllCalls Allowed steps.reset_screen _ r
        (λ on. AllCalls-push Allowed r.calls resets h on) h

  wipe_phase-Allowed :
      (r : Run W) → AllCalls Allowed r.calls → AllCalls Allowed (wipe_phase b steps paths r).calls
  unfolding wipe_phase wipe
  wipe_phase-Allowed r h =
      switch-AllCalls Allowed (steps.wipe_folders && not (is_empty paths)) _ r
        (λ on. AllCalls-push Allowed r.calls (wipes paths) h (ground arith, refl, ground arith)) h

-- Whatever the device answers, a cleanup uninstalls only apps that a recorded baseline lacks and
-- that no preload protects, clears only apps in the filter's scope that the baseline has where
-- there is one, and makes the calls of a step, but for its listings, only where that step is switched
-- on; it wipes the configured folders, and never an empty list of them.
pub run_with_protected-Permitted :
    {W : Type 0} (b : Backend W) (steps : CleanupSteps) (filter : AppFilter)
    (baseline : Option (List Text)) (paths protected : List Text) (w : W)
    → AllCalls
        (Permitted steps filter baseline paths protected)
        (run_with_protected b steps filter baseline paths protected w).calls
unfolding run_with_protected
run_with_protected-Permitted b steps filter baseline paths protected w =
    wipe_phase-Allowed b steps filter baseline paths protected _ (
      reset_phase-Allowed b steps filter baseline paths protected _ (
        clear_phase-Allowed b steps filter baseline paths protected _
          (uninstall_phase-Allowed b steps filter baseline paths protected (fresh w) tt)))
