-- ===== src/Core/Supervisor/Landing.antt =====
-- Where a cleanup leaves a device.
use yard.Prelude.{
  ◌≡◌, refl, subst, ap, ◌∙◌, Bool, true, false, ◌&&◌, ◌||◌, none, is_some, List, [], ◌∷◌,
  if◌then◌else◌, Text, text_eq, text_key, contains, any, take, is_empty, ok, err, arith, Bool-cases,
  Option-cases, inl, inr, eq_refl, ◌⊎◌,
}
use yard.Prelude.Dict.{lookup}
use yard.Core.Cleanup.{Reply, CleanupSteps, CleanupReport}
use yard.Core.Cleanup.Filter.{AppFilter}
use yard.Core.Preload.{PreloadStore, ProtectedPreload, for_device, artifact_path}
use yard.Core.Supervisor.Device.{ready, unhealthy, done, DeviceCall, installs, Device, outcome_of}
use yard.Core.Supervisor.Cleaning.{
  Repair, Deadline, met, missed, settle_install, restore, restore_each, installed_after,
  listed_repair, repair_entries, repair_preloads, repair_in_time, clean_steps, land, landing, fit,
  run_cleanup, nothing_to_repair,
}

-- The call installed the app.
abbrev pub is_install : Text → DeviceCall → Bool
is_install app (installs a artifact done) = text_eq a app
is_install app c = false

-- The app was listed, or an install of it went well.
abbrev pub has_app : List Text → List DeviceCall → Text → Bool
has_app apps calls app = contains apps app || any (is_install app) calls

abbrev pub AllHas : List Text → List DeviceCall → List ProtectedPreload → Type 0
AllHas apps calls [] = Unit {0}
AllHas apps calls (e ∷ es) = (has_app apps calls e.app_id ≡ true) × AllHas apps calls es

has_app-push :
    (apps : List Text) (c : DeviceCall) (calls : List DeviceCall) (b : Text)
    → has_app apps calls b ≡ true
    → has_app apps (c ∷ calls) b ≡ true
has_app-push apps c calls b h = ground arith

has_app-installed_after :
    (apps installed : List Text) (app : Text) (c : Bool) (calls : List DeviceCall)
    → ((b : Text) → contains installed b ≡ true → has_app apps calls b ≡ true)
    → (c ≡ true → has_app apps calls app ≡ true)
    → (b : Text) → contains (installed_after app installed c) b ≡ true
    → has_app apps calls b ≡ true
unfolding contains
has_app-installed_after apps installed app false calls k q b h = k b h
has_app-installed_after apps installed app true calls k q b h = elim (Bool-cases (text_eq app b)) [
  | inl same ↦ subst (λ x. has_app apps calls x ≡ true) ((text_key.eq_lem app b).0 same) (q refl)
  | inr other ↦ k b (ground arith)
]

-- Every entry's app is on the device, by the answer to the listing and the log.
abbrev pub Complete : Reply (List Text) → List ProtectedPreload → List DeviceCall → Type 0
Complete listing es calls =
    (es ≡ []) ⊎ ((apps : List Text) × (listing ≡ ok apps) × AllHas apps calls es)

abbrev pub apps_of : {I W : Type 0} → Device I W → Reply (List Text)
apps_of d = (d.backend.cleanup.apps d.world).1

-- A health check that answered yes led to the device.
abbrev pub Healthy : {I W : Type 0} → Device I W → Type 0
Healthy {W = W} d = (w : W) × (d.backend.is_healthy w ≡ (d.world, true))

-- What a cleanup makes of a device: no baseline, and back in the pool or out of it.
abbrev pub Lands : {I W : Type 0} → Reply (List Text) → List ProtectedPreload → Device I W → Type 0
Lands listing es d =
    (d.baseline ≡ none)
    × (((d.status ≡ ready) × Healthy d × Complete listing es d.calls) ⊎ (d.status ≡ unhealthy))

module _ {I W : Type 0} (s : PreloadStore) where
  pub if-Holds :
      (P : Repair I W → Type 0) (c : Bool) (x y : Repair I W)
      → (c ≡ true → P x)
      → (c ≡ false → P y)
      → P (if c then x else y)
  if-Holds P true x y p q = p refl
  if-Holds P false x y p q = q refl

  -- What the repair of one entry leaves: the apps that were there, and the entry's own where all
  -- went well.
  abbrev Restored : List Text → Text → Repair I W → Repair I W → Type 0
  Restored apps app r r' =
      ((b : Text) → has_app apps r.device.calls b ≡ true → has_app apps r'.device.calls b ≡ true)
      × (r'.all_ok ≡ true → has_app apps r'.device.calls app ≡ true)
      × (r'.device.baseline ≡ r.device.baseline)

  settle_install-Restored :
      (apps : List Text) (artifact : Text) (e : ProtectedPreload) (a : Reply (Unit {0})) (w : W)
      (r : Repair I W)
      → Restored apps e.app_id r (
          settle_install e
            (
              a,
              record (r.device) {
                world = w;
                calls = installs e.app_id artifact (outcome_of a) ∷ r.device.calls;
              },
            )
            r)
  settle_install-Restored apps artifact e (ok u) w r = (
    has_app-push apps (installs e.app_id artifact done) r.device.calls,
    λ h. ground (arith, eq_refl e.app_id),
    refl,
  )
  settle_install-Restored apps artifact e (err x) w r = (
    has_app-push apps (installs e.app_id artifact (outcome_of {A = Unit {0}} (err x)))
        r.device.calls,
    λ h. ground arith,
    refl,
  )

  restore-Restored :
      (apps : List Text) (e : ProtectedPreload) (r : Repair I W)
      → Restored apps e.app_id r (restore s e r)
  unfolding restore
  restore-Restored apps e r = elim (Option-cases (artifact_path s e)) [
    | inl q ↦ rw (q, restore) (λ b h. h, λ h. ground arith, refl)
    | inr (artifact, q) ↦
        rw (q, restore)
          (if-Holds (Restored apps e.app_id r) (is_some (lookup artifact s.disk.files)) _ _
            (λ c.
              settle_install-Restored apps artifact e
                (r.device.backend.install artifact r.device.world).1
                (r.device.backend.install artifact r.device.world).0 r)
            (λ c. (λ b h. h, λ h. ground arith, refl)))
  ]

  -- What the repair of the entries leaves.
  abbrev AllRestored : List Text → List ProtectedPreload → Repair I W → Repair I W → Type 0
  AllRestored apps es r r' =
      ((b : Text) → has_app apps r.device.calls b ≡ true → has_app apps r'.device.calls b ≡ true)
      × (r'.all_ok ≡ true → (r.all_ok ≡ true) × AllHas apps r'.device.calls es)
      × (r'.device.baseline ≡ r.device.baseline)

  restore_each-AllRestored :
      (apps installed : List Text) (es : List ProtectedPreload) (r : Repair I W)
      → ((b : Text) → contains installed b ≡ true → has_app apps r.device.calls b ≡ true)
      → AllRestored apps es r (restore_each s installed es r)
  unfolding restore_each
  restore_each-AllRestored apps installed [] r k = (λ b h. h, λ h. (h, tt), refl)
  restore_each-AllRestored apps installed (e ∷ es) r k =
      let r' : Repair I W = restore s e (record r { all_ok = true }) in
      let one = restore-Restored apps e (record r { all_ok = true }) in
      let joined : Repair I W = record r' { all_ok = r.all_ok && r'.all_ok } in
      if-Holds (AllRestored apps (e ∷ es) r) (contains installed e.app_id) _ _
        (λ c.
          let rest = restore_each-AllRestored apps installed es r k in
          (rest.0, λ h. ((rest.1 h).0, (rest.0 e.app_id (k e.app_id c), (rest.1 h).1)), rest.2))
        (λ c.
          let rest =
            restore_each-AllRestored apps (installed_after e.app_id installed r'.all_ok) es joined (
              has_app-installed_after apps installed e.app_id r'.all_ok r'.device.calls
                (λ b x. one.0 b (k b x)) one.1) in
          (
            λ b x. rest.0 b (one.0 b x),
            λ h.
                let both = (rest.1 h).0 in
                (ground arith, (rest.0 e.app_id (one.1 (ground arith)), (rest.1 h).1)),
            rest.2 ∙ one.2,
          ))

  abbrev Whole : Reply (List Text) → List ProtectedPreload → Device I W → Repair I W → Type 0
  Whole listing es d r =
      (r.all_ok ≡ true → Complete listing es r.device.calls) × (r.device.baseline ≡ d.baseline)

  listed_repair-Whole :
      (es : List ProtectedPreload) (a : Reply (List Text)) (w : W) (d : Device I W)
      (report : CleanupReport)
      → Whole a es d (listed_repair s es (a, record d { world = w }) report)
  listed_repair-Whole es (err x) w d report = (λ h. ground arith, refl)
  listed_repair-Whole es (ok apps) w d report =
      let all =
        restore_each-AllRestored apps apps es
          (record { device = record d { world = w }; report = report; all_ok = true; notices = [] })
          (λ b h. ground arith) in
      (λ h. inr (apps, refl, (all.1 h).1), all.2)

  repair_entries-Whole :
      (es : List ProtectedPreload) (d : Device I W) (report : CleanupReport)
      → Whole (d.backend.cleanup.apps d.world).1 es d (repair_entries s es d report)
  unfolding repair_entries
  repair_entries-Whole [] d report = (λ h. inl refl, refl)
  repair_entries-Whole (e ∷ es) d report =
      listed_repair-Whole (e ∷ es) (d.backend.cleanup.apps d.world).1
        (d.backend.cleanup.apps d.world).0 d report

  none_left :
      (listing : Reply (List Text)) (es : List ProtectedPreload) (d : Device I W)
      (report : CleanupReport)
      → (x : Repair I W) → x.all_ok ≡ false
      → x.device.baseline ≡ d.baseline
      → Whole listing es d (if is_empty es then nothing_to_repair d report else x)
  none_left listing [] d report x n b = (λ h. inl refl, refl)
  none_left listing (e ∷ es) d report x n b = (λ h. ground arith, b)

  repair_in_time-Whole :
      (seconds : Text) (left : Bool) (deadline : Deadline W) (d : Device I W)
      (report : CleanupReport)
      → Whole
          (d.backend.cleanup.apps d.world).1
          (for_device s d.id)
          d
          (repair_in_time seconds left deadline s d report)
  unfolding repair_in_time repair_preloads
  repair_in_time-Whole seconds true met d report = repair_entries-Whole (for_device s d.id) d report
  repair_in_time-Whole seconds false met d report =
      none_left (d.backend.cleanup.apps d.world).1 (for_device s d.id) d report _ refl refl
  repair_in_time-Whole seconds left (missed n w) d report =
      (λ h. ground arith, (repair_entries-Whole (take n (for_device s d.id)) d report).1)

  fit-Lands :
      (listing : Reply (List Text)) (es : List ProtectedPreload) (well : Bool) (d : Device I W)
      → d.baseline ≡ none
      → (well ≡ true → Complete listing es d.calls)
      → Lands listing es (record ((fit well d).1) { status = landing (fit well d).0 })
  fit-Lands listing es false d b c = (b, inr refl)
  fit-Lands listing es true d b c =
      let (w, h) = d.backend.is_healthy d.world in
      (
        b,
        elim (Bool-cases h) [
          | inl good ↦ inl (ap landing good, (d.world, ap (λ x. (w, x)) good), c refl)
          | inr bad ↦ inr (ap landing bad)
        ],
      )

  land-Lands :
      (listing : Reply (List Text)) (es : List ProtectedPreload) (r : Repair I W)
      → r.device.baseline ≡ none
      → (r.all_ok ≡ true → Complete listing es r.device.calls)
      → Lands listing es (land r).1
  unfolding land
  land-Lands listing es r b c = fit-Lands listing es r.all_ok r.device b c

  baseline-clean_steps :
      (seconds : Text) (deadline : Deadline W) (steps : CleanupSteps) (filter : AppFilter)
      (d : Device I W)
      → (clean_steps seconds deadline steps filter s d).1.baseline ≡ none
  unfolding clean_steps
  baseline-clean_steps seconds met steps filter d = refl
  baseline-clean_steps seconds (missed n w) steps filter d = refl

  id-clean_steps :
      (seconds : Text) (deadline : Deadline W) (steps : CleanupSteps) (filter : AppFilter)
      (d : Device I W)
      → (clean_steps seconds deadline steps filter s d).1.id ≡ d.id
  unfolding clean_steps
  id-clean_steps seconds met steps filter d = refl
  id-clean_steps seconds (missed n w) steps filter d = refl

  -- Whatever its deadlines do, a cleanup drops the device's baseline and leaves the device ready or
  -- unhealthy: ready only behind a health check that answered yes, and only where the device has no
  -- preload entries or its apps were listed behind the steps and the app of every entry was among
  -- them or was installed with success, by the log.
  pub run_cleanup-Lands :
      (seconds : Text) (a : Deadline W) (left : Bool) (b : Deadline W) (steps : CleanupSteps)
      (filter : AppFilter) (d : Device I W)
      → Lands
          (apps_of (clean_steps seconds a steps filter s d).1)
          (for_device s d.id)
          (run_cleanup seconds a left b steps filter s d).1
  unfolding run_cleanup
  run_cleanup-Lands seconds a left b steps filter d =
      let d' : Device I W = (clean_steps seconds a steps filter s d).1 in
      let report = (clean_steps seconds a steps filter s d).0 in
      let r = repair_in_time seconds left b s d' report in
      let whole = repair_in_time-Whole seconds left b d' report in
      land-Lands (d'.backend.cleanup.apps d'.world).1 (for_device s d.id) r
        (whole.1 ∙ baseline-clean_steps seconds a steps filter d)
        (subst
          (λ i.
            r.all_ok ≡ true
            → Complete (d'.backend.cleanup.apps d'.world).1 (for_device s i) r.device.calls)
          (id-clean_steps seconds a steps filter d) whole.0)
