-- ===== src/Core/Supervisor/Safe.antt =====
-- What is done with one device of a host, and the soundness of all of them.
use yard.Prelude.{
  refl, subst, Bool, true, false, Option, none, some, List, [], ◌∷◌, ℕ, if◌then◌else◌, Text,
  text_eq, text_key, ok, err, Bool-cases, Option-cases, inl, inr,
}
use yard.Prelude.Dict.{lookup, lookup-insert}
use yard.Core.Session.{Authorization, current}
use yard.Core.Cleanup.{Reply}
use yard.Core.Preload.{is_protected}
use yard.Core.Supervisor.Device.{Device, wake_screen, snapshot_baseline, claim}
use yard.Core.Supervisor.Cleaning.{Deadline, Notice, run_cleanup}
use yard.Core.Supervisor.Commands.{
  ProviderMessage, notice, Task, Host, put, push, with_device, Answer, answer, audio_on,
  audio_paused, handle_authorize, rebooted, apps_listed, handle_uninstall, exposed, withdraw_adb,
  withdraw_each, noted, note_activity, push_notices, report_notices, run_task,
}
use yard.Core.Supervisor.Steps.{run_first}
use yard.Core.Supervisor.Sound.{
  Sound, reconcile_session-Sound, wake_screen-Sound, snapshot_baseline-Sound, claim-Sound,
}
use yard.Core.Supervisor.Spared.{run_cleanup-Sound}

-- An app whose removal `P` names is the only one that may go although a preload protected it.
abbrev pub SoundAt : {I W : Type 0} → (Text → Text → Type 0) → Text → Option (Device I W) → Type 0
SoundAt P id none = Unit {0}
SoundAt P id (some d) = Sound P id d

-- Every device of the host is sound.
abbrev pub AllSound : {I W : Type 0} → (Text → Text → Type 0) → Host I W → Type 0
AllSound P h = (id : Text) → SoundAt P id (lookup id h.devices)

module _ (P : Text → Text → Type 0) {I W : Type 0} where
  pub put-AllSound :
      (id : Text) (d : Device I W) (h : Host I W)
      → Sound P id d
      → AllSound P h
      → AllSound P (put id d h)
  put-AllSound id d h p k b =
      rw (lookup-insert id b d h.devices) (elim (Bool-cases (text_eq id b)) [
        | inl same ↦ rw same (subst (λ i. Sound P i d) ((text_key.eq_lem id b).0 same) p)
        | inr other ↦ rw other (k b)
      ])

  pub push-AllSound : (m : ProviderMessage I) (h : Host I W) → AllSound P h → AllSound P (push m h)
  push-AllSound m h k = elim (Bool-cases h.connected) [ inl on ↦ rw on k | inr off ↦ rw off k ]

  push_notices-AllSound :
      (id : Text) (ns : List Notice) (h : Host I W)
      → AllSound P h
      → AllSound P (push_notices id ns h)
  push_notices-AllSound id [] h k = k
  push_notices-AllSound id (n ∷ ns) h k =
      push-AllSound (notice id n) (push_notices id ns h) (push_notices-AllSound id ns h k)

  report_notices-AllSound :
      (reports : Bool) (id : Text) (ns : List Notice) (h : Host I W)
      → AllSound P h
      → AllSound P (report_notices reports id ns h)
  report_notices-AllSound true id ns h k = push_notices-AllSound id ns h k
  report_notices-AllSound false id ns h k = k

  -- What is done with a device of the host keeps the others as they are.
  pub with_device-AllSound :
      (id : Text) (f : Device I W → Answer I W) (h : Host I W)
      → AllSound P h
      → ((d : Device I W) → Sound P id d → AllSound P (f d).1)
      → AllSound P (with_device id f h).1
  with_device-AllSound id f h k p = elim (Option-cases (lookup id h.devices)) [
    | inl q ↦ rw (q, with_device) k
    | inr (d, q) ↦ rw (q, with_device) (p d (subst (SoundAt P id) q (k id)))
  ]

  pub answer-AllSound :
      (id : Text) (h : Host I W) (a : Reply (Unit {0})) (d : Device I W)
      → Sound P id d
      → AllSound P h
      → AllSound P (answer id h (a, d)).1
  answer-AllSound id h (ok u) d p k = put-AllSound id d h p k
  answer-AllSound id h (err e) d p k = put-AllSound id d h p k

  audio_on-AllSound :
      (id : Text) (auth : Authorization) (h : Host I W) (a : Reply (Unit {0})) (d : Device I W)
      → Sound P id d
      → AllSound P h
      → AllSound P (audio_on id auth h (a, d)).1
  audio_on-AllSound id auth h (ok u) d p k = put-AllSound id _ h (p.0, (tt, p.1)) k
  audio_on-AllSound id auth h (err e) d p k = put-AllSound id d h p k

  audio_paused-AllSound :
      (id : Text) (auth : Authorization) (h : Host I W) (a : Reply (Unit {0})) (d : Device I W)
      → Sound P id d
      → AllSound P h
      → AllSound P (audio_paused id auth h (a, d)).1
  audio_paused-AllSound id auth h (ok u) d p k =
      audio_on-AllSound id auth h (d.backend.set_audio_active true d.world).1 _ (p.0, (tt, p.1)) k
  audio_paused-AllSound id auth h (err e) d p k = put-AllSound id d h p k

  pub if-AllSound :
      (c : Bool) (x y : Answer I W)
      → AllSound P x.1
      → AllSound P y.1
      → AllSound P (if c then x else y).1
  if-AllSound true x y p q = p
  if-AllSound false x y p q = q

  pub handle_authorize-AllSound :
      (id : Text) (auth : Authorization) (h : Host I W) (d : Device I W)
      → Sound P id d
      → AllSound P h
      → AllSound P (handle_authorize id auth h d).1
  unfolding handle_authorize
  handle_authorize-AllSound id auth h d p k =
      let d' : Device I W = wake_screen (snapshot_baseline auth.reservation_id d) in
      let q =
        wake_screen-Sound P id (snapshot_baseline auth.reservation_id d)
          (snapshot_baseline-Sound P id auth.reservation_id d p) in
      if-AllSound _ _ _
        (audio_on-AllSound id auth h (d'.backend.set_audio_active true d'.world).1 _
          (q.0, (tt, q.1)) k)
        (audio_paused-AllSound id auth h (d'.backend.set_audio_active false d'.world).1 _
          (q.0, (tt, q.1)) k)

  pub handle_uninstall-AllSound :
      (id app : Text) (h : Host I W) (d : Device I W)
      → Sound P id d
      → AllSound P h
      → AllSound P (handle_uninstall id app h d).1
  unfolding handle_uninstall
  handle_uninstall-AllSound id app h d p k = elim (Bool-cases (is_protected h.preloads id app)) [
    | inl keeps ↦ rw (keeps, handle_uninstall) k
    | inr goes ↦
        rw (goes, handle_uninstall)
          (answer-AllSound id h (d.backend.cleanup.uninstall app d.world).1 _ (p.0, (refl, p.1)) k)
  ]

  pub rebooted-AllSound :
      (id : Text) (h : Host I W) (a : Reply (Unit {0})) (d : Device I W)
      → Sound P id d
      → AllSound P h
      → AllSound P (rebooted id h (a, d)).1
  rebooted-AllSound id h (ok u) d p k = push-AllSound _ _ (put-AllSound id _ h p k)
  rebooted-AllSound id h (err e) d p k = put-AllSound id d h p k

  pub apps_listed-AllSound :
      (id : Text) (h : Host I W) (a : Reply (List Text)) (d : Device I W)
      → Sound P id d
      → AllSound P h
      → AllSound P (apps_listed id h (a, d)).1
  apps_listed-AllSound id h (ok u) d p k = put-AllSound id d h p k
  apps_listed-AllSound id h (err e) d p k = put-AllSound id d h p k

  pub exposed-AllSound :
      (id : Text) (h : Host I W) (a : Reply ℕ) (d : Device I W)
      → Sound P id d
      → AllSound P h
      → AllSound P (exposed id h (a, d)).1
  exposed-AllSound id h (ok u) d p k = put-AllSound id d h p k
  exposed-AllSound id h (err e) d p k = put-AllSound id d h p k

  pub withdraw_adb-AllSound :
      (id : Text) (h : Host I W) → AllSound P h → AllSound P (withdraw_adb id h)
  unfolding withdraw_adb
  withdraw_adb-AllSound id h k = elim (Option-cases (lookup id h.devices)) [
    | inl q ↦ rw (q, withdraw_adb) k
    | inr (d, q) ↦
        let p = subst (SoundAt P id) q (k id) in
        let r = reconcile_session-Sound P id (current id h.sessions) d p in
        rw (q, withdraw_adb) (put-AllSound id _ h (r.0, (tt, r.1)) k)
  ]

  pub withdraw_each-AllSound :
      (ids : List Text) (h : Host I W) → AllSound P h → AllSound P (withdraw_each ids h)
  unfolding withdraw_each
  withdraw_each-AllSound [] h k = k
  withdraw_each-AllSound (id ∷ ids) h k =
      withdraw_each-AllSound ids (withdraw_adb id h) (withdraw_adb-AllSound id h k)

  noted-AllSound :
      (now : ℕ) (id : Text) (h : Host I W) (c : Bool) (d : Device I W)
      → Sound P id d
      → AllSound P h
      → AllSound P (noted now id h (c, d))
  noted-AllSound now id h true d p k = push-AllSound _ _ (put-AllSound id d h p k)
  noted-AllSound now id h false d p k = k

  pub note_activity-AllSound :
      (now : ℕ) (id : Text) (h : Host I W) → AllSound P h → AllSound P (note_activity now id h)
  unfolding note_activity
  note_activity-AllSound now id h k = elim (Option-cases (lookup id h.devices)) [
    | inl q ↦ rw (q, note_activity) k
    | inr (d, q) ↦
        rw (q, note_activity)
          (noted-AllSound now id h (claim now d).0 (claim now d).1
            (claim-Sound P id now d (subst (SoundAt P id) q (k id))) k)
  ]

  run_task-AllSound :
      (a : Deadline W) (left : Bool) (b : Deadline W) (reports : Bool) (t : Task) (h : Host I W)
      → AllSound P h
      → AllSound P (run_task a left b reports t h)
  unfolding run_task
  run_task-AllSound a left b reports t h k = elim (Option-cases (lookup t.device_id h.devices)) [
    | inl q ↦ rw (q, run_task) k
    | inr (d, q) ↦
        let p = subst (SoundAt P t.device_id) q (k t.device_id) in
        let r =
          run_cleanup-Sound P h.preloads t.device_id t.seconds a left b t.steps t.filter d p in
        let ran = run_cleanup t.seconds a left b t.steps t.filter h.preloads d in
        rw (q, run_task)
          (report_notices-AllSound reports t.device_id ran.0 (put t.device_id ran.1 h)
            (put-AllSound t.device_id ran.1 h r k))
  ]

  pub run_first-AllSound :
      (a : Deadline W) (left : Bool) (b : Deadline W) (ts : List (Bool × Task)) (h : Host I W)
      → AllSound P h
      → AllSound P (run_first a left b ts h)
  run_first-AllSound a left b [] h k = k
  run_first-AllSound a left b ((reports, t) ∷ ts) h k =
      run_task-AllSound a left b reports t (record h { cleanups = ts }) k
