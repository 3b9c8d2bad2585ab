-- ===== src/Core/Supervisor/Deployed.antt =====
-- What uploads and the removal of a preload keep.
use yard.Prelude.{
  subst, Bool, true, false, not, Option, none, some, List, Text, text_key, Bytes, contains, Result,
  ok, err, Option-cases, Bool-cases, inl, inr, if◌then◌else◌,
}
use yard.Prelude.Dict.{lookup}
use yard.Core.Cleanup.{Reply}
use yard.Core.Preload.{PreloadStore, ProtectedPreload, PreloadError, is_protected, protect, remove_}
use yard.Core.Preload as Preload
use yard.Core.Supervisor.Device.{Device}
use yard.Core.Supervisor.Commands.{
  Host, put, preload_gone, forget_preload, remove_installed, handle_preload_remove, can_preload,
  push_install_result, InstallResult,
}
use yard.Core.Supervisor.Uploads.{
  Deployment, own, retaining, install_staged, retained, held, upload,
}
use yard.Core.Supervisor.Steps.{change}
use yard.Core.Supervisor.Sound.{Sound, count_install-Sound}
use yard.Core.Supervisor.Safe.{SoundAt, AllSound, put-AllSound, push-AllSound, if-AllSound}

module _ (P : Text → Text → Type 0) {I W : Type 0} where
  preload_gone-AllSound :
      (app : Text) (r : Result PreloadError (Option ProtectedPreload)) (s : PreloadStore)
      (h : Host I W)
      → AllSound P h
      → AllSound P (preload_gone app (r, s) h).1
  preload_gone-AllSound app (ok (some e)) s h k = k
  preload_gone-AllSound app (ok none) s h k = k
  preload_gone-AllSound app (err e) s h k = k

  forget_preload-AllSound :
      (id app : Text) (a : Preload.Answers) (h : Host I W) (r : Reply (Unit {0})) (d : Device I W)
      → Sound P id d
      → AllSound P h
      → AllSound P (forget_preload id app a h (r, d)).1
  forget_preload-AllSound id app a h (ok u) d p k =
      preload_gone-AllSound app (remove_ h.preloads id app a).0 (remove_ h.preloads id app a).1
        (put id d h) (put-AllSound P id d h p k)
  forget_preload-AllSound id app a h (err e) d p k = put-AllSound P id d h p k

  remove_installed-AllSound :
      (id app : Text) (a : Preload.Answers) (h : Host I W) (r : Reply (List Text)) (d : Device I W)
      → P id app
      → Sound P id d
      → AllSound P h
      → AllSound P (remove_installed id app a h (r, d)).1
  remove_installed-AllSound id app a h (err e) d n p k = put-AllSound P id d h p k
  remove_installed-AllSound id app a h (ok installed) d n p k =
      elim (Bool-cases (contains installed app)) [
        | inl on ↦ rw on (
            forget_preload-AllSound id app a h (d.backend.cleanup.uninstall app d.world).1 _
              (p.0, (n, p.1)) k)
        | inr off ↦ rw off (forget_preload-AllSound id app a h (ok tt) d p k)
      ]

  pub handle_preload_remove-AllSound :
      (id app : Text) (a : Preload.Answers) (h : Host I W) (d : Device I W)
      → P id app
      → Sound P id d
      → AllSound P h
      → AllSound P (handle_preload_remove id app a h d).1
  unfolding handle_preload_remove
  handle_preload_remove-AllSound id app a h d n p k = if-AllSound P (not (can_preload h id)) _ _ k (
      if-AllSound P (not (is_protected h.preloads id app)) _ _ k
        (remove_installed-AllSound id app a h (d.backend.cleanup.apps d.world).1 _ n p k))

  -- What is done with a device of the host, as a step of it.
  pub change-AllSound :
      (id : Text) (f : Host I W → Device I W → Host I W) (h : Host I W)
      → AllSound P h
      → ((d : Device I W) → Sound P id d → AllSound P (f h d))
      → AllSound P (change id f h)
  change-AllSound id f h k p = elim (Option-cases (lookup id h.devices)) [
    | inl q ↦ rw (q, change) k
    | inr (d, q) ↦ rw (q, change) (p d (subst (SoundAt P id) q (k id)))
  ]

  push_install_result-AllSound :
      (id : Text) (r : InstallResult) (h : Host I W)
      → AllSound P h
      → AllSound P (push_install_result id r h)
  unfolding push_install_result
  push_install_result-AllSound id r h k = elim (Option-cases (lookup id h.devices)) [
    | inl q ↦ rw (q, push_install_result) (push-AllSound P _ h k)
    | inr (d, q) ↦
        rw (q, push_install_result)
          (push-AllSound P _ _ (
            put-AllSound P id _ h
              (count_install-Sound P id r.error d (subst (SoundAt P id) q (k id))) k))
  ]

  install_staged-AllSound :
      (id staged : Text) (o : Option ProtectedPreload) (d : Device I W) (h : Host I W)
      → Sound P id d
      → AllSound P h
      → AllSound P (install_staged id staged o d h).2
  unfolding install_staged
  install_staged-AllSound id staged o d h p k = put-AllSound P id _ h (p.0, (tt, p.1)) k

  retained-AllSound :
      (why : PreloadError → Text) (id staged : Text) (d : Device I W) (h : Host I W)
      (r : Result PreloadError ProtectedPreload) (s : PreloadStore)
      → Sound P id d
      → AllSound P h
      → AllSound P (retained why id staged d h (r, s)).2
  retained-AllSound why id staged d h (ok e) s p k =
      install_staged-AllSound id staged (some e) d (record h { preloads = s }) p k
  retained-AllSound why id staged d h (err e) s p k = k

  held-AllSound :
      (why : PreloadError → Text) (id staged : Text) (entry : Reply ProtectedPreload)
      (content : Bytes) (temporary : Text) (a : Preload.Answers) (d : Device I W) (h : Host I W)
      → Sound P id d
      → AllSound P h
      → AllSound P (held why id staged entry content temporary a d h).2
  held-AllSound why id staged (err e) content temporary a d h p k = k
  held-AllSound why id staged (ok entry) content temporary a d h p k =
      let r = protect h.preloads entry content temporary a in
      retained-AllSound why id staged d h r.0 r.1 p k

  either-AllSound :
      (c : Bool) (x y : Host I W) → AllSound P x → AllSound P y → AllSound P (if c then x else y)
  either-AllSound true x y p q = p
  either-AllSound false x y p q = q

  pub upload-AllSound :
      (why : PreloadError → Text) (result : Option Text → Option ProtectedPreload → InstallResult)
      (id staged : Text) (deployment : Deployment) (h : Host I W) (d : Device I W)
      → Sound P id d
      → AllSound P h
      → AllSound P (upload why result id staged deployment h d)
  unfolding upload
  upload-AllSound why result id staged own h d p k =
      push_install_result-AllSound id _ _ (install_staged-AllSound id staged none d h p k)
  upload-AllSound why result id staged (retaining entry content temporary a) h d p k =
      either-AllSound (can_preload h id) _ _
        (push_install_result-AllSound id _ _
          (held-AllSound why id staged entry content temporary a d h p k))
        (push_install_result-AllSound id _ h k)
