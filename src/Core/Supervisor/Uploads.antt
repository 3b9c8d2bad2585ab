-- ===== src/Core/Supervisor/Uploads.antt =====
-- packages/provider/crates/provider-core/src/server.rs: what an upload does to a host under the
-- device's operation lock. What the store answers and the file's app are arguments.
use yard.Prelude.{Option, none, some, ◌++◌, if◌then◌else◌, Text, Bytes, codes, Result, ok, err}
use yard.Core.Cleanup.{Reply, describe}
use yard.Core.Preload.{PreloadStore, ProtectedPreload, PreloadError, protect}
use yard.Core.Preload as Preload
use yard.Core.Supervisor.Device.{Device, uploads, outcome_of, perform}
use yard.Core.Supervisor.Cleaning.{error_of}
use yard.Core.Supervisor.Commands.{Host, InstallResult, put, can_preload, push_install_result}

abbrev pub not_retained : Text
not_retained = codes "could not retain protected preload: "

abbrev pub no_longer_idle : Text
no_longer_idle = codes "device is no longer idle"

-- A user's own upload, or one that is kept as a preload: the entry, or why there is none, the
-- content and what the store meets.
pub data Deployment : Type 0 where
  own : Deployment
  retaining : Reply ProtectedPreload → Bytes → (temporary : Text) → Preload.Answers → Deployment

module _ {I W : Type 0} where
  -- The backend's install of the staged file: its error, and the host.
  unfoldable pub install_staged :
      Text
      → Text
      → Option ProtectedPreload
      → Device I W
      → Host I W
      → Option Text × Option ProtectedPreload × Host I W
  install_staged id staged protected d h =
      let (reply, d') = perform (λ r. uploads staged (outcome_of r)) (d.backend.install staged) d in
      (error_of reply, protected, put id d' h)

  -- Behind the store's answer; `why` is the text of its error.
  abbrev pub retained :
      (PreloadError → Text)
      → Text
      → Text
      → Device I W
      → Host I W
      → Result PreloadError ProtectedPreload × PreloadStore
      → Option Text × Option ProtectedPreload × Host I W
  retained why id staged d h (ok entry, store) =
      install_staged id staged (some entry) d (record h { preloads = store })
  retained why id staged d h (err e, store) =
      (some (not_retained ++ why e), none, record h { preloads = store })

  abbrev pub held :
      (PreloadError → Text)
      → Text
      → Text
      → Reply ProtectedPreload
      → Bytes
      → Text
      → Preload.Answers
      → Device I W
      → Host I W
      → Option Text × Option ProtectedPreload × Host I W
  held why id staged (err e) content temporary a d h = (some (not_retained ++ describe e), none, h)
  held why id staged (ok entry) content temporary a d h =
      retained why id staged d h (protect h.preloads entry content temporary a)

  -- The audit notice, by the error and the entry.
  abbrev pub audited :
      (Option Text → Option ProtectedPreload → InstallResult)
      → Text
      → Option Text × Option ProtectedPreload × Host I W
      → Host I W
  audited result id (error, entry, h) = push_install_result id (result error entry) h

  unfoldable pub upload :
      (PreloadError → Text)
      → (Option Text → Option ProtectedPreload → InstallResult)
      → Text
      → Text
      → Deployment
      → Host I W
      → Device I W
      → Host I W
  upload why result id staged own h d = audited result id (install_staged id staged none d h)
  upload why result id staged (retaining entry content temporary a) h d =
      if can_preload h id
      then audited result id (held why id staged entry content temporary a d h)
      else push_install_result id (result (some no_longer_idle) none) h
