-- ===== src/Server/Uploads.antt =====
-- packages/provider/crates/provider-core/src/server.rs: `install` and `preload`, over a host that goes
-- on while the body arrives.
pub mod Audited
use yard.Prelude.{
  ℕ, Bool, true, false, not, ◌&&◌, Option, none, some, is_some, List, [], ◌∷◌, ◌++◌, if◌then◌else◌,
  Text, Bytes, codes, text_eq, text_key, Key, Result, ok, err, is_empty,
}
use yard.Prelude.Dict.{lookup}
use yard.Core.Cleanup.{BackendError, unavailable, unsupported, failed, Reply, describe}
use yard.Core.Tokens.{SessionClaims, Jwk, Jwt}
use yard.Core.Preload.{PreloadStore, ProtectedPreload, PreloadError, protect}
use yard.Core.Preload as Preload
use yard.Core.Supervisor.Device.{Device, uploads, outcome_of, perform}
use yard.Core.Supervisor.Cleaning.{error_of}
use yard.Core.Supervisor.Commands.{
  Host, InstallResult, PulledFile, put, can_preload, note_activity, push_install_result,
  push_file_pulled,
}
use yard.Core.Supervisor.Uploads.{not_retained, no_longer_idle, install_staged, retained}
use yard.Core.Supervisor.Steps.{Event}
use yard.Core.Supervisor.Setup.{run}
use yard.Server.Access.{Rejection, ServerState, authorize, authorize_preload}
use yard.Server.Files.{sanitize_filename, platform_for_filename, Chunk, Staged, stream_to_disk}

-- What a request is answered with.
pub data Response : Type 0 where
  rejected : Rejection → Response
  unknown_device no_app_file other_platform scratch_unusable upload_failed : Response
  conflict : Text → Response
  installed : (filename : Text) → Staged → Response
  bad_gateway : Text → Response

-- What an upload meets: the scratch directory and the disk, the body, what the host goes through
-- while the body arrives and while the device's lock is waited for (the newest event first), the
-- clock, the staged file's app id by the backend, and what the preload store meets. `staged_path` is
-- the fresh name of the staged file, `temporary` of the store's copy.
pub record Arrival (W : Type 0) : Type 0 where
  pub scratch_usable : Bool
  pub creates : Bool
  pub flushes : Bool
  pub body : List Chunk
  pub arriving : List (Event W)
  pub waiting : List (Event W)
  pub now : ℕ
  pub staged_path : Text
  pub artifact_app_id : Reply Text
  pub temporary : Text
  pub answers : Preload.Answers

-- `x-yard-filename`.
abbrev pub filename_of : Option Text → Text
filename_of none = codes "upload.bin"
filename_of (some raw) = sanitize_filename raw

abbrev pub or_unknown : Option Text → Text
or_unknown none = codes "unknown"
or_unknown (some platform) = platform

abbrev pub same_text : Option Text → Text → Bool
same_text none t = false
same_text (some s) t = text_eq s t

-- Whether the file's name fits a deployment grant.
unfoldable pub misfit : SessionClaims → Text → Option Response
misfit claims filename = elim (platform_for_filename filename) [
  | none ↦ some no_app_file
  | some platform ↦ if same_text claims.platform platform then none else some other_platform
]

abbrev pub known_platform : Text → Option Text
known_platform p =
    if text_eq p (codes "android") then some p else if text_eq p (codes "ios") then some p else none

abbrev pub platform_of : Option ProtectedPreload → Option Text
platform_of none = none
platform_of (some e) = known_platform e.platform

abbrev pub app_of : Option ProtectedPreload → Option Text
app_of none = none
app_of (some e) = some e.app_id

abbrev pub response_of : Text → Staged → Option Text → Response
response_of filename s none = installed filename s
response_of filename s (some e) = bad_gateway e

abbrev pub preload_of : SessionClaims → Text → Text → Text → Staged → ProtectedPreload
preload_of claims id app filename s = record {
  device_id = id;
  app_id = app;
  platform = or_unknown claims.platform;
  user_id = claims.user_id;
  filename = filename;
  size = s.size;
  sha256 = s.sha256;
  artifact = [];
}

abbrev pub result_of :
    SessionClaims → Text → Staged → Bool → Option Text → Option ProtectedPreload → InstallResult
result_of claims filename s is_preload error protected = record {
  user_id = claims.user_id;
  filename = filename;
  size = s.size;
  sha256 = s.sha256;
  error = error;
  is_preload = is_preload;
  app_id = app_of protected;
  platform = platform_of protected;
}

module _ {I W : Type 0} where
  -- By the staged file's app id.
  abbrev pub identified :
      (PreloadError → Text)
      → SessionClaims
      → Text
      → Text
      → Staged
      → Arrival W
      → Device I W
      → Host I W
      → Reply Text
      → Option Text × Option ProtectedPreload × Host I W
  identified why claims id filename s a d h (err e) = (some (not_retained ++ describe e), none, h)
  identified why claims id filename s a d h (ok app) =
      retained why id a.staged_path d h
        (protect h.preloads (preload_of claims id app filename s) s.content a.temporary a.answers)

  -- `protect_preload`, then the install.
  unfoldable pub deploy :
      (PreloadError → Text)
      → SessionClaims
      → Text
      → Text
      → Staged
      → Arrival W
      → Device I W
      → Host I W
      → Option Text × Option ProtectedPreload × Host I W
  deploy why claims id filename s a d h =
      identified why claims id filename s a d h a.artifact_app_id

  abbrev pub reported :
      SessionClaims
      → Text
      → Text
      → Staged
      → Bool
      → Option Text × Option ProtectedPreload × Host I W
      → Response × Host I W
  reported claims id filename s is_preload (error, protected, h) = (
    response_of filename s error,
    push_install_result id (result_of claims filename s is_preload error protected) h,
  )

  -- Under the device's lock, with the body on disk.
  unfoldable pub finish_upload :
      (PreloadError → Text)
      → Bool
      → SessionClaims
      → Text
      → Text
      → Staged
      → Arrival W
      → Device I W
      → Host I W
      → Response × Host I W
  finish_upload why true claims id filename s a d h =
      if can_preload h id
      then reported claims id filename s true (deploy why claims id filename s a d h)
      else (
        conflict no_longer_idle,
        push_install_result id (result_of claims filename s true (some no_longer_idle) none) h,
      )
  finish_upload why false claims id filename s a d h =
      reported claims id filename s false (install_staged id a.staged_path none d h)

module _ {I W : Type 0} ⦃k : Key I⦄ where
  -- Behind the body; the device is looked up again, since the host went on.
  abbrev pub received :
      (PreloadError → Text)
      → Bool
      → SessionClaims
      → Text
      → Text
      → Arrival W
      → Host I W
      → Option Staged
      → Response × Host I W
  received why is_preload claims id filename a h none = (upload_failed, run a.arriving h)
  received why is_preload claims id filename a h (some s) =
      let h' : Host I W = run a.waiting (note_activity a.now id (run a.arriving h)) in
      elim (lookup id h'.devices) [
        | none ↦ (unknown_device, h')
        | some d ↦ finish_upload why is_preload claims id filename s a d h'
      ]

  unfoldable pub install_upload :
      (PreloadError → Text)
      → (Bytes → Bytes)
      → Bool
      → SessionClaims
      → Text
      → Option Text
      → Arrival W
      → Host I W
      → Response × Host I W
  install_upload why digest is_preload claims id header a h =
      let filename = filename_of header in
      elim (lookup id h.devices) [
        | none ↦ (unknown_device, h)
        | some d ↦ elim (if is_preload then misfit claims filename else none) [
          | some r ↦ (r, h)
          | none ↦
              if a.scratch_usable
              then received why is_preload claims id filename a h
                  (stream_to_disk digest a.creates a.flushes a.body)
              else (scratch_unusable, h)
        ]
      ]

module _ {I W K : Type 0} ⦃k : Key I⦄ where
  -- The answer of an authorization, and the upload behind it.
  abbrev pub uploaded :
      (PreloadError → Text)
      → (Bytes → Bytes)
      → Bool
      → Text
      → Option Text
      → Arrival W
      → Result Rejection SessionClaims × ServerState I W K
      → Response × ServerState I W K
  uploaded why digest is_preload id header a (err r, s) = (rejected r, s)
  uploaded why digest is_preload id header a (ok claims, s) =
      let (response, h) = install_upload why digest is_preload claims id header a s.host in
      (response, record s { host = h })

  unfoldable pub install :
      Jwt K
      → (PreloadError → Text)
      → (Bytes → Bytes)
      → ℕ
      → Option (List Jwk)
      → (id token : Text) → Option Text
      → Arrival W
      → ServerState I W K
      → Response × ServerState I W K
  install lib why digest now answer id token header a s =
      uploaded why digest false id header a (authorize lib now answer id token s)

  unfoldable pub preload :
      Jwt K
      → (PreloadError → Text)
      → (Bytes → Bytes)
      → ℕ
      → Option (List Jwk)
      → (id token : Text) → Option Text
      → Arrival W
      → ServerState I W K
      → Response × ServerState I W K
  preload lib why digest now answer id token header a s =
      uploaded why digest true id header a (authorize_preload lib now answer id token s)
