-- ===== src/Server/Pulls.antt =====
-- packages/provider/crates/provider-core/src/server.rs: `list_files` and `pull_file`,
-- what a session reads off its device. The files of a backend are a record of calls on the device.
pub mod Egress
use yard.Prelude.{
  Key, ℕ, Bool, true, false, Option, none, some, List, [], ◌∷◌, if◌then◌else◌, Text, Bytes, codes,
  text_key, is_empty, Result, ok, err,
}
use yard.Prelude.Dict.{lookup}
use yard.Core.Cleanup.{BackendError, unavailable, unsupported, failed, Reply, describe}
use yard.Core.Tokens.{SessionClaims, Jwk, Jwt}
use yard.Core.Supervisor.Device.{Device}
use yard.Core.Supervisor.Commands.{Host, PulledFile, put, note_activity, push_file_pulled}
use yard.Core.Supervisor.Steps.{Event}
use yard.Core.Supervisor.Setup.{run}
use yard.Server.Access.{Rejection, ServerState, authorize}
use yard.Server.Files.{sanitize_filename, hex}

-- What a backend offers of its device's files; a pull gives the size that it reports, and what
-- stands in the staged file, where that can be read back.
pub record FileAccess (L W : Type 0) : Type 0 where
  pub files_root : Option Text
  pub list_files : Text → W → W × Reply L
  pub pull_file : Text → W → W × Reply (ℕ × Option Bytes)

pub data FileResponse (L : Type 0) : Type 0 where
  rejected : Rejection → FileResponse L
  unknown_device no_file_access path_required scratch_unusable unreadable : FileResponse L
  refused : (status : ℕ) → Text → FileResponse L
  listing : L → FileResponse L
  attachment : (filename : Text) → (size : ℕ) → Bytes → FileResponse L

abbrev pub backend_status : BackendError → ℕ
backend_status (unsupported e) = 501
backend_status (unavailable e) = 503
backend_status (failed e) = 502

abbrev pub or_root : Option Text → Text → Text
or_root none root = root
or_root (some path) root = path

-- A path that is given and not empty.
abbrev pub given_path : Option Text → Option Text
given_path none = none
given_path (some []) = none
given_path (some (c ∷ cs)) = some (c ∷ cs)

-- What a pull meets: whether the scratch directory can be used and the staged file opens, the clock,
-- and what the host goes through before the device is read, from then until the file is hashed, and
-- between the activity and the notice (the newest event first).
pub record Meanwhile (W : Type 0) : Type 0 where
  pub scratch_usable : Bool
  pub opens : Bool
  pub now : ℕ
  pub transferring : List (Event W)
  pub hashing : List (Event W)
  pub noting : List (Event W)

module _ {L I W : Type 0} ⦃k : Key I⦄ where
  -- Behind the transfer. The host is the one that the notice left: what follows, the opening of the
  -- staged file and its bytes, changes nothing in it.
  abbrev pub pulled :
      (Bytes → Bytes)
      → Meanwhile W
      → SessionClaims
      → (id path : Text) → Host I W
      → Reply (ℕ × Option Bytes)
      → FileResponse L × Host I W
  pulled digest m claims id path h (err e) = (refused (backend_status e) (describe e), h)
  pulled digest m claims id path h (ok (size, none)) = (unreadable, h)
  pulled digest m claims id path h (ok (size, some content)) =
      let file : PulledFile = record {
        user_id = claims.user_id;
        path = path;
        size = size;
        sha256 = hex (digest content);
      } in
      let h' : Host I W = push_file_pulled id file (run m.noting (note_activity m.now id h)) in
      (if m.opens then attachment (sanitize_filename path) size content else unreadable, h')

module _ {L I W : Type 0} (files : FileAccess L W) where
  abbrev pub listed : Text → Device I W → Host I W → W × Reply L → FileResponse L × Host I W
  listed id d h (w, ok l) = (listing l, put id (record d { world = w }) h)
  listed id d h (w, err e) =
      (refused (backend_status e) (describe e), put id (record d { world = w }) h)

  unfoldable pub list_with : Text → Option Text → Device I W → Host I W → FileResponse L × Host I W
  list_with id path d h = elim files.files_root [
    | none ↦ (no_file_access, h)
    | some root ↦ listed id d h (files.list_files (or_root path root) d.world)
  ]

module _ {L I W : Type 0} ⦃k : Key I⦄ (files : FileAccess L W) where
  -- The device is read as it is at that moment, whoever has it by then.
  abbrev pub transferred :
      (Bytes → Bytes)
      → Meanwhile W
      → SessionClaims
      → (id path : Text) → Host I W
      → Option (Device I W)
      → FileResponse L × Host I W
  transferred digest m claims id path h none = (unknown_device, h)
  transferred digest m claims id path h (some d) =
      let (w, reply) = files.pull_file path d.world in
      pulled digest m claims id path (run m.hashing (put id (record d { world = w }) h)) reply

  abbrev pub transfer :
      (Bytes → Bytes)
      → Meanwhile W
      → SessionClaims
      → (id path : Text) → Host I W
      → FileResponse L × Host I W
  transfer digest m claims id path h =
      let h' : Host I W = run m.transferring h in
      transferred digest m claims id path h' (lookup id h'.devices)

  unfoldable pub pull_from :
      (Bytes → Bytes)
      → Meanwhile W
      → SessionClaims
      → (id : Text) → Option Text
      → Host I W
      → FileResponse L × Host I W
  pull_from digest m claims id path h = elim (given_path path) [
    | none ↦ (path_required, h)
    | some remote_path ↦
        if m.scratch_usable
        then transfer digest m claims id remote_path h
        else (scratch_unusable, h)
  ]

module _ {L I W K : Type 0} where
  -- The session's device, and what is done with it.
  abbrev pub on_device :
      (Device I W → Host I W → FileResponse L × Host I W)
      → ServerState I W K
      → Option (Device I W)
      → FileResponse L × ServerState I W K
  on_device f s none = (unknown_device, s)
  on_device f s (some d) = let (response, h) = f d s.host in (response, record s { host = h })

  -- Behind the token.
  abbrev pub entered :
      Text
      → (SessionClaims → Device I W → Host I W → FileResponse L × Host I W)
      → Result Rejection SessionClaims × ServerState I W K
      → FileResponse L × ServerState I W K
  entered id f (err r, s) = (rejected r, s)
  entered id f (ok claims, s) = on_device (f claims) s (lookup id s.host.devices)

  unfoldable pub list_files :
      FileAccess L W
      → Jwt K
      → ℕ
      → Option (List Jwk)
      → (id token : Text) → Option Text
      → ServerState I W K
      → FileResponse L × ServerState I W K
  list_files files lib now answer id token path s =
      entered id (λ claims. list_with files id path) (authorize lib now answer id token s)

module _ {L I W K : Type 0} ⦃k : Key I⦄ where
  unfoldable pub pull_file :
      FileAccess L W
      → Jwt K
      → (Bytes → Bytes)
      → ℕ
      → Option (List Jwk)
      → (id token : Text) → Option Text
      → Meanwhile W
      → ServerState I W K
      → FileResponse L × ServerState I W K
  pull_file files lib digest now answer id token path m s =
      entered id (λ claims d. pull_from files digest m claims id path)
        (authorize lib now answer id token s)
