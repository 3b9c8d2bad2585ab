-- ===== src/Tests/Uploads.antt =====
-- Files that go to the phone and come from it.
use yard.Prelude.{
  ℕ, ◌≡◌, refl, true, false, Option, none, some, List, [], ◌∷◌, Text, Bytes, codes, ok, text_eq,
  text_key, nat_key, all, is_empty, get_elem?,
}
use yard.Prelude.Dict.{lookup, insert, remove}
use yard.Core.Session as Session
use yard.Core.Session.{current, check, revoke}
use yard.Core.Preload.{is_safe_char, is_single_component, artifact_name, PreloadError}
use yard.Core.Tokens.{new}
use yard.Core.Tokens.Verified.{run}
use yard.Core.Supervisor.Device.{
  Device, DeviceCall, new_device, ready, uploads, done, claim, wake_screen, snapshot_baseline,
}
use yard.Core.Supervisor.Commands.{
  Host, can_preload, handle_authorize, note_activity, push_install_result, session_authorize,
  session_revoke,
}
use yard.Core.Supervisor.Steps as Steps
use yard.Core.Supervisor.Setup as Setup
use yard.Core.Supervisor.Steps.{Event, handles, handle}
use yard.Server.Access.Granted.{Holds}
use yard.Server.Files.{Staged, sanitize_filename, hex, chunk, stream_to_disk, write_chunks}
use yard.Server.Files.Names.{is_dots, sanitize_filename-hex}
use yard.Core.Supervisor.Uploads.{install_staged}
use yard.Server.Uploads.{Arrival, finish_upload, install_upload}
use yard.Server.Uploads.Audited.{Audited, finish_upload-Audited}
use yard.Server.Pulls.{Meanwhile, FileAccess, pull_file}
use yard.Server.Pulls.Egress.{Released, pull_file-Released}
use yard.Tests.Core.Hosts.{phone}
use yard.Tests.Servers.{claims_for, library, history, host, held}

abbrev why : PreloadError → Text
why e = []

-- The digest is the bytes themselves.
abbrev digest : Bytes → Bytes
digest bs = bs

abbrev arrival : List (Event (List Text)) → Arrival (List Text)
arrival events = record {
  scratch_usable = true;
  creates = true;
  flushes = true;
  body = chunk (1 ∷ []) ∷ chunk (2 ∷ []) ∷ [];
  arriving = events;
  waiting = [];
  now = 7;
  staged_path = codes "s";
  artifact_app_id = ok (codes "g");
  temporary = codes "t";
  answers = record {
    copied = true;
    partial_copy = [];
    renamed = true;
    temporary_removed = true;
    manifest_replaced = true;
    artifact_removed = true;
  };
}

abbrev staged : Staged
staged = record { content = 1 ∷ 2 ∷ []; size = 2; sha256 = codes "0102" }

abbrev device : Device ℕ (List Text)
device = record (new_device (codes "d") phone [] []) { status = ready }

owned : lookup (codes "d") (host Session.new).devices ≡ some device
unfolding lookup text_eq
owned = refl

finish_upload-Audited_example :
    Audited
      (can_preload (host Session.new) (codes "d"))
      (claims_for (some (codes "preload")) (some (codes "android")))
      (codes "d")
      staged
      (codes "s")
      device
      (host Session.new)
      (finish_upload why true
        (claims_for (some (codes "preload")) (some (codes "android")))
        (codes "d")
        (codes "g.apk")
        staged
        (arrival [])
        device
        (host Session.new))
finish_upload-Audited_example =
    finish_upload-Audited why true (claims_for (some (codes "preload")) (some (codes "android")))
      (codes "d") (codes "g.apk") staged (arrival []) device (host Session.new) owned refl

sanitize_filename-hex_example :
    (all is_safe_char (sanitize_filename (codes "../a b/c.apk")) ≡ true)
    × (is_empty (sanitize_filename (codes "../a b/c.apk")) ≡ false)
    × (is_dots (sanitize_filename (codes "../a b/c.apk")) ≡ false)
    × (is_single_component
          (artifact_name (hex (171 ∷ [])) (sanitize_filename (codes "../a b/c.apk")))
        ≡ true)
sanitize_filename-hex_example = sanitize_filename-hex (codes "../a b/c.apk") (171 ∷ [])

sanitized : sanitize_filename (codes "../a b/..c.apk") ≡ codes "..c.apk"
unfolding sanitize_filename
sanitized = refl

sanitized_dots : sanitize_filename (codes "a/..") ≡ codes "upload.bin"
unfolding sanitize_filename
sanitized_dots = refl

abbrev files : FileAccess ℕ (List Text)
files = record {
  files_root = some (codes "/");
  list_files = λ path w. (w, ok 0);
  pull_file = λ path w. (w, ok (2, some (1 ∷ 2 ∷ [])));
}

-- The reservation ends and the next one begins while a session's file is under way.
abbrev handed_over : List (Event (List Text))
handed_over =
    handles (session_authorize (codes "d") (codes "r2") (codes "u2") [])
    ∷ handles (session_revoke (codes "d") none)
    ∷ []

abbrev meanwhile : Meanwhile (List Text)
meanwhile = record {
  scratch_usable = true;
  opens = true;
  now = 7;
  transferring = handed_over;
  hashing = [];
  noting = [];
}

pull_file-Released_example :
    Released (Holds (host held) (codes "d")) digest (codes "d") (some (codes "/a")) (
      pull_file files
        (library (claims_for none none))
        digest
        9
        none
        (codes "d")
        (codes "k")
        (some (codes "/a"))
        meanwhile
        (record {
          host = host held;
          verifier = run (library (claims_for none none)) history (new (codes "p") []);
        }))
pull_file-Released_example =
    pull_file-Released files (library (claims_for none none)) (codes "p") [] history digest
      (host held) 9 none (codes "d") (codes "k") (some (codes "/a")) meanwhile

-- While the body of a session's upload arrives.
abbrev late : Host ℕ (List Text)
late =
    (install_upload why digest false (claims_for none none) (codes "d") none (arrival handed_over)
      (host held)).1

abbrev newest_call : Option (Device ℕ (List Text)) → Option DeviceCall
newest_call none = none
newest_call (some d) = get_elem? d.calls 0

-- The upload is installed all the same, under the next user.
installed_late : newest_call (lookup (codes "d") late.devices) ≡ some (uploads (codes "s") done)
unfolding install_upload finish_upload install_staged stream_to_disk write_chunks hex lookup insert
    text_eq Setup.run Steps.step handle handle_authorize note_activity push_install_result claim
    wake_screen snapshot_baseline new_device Session.authorize revoke current remove
installed_late = refl

held_by_the_next :
    current (codes "d") late.sessions
    ≡ some (record { reservation_id = codes "r2"; user_id = codes "u2"; adb_keys = [] })
unfolding install_upload finish_upload install_staged stream_to_disk write_chunks hex lookup insert
    text_eq Setup.run Steps.step handle handle_authorize note_activity push_install_result claim
    wake_screen snapshot_baseline new_device Session.authorize revoke current remove
held_by_the_next = refl
