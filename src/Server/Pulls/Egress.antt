-- ===== src/Server/Pulls/Egress.antt =====
-- What leaves a device is on record.
use yard.Prelude.{
  Key, ◌⊎◌, ℕ, ◌≡◌, refl, Bool, true, false, Option-cases, inl, inr, Option, none, some, List, ◌∷◌,
  if◌then◌else◌, Text, Bytes, text_key, Result, ok, err,
}
use yard.Prelude.Dict.{lookup}
use yard.Core.Cleanup.{Reply}
use yard.Core.Tokens.{SessionClaims, Jwk, Jwt, new}
use yard.Core.Tokens.Verified.{Event, run}
use yard.Core.Supervisor.Device.{Device}
use yard.Core.Supervisor.Commands.{
  PulledFile, Host, ProviderMessage, file_pulled, note_activity, push_file_pulled, put,
}
use yard.Server.Access.{Rejection, ServerState, authorize}
use yard.Server.Access.Granted.{Holds, authorize-Holds}
use yard.Server.Files.{sanitize_filename, hex}
use yard.Core.Supervisor.Setup as Setup
use yard.Server.Pulls.{
  Meanwhile, transfer, transferred, rejected, unknown_device, no_file_access, path_required,
  scratch_unusable, unreadable, refused, listing, FileAccess, FileResponse, attachment, given_path,
  pulled, pull_from, entered, on_device, pull_file,
}

module _ (L : Type 0) {I W : Type 0} where
  -- An attachment is the path's file, by its own name, and the message to the coordinator that was
  -- the newest when it went out says who pulled it, from where, how long it is and its digest, unless
  -- the host was attached to no control plane then.
  abbrev pub Recorded :
      (Bytes → Bytes) → SessionClaims → Text → Option Text → FileResponse L × Host I W → Type 0
  Recorded digest claims id path (attachment filename size content, h) =
      (remote : Text) × (given_path path ≡ some remote)
      × (filename ≡ sanitize_filename remote)
      × ((h.connected ≡ false)
          ⊎ ((before : List (ProviderMessage I)) × (h.sent
                ≡ file_pulled id (record {
                  user_id = claims.user_id;
                  path = remote;
                  size = size;
                  sha256 = hex (digest content);
                })
                  ∷ before)))
  Recorded digest claims id path (r, h) = Unit {0}

  push_file_pulled-sent :
      (id : Text) (f : PulledFile) (h : Host I W)
      → ((push_file_pulled id f h).connected ≡ false)
        ⊎ ((before : List (ProviderMessage I)) × ((push_file_pulled id f h).sent
              ≡ file_pulled id f ∷ before))
  unfolding push_file_pulled
  push_file_pulled-sent id f h = sent h.connected refl
    where
      sent :
          (on : Bool)
          → h.connected ≡ on
          → ((if on then record h { sent = file_pulled id f ∷ h.sent } else h).connected ≡ false)
            ⊎ ((before : List (ProviderMessage I)) × ((if on
                    then record h { sent = file_pulled id f ∷ h.sent }
                    else h).sent
                  ≡ file_pulled id f ∷ before))
      sent true q = inr (h.sent, refl)
      sent false q = inl q

  -- Behind the check of the scratch directory.
  scratch-Recorded :
      (digest : Bytes → Bytes) (scratch : Bool) (claims : SessionClaims) (id : Text)
      (path : Option Text) (h : Host I W) (x : FileResponse L × Host I W)
      → Recorded digest claims id path x
      → Recorded digest claims id path (if scratch then x else (scratch_unusable, h))
  scratch-Recorded digest true claims id path h x r = r
  scratch-Recorded digest false claims id path h x r = tt

module _ (L : Type 0) {I W : Type 0} ⦃k : Key I⦄ where
  -- By whether the staged file opens.
  opened-Recorded :
      (digest : Bytes → Bytes) (opens : Bool) (claims : SessionClaims) (id : Text)
      (path : Option Text) (remote : Text) (size : ℕ) (content : Bytes) (h : Host I W)
      → given_path path ≡ some remote
      → Recorded L digest claims id path (
        if opens then attachment (sanitize_filename remote) size content else unreadable,
        push_file_pulled id
            (record {
              user_id = claims.user_id;
              path = remote;
              size = size;
              sha256 = hex (digest content);
            })
            h,
      )
  opened-Recorded digest false claims id path remote size content h q = tt
  opened-Recorded digest true claims id path remote size content h q =
      (remote, q, refl, push_file_pulled-sent L id _ h)

  pulled-Recorded :
      (digest : Bytes → Bytes) (m : Meanwhile W) (claims : SessionClaims) (id : Text)
      (path : Option Text) (remote : Text) (h : Host I W) (r : Reply (ℕ × Option Bytes))
      → given_path path ≡ some remote
      → Recorded L digest claims id path (pulled {L = L} digest m claims id remote h r)
  pulled-Recorded digest m claims id path remote h (err e) q = tt
  pulled-Recorded digest m claims id path remote h (ok (size, none)) q = tt
  pulled-Recorded digest m claims id path remote h (ok (size, some content)) q =
      opened-Recorded digest m.opens claims id path remote size content
        (Setup.run m.noting (note_activity m.now id h)) q

module _ {L I W : Type 0} ⦃k : Key I⦄ (files : FileAccess L W) where
  transferred-Recorded :
      (digest : Bytes → Bytes) (m : Meanwhile W) (claims : SessionClaims) (id : Text)
      (path : Option Text) (remote : Text) (h : Host I W) (o : Option (Device I W))
      → given_path path ≡ some remote
      → Recorded L digest claims id path (transferred files digest m claims id remote h o)
  transferred-Recorded digest m claims id path remote h none q = tt
  transferred-Recorded digest m claims id path remote h (some d) q =
      pulled-Recorded L digest m claims id path remote
        (Setup.run m.hashing (put id (record d { world = (files.pull_file remote d.world).0 }) h))
        (files.pull_file remote d.world).1 q

  pull_from-Recorded :
      (digest : Bytes → Bytes) (m : Meanwhile W) (claims : SessionClaims) (id : Text)
      (path : Option Text) (h : Host I W)
      → Recorded L digest claims id path (pull_from files digest m claims id path h)
  unfolding pull_from
  pull_from-Recorded digest m claims id path h = elim (Option-cases (given_path path)) [
    | inl q ↦ rw (q, pull_from) tt
    | inr (remote, q) ↦
        rw (q, pull_from)
          (scratch-Recorded L digest m.scratch_usable claims id path h
            (transfer files digest m claims id remote h)
            (transferred-Recorded digest m claims id path remote (Setup.run m.transferring h)
              (lookup id (Setup.run m.transferring h).devices) q))
  ]

module _ {L I W K : Type 0} where
  -- What an attachment that a session got stands for.
  abbrev pub Released :
      (SessionClaims → Type 0)
      → (Bytes → Bytes)
      → Text
      → Option Text
      → FileResponse L × ServerState I W K
      → Type 0
  Released P digest id path (attachment filename size content, s) =
      (claims : SessionClaims) × P claims
      × Recorded L digest claims id path (attachment filename size content, s.host)
  Released P digest id path (r, s) = Unit {0}

  released :
      (P : SessionClaims → Type 0) (digest : Bytes → Bytes) (id : Text) (path : Option Text)
      (claims : SessionClaims) (s : ServerState I W K) (x : FileResponse L × Host I W)
      → P claims
      → Recorded L digest claims id path x
      → Released P digest id path (x.0, record s { host = x.1 })
  released P digest id path claims s (attachment f n c, h) p r = (claims, p, r)
  released P digest id path claims s (rejected e, h) p r = tt
  released P digest id path claims s (unknown_device, h) p r = tt
  released P digest id path claims s (no_file_access, h) p r = tt
  released P digest id path claims s (path_required, h) p r = tt
  released P digest id path claims s (scratch_unusable, h) p r = tt
  released P digest id path claims s (unreadable, h) p r = tt
  released P digest id path claims s (refused n t, h) p r = tt
  released P digest id path claims s (listing l, h) p r = tt

  on_device-Released :
      (P : SessionClaims → Type 0) (digest : Bytes → Bytes) (id : Text) (path : Option Text)
      (claims : SessionClaims) (f : Device I W → Host I W → FileResponse L × Host I W)
      (s : ServerState I W K) (o : Option (Device I W))
      → P claims
      → ((d : Device I W) → Recorded L digest claims id path (f d s.host))
      → Released P digest id path (on_device f s o)
  on_device-Released P digest id path claims f s none p r = tt
  on_device-Released P digest id path claims f s (some d) p r =
      released P digest id path claims s (f d s.host) p (r d)

  entered-Released :
      (P : SessionClaims → Type 0) (digest : Bytes → Bytes) (id : Text) (path : Option Text)
      (f : SessionClaims → Device I W → Host I W → FileResponse L × Host I W)
      (x : Result Rejection SessionClaims × ServerState I W K)
      → ((claims : SessionClaims) → x.0 ≡ ok claims → P claims)
      → ((claims : SessionClaims) (d : Device I W)
          → Recorded L digest claims id path (f claims d x.1.host))
      → Released P digest id path (entered id f x)
  entered-Released P digest id path f (err e, s) p r = tt
  entered-Released P digest id path f (ok claims, s) p r =
      on_device-Released P digest id path claims (f claims) s (lookup id s.host.devices)
        (p claims refl) (r claims)

module _ {L I W K : Type 0} ⦃k : Key I⦄ where
  -- After any history of the verifier and whatever the host goes through during the transfer: a file
  -- that leaves a device goes to a token that, when the request came, named the reservation that held
  -- the device, and it carries the requested path's own sanitized name. The message to the coordinator
  -- that was the newest when it went out, ahead of the bytes, is the record of it, with the user, the
  -- path, the size and the digest of the bytes, unless the host was attached to no control plane then.
  pub pull_file-Released :
      (files : FileAccess L W) (lib : Jwt K) (own first : Text) (es : List Event)
      (digest : Bytes → Bytes) (h : Host I W) (now : ℕ) (a : Option (List Jwk)) (id token : Text)
      (path : Option Text) (m : Meanwhile W)
      → Released (Holds h id) digest id path (
          pull_file files lib digest now a id token path m
            (record { host = h; verifier = run lib es (new own first) }))
  unfolding pull_file authorize
  pull_file-Released files lib own first es digest h now a id token path m =
      let s : ServerState I W K = record { host = h; verifier = run lib es (new own first) } in
      entered-Released (Holds h id) digest id path
        (λ claims d. pull_from files digest m claims id path) (authorize lib now a id token s)
        (λ claims q. (authorize-Holds lib own first es h now a id token claims q).0)
        (λ claims d.
          pull_from-Recorded files digest m claims id path (authorize lib now a id token s).1.host)
