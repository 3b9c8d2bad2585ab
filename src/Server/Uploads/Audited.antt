-- ===== src/Server/Uploads/Audited.antt =====
-- The audit trace of an upload, and what it may install.
use yard.Prelude.{
  ◌+◌, ◌≡◌, refl, ap, sym, ◌∙◌, Bool, true, false, not, Bool-cases, inl, inr, Option, none, some,
  List, ◌∷◌, if◌then◌else◌, Text, text_key, eq_refl, Result, ok, err, arith, ◌⊎◌, subst,
}
use yard.Prelude.Dict.{lookup, insert, lookup-insert}
use yard.Core.Tokens.{SessionClaims}
use yard.Core.Preload.{PreloadStore, ProtectedPreload, PreloadError, protect}
use yard.Core.Supervisor.Device.{Device, DeviceCall, uploads, Outcome, outcome_of}
use yard.Core.Cleanup.{Reply}
use yard.Core.Supervisor.Cleaning.{count_install}
use yard.Core.Supervisor.Commands.{
  Host, InstallResult, install_finished, can_preload, push_install_result,
}
use yard.Server.Files.{Staged}
use yard.Core.Supervisor.Uploads.{no_longer_idle, install_staged, retained}
use yard.Server.Uploads.{
  Response, installed, conflict, Arrival, response_of, reported, result_of, identified, preload_of,
  deploy, finish_upload,
}

-- A device's calls gained at most the one install of the staged file, where that is allowed.
abbrev pub AtMostInstalls : Bool → Text → List DeviceCall → List DeviceCall → Type 0
AtMostInstalls allowed staged before after =
    (after ≡ before) ⊎ ((o : Outcome) × (allowed ≡ true) × (after ≡ uploads staged o ∷ before))

abbrev pub is_success : Response → Bool
is_success (installed f s) = true
is_success r = false

abbrev pub is_failure : Option Text → Bool
is_failure none = false
is_failure (some e) = true

response_success :
    (filename : Text) (s : Staged) (e : Option Text)
    → is_success (response_of filename s e) ≡ not (is_failure e)
response_success filename s none = refl
response_success filename s (some e) = refl

module _ {I W : Type 0} where
  -- What one step of the host did for an upload: one notice, for the file's digest and its uploader,
  -- that says whether it went well as the response does; and no call but the install.
  abbrev pub Audited :
      Bool
      → SessionClaims
      → Text
      → Staged
      → Text
      → Device I W
      → Host I W
      → Response × Host I W
      → Type 0
  Audited allowed claims id s staged d h (r, h') =
      (m : InstallResult) × (h'.sent ≡ install_finished id m ∷ h.sent)
      × (m.sha256 ≡ s.sha256)
      × (m.user_id ≡ claims.user_id)
      × (is_success r ≡ not (is_failure m.error))
      × (d' : Device I W) × (lookup id h'.devices ≡ some d')
      × AtMostInstalls allowed staged d.calls d'.calls
      × (d'.installs_ok + d'.installs_failed ≡ 1 + (d.installs_ok + d.installs_failed))

  push_known :
      (id : Text) (m : InstallResult) (d : Device I W) (h : Host I W)
      → lookup id h.devices ≡ some d
      → h.connected ≡ true
      → push_install_result id m h ≡ record h {
        devices = insert id (count_install m.error d) h.devices;
        sent = install_finished id m ∷ h.sent;
      }
  unfolding push_install_result
  push_known id m d h l c = rw (l, push_install_result) (rw c refl)

  lookup-insert_self :
      (id : Text) (d : Device I W) (ds : List (Text × Device I W))
      → lookup id (insert id d ds) ≡ some d
  lookup-insert_self id d ds = lookup-insert id id d ds ∙ rw (eq_refl id) refl

  calls_counted : (e : Option Text) (d : Device I W) → (count_install e d).calls ≡ d.calls
  calls_counted none d = refl
  calls_counted (some x) d = refl

  one_counted :
      (e : Option Text) (d : Device I W)
      → (count_install e d).installs_ok + (count_install e d).installs_failed
        ≡ 1 + (d.installs_ok + d.installs_failed)
  one_counted none d = ground arith
  one_counted (some x) d = ground arith

  push_install_result-Audited :
      (allowed : Bool) (claims : SessionClaims) (id : Text) (s : Staged) (staged : Text)
      (d d' : Device I W) (h h' : Host I W) (r : Response) (m : InstallResult)
      → h'.connected ≡ true
      → h'.sent ≡ h.sent
      → lookup id h'.devices ≡ some d'
      → AtMostInstalls allowed staged d.calls d'.calls
      → d'.installs_ok + d'.installs_failed ≡ d.installs_ok + d.installs_failed
      → m.sha256 ≡ s.sha256
      → m.user_id ≡ claims.user_id
      → is_success r ≡ not (is_failure m.error)
      → Audited allowed claims id s staged d h (r, push_install_result id m h')
  push_install_result-Audited allowed claims id s staged d d' h h' r m c q l k n a b e =
      subst (λ g. Audited allowed claims id s staged d h (r, g)) (sym (push_known id m d' h' l c))
        (
          m,
          ap (◌∷◌ (install_finished id m)) q,
          a,
          b,
          e,
          count_install m.error d',
          lookup-insert_self id (count_install m.error d') h'.devices,
          subst (AtMostInstalls allowed staged d.calls) (sym (calls_counted m.error d')) k,
          one_counted m.error d' ∙ ap (λ x. 1 + x) n,
        )

  -- What is reported of an outcome: the host is as it was but for the device and the store.
  abbrev Leaves :
      Bool
      → Text
      → Text
      → Device I W
      → Host I W
      → Option Text × Option ProtectedPreload × Host I W
      → Type 0
  Leaves allowed id staged d h (e, p, h') =
      (h'.connected ≡ h.connected)
      × (h'.sent ≡ h.sent)
      × (d' : Device I W) × (lookup id h'.devices ≡ some d')
      × AtMostInstalls allowed staged d.calls d'.calls
      × (d'.installs_ok + d'.installs_failed ≡ d.installs_ok + d.installs_failed)

  install_staged-Leaves :
      (allowed : Bool) (id staged : Text) (p : Option ProtectedPreload) (d : Device I W)
      (h h' : Host I W)
      → h'.connected ≡ h.connected
      → h'.sent ≡ h.sent
      → allowed ≡ true
      → Leaves allowed id staged d h (install_staged id staged p d h')
  unfolding install_staged
  install_staged-Leaves allowed id staged p d h h' c q t =
      let (w, reply) = d.backend.install staged d.world in
      let d' : Device I W = record d {
        world = w;
        calls = uploads staged (outcome_of reply) ∷ d.calls;
      } in
      (c, q, d', lookup-insert_self id d' h'.devices, inr (outcome_of reply, t, refl), refl)

  retained-Leaves :
      (allowed : Bool) (why : PreloadError → Text) (id staged : Text) (d : Device I W)
      (h : Host I W) (x : Result PreloadError ProtectedPreload × PreloadStore)
      → lookup id h.devices ≡ some d
      → allowed ≡ true
      → Leaves allowed id staged d h (retained why id staged d h x)
  retained-Leaves allowed why id staged d h (ok e, store) l t =
      install_staged-Leaves allowed id staged (some e) d h (record h { preloads = store }) refl refl
        t
  retained-Leaves allowed why id staged d h (err e, store) l t = (refl, refl, d, l, inl refl, refl)

  identified-Leaves :
      (allowed : Bool) (why : PreloadError → Text) (claims : SessionClaims) (id filename : Text)
      (s : Staged) (a : Arrival W) (d : Device I W) (h : Host I W) (r : Reply Text)
      → lookup id h.devices ≡ some d
      → allowed ≡ true
      → Leaves allowed id a.staged_path d h (identified why claims id filename s a d h r)
  identified-Leaves allowed why claims id filename s a d h (err e) l t =
      (refl, refl, d, l, inl refl, refl)
  identified-Leaves allowed why claims id filename s a d h (ok app) l t =
      retained-Leaves allowed why id a.staged_path d h
        (protect h.preloads (preload_of claims id app filename s) s.content a.temporary a.answers) l
        t

  deploy-Leaves :
      (allowed : Bool) (why : PreloadError → Text) (claims : SessionClaims) (id filename : Text)
      (s : Staged) (a : Arrival W) (d : Device I W) (h : Host I W)
      → lookup id h.devices ≡ some d
      → allowed ≡ true
      → Leaves allowed id a.staged_path d h (deploy why claims id filename s a d h)
  unfolding deploy
  deploy-Leaves allowed why claims id filename s a d h =
      identified-Leaves allowed why claims id filename s a d h a.artifact_app_id

  reported-Audited :
      (allowed : Bool) (claims : SessionClaims) (id filename : Text) (s : Staged)
      (is_preload : Bool) (staged : Text) (d : Device I W) (h : Host I W)
      (x : Option Text × Option ProtectedPreload × Host I W)
      → h.connected ≡ true
      → Leaves allowed id staged d h x
      → Audited allowed claims id s staged d h (reported claims id filename s is_preload x)
  reported-Audited allowed claims id filename s is_preload staged d h (e, p, h') c
        (c', q, d', l, k, n) =
      push_install_result-Audited allowed claims id s staged d d' h h' (response_of filename s e)
        (result_of claims filename s is_preload e p) (c' ∙ c) q l k n refl refl
        (response_success filename s e)

  -- Every upload whose body arrived while the host is attached to a control plane leaves exactly one
  -- audit notice, with the body's digest and the uploader, which says that it went well just if the
  -- response does; the device's counters go up by one, and the device was called for nothing but at
  -- most one install of the staged file. For a preload there is none where the device is not idle
  -- then.
  pub finish_upload-Audited :
      (why : PreloadError → Text) (is_preload : Bool) (claims : SessionClaims) (id filename : Text)
      (s : Staged) (a : Arrival W) (d : Device I W) (h : Host I W)
      → lookup id h.devices ≡ some d
      → h.connected ≡ true
      → Audited
          (if is_preload then can_preload h id else true)
          claims
          id
          s
          a.staged_path
          d
          h
          (finish_upload why is_preload claims id filename s a d h)
  unfolding finish_upload
  finish_upload-Audited why false claims id filename s a d h l c =
      reported-Audited true claims id filename s false a.staged_path d h
        (install_staged id a.staged_path none d h) c
        (install_staged-Leaves true id a.staged_path none d h h refl refl refl)
  finish_upload-Audited why true claims id filename s a d h l c =
      elim (Bool-cases (can_preload h id)) [
        | inl idle ↦
            rw (idle, finish_upload)
              (reported-Audited true claims id filename s true a.staged_path d h
                (deploy why claims id filename s a d h) c
                (deploy-Leaves true why claims id filename s a d h l refl))
        | inr busy ↦
            rw (busy, finish_upload)
              (push_install_result-Audited false claims id s a.staged_path d d h h
                (conflict no_longer_idle)
                (result_of claims filename s true (some no_longer_idle) none) c refl l (inl refl)
                refl refl refl refl)
      ]
