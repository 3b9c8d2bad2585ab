-- ===== src/Ios/Drop/Spares.antt =====
-- What binding the inbox to a reservation may remove.
use yard.Prelude.{
  all, ◌≢◌, subst, ℕ, ◌+◌, zero, suc, ◌≡◌, refl, ap, Bool, true, false, not, List, [], ◌∷◌, ◌++◌,
  Text, Bytes, codes, text_eq_iff, text_key, contains, Option, none, some, Result, ok, err,
  if◌then◌else◌, arith, ◌⊎◌, inl, inr, ◌&&◌, Bool-cases,
}
use yard.Ios.Files.{
  Attributes, FileCall, lists, reads, makes, removes, renames, writes, pulls, DropError, too_deep,
  invalid_reservation, Service, Disk, ◌>>=◌, ◌>>◌, give, call,
}
use yard.Ios.Paths.{incoming, safe_component, below}
use yard.Ios.Drop.{
  Inbox, root, lease, list_dir, attributes, remove, each_safe, remove_tree, max_levels, purge_entry,
  purge, temporary_lease, write_lease, sync, settled, selected, select, is_valid, bind, option_eq,
  has_type, directory, ensure_directory, is_stale,
}
use yard.Ios.Drop.Calls.{
  AllOf, Only, give-Only, call-Only, >>=-Only, >>-Only, if-Only, attributes-Only,
  ensure_directory-Only, each_safe-Only,
}

option_eq_lem : (a b : Option Text) → option_eq a b ≡ true → a ≡ b
option_eq_lem none none h = refl
option_eq_lem none (some b) h = ground arith
option_eq_lem (some a) none h = ground arith
option_eq_lem (some a) (some b) h = ap some ((text_eq_iff a b).0 h)

-- A path some components below another, the last component first.
abbrev pub climb : Text → List Text → Text
climb base [] = base
climb base (name ∷ names) = below (climb base names) name

-- A path is another one or stands below it, each component on the way a safe name.
abbrev pub Under : Text → Text → Type 0
Under base path =
    (names : List Text) × (all safe_component names ≡ true) × (path ≡ climb base names)

-- The lease's file before it is put in place.
abbrev pub draft : Text → Text
draft fresh = codes "Library/Caches/YARD Drop/lease-" ++ (fresh ++ codes ".tmp")

-- Nothing is taken off the device; only the lease goes, and what another reservation has in
-- Incoming; only the draft is written, and it is put in the lease's place.
abbrev pub Spares : Text → Option Text → FileCall → Type 0
Spares fresh reservation (lists p) = Unit {0}
Spares fresh reservation (reads p) = Unit {0}
Spares fresh reservation (makes p) = Unit {0}
Spares fresh reservation (removes p d) =
    (p ≡ codes "Library/Caches/YARD Drop/active-capture.json")
    ⊎ ((name : Text) × (safe_component name ≡ true)
        × (some name ≢ reservation)
        × Under (codes "Library/Caches/YARD Drop/Incoming/" ++ name) p)
Spares fresh reservation (renames a b) =
    (a ≡ draft fresh) × (b ≡ codes "Library/Caches/YARD Drop/active-capture.json")
Spares fresh reservation (writes p bs) = p ≡ draft fresh
Spares fresh reservation (pulls p d) = ⊥

Under-below :
    (base path name : Text)
    → safe_component name ≡ true
    → Under base path
    → Under base (below path name)
Under-below base path name t (names, a, e) =
    (name ∷ names, ground (arith, t, a), ap (λ p. p ++ (47 ∷ name)) e)

option_eq_self : (a : Option Text) → option_eq a a ≡ true
option_eq_self none = refl
option_eq_self (some a) = (text_eq_iff a a).1 refl

option_neq : (a b : Option Text) → option_eq a b ≡ false → a ≢ b
option_neq a b h e =
    let t : option_eq a b ≡ true = subst (λ x. option_eq a x ≡ true) e (option_eq_self a) in
    ground arith

module _ {W : Type 0} (files : Service W) (fresh : Text) (reservation : Option Text) where
  remove_tree-Spares :
      (n : ℕ) (name path : Text)
      → safe_component name ≡ true
      → some name ≢ reservation
      → Under (below incoming name) path
      → Only (Spares fresh reservation) (remove_tree files n path)
  unfolding remove_tree
  remove_tree-Spares zero name path t o u =
      give-Only (Spares fresh reservation) {A = Unit {0}} (err too_deep)
  remove_tree-Spares (suc n) name path t o u =
      let P = Spares fresh reservation in
      let gone : (d : Bool) → Only P (remove files path d) =
        λ d. call-Only P (removes path d) (files.remove path d) (inr (name, t, o, u)) in
      let inner = λ (x : Text). remove_tree files n (below path x) in
      let walk = λ (names : List Text). each_safe inner names >> remove files path true in
      let act = λ (attrs : Attributes).
        if has_type attrs.file_type directory
        then (list_dir files path >>= walk)
        else remove files path false in
      >>=-Only P (attributes files path) act (attributes-Only P files (λ p. tt) path) (λ attrs.
        if-Only P (has_type attrs.file_type directory) (list_dir files path >>= walk)
          (remove files path false)
          (λ q.
            >>=-Only P (list_dir files path) walk (call-Only P (lists path) (files.list path) tt)
              (λ names.
                >>-Only P (each_safe inner names) (remove files path true)
                  (each_safe-Only P inner names (λ x v.
                    remove_tree-Spares n name (below path x) t o
                      (Under-below (below incoming name) path x v u)))
                  (gone true)))
          (λ q. gone false))

  purge-Spares : Only (Spares fresh reservation) (purge files reservation)
  unfolding purge
  purge-Spares =
      let P = Spares fresh reservation in
      let entries = λ (names : List Text). each_safe (purge_entry files reservation) names in
      let drop_lease = λ (names : List Text).
        (if contains names (codes "active-capture.json")
          then remove files lease false
          else give (ok tt))
        >> (list_dir files incoming >>= entries) in
      >>=-Only P (list_dir files root) drop_lease (call-Only P (lists root) (files.list root) tt)
        (λ names.
          >>-Only P
            (if contains names (codes "active-capture.json")
              then remove files lease false
              else give (ok tt))
            (list_dir files incoming >>= entries)
            (if-Only P (contains names (codes "active-capture.json")) (remove files lease false)
              (give (ok tt))
              (λ t. call-Only P (removes lease false) (files.remove lease false) (inl refl))
              (λ t. give-Only P (ok tt)))
            (>>=-Only P (list_dir files incoming) entries
              (call-Only P (lists incoming) (files.list incoming) tt)
              (λ es. each_safe-Only P (purge_entry files reservation) es (λ name t.
                if-Only P (option_eq (some name) reservation) (give (ok tt))
                  (remove_tree files max_levels (below incoming name)) (λ q. give-Only P (ok tt))
                  (λ q.
                    remove_tree-Spares max_levels name (below incoming name) t
                      (option_neq (some name) reservation q) ([], refl, refl))))))

module _ {W : Type 0} (files : Service W) where
  ensure_directory-Spares :
      (fresh : Text) (reservation : Option Text) (path : Text)
      → Only (Spares fresh reservation) (ensure_directory files path)
  ensure_directory-Spares fresh reservation path =
      ensure_directory-Only (Spares fresh reservation) files (λ p. tt) (λ p. tt) (λ p. tt) path

  write_lease-Spares :
      (json : Text → ℕ → Bytes) (now_ms : ℕ) (fresh : Text) (reservation o : Option Text)
      → Only (Spares fresh reservation) (write_lease files json now_ms fresh o)
  unfolding write_lease
  write_lease-Spares json now_ms fresh reservation none =
      give-Only (Spares fresh reservation) (ok tt)
  write_lease-Spares json now_ms fresh reservation (some id) =
      let P = Spares fresh reservation in
      let bytes = json id (now_ms + 120000) in
      let file = temporary_lease fresh in
      let place = call (renames file lease) (files.rename file lease) in
      >>-Only P (ensure_directory files (below incoming id))
        (call (writes file bytes) (files.write_small file bytes) >> place)
        (ensure_directory-Spares fresh reservation (below incoming id))
        (>>-Only P (call (writes file bytes) (files.write_small file bytes)) place
          (call-Only P (writes file bytes) (files.write_small file bytes) refl)
          (call-Only P (renames file lease) (files.rename file lease) (refl, refl)))

  sync-Spares :
      (json : Text → ℕ → Bytes) (now_ms : ℕ) (fresh : Text) (synced : Bool)
      (reservation : Option Text)
      → Only (Spares fresh reservation) (sync files json now_ms fresh synced reservation)
  unfolding sync
  sync-Spares json now_ms fresh synced reservation =
      let P = Spares fresh reservation in
      let e = ensure_directory-Spares fresh reservation in
      let last = write_lease files json now_ms fresh reservation in
      let emptied = (if synced then give (ok tt) else purge files reservation) >> last in
      let d4 = ensure_directory files incoming >> emptied in
      let d3 = ensure_directory files root >> d4 in
      let d2 = ensure_directory files (codes "Library/Caches") >> d3 in
      >>-Only P (ensure_directory files (codes "Library")) d2 (e (codes "Library")) (
        >>-Only P (ensure_directory files (codes "Library/Caches")) d3 (e (codes "Library/Caches"))
          (>>-Only P (ensure_directory files root) d4 (e root) (
            >>-Only P (ensure_directory files incoming) emptied (e incoming) (
              >>-Only P (if synced then give (ok tt) else purge files reservation) last
                (if-Only P synced (give (ok tt)) (purge files reservation)
                  (λ t. give-Only P (ok tt)) (λ t. purge-Spares files fresh reservation))
                (write_lease-Spares json now_ms fresh reservation reservation)))))

-- A selection is the reservation's.
abbrev For : Option Text → Result DropError (Bool × Inbox) → Type 0
For reservation (ok (changed, inbox)) = inbox.reservation ≡ reservation
For reservation (err e) = Unit {0}

if-For :
    (b : Bool) (reservation : Option Text) (x y : Result DropError (Bool × Inbox))
    → For reservation x
    → (b ≡ false → For reservation y)
    → For reservation (if b then x else y)
if-For true reservation x y h k = h
if-For false reservation x y h k = k refl

select-For :
    (is_uuid : Text → Bool) (reservation : Option Text) (inbox : Inbox)
    → For reservation (select is_uuid reservation inbox)
unfolding select
select-For is_uuid reservation inbox = elim (Bool-cases (option_eq inbox.reservation reservation)) [
  | inl q ↦ rw q (
      if-For (not (is_valid is_uuid reservation)) reservation (err invalid_reservation)
        (ok (false, inbox)) tt (λ t. option_eq_lem inbox.reservation reservation q))
  | inr q ↦ rw q (
      if-For (not (is_valid is_uuid reservation)) reservation (err invalid_reservation)
        (ok (true, record { reservation = reservation; refreshed = none; synced = false })) tt
        (λ t. refl))
]

module _ {W : Type 0} where
  -- The calls, and where it went well the inbox.
  abbrev pub Bound : Text → Option Text → Result DropError (Unit {0}) × Inbox × Disk W → Type 0
  Bound fresh reservation (ok u, inbox, s) =
      AllOf (Spares fresh reservation) s.calls
      × (inbox.reservation ≡ reservation)
      × (inbox.synced ≡ true)
  Bound fresh reservation (err e, inbox, s) = AllOf (Spares fresh reservation) s.calls

  settled-Bound :
      (now : ℕ) (fresh : Text) (reservation : Option Text) (inbox : Inbox)
      (x : Result DropError (Unit {0}) × Disk W)
      → inbox.reservation ≡ reservation
      → AllOf (Spares fresh reservation) x.1.calls
      → Bound fresh reservation (settled now inbox x)
  settled-Bound now fresh reservation inbox (ok u, s) e h = (h, e, refl)
  settled-Bound now fresh reservation inbox (err r, s) e h = h

module _ {W : Type 0} (files : Service W) where
  chosen-Bound :
      (json : Text → ℕ → Bytes) (now now_ms : ℕ) (fresh : Text) (reservation : Option Text)
      (old inbox : Inbox) (changed : Bool) (s : Disk W)
      → inbox.reservation ≡ reservation
      → AllOf (Spares fresh reservation) s.calls
      → Bound fresh reservation
          (selected files json now now_ms fresh reservation old (ok (changed, inbox)) s)
  chosen-Bound json now now_ms fresh reservation old inbox changed s e h =
      elim (Bool-cases (inbox.synced && not (is_stale now inbox.refreshed))) [
        | inl q ↦ rw q (h, e, ground (arith, q))
        | inr q ↦ rw q (
            settled-Bound now fresh reservation inbox
              (sync files json now_ms fresh inbox.synced reservation s) e
              (sync-Spares files json now_ms fresh inbox.synced reservation s h))
      ]

  selected-Bound :
      (json : Text → ℕ → Bytes) (now now_ms : ℕ) (fresh : Text) (reservation : Option Text)
      (old : Inbox) (x : Result DropError (Bool × Inbox)) (s : Disk W)
      → For reservation x
      → AllOf (Spares fresh reservation) s.calls
      → Bound fresh reservation (selected files json now now_ms fresh reservation old x s)
  selected-Bound json now now_ms fresh reservation old (err e) s f h = h
  selected-Bound json now now_ms fresh reservation old (ok (changed, inbox)) s f h =
      chosen-Bound json now now_ms fresh reservation old inbox changed s f h

  -- Binding the inbox to a reservation, or to none, from whatever inbox and with a service that
  -- answers whatever it does: nothing is taken off the device; what is removed is the lease, or the
  -- directory of a safe name in Incoming other than the reservation's or stands below that by safe
  -- names; what is written is the draft of the lease, and only that is renamed, to the lease. Where it
  -- goes well the inbox is the reservation's and synced.
  pub bind-Bound :
      (is_uuid : Text → Bool) (json : Text → ℕ → Bytes) (now now_ms : ℕ) (fresh : Text)
      (reservation : Option Text) (inbox : Inbox) (w : W)
      → Bound fresh reservation (
          bind files is_uuid json now now_ms fresh reservation inbox
            (record { world = w; calls = [] }))
  unfolding bind
  bind-Bound is_uuid json now now_ms fresh reservation inbox w =
      selected-Bound json now now_ms fresh reservation inbox (select is_uuid reservation inbox)
        (record { world = w; calls = [] }) (select-For is_uuid reservation inbox) tt
