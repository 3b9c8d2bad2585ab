-- ===== src/Ios/Drop/Calls.antt =====
-- Which calls a run of the inbox makes.
use yard.Prelude.{
  ◌≡◌, refl, Bool, true, false, List, [], ◌∷◌, Text, Result, ok, err, if◌then◌else◌, contains,
  text_key,
}
use yard.Ios.Files.{
  Attributes, FileCall, lists, reads, makes, DropError, invalid_component, unexpected_type,
  invalid_entry, Service, Disk, Io, follow, ◌>>=◌, ◌>>◌, give, call, guard,
}
use yard.Ios.Paths.{safe_component, parts_of}
use yard.Ios.Drop.{
  list_dir, attributes, mkdir, check_parts, check_path, ensure_directory, each_safe, directory,
  parent_and_name, extend, has_type, expected,
}

abbrev pub AllOf : (FileCall → Type 0) → List FileCall → Type 0
AllOf P [] = Unit {0}
AllOf P (c ∷ cs) = P c × AllOf P cs

module _ {W : Type 0} (P : FileCall → Type 0) where
  -- Every call of a run is one of those.
  abbrev pub Only : {A : Type 0} → Io W A → Type 0
  Only m = (s : Disk W) → AllOf P s.calls → AllOf P (m s).1.calls

  pub give-Only : {A : Type 0} (r : Result DropError A) → Only (give r)
  give-Only r s h = h

  pub call-Only :
      {A : Type 0} (c : FileCall) (f : W → W × Result DropError A) → P c → Only (call c f)
  unfolding call
  call-Only c f p s h = (p, h)

  follow-Only :
      {A B : Type 0} (f : A → Io W B) (x : Result DropError A × Disk W)
      → ((a : A) → Only (f a))
      → AllOf P x.1.calls
      → AllOf P (follow f x).1.calls
  follow-Only f (ok a, s) k h = k a s h
  follow-Only f (err e, s) k h = h

  pub >>=-Only :
      {A B : Type 0} (m : Io W A) (f : A → Io W B)
      → Only m
      → ((a : A) → Only (f a))
      → Only (m >>= f)
  >>=-Only m f h k s a = follow-Only f (m s) k (h s a)

  pub >>-Only : {B : Type 0} (m : Io W (Unit {0})) (k : Io W B) → Only m → Only k → Only (m >> k)
  >>-Only m k h l = >>=-Only m (λ u. k) h (λ u. l)

  -- What stands behind a guard may rely on it.
  pub guard-Only :
      {B : Type 0} (b : Bool) (e : DropError) (k : Io W B)
      → (b ≡ true → Only k)
      → Only (guard b e >> k)
  guard-Only true e k h s a = h refl s a
  guard-Only false e k h s a = a

  pub if-Only :
      {A : Type 0} (b : Bool) (x y : Io W A)
      → (b ≡ true → Only x)
      → (b ≡ false → Only y)
      → Only (if b then x else y)
  if-Only true x y h k = h refl
  if-Only false x y h k = k refl

  module _ (files : Service W) (reads_lem : (path : Text) → P (reads path)) where
    pub attributes-Only : (path : Text) → Only (attributes files path)
    attributes-Only path = call-Only (reads path) (files.attributes path) (reads_lem path)

    pub check_parts-Only :
        (current : Text) (ps : List Text) (kind : Text) → Only (check_parts files current ps kind)
    unfolding check_parts
    check_parts-Only current [] kind = give-Only (ok tt)
    check_parts-Only current (p ∷ ps) kind =
        let inner = λ (attrs : Attributes).
          guard (has_type attrs.file_type (expected kind ps)) unexpected_type
          >> check_parts files (extend current p) ps kind in
        guard-Only (safe_component p) invalid_component
          (attributes files (extend current p) >>= inner)
          (λ t.
            >>=-Only (attributes files (extend current p)) inner
              (attributes-Only (extend current p))
              (λ attrs.
                guard-Only (has_type attrs.file_type (expected kind ps)) unexpected_type
                  (check_parts files (extend current p) ps kind)
                  (λ u. check_parts-Only (extend current p) ps kind)))

    pub check_path-Only : (path kind : Text) → Only (check_path files path kind)
    unfolding check_path
    check_path-Only path kind = check_parts-Only [] (parts_of path) kind

  module _ (files : Service W) where
    pub ensure_directory-Only :
        ((path : Text) → P (reads path))
        → ((path : Text) → P (lists path))
        → ((path : Text) → P (makes path))
        → (path : Text) → Only (ensure_directory files path)
    unfolding ensure_directory
    ensure_directory-Only r l m path =
        let (parent, name) = parent_and_name (parts_of path) in
        let inner = λ (names : List Text).
          (if contains names name then give (ok tt) else mkdir files path)
          >> check_path files path directory in
        >>=-Only (list_dir files parent) inner
          (call-Only (lists parent) (files.list parent) (l parent))
          (λ names.
            >>-Only (if contains names name then give (ok tt) else mkdir files path)
              (check_path files path directory)
              (if-Only (contains names name) (give (ok tt)) (mkdir files path)
                (λ t. give-Only (ok tt)) (λ t. call-Only (makes path) (files.mkdir path) (m path)))
              (check_path-Only files r path directory))

  pub each_safe-Only :
      (f : Text → Io W (Unit {0})) (names : List Text)
      → ((name : Text) → safe_component name ≡ true → Only (f name))
      → Only (each_safe f names)
  unfolding each_safe
  each_safe-Only f [] h = give-Only (ok tt)
  each_safe-Only f (name ∷ names) h =
      guard-Only (safe_component name) invalid_entry (f name >> each_safe f names)
        (λ t. >>-Only (f name) (each_safe f names) (h name t) (each_safe-Only f names h))
