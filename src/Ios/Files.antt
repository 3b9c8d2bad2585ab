-- ===== src/Ios/Files.antt =====
-- packages/provider/crates/backend-ios/src/files.rs: the file service of a device, as calls that
-- change a state `W` and may fail. The calls are logged, the newest first.
use yard.Prelude.{ℕ, Bool, Option, List, ◌∷◌, Text, Bytes, Result, ok, err, if◌then◌else◌}

pub record Attributes : Type 0 where
  pub file_type : Option Text
  pub size : Option ℕ
  -- In milliseconds of the Unix epoch.
  pub modified_at : Option ℕ

pub data FileCall : Type 0 where
  lists reads makes : (path : Text) → FileCall
  removes : (path : Text) → (directory : Bool) → FileCall
  renames : (from to : Text) → FileCall
  writes : (path : Text) → Bytes → FileCall
  pulls : (path destination : Text) → FileCall

pub data DropError : Type 0 where
  service : Text → DropError
  invalid_reservation no_reservation invalid_path foreign_path not_a_batch_file : DropError
  invalid_component unexpected_type invalid_entry too_deep : DropError

pub record Service (W : Type 0) : Type 0 where
  pub list : Text → W → W × Result DropError (List Text)
  pub attributes : Text → W → W × Result DropError Attributes
  pub mkdir : Text → W → W × Result DropError (Unit {0})
  pub remove : Text → Bool → W → W × Result DropError (Unit {0})
  pub rename : Text → Text → W → W × Result DropError (Unit {0})
  pub write_small : Text → Bytes → W → W × Result DropError (Unit {0})
  pub pull : Text → Text → W → W × Result DropError ℕ

pub record Disk (W : Type 0) : Type 0 where
  pub world : W
  pub calls : List FileCall

-- A run of calls, which ends at the first failure.
abbrev pub Io : Type 0 → Type 0 → Type 0
Io W A = Disk W → Result DropError A × Disk W

module _ {W A B : Type 0} where
  abbrev pub follow : (A → Io W B) → Result DropError A × Disk W → Result DropError B × Disk W
  follow f (ok a, s) = f a s
  follow f (err e, s) = (err e, s)

  infixl 5 ◌>>=◌
  abbrev pub ◌>>=◌ : Io W A → (A → Io W B) → Io W B
  ◌>>=◌ m f s = follow f (m s)

module _ {W B : Type 0} where
  infixl 5 ◌>>◌
  abbrev pub ◌>>◌ : Io W (Unit {0}) → Io W B → Io W B
  m >> k = m >>= λ u. k

module _ {W A : Type 0} where
  abbrev pub give : Result DropError A → Io W A
  give r s = (r, s)

  -- A call of the service, with its name in the log.
  unfoldable pub call : FileCall → (W → W × Result DropError A) → Io W A
  call c f s = let (w, r) = f s.world in (r, record { world = w; calls = c ∷ s.calls })

module _ {W : Type 0} where
  abbrev pub guard : Bool → DropError → Io W (Unit {0})
  guard b e = give (if b then ok tt else err e)
