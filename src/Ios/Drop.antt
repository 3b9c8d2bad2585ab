-- ===== src/Ios/Drop.antt =====
-- packages/provider/crates/backend-ios/src/drop.rs: the inbox that a reservation's files are dropped
-- in, over the device's file service. The clocks, the uuid of a temporary file, the uuid library's
-- parser and the lease's JSON are arguments.
pub mod Calls
pub mod Spares
pub mod Confined
use yard.Prelude.{
  ℕ, zero, suc, ◌+◌, ◌-◌, ◌*◌, Bool, true, false, not, ◌&&◌, ◌||◌, ltb, leb, ◌==◌, Option, none,
  some, is_some, List, [], ◌∷◌, ◌++◌, if◌then◌else◌, Text, Bytes, text_eq, text_key, codes,
  contains, is_empty, length, Result, ok, err,
}
use yard.Ios.Files.{
  Attributes, FileCall, lists, reads, makes, removes, renames, writes, pulls, DropError,
  invalid_reservation, no_reservation, not_a_batch_file, invalid_component, unexpected_type,
  invalid_entry, too_deep, Service, Disk, Io, ◌>>=◌, ◌>>◌, give, call, guard,
}
use yard.Ios.Paths.{incoming, drop_root, safe_component, parts_of, below, resolve}

abbrev pub root : Text
root = codes "Library/Caches/YARD Drop"

abbrev pub lease : Text
lease = codes "Library/Caches/YARD Drop/active-capture.json"

abbrev pub marker : Text
marker = codes "_YARD_READY"

pub record Inbox : Type 0 where
  pub reservation : Option Text
  -- In seconds.
  pub refreshed : Option ℕ
  pub synced : Bool

abbrev pub new : Inbox
new = record { reservation = none; refreshed = none; synced = true }

abbrev pub option_eq : Option Text → Option Text → Bool
option_eq none none = true
option_eq (some a) (some b) = text_eq a b
option_eq a b = false

abbrev pub is_valid : (Text → Bool) → Option Text → Bool
is_valid is_uuid none = true
is_valid is_uuid (some id) = is_uuid id

-- Whether the reservation is another one, and the inbox.
unfoldable pub select : (Text → Bool) → Option Text → Inbox → Result DropError (Bool × Inbox)
select is_uuid reservation inbox =
    if not (is_valid is_uuid reservation)
    then err invalid_reservation
    else if option_eq inbox.reservation reservation
    then ok (false, inbox)
    else ok (true, record { reservation = reservation; refreshed = none; synced = false })

abbrev pub is_stale : ℕ → Option ℕ → Bool
is_stale now none = true
is_stale now (some t) = leb 30 (now - t)

unfoldable pub should_refresh : ℕ → Inbox → Bool
should_refresh now inbox = not inbox.synced || is_stale now inbox.refreshed

-- A listed file or batch.
pub record FileEntry : Type 0 where
  pub name : Text
  pub path : Text
  pub is_directory : Bool
  pub size : Option ℕ
  pub modified_at : Option ℕ

pub record FileListing : Type 0 where
  pub path : Text
  pub parent : Option Text
  pub entries : List FileEntry

abbrev pub has_type : Option Text → Text → Bool
has_type none t = false
has_type (some s) t = text_eq s t

-- `rsplit_once('/')`, or the whole below `.`.
abbrev pub parent_and_name : List Text → Text × Text
parent_and_name [] = (codes ".", [])
parent_and_name (p ∷ []) = (codes ".", p)
parent_and_name (p ∷ q ∷ []) = (p, q)
parent_and_name (p ∷ q ∷ ps) =
    let (parent, name) = parent_and_name (q ∷ ps) in (below p parent, name)

abbrev pub directory : Text
directory = codes "directory"

abbrev pub extend : Text → Text → Text
extend [] part = part
extend (c ∷ cs) part = below (c ∷ cs) part

-- What a part must be, by the parts behind it.
abbrev pub expected : Text → List Text → Text
expected final_kind [] = final_kind
expected final_kind (p ∷ ps) = directory

abbrev pub max_levels : ℕ
max_levels = 9

abbrev pub temporary_lease : Text → Text
temporary_lease fresh = below root (codes "lease-" ++ (fresh ++ codes ".tmp"))

module _ {W : Type 0} where
  -- A loop over a directory's names, each of which is checked when its turn comes.
  unfoldable pub each_safe : (Text → Io W (Unit {0})) → List Text → Io W (Unit {0})
  each_safe f [] = give (ok tt)
  each_safe f (name ∷ names) =
      guard (safe_component name) invalid_entry >> (f name >> each_safe f names)

  abbrev pub settled :
      ℕ
      → Inbox
      → Result DropError (Unit {0}) × Disk W
      → Result DropError (Unit {0}) × Inbox × Disk W
  settled now inbox (ok u, s) = (ok tt, record inbox { synced = true; refreshed = some now }, s)
  settled now inbox (err e, s) = (err e, inbox, s)

module _ {W : Type 0} (files : Service W) where
  abbrev pub list_dir : Text → Io W (List Text)
  list_dir path = call (lists path) (files.list path)

  abbrev pub attributes : Text → Io W Attributes
  attributes path = call (reads path) (files.attributes path)

  abbrev pub mkdir : Text → Io W (Unit {0})
  mkdir path = call (makes path) (files.mkdir path)

  abbrev pub remove : Text → Bool → Io W (Unit {0})
  remove path is_directory = call (removes path is_directory) (files.remove path is_directory)

  -- The loop of `check_path`, from the path so far.
  unfoldable pub check_parts : Text → List Text → Text → Io W (Unit {0})
  check_parts current [] final_kind = give (ok tt)
  check_parts current (p ∷ ps) final_kind =
      guard (safe_component p) invalid_component
      >> (attributes (extend current p) >>= λ attrs.
          guard (has_type attrs.file_type (expected final_kind ps)) unexpected_type
          >> check_parts (extend current p) ps final_kind)

  unfoldable pub check_path : Text → Text → Io W (Unit {0})
  check_path path final_kind = check_parts [] (parts_of path) final_kind

  unfoldable pub ensure_directory : Text → Io W (Unit {0})
  ensure_directory path =
      let (parent, name) = parent_and_name (parts_of path) in
      list_dir parent >>= λ names.
      (if contains names name then give (ok tt) else mkdir path) >> check_path path directory

  -- `remove_tree`, with the levels that are left: nine from depth 0 on.
  unfoldable pub remove_tree : ℕ → Text → Io W (Unit {0})
  remove_tree zero path = give (err too_deep)
  remove_tree (suc n) path =
      let inner = λ (name : Text). remove_tree n (below path name) in
      attributes path >>= λ attrs.
      if has_type attrs.file_type directory
      then (list_dir path >>= λ names. each_safe inner names >> remove path true)
      else remove path false

  -- Another reservation's files go.
  abbrev pub purge_entry : Option Text → Text → Io W (Unit {0})
  purge_entry reservation name =
      if option_eq (some name) reservation
      then give (ok tt)
      else remove_tree max_levels (below incoming name)

  unfoldable pub purge : Option Text → Io W (Unit {0})
  purge reservation = list_dir root >>= λ names.
      (if contains names (codes "active-capture.json") then remove lease false else give (ok tt))
      >> (list_dir incoming >>= λ entries. each_safe (purge_entry reservation) entries)

  unfoldable pub write_lease : (Text → ℕ → Bytes) → ℕ → Text → Option Text → Io W (Unit {0})
  write_lease json now_ms fresh none = give (ok tt)
  write_lease json now_ms fresh (some id) =
      let bytes = json id (now_ms + 120000) in
      ensure_directory (below incoming id)
      >> (call (writes (temporary_lease fresh) bytes)
            (files.write_small (temporary_lease fresh) bytes)
          >> call (renames (temporary_lease fresh) lease)
              (files.rename (temporary_lease fresh) lease))

  unfoldable pub sync : (Text → ℕ → Bytes) → ℕ → Text → Bool → Option Text → Io W (Unit {0})
  sync json now_ms fresh synced reservation =
      ensure_directory (codes "Library")
      >> (ensure_directory (codes "Library/Caches")
          >> (ensure_directory root
              >> (ensure_directory incoming
                  >> ((if synced then give (ok tt) else purge reservation)
                      >> write_lease json now_ms fresh reservation))))

  abbrev pub selected :
      (Text → ℕ → Bytes)
      → (now now_ms : ℕ) → Text
      → Option Text
      → Inbox
      → Result DropError (Bool × Inbox)
      → Disk W
      → Result DropError (Unit {0}) × Inbox × Disk W
  selected json now now_ms fresh reservation old (err e) s = (err e, old, s)
  selected json now now_ms fresh reservation old (ok (changed, inbox)) s =
      if inbox.synced && not (is_stale now inbox.refreshed)
      then (ok tt, inbox, s)
      else settled now inbox (sync json now_ms fresh inbox.synced reservation s)

  unfoldable pub bind :
      (Text → Bool)
      → (Text → ℕ → Bytes)
      → (now now_ms : ℕ) → Text
      → Option Text
      → Inbox
      → Disk W
      → Result DropError (Unit {0}) × Inbox × Disk W
  bind is_uuid json now now_ms fresh reservation inbox s =
      selected json now now_ms fresh reservation inbox (select is_uuid reservation inbox) s

  -- The entry of a name, if it is listed: a finished batch at the root, a plain file in a batch.
  unfoldable pub entry_of :
      (at_root : Bool) → (id path inner name : Text) → Attributes → Io W (Option FileEntry)
  entry_of true id path inner name attrs =
      if has_type attrs.file_type directory
      then (list_dir (below inner name) >>= λ names. give (
          ok (
            if contains names marker
            then some (record {
              name = name;
              path = below (drop_root ++ id) name;
              is_directory = true;
              size = none;
              modified_at = attrs.modified_at;
            })
            else none)))
      else give (ok none)
  entry_of false id path inner name attrs = give (
      ok (
        if has_type attrs.file_type (codes "regular")
        then some (record {
          name = name;
          path = below path name;
          is_directory = false;
          size = attrs.size;
          modified_at = attrs.modified_at;
        })
        else none))

  abbrev pub with_entry : Option FileEntry → List FileEntry → List FileEntry
  with_entry none es = es
  with_entry (some e) es = e ∷ es

  unfoldable pub entries_of :
      (Text → Bool) → Bool → (id path inner : Text) → List Text → Io W (List FileEntry)
  entries_of is_uuid at_root id path inner [] = give (ok [])
  entries_of is_uuid at_root id path inner (name ∷ names) =
      let rest = entries_of is_uuid at_root id path inner names in
      if not (safe_component name) || (at_root && not (is_uuid name))
      then rest
      else (attributes (below inner name) >>= λ attrs.
          entry_of at_root id path inner name attrs >>= λ e.
          rest >>= λ es. give (ok (with_entry e es)))

  abbrev pub list_at : (Text → Bool) → Text → Text → Result DropError Text → Io W FileListing
  list_at is_uuid id path (err e) = give (err e)
  list_at is_uuid id path (ok inner) =
      let at_root = text_eq path drop_root in
      check_path inner directory
      >> (list_dir inner >>= λ names. entries_of is_uuid at_root id path inner names >>= λ es.
          give (
            ok (record {
              path = path;
              parent = if at_root then none else some drop_root;
              entries = es;
            })))

  unfoldable pub list : (Text → Bool) → Inbox → Text → Io W FileListing
  list is_uuid inbox path = elim inbox.reservation [
    | none ↦ give (err no_reservation)
    | some id ↦ list_at is_uuid id path (resolve is_uuid path id)
  ]

  abbrev pub pull_at : Text → Text → Result DropError Text → Io W ℕ
  pull_at path destination (err e) = give (err e)
  pull_at path destination (ok inner) =
      guard (length (parts_of path) == 4) not_a_batch_file
      >> (check_path inner (codes "regular")
          >> call (pulls inner destination) (files.pull inner destination))

  unfoldable pub pull : (Text → Bool) → Inbox → Text → Text → Io W ℕ
  pull is_uuid inbox path destination = elim inbox.reservation [
    | none ↦ give (err no_reservation)
    | some id ↦ pull_at path destination (resolve is_uuid path id)
  ]
