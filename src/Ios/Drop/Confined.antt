-- ===== src/Ios/Drop/Confined.antt =====
-- What a viewer's paths reach on the device.
use yard.Prelude.{
  ℕ, ◌≡◌, refl, sym, ap, subst, ◌∙◌, Bool, true, ◌&&◌, ◌==◌, Bool-cases, Option-cases, inl, inr,
  Option, some, List, [], ◌∷◌, ◌++◌, Text, text_eq, text_eq_iff, codes, length, Result, ok, err,
  arith,
}
use yard.Core.Cleanup.Filter.{strip_prefix}
use yard.Ios.Files.{FileCall, reads, pulls, DropError, not_a_batch_file, Service, ◌>>◌, call}
use yard.Ios.Paths.{
  incoming, drop_root, safe_component, split, parts_of, below, resolve_parts, resolve,
}
use yard.Ios.Drop.{Inbox, check_path, pull_at, pull}
use yard.Ios.Drop.Calls.{AllOf, Only, give-Only, call-Only, >>-Only, guard-Only, check_path-Only}

-- A file of a batch of the reservation, where the path says so.
abbrev pub IsFile : (Text → Bool) → Text → Text → Text → Type 0
IsFile is_uuid id path inner =
    (batch : Text) × (name : Text) × (path ≡ drop_root ++ below id (below batch name))
    × (inner ≡ below (below (below incoming id) batch) name)
    × (is_uuid batch ≡ true)
    × (safe_component id ≡ true)
    × (safe_component batch ≡ true)
    × (safe_component name ≡ true)

strip_prefix_lem : (p s rest : Text) → strip_prefix p s ≡ some rest → s ≡ p ++ rest
unfolding strip_prefix
strip_prefix_lem [] s rest h = ground (arith, h)
strip_prefix_lem (c ∷ p) [] rest h = ground (arith, h)
strip_prefix_lem (c ∷ p) (d ∷ s) rest h = ground (arith, strip_prefix_lem p s rest)

-- The parts, put together again.
abbrev join : List Text → Text
join [] = []
join (p ∷ []) = p
join (p ∷ q ∷ ps) = below p (join (q ∷ ps))

join_head : (c : ℕ) (s : Text) (ss : List Text) → join ((c ∷ s) ∷ ss) ≡ c ∷ join (s ∷ ss)
join_head c s [] = refl
join_head c s (t ∷ ts) = refl

join-parts_of : (path : Text) → join (parts_of path) ≡ path
unfolding split
join-parts_of [] = refl
join-parts_of (c ∷ cs) = elim (Bool-cases (c == 47)) [
  | inl q ↦
      let e : 47 ≡ c = ground (arith, q) in
      rw q (ap (λ x. 47 ∷ x) (join-parts_of cs) ∙ ap (λ x. x ∷ cs) e)
  | inr q ↦ rw q (join_head c (split cs).0 (split cs).1 ∙ ap (λ x. c ∷ x) (join-parts_of cs))
]

ok_lem : {a b : Text} → ◌≡◌ {A = Result DropError Text} (ok a) (ok b) → a ≡ b
ok_lem {a} {b} h = ground arith

three-IsFile :
    (is_uuid : Text → Bool) (id a b c inner : Text)
    → (text_eq a id && is_uuid b && (safe_component a && (safe_component b && safe_component c)))
      ≡ true
    → below (below (below incoming a) b) c ≡ inner
    → IsFile is_uuid id (drop_root ++ below a (below b c)) inner
three-IsFile is_uuid id a b c inner t e =
    let same : a ≡ id = (text_eq_iff a id).0 (ground (arith, t)) in
    subst (λ x. IsFile is_uuid x (drop_root ++ below a (below b c)) inner) same
      (
        b,
        c,
        refl,
        sym e,
        ground (arith, t),
        ground (arith, t),
        ground (arith, t),
        ground (arith, t),
      )

-- Where three parts stand behind the prefix, they are a file's.
resolve_parts-IsFile :
    (is_uuid : Text → Bool) (id : Text) (ps : List Text) (inner : Text)
    → length ps ≡ 3
    → resolve_parts is_uuid id ps ≡ ok inner
    → IsFile is_uuid id (drop_root ++ join ps) inner
unfolding resolve_parts
resolve_parts-IsFile is_uuid id [] inner l h = ground arith
resolve_parts-IsFile is_uuid id (a ∷ []) inner l h = ground arith
resolve_parts-IsFile is_uuid id (a ∷ b ∷ []) inner l h = ground arith
resolve_parts-IsFile is_uuid id (a ∷ b ∷ c ∷ d ∷ ps) inner l h = ground arith
resolve_parts-IsFile is_uuid id (a ∷ b ∷ c ∷ []) inner l h =
    elim (Bool-cases
      (text_eq a id && is_uuid b && (safe_component a && (safe_component b && safe_component c)))) [
        | inl q ↦ three-IsFile is_uuid id a b c inner q (ok_lem (rw (q, resolve_parts) at h))
        | inr q ↦ let r = rw (q, resolve_parts) at h in ground arith
      ]

resolve-IsFile :
    (is_uuid : Text → Bool) (path id inner : Text)
    → resolve is_uuid path id ≡ ok inner
    → (length (parts_of path) == 4) ≡ true
    → IsFile is_uuid id path inner
unfolding resolve split
resolve-IsFile is_uuid path id inner h l = elim (Bool-cases (text_eq path drop_root)) [
  | inl q ↦
      let e : path ≡ drop_root = (text_eq_iff path drop_root).0 q in
      let k : (length (parts_of drop_root) == 4) ≡ true =
        subst (λ x. (length (parts_of x) == 4) ≡ true) e l in
      ground arith
  | inr q ↦ elim (Option-cases (strip_prefix drop_root path)) [
    | inl n ↦ let r = rw (q, n, resolve) at h in ground arith
    | inr (rest, n) ↦
        let e : path ≡ drop_root ++ rest = strip_prefix_lem drop_root path rest n in
        let r = rw (q, n, resolve) at h in
        let k : (length (parts_of (drop_root ++ rest)) == 4) ≡ true =
          subst (λ x. (length (parts_of x) == 4) ≡ true) e l in
        subst (λ x. IsFile is_uuid id x inner)
          (ap (λ x. drop_root ++ x) (join-parts_of rest) ∙ sym e)
          (resolve_parts-IsFile is_uuid id (parts_of rest) inner (ground arith) r)
  ]
]

-- What a pull may do: read attributes, and take a file of the reservation to where it is wanted.
abbrev pub Takes : (Text → Bool) → Option Text → Text → Text → FileCall → Type 0
Takes is_uuid reservation path destination (reads p) = Unit {0}
Takes is_uuid reservation path destination (pulls p d) =
    (id : Text) × (reservation ≡ some id) × (d ≡ destination) × IsFile is_uuid id path p
Takes is_uuid reservation path destination c = ⊥

module _ {W : Type 0} (files : Service W) (is_uuid : Text → Bool) where
  pull_at-Takes :
      (o : Option Text) (id path destination : Text) (r : Result DropError Text)
      → o ≡ some id
      → resolve is_uuid path id ≡ r
      → Only (Takes is_uuid o path destination) (pull_at files path destination r)
  pull_at-Takes o id path destination (err e) q h =
      give-Only {W = W} (Takes is_uuid o path destination) {A = ℕ} (err e)
  pull_at-Takes o id path destination (ok inner) q h =
      let P = Takes is_uuid o path destination in
      let take = call (pulls inner destination) (files.pull inner destination) in
      let checked = check_path files inner (codes "regular") in
      guard-Only P (length (parts_of path) == 4) not_a_batch_file (checked >> take) (λ l.
        >>-Only P checked take (check_path-Only P files (λ p. tt) inner (codes "regular")) (
          call-Only P (pulls inner destination) (files.pull inner destination)
            (id, q, refl, resolve-IsFile is_uuid path id inner h l)))

  -- A pull from the inbox, with a service that answers whatever it does, makes no call but to read
  -- attributes and to copy one file, where the inbox has a reservation, to the destination: that file
  -- lies directly in a directory named by a uuid, directly in the reservation's directory, all with
  -- safe names, and it is the one that the path names.
  pub pull-Takes :
      (inbox : Inbox) (path destination : Text) (w : W)
      → AllOf
          (Takes is_uuid inbox.reservation path destination)
          (pull files is_uuid inbox path destination (record { world = w; calls = [] })).1.calls
  unfolding pull
  pull-Takes inbox path destination w = elim (Option-cases (inbox.reservation)) [
    | inl q ↦ rw (q, pull) tt
    | inr (id, q) ↦
        rw (q, pull)
          (pull_at-Takes (some id) id path destination (resolve is_uuid path id) refl refl
            (record { world = w; calls = [] }) tt)
  ]
