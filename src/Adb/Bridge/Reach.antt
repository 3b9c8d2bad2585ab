-- ===== src/Adb/Bridge/Reach.antt =====
-- The sessions that events lead to.
use yard.Prelude.{ℕ, ◌≡◌, subst, Option, none, some, Option-cases, inl, inr, List, [], ◌∷◌}
use yard.Adb.Bridge.{Session, Event, start, step}

-- `Reach m es s`: the events `es`, the newest first, lead a client with limit `m` to `s`.
pub data Reach (m : ℕ) : List Event → Session → Type 0 where
  begin : Reach m [] (start m)
  later :
      {es : List Event} {s t : Session} (e : Event)
      → Reach m es s
      → step s e ≡ some t
      → Reach m (e ∷ es) t

abbrev AtEnd : ℕ → List Event → Option Session → Type 0
AtEnd m es none = Unit {0}
AtEnd m es (some s) = Reach m es s

-- The events in their order from the last of the list, where each can happen.
unfoldable pub run : ℕ → List Event → Option Session
run m [] = some (start m)
run m (e ∷ es) = elim (run m es) [ none ↦ none | some s ↦ step s e ]

at_end : (m : ℕ) (es : List Event) → AtEnd m es (run m es)
unfolding run
at_end m [] = begin
at_end m (e ∷ es) = elim (Option-cases (run m es)) [
  | inl q ↦ rw (q, run) tt
  | inr (t, q) ↦
      let r : Reach m es t = subst (AtEnd m es) q (at_end m es) in
      rw (q, run)
        (elim (Option-cases (step t e)) [ inl i ↦ rw i tt | inr (u, i) ↦ rw i (later e r i) ])
]

pub Reach-run : {m : ℕ} (es : List Event) (s : Session) → run m es ≡ some s → Reach m es s
Reach-run {m} es s h = subst (AtEnd m es) h (at_end m es)
