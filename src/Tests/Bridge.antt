-- ===== src/Tests/Bridge.antt =====
-- A short session: a shell that speaks, a refused root, an acknowledgement.
use yard.Prelude.{
  ℕ, ◌+◌, ◌≤◌, ◌≡◌, refl, true, Option, none, some, List, [], ◌∷◌, codes, text_eq, arith, map,
}
use yard.Prelude.Dict.{lookup, insert}
use yard.Adb.Bridge.{
  Session, Event, opens, okays, pumps, reads, forwards, start, step, on_open, refused, refuse,
  open_stream, on_okay, pump, turn,
}
use yard.Adb.Bridge.Reach.{Reach, run, Reach-run}
use yard.Adb.Bridge.Views.{wrtes, okays_for, Announced}
use yard.Adb.Bridge.Credit.{wrtes-Reach, Announced-Reach}

-- The newest first.
abbrev events : List Event
events =
    pumps 1 (forwards true)
    ∷ okays 1
    ∷ pumps 1 (reads (66 ∷ []))
    ∷ opens 9 (codes "root:") true true
    ∷ pumps 1 (forwards true)
    ∷ pumps 1 (reads (65 ∷ []))
    ∷ opens 7 (codes "shell:ls") true true
    ∷ []

abbrev or_start : Option Session → Session
or_start none = start 4096
or_start (some s) = s

abbrev final : Session
final = or_start (run 4096 events)

final-run : run 4096 events ≡ some final
unfolding run step on_open refused text_eq refuse open_stream start pump turn on_okay lookup insert
final-run = refl

final-Reach : Reach 4096 events final
final-Reach = Reach-run events final final-run

words :
    map {B = ℕ × ℕ} (λ m. (m.arg0, m.arg1)) final.sent
    ≡ (1, 7) ∷ (2, 9) ∷ (2, 9) ∷ (2, 9) ∷ (1, 7) ∷ (1, 7) ∷ []
unfolding run step on_open refused text_eq refuse open_stream start pump turn on_okay lookup insert
words = refl

-- Without the acknowledgement the second write has to wait.
no_credit :
    run 4096 (
      pumps 1 (forwards true)
      ∷ pumps 1 (reads (66 ∷ []))
      ∷ pumps 1 (forwards true)
      ∷ pumps 1 (reads (65 ∷ []))
      ∷ opens 7 (codes "shell:ls") true true
      ∷ [])
    ≡ none
unfolding run step on_open refused text_eq open_stream start pump turn lookup insert
no_credit = refl

wrtes-Reach_example : wrtes 1 final.sent ≤ 1 + okays_for 1 events
wrtes-Reach_example = wrtes-Reach 1 (omega arith) final-Reach

Announced-Reach_example : Announced final.sent
Announced-Reach_example = Announced-Reach (omega arith) final-Reach
