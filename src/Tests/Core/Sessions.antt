-- ===== src/Tests/Core/Sessions.antt =====
-- Sessions and parked `adb connect` attempts.
use yard.Prelude.{
  ◌≡◌, ◌≢◌, refl, true, false, none, some, List, [], ◌∷◌, ◌++◌, Text, codes, ok, err, text_eq,
  contains,
}
use yard.Prelude.Dict.{lookup, insert, remove}
use yard.Core.Session.{
  Authorization, Registry, Revocation, new, authorize, check, Call, authorizes, revokes_all, step,
  run, stale_reservation, not_authorized, revoke, revoke_all, revoke_each,
}
use yard.Core.Session.Refinement.{check-run}
use yard.Core.Session.Revocations.{revocations-step-announces, announces}
use yard.Core.AdbAuth
use yard.Core.AdbAuth.{AdbAuthDecision, Event, approves, resolves, abandons, resumes, times_out}
use yard.Core.AdbAuth.Denials.{denied_in}
use yard.Core.AdbAuth.Waiting.{resume_approved, AnsweredIn}

abbrev auth : Text → Authorization
auth r = record { reservation_id = r; user_id = codes "user-1"; adb_keys = [] }

abbrev history : List Call
history =
    authorizes (codes "dev-1") (auth (codes "res-1"))
    ∷ authorizes (codes "dev-1") (auth (codes "res-2"))
    ∷ []

check-run_example : check (codes "dev-1") (codes "res-1") (run new history) ≡ err stale_reservation
unfolding text_eq
check-run_example = check-run (codes "dev-1") (codes "res-1") history

abbrev held : Registry
held = run new (authorizes (codes "dev-1") (auth (codes "res-1")) ∷ [])

held-passes : check (codes "dev-1") (codes "res-1") held ≡ ok tt
unfolding text_eq
held-passes =
    check-run (codes "dev-1") (codes "res-1")
      (authorizes (codes "dev-1") (auth (codes "res-1")) ∷ [])

revoked_answer :
    check (codes "dev-1") (codes "res-1") (step held (revokes_all (codes "reconnected")))
    ≡ err (not_authorized (codes "dev-1"))
unfolding check run new step authorize revoke_all revoke_each revoke lookup insert remove text_eq
revoked_answer = refl

revoked_fails :
    check (codes "dev-1") (codes "res-1") (step held (revokes_all (codes "reconnected"))) ≢ ok tt
revoked_fails passes = cc revoked_answer

revocations-step-announces_example :
    (sent : List Revocation) × ((step held (revokes_all (codes "reconnected"))).revocations
      ≡ held.revocations ++ sent)
    × (announces (codes "dev-1") sent ≡ true)
revocations-step-announces_example =
    revocations-step-announces (codes "dev-1") (codes "res-1") held
      (revokes_all (codes "reconnected")) held-passes revoked_fails

abbrev refusal : AdbAuthDecision
refusal = record { request_id = codes "r1"; allow = false; user_id = none; reason = none }

abbrev approval : AdbAuthDecision
approval = record {
  request_id = codes "r1";
  allow = true;
  user_id = some (codes "user-2");
  reason = none;
}

abbrev asked : AdbAuthDecision → List Event
asked d = approves (codes "r1") (codes "SHA256:k") (codes "key") none ∷ resolves d ∷ []

abbrev refused : List Event
refused = asked refusal ++ resumes (codes "r1") ∷ []

refused_is_denied : denied_in (AdbAuth.new (codes "dev-1")) refused (codes "SHA256:k") ≡ true
unfolding AdbAuth.new AdbAuth.step AdbAuth.approve AdbAuth.resolve AdbAuth.resume AdbAuth.conclude
    AdbAuth.deny lookup insert remove text_eq contains
refused_is_denied = refl

approved_returns :
    (AdbAuth.resume (codes "r1") (AdbAuth.run (AdbAuth.new (codes "dev-1")) (asked approval))).0
    ≡ some (codes "user-2")
unfolding AdbAuth.new AdbAuth.run AdbAuth.step AdbAuth.approve AdbAuth.resolve AdbAuth.resume
    AdbAuth.conclude lookup insert remove text_eq contains
approved_returns = refl

resume_approved_example :
    (d : AdbAuthDecision) × AnsweredIn d (asked approval)
    × (d.request_id ≡ codes "r1")
    × (d.allow ≡ true)
    × (d.user_id ≡ some (codes "user-2"))
resume_approved_example =
    resume_approved (codes "dev-1") (asked approval) (codes "r1") (codes "user-2") approved_returns
