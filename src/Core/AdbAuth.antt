-- ===== src/Core/AdbAuth.antt =====
-- packages/provider/crates/provider-core/src/adb_auth.rs: `adb connect` attempts that wait for the
-- holder's answer. A wait ends by an answer, by the timeout or by `abandon_all`; which one, the
-- environment chooses. Request ids are the caller's, as `Uuid::new_v4` gives them.
pub mod Throttle
pub mod Denials
pub mod Waiting
use yard.Prelude.{
  ℕ, ◌+◌, ◌-◌, ◌≡◌, Bool, true, false, Option, none, some, List, [], ◌∷◌, ◌++◌, Text, text_eq,
  text_key, contains, if◌then◌else◌, ltb,
}
use yard.Prelude.Dict.{lookup, insert, remove}
use yard.Core.Session.{AdbKey, Authorization, Registry, current}

pub record AdbAuthDecision : Type 0 where
  pub request_id : Text
  pub allow : Bool
  pub user_id : Option Text
  pub reason : Option Text

-- What is sent to the coordinator.
pub data ProviderMessage : Type 0 where
  adb_auth_request :
      (device_id request_id fingerprint public_key : Text) (comment : Option Text) → ProviderMessage
  device_activity : (device_id : Text) (at : ℕ) → ProviderMessage

-- At most one activity report in so many milliseconds.
abbrev pub activity_interval : ℕ
activity_interval = 30000

-- `ActivityThrottle::claim`, on the time of the last report. `duration_since` is 0 for a time that
-- lies ahead, as the subtraction is.
unfoldable pub throttle_claim : ℕ → Option ℕ → Bool × Option ℕ
throttle_claim now none = (true, some now)
throttle_claim now (some previous) =
    if ltb (now - previous) activity_interval then (false, some previous) else (true, some now)

-- Which of the three ways a wait ends.
pub data Outcome : Type 0 where
  answered : AdbAuthDecision → Outcome
  dropped : Outcome
  timed_out : Outcome

-- An `approve` that has asked and waits.
pub record Parked : Type 0 where
  pub fingerprint : Text

-- The waiter map and the authority of one device. `answers` holds what was put into the channel of
-- a waiter whose task has not resumed yet.
pub record Authority : Type 0 where
  pub device_id : Text
  pub pending : List (Text × Parked)
  pub answers : List (Text × (Parked × Option AdbAuthDecision))
  pub denied : List Text
  pub last_activity : Option ℕ
  pub sent : List ProviderMessage

unfoldable pub new : Text → Authority
new device = record {
  device_id = device;
  pending = [];
  answers = [];
  denied = [];
  last_activity = none;
  sent = [];
}

abbrev entitled_of : Option Authorization → List AdbKey
entitled_of none = []
entitled_of (some auth) = auth.adb_keys

unfoldable pub entitled_keys : Authority → Registry → List AdbKey
entitled_keys a sessions = entitled_of (current a.device_id sessions)

abbrev pub push_sent : ProviderMessage → Authority → Authority
push_sent m a = record a { sent = a.sent ++ m ∷ [] }

-- `register`, then the question: the listener stands before the message is sent.
abbrev pub ask : Text → Text → Text → Option Text → Authority → Authority
ask request fingerprint key comment a =
    push_sent (adb_auth_request a.device_id request fingerprint key comment)
      (record a { pending = insert request (record { fingerprint = fingerprint }) a.pending })

-- `approve` up to its wait: whether it waits, and the state.
unfoldable pub approve : Text → Text → Text → Option Text → Authority → Bool × Authority
approve request fingerprint key comment a =
    if contains a.denied fingerprint
    then (false, a)
    else (true, ask request fingerprint key comment a)

-- `deny` inserts into a set.
unfoldable pub deny : Text → Authority → Authority
deny fingerprint a =
    if contains a.denied fingerprint then a else record a { denied = fingerprint ∷ a.denied }

-- The tail of `approve`, on what its wait returned: the user on approval.
unfoldable pub conclude : Text → Outcome → Authority → Option Text × Authority
conclude fingerprint (answered d) a = if d.allow then (d.user_id, a) else (none, deny fingerprint a)
conclude fingerprint dropped a = (none, a)
conclude fingerprint timed_out a = (none, a)

unfoldable pub note_activity : ℕ → ℕ → Authority → Authority
unfolding throttle_claim
note_activity now at a =
    let (fresh, last) = throttle_claim now a.last_activity in
    if fresh
    then push_sent (device_activity a.device_id at) (record a { last_activity = last })
    else a

-- `resolve`: the waiter's channel gets the decision, and its entry goes. A decision that nobody
-- waits for is dropped.
abbrev hand_over : AdbAuthDecision → Option Parked → Authority → Authority
hand_over d none a = a
hand_over d (some p) a = record a {
  pending = remove d.request_id a.pending;
  answers = insert d.request_id (p, some d) a.answers;
}

unfoldable pub resolve : AdbAuthDecision → Authority → Authority
resolve d a = hand_over d (lookup d.request_id a.pending) a

abbrev pub all_dropped : List (Text × Parked) → List (Text × (Parked × Option AdbAuthDecision))
all_dropped [] = []
all_dropped ((id, p) ∷ ps) = (id, (p, none)) ∷ all_dropped ps

-- `abandon_all`: the channels are dropped, so that every waiter sees them closed.
unfoldable pub abandon_all : Authority → Authority
abandon_all a = record a { pending = []; answers = all_dropped a.pending ++ a.answers }

abbrev pub outcome_of : Option AdbAuthDecision → Outcome
outcome_of none = dropped
outcome_of (some d) = answered d

abbrev resume_with :
    Text → Option (Parked × Option AdbAuthDecision) → Authority → Option Text × Authority
resume_with request none a = (none, a)
resume_with request (some (p, o)) a =
    conclude p.fingerprint (outcome_of o)
      (record a { pending = remove request a.pending; answers = remove request a.answers })

-- The waiting task runs on, its channel answered or closed: `wait_on` and the tail of `approve`.
unfoldable pub resume : Text → Authority → Option Text × Authority
resume request a = resume_with request (lookup request a.answers) a

abbrev time_out_with : Text → Option Parked → Authority → Option Text × Authority
time_out_with request none a = (none, a)
time_out_with request (some p) a =
    conclude p.fingerprint timed_out (record a { pending = remove request a.pending })

-- The timeout strikes a waiter whose channel has nothing yet.
unfoldable pub time_out : Text → Authority → Option Text × Authority
time_out request a = time_out_with request (lookup request a.pending) a

-- What happens to an authority, in any order.
pub data Event : Type 0 where
  approves : (request fingerprint key : Text) (comment : Option Text) → Event
  resolves : AdbAuthDecision → Event
  abandons : Event
  resumes : Text → Event
  times_out : Text → Event
  notes_activity : (now at : ℕ) → Event

unfoldable pub step : Authority → Event → Authority
step a (approves r f k c) = (approve r f k c a).1
step a (resolves d) = resolve d a
step a abandons = abandon_all a
step a (resumes r) = (resume r a).1
step a (times_out r) = (time_out r a).1
step a (notes_activity now at) = note_activity now at a

unfoldable pub run : Authority → List Event → Authority
run a [] = a
run a (e ∷ es) = run (step a e) es
