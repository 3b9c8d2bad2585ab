-- ===== src/Adb/Bridge.antt =====
-- packages/provider/crates/adb-bridge/src/bridge.rs: the streams of one authenticated client. The
-- tasks interleave, so a session is a machine that an event moves on: a message of the client, or
-- one turn of a stream's pump with what the device and the socket answered it. An event that cannot
-- happen now gives `none`. The writer's lock makes each write one event.
pub mod Reach
pub mod Views
pub mod Spends
pub mod Moves
pub mod Credit
use yard.Prelude.{
  ℕ, zero, suc, ◌+◌, ◌%◌, Bool, true, false, ◌&&◌, Option, none, some, List, [], ◌∷◌, ◌++◌, ◌==◌,
  ltb, leb, if◌then◌else◌, Bytes, Text, codes, text_eq, length, find, nat_key, is_empty, map,
}
use yard.Prelude.Words.{u32_mod}
use yard.Prelude.Dict.{lookup, insert, remove}
use yard.Adb.Message.{Message, okay, wrte, clse, empty, new}

-- What a pump is at: its `select!`, the permit for what it has read, the farewell, nothing more.
pub data Phase : Type 0 where
  waiting : Phase
  holding : Bytes → Phase
  closing finished : Phase

-- A stream with its pump. `listed` is whether the table still has its handle: the sender, the
-- semaphore and the way to abort the task.
pub record Stream : Type 0 where
  pub remote : ℕ
  pub queue : List Bytes
  pub permits : ℕ
  pub phase : Phase
  pub listed : Bool

-- `sent` is what went to the client, the newest first; `asked` the services that the device was
-- asked for, and `activities` how often somebody was seen to drive it.
pub record Session : Type 0 where
  pub streams : List (ℕ × Stream)
  pub next_id : ℕ
  pub max_payload : ℕ
  pub sent : List Message
  pub asked : List Text
  pub activities : ℕ

unfoldable pub start : ℕ → Session
start max_payload = record {
  streams = [];
  next_id = 1;
  max_payload = max_payload;
  sent = [];
  asked = [];
  activities = 0;
}

abbrev pub refused_services : List Text
refused_services = codes "root" ∷ codes "unroot" ∷ codes "remount" ∷ []

-- `split(':').next()`.
abbrev pub service_name : Text → Text
service_name [] = []
service_name (c ∷ cs) = if c == 58 then [] else c ∷ service_name cs

unfoldable pub refused : Text → Option Text
refused service = find (λ r. text_eq r (service_name service)) refused_services

abbrev pub refusal : Text → Bytes
refusal name =
    codes "adb "
    ++ (name
        ++ codes
            " is not available on a farm device: it changes the device for whoever has it next.\n")

-- `next_id.fetch_add(1)`.
abbrev pub take_id : Session → Session
take_id s = record s { next_id = (s.next_id + 1) % u32_mod }

-- A message that the socket took, or did not.
abbrev pub send : Bool → Message → Session → Session
send true m s = record s { sent = m ∷ s.sent }
send false m s = s

abbrev pub put : ℕ → Stream → Session → Session
put local t s = record s { streams = insert local t s.streams }

abbrev pub active : Session → Session
active s = record s { activities = s.activities + 1 }

-- `Session::refuse`. The three messages are of a stream that nobody else writes to; the socket takes
-- all of them or, broken at the first, none.
unfoldable pub refuse : Bool → ℕ → Bytes → Session → Session
refuse w remote message s =
    send w (empty clse s.next_id remote) (
      send w (new wrte s.next_id remote message) (send w (empty okay s.next_id remote) (take_id s)))

abbrev pub opened : ℕ → Stream
opened remote = record { remote = remote; queue = []; permits = 1; phase = waiting; listed = true }

-- The device has been asked; `opens` is its answer, `w` whether the socket takes what is written.
unfoldable pub open_stream : Bool → Bool → ℕ → Session → Session
open_stream opens w remote s =
    if opens
    then if w
      then put s.next_id (opened remote) (send w (empty okay s.next_id remote) (take_id s))
      else take_id s
    else send w (empty clse 0 remote) (take_id s)

unfoldable pub on_open : ℕ → Text → Bool → Bool → Session → Session
on_open remote service opens w s = elim (refused service) [
  | some name ↦ refuse w remote (refusal name) (active s)
  | none ↦ open_stream opens w remote (record (active s) { asked = service ∷ s.asked })
]

abbrev pub is_finished : Phase → Bool
is_finished finished = true
is_finished _ = false

-- The handle leaves the table and the task is aborted: it may get further until that takes hold.
abbrev pub unlist : ℕ → Stream → Session → Session
unlist local t s = put local (record t { listed = false }) s

unfoldable pub on_close : ℕ → Session → Session
on_close local s = elim (lookup local s.streams) [
  | none ↦ s
  | some t ↦ if t.listed then unlist local t s else s
]

-- A full channel of eight makes the reader wait; a pump that is gone closes the stream.
abbrev pub enqueue : ℕ → Stream → Bytes → Session → Option Session
enqueue local t payload s =
    if is_finished t.phase
    then some (unlist local t s)
    else if ltb (length t.queue) 8
    then some (put local (record t { queue = t.queue ++ payload ∷ [] }) s)
    else none

unfoldable pub on_write : ℕ → Bytes → Session → Option Session
on_write local payload s = elim (lookup local s.streams) [
  | none ↦ some (active s)
  | some t ↦ if t.listed then enqueue local t payload (active s) else some (active s)
]

unfoldable pub on_okay : ℕ → Session → Session
on_okay local s = elim (lookup local s.streams) [
  | none ↦ s
  | some t ↦ if t.listed then put local (record t { permits = t.permits + 1 }) s else s
]

abbrev pub unlist_all : List (ℕ × Stream) → List (ℕ × Stream)
unlist_all [] = []
unlist_all ((l, t) ∷ ts) = (l, record t { listed = false }) ∷ unlist_all ts

unfoldable pub close_all : Session → Session
close_all s = record s { streams = unlist_all s.streams }

-- The pump's turn for a payload of the client: the device takes it or not, and the socket the
-- acknowledgement. With the sender gone and nothing left the pump ends.
abbrev pub receive : ℕ → Stream → Bool → Bool → Session → Option Session
receive local t device w s = elim t.queue [
  | [] ↦ if t.listed then none else some (put local (record t { phase = closing }) s)
  | d ∷ ds ↦
      if device
      then some (
          put local (record t { queue = ds; phase = if w then waiting else closing })
            (send w (empty okay local t.remote) s))
      else some (put local (record t { queue = ds; phase = closing }) s)
]

-- The pump's turn for what the device says: up to `max_payload` bytes, none at the end or an error.
abbrev pub read_device : ℕ → Stream → Bytes → Session → Option Session
read_device local t chunk s =
    if is_empty chunk
    then some (put local (record t { phase = closing }) s)
    else if leb (length chunk) s.max_payload
    then some (put local (record t { phase = holding chunk }) s)
    else none

-- The permit is taken before the write.
abbrev pub forward : ℕ → Stream → Bytes → Bool → Session → Option Session
forward local t chunk w s = elim t.permits [
  | zero ↦ none
  | suc p ↦ some (
      put local (record t { permits = p; phase = if w then waiting else closing })
        (send w (new wrte local t.remote chunk) s))
]

-- What a pump's turn is about.
pub data Turn : Type 0 where
  receives : (device w : Bool) → Turn
  reads : Bytes → Turn
  forwards : (w : Bool) → Turn
  leaves : (w : Bool) → Turn
  is_aborted : Turn

abbrev pub drop_stream : ℕ → Session → Session
drop_stream local s = record s { streams = remove local s.streams }

abbrev pub abort : ℕ → Stream → Session → Option Session
abort local t s = if t.listed then none else some (drop_stream local s)

-- `pump`, one turn of it in each phase.
unfoldable pub turn : ℕ → Stream → Phase → Turn → Session → Option Session
turn local t waiting (receives device w) s = receive local t device w s
turn local t waiting (reads chunk) s = read_device local t chunk s
turn local t (holding chunk) (forwards w) s = forward local t chunk w s
turn local t closing (leaves w) s =
    some (put local (record t { phase = finished }) (send w (empty clse local t.remote) s))
turn local t phase is_aborted s = abort local t s
turn local t phase _ s = none

unfoldable pub pump : ℕ → Turn → Session → Option Session
pump local k s = elim (lookup local s.streams) [ none ↦ none | some t ↦ turn local t t.phase k s ]

-- The frames that the client's loop answers, the end of the client, and the pumps' turns.
pub data Event : Type 0 where
  opens : (remote : ℕ) → Text → (device w : Bool) → Event
  writes : (local : ℕ) → Bytes → Event
  okays closes : (local : ℕ) → Event
  ignored hangs_up : Event
  pumps : (local : ℕ) → Turn → Event

-- `run`, one frame of it, and `close_all` behind it.
unfoldable pub step : Session → Event → Option Session
step s (opens remote service device w) = some (on_open remote service device w s)
step s (writes local payload) = on_write local payload s
step s (okays local) = some (on_okay local s)
step s (closes local) = some (on_close local s)
step s ignored = some s
step s hangs_up = some (close_all s)
step s (pumps local k) = pump local k s
