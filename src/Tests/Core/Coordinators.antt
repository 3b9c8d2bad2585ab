-- ===== src/Tests/Core/Coordinators.antt =====
-- The control client of a host without devices.
use yard.Prelude.{ℕ, ◌≡◌, refl, false, Option, none, some, List, [], ◌∷◌, codes, text_key, nat_key}
use yard.Prelude.Dict.{lookup}
use yard.Core.Session as Session
use yard.Core.Session.{current}
use yard.Core.Preload.{missing}
use yard.Core.Control.{
  CommandHandler, hello_ack, command, ControlClient, Event, dials, fails_to_dial, receives, closes,
  sends, wakes, pushes, new, send, disconnect, wake, dial, on_message, step, run, Frame, hello,
  event,
}
use yard.Core.Control.Registered.{Well}
use yard.Core.Supervisor.Commands.{Command, session_authorize, CommandData, Host}
use yard.Core.Supervisor.Device.{Snapshot}
use yard.Core.Supervisor.Setup as Setup
use yard.Core.Supervisor.Link.{host_handler, IsIdle, run-host_handler}

abbrev host : Host ℕ ℕ
host =
    Setup.new Session.new
      (record { durable = false; disk = record { files = []; manifest = missing }; entries = [] })

host-IsIdle : IsIdle host
unfolding current Session.new Setup.new lookup
host-IsIdle d = refl

abbrev handler : CommandHandler (Host ℕ ℕ) Command CommandData (List (Snapshot ℕ))
handler = host_handler (λ e. [])

-- A connection with a command, its end, and the next one.
abbrev events : List (Event Command ℕ)
events =
    sends
    ∷ dials
    ∷ wakes
    ∷ pushes 7
    ∷ closes
    ∷ receives (command (codes "1") (session_authorize (codes "d") (codes "r") (codes "u") []))
    ∷ receives (hello_ack 1 5000 [] (codes "o") [])
    ∷ dials
    ∷ wakes
    ∷ fails_to_dial
    ∷ []

abbrev start : ControlClient (Host ℕ ℕ) CommandData (List (Snapshot ℕ)) ℕ
start = new host []

abbrev last : Option (ControlClient (Host ℕ ℕ) CommandData (List (Snapshot ℕ)) ℕ)
last = run handler events start

abbrev or_start :
    Option (ControlClient (Host ℕ ℕ) CommandData (List (Snapshot ℕ)) ℕ)
    → ControlClient (Host ℕ ℕ) CommandData (List (Snapshot ℕ)) ℕ
or_start none = start
or_start (some c) = c

abbrev newest :
    List (Frame CommandData (List (Snapshot ℕ)) ℕ) → Frame CommandData (List (Snapshot ℕ)) ℕ
newest [] = hello []
newest (f ∷ fs) = f

-- What was pushed while there was no connection goes out on the next one, before its acknowledgement.
queued_is_sent : newest (or_start last).wire ≡ event 7
unfolding run step dial wake disconnect on_message send new
queued_is_sent = refl

run_last : last ≡ some (or_start last)
unfolding run step dial wake disconnect on_message send new
run_last = refl

run-host_handler_example : Well IsIdle (or_start last)
run-host_handler_example =
    run-host_handler (λ e. []) host [] events (or_start last) host-IsIdle run_last
