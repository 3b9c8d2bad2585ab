-- ===== src/Core/Supervisor/Link.antt =====
-- packages/provider/crates/provider-core/src/supervisor.rs: a host as the handler of the control
-- client. `print` gives the texts of errors. The parked attempts of ADB clients, which a decision is
-- for, are those of Core.AdbAuth, and no part of the host.
use yard.Prelude.{◌≡◌, some, none, List, Text, Key, codes, Result, ok, err}
use yard.Core.Session.{current}
use yard.Core.Session.Refinement.{lookup-revoke_all}
use yard.Core.Control.{CommandHandler, ControlClient, Event, new, run}
use yard.Core.Control.Registered.{Well, run-Well}
use yard.Core.Supervisor.Device.{Snapshot}
use yard.Core.Supervisor.Commands.{HandleError, CommandData, Command, Host, on_disconnected}
use yard.Core.Supervisor.Steps.{handle}
use yard.Core.Supervisor.Setup.{inventory}

abbrev printed : {A : Type 0} → (HandleError → Text) → Result HandleError A → Result Text A
printed print (ok a) = ok a
printed print (err e) = err (print e)

abbrev pub host_handler :
    {I W : Type 0} ⦃k : Key I⦄
    → (HandleError → Text)
    → CommandHandler (Host I W) Command CommandData (List (Snapshot I))
host_handler print = record {
  handle = λ c h. (printed print (handle c h).0, (handle c h).1);
  inventory = inventory;
  on_disconnected = on_disconnected;
  on_adb_auth_decision = λ d h. h;
}

-- No device of the host is authorized.
abbrev pub IsIdle : {I W : Type 0} → Host I W → Type 0
IsIdle h = (id : Text) → current id h.sessions ≡ none

on_disconnected-IsIdle : {I W : Type 0} (h : Host I W) → IsIdle (on_disconnected h)
unfolding on_disconnected current
on_disconnected-IsIdle h id = lookup-revoke_all id (codes "control plane disconnected") h.sessions

-- In every history of a host's control client, from a host on which no device is authorized: the
-- client counts as registered exactly in a connection that the coordinator acknowledged; its backoff
-- is from 1 to 30 seconds, and what it waits for between two connections; and outside a connection no
-- device is authorized, so that an outage of the coordinator ends every session.
pub run-host_handler :
    {I W P : Type 0} ⦃k : Key I⦄
    → (print : HandleError → Text) (h : Host I W) (issuer : Text) (es : List (Event Command P))
    → (c : ControlClient (Host I W) CommandData (List (Snapshot I)) P) → IsIdle h
    → run (host_handler print) es (new h issuer) ≡ some c
    → Well IsIdle c
run-host_handler print h issuer es c idle q =
    run-Well IsIdle (host_handler print) on_disconnected-IsIdle h issuer es c idle q
