-- ===== src/Daemon/Run/LockedOut.antt =====
-- What clients can do while a lockout of the throttle runs.
use usb_defense_system.Prelude.{◌<◌, List, [], ◌∷◌}
use usb_defense_system.Json.{Json}
use usb_defense_system.Platform.{Platform}
use usb_defense_system.Daemon.State.{Daemon, Moment}
use usb_defense_system.Daemon.Run.{Input, command}

-- The messages all come before the end of the lockout.
abbrev pub AreEarly : Daemon → List (Moment × Json) → Type 0
AreEarly d [] = Unit
AreEarly d ((t, msg) ∷ more) = (t.monotonic < d.auth_lockout_until) × AreEarly d more

abbrev pub command_at : Moment × Json → Input
command_at (t, msg) = command t msg
