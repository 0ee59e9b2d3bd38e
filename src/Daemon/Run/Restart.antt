-- ===== src/Daemon/Run/Restart.antt =====
-- What a new daemon makes of the files of one that stopped.
use usb_defense_system.Json.{Json}
use usb_defense_system.Platform.{Platform}
use usb_defense_system.Config.{Config}
use usb_defense_system.EventLog
use usb_defense_system.Whitelist
use usb_defense_system.Daemon.State.{Daemon}
