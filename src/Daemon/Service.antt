-- ===== src/Daemon/Service.antt =====
-- usbguard_defense/daemon.py: the process of the daemon, which holds the socket server and the USB
-- monitor besides the state of the handlers. `Daemon.State` keeps what the handlers broadcast as a
-- list; here the events also go to the clients of the server.
pub mod Delivery
use usb_defense_system.Prelude.{ℕ, Bool, true, false, List, [], ◌∷◌, Text, length, drop}
use usb_defense_system.Json.{Json}
use usb_defense_system.Exec.{Result, ok, Exec, modify, ◌>>=◌, ◌>>◌}
use usb_defense_system.Platform.{Platform}
use usb_defense_system.Ipc.{SocketHost}
use usb_defense_system.Ipc.Server
use usb_defense_system.Ipc.Server.{Server, broadcast}
use usb_defense_system.Daemon.State.{Daemon, Moment, on_files}
use usb_defense_system.Daemon.Run
use usb_defense_system.Daemon.Run.{Input, step, remove_pid}

-- `running` is `self._running`, `monitoring` says that the monitor's thread runs.
pub record Service : Type 0 where
  pub daemon : Daemon
  pub server : Server
  pub monitoring : Bool
  pub running : Bool

abbrev on_daemon : {A : Type 0} → Exec Daemon A → Exec Service A
on_daemon m s = let r = m s.daemon in (r.0, record s { daemon = r.1 })

abbrev on_server : {A : Type 0} → Exec Server A → Exec Service A
on_server m s = let r = m s.server in (r.0, record s { server = r.1 })

-- `start`, up to the loop that waits for a signal. `pid` is the process number as text; the other
-- arguments are those of `IPCServer.start`.
unfoldable pub start :
    Platform → SocketHost → ℕ → Bool → Bool → Moment → Text → Exec Service (Unit {0})
start P H new_mode bind_ok unlink_ok t pid = do
  on_daemon (Run.start P t pid)
  on_server (Server.start H new_mode bind_ok unlink_ok)
  modify (λ s. record s { monitoring = true })

-- `_on_signal`
unfoldable pub on_signal : Service → Service
on_signal s = record s { running = false }

-- `_shutdown`
unfoldable pub shutdown : Platform → SocketHost → ℕ → Bool → Bool → Exec Service (Unit {0})
shutdown P H new_mode bind_ok unlink_ok = do
  modify (λ s. record s { monitoring = false })
  on_server (modify (Server.stop H new_mode bind_ok unlink_ok))
  on_daemon (on_files (remove_pid P))

-- `self.ipc.broadcast(event)` for the events one after the other
unfoldable pub broadcast_all : Platform → List Json → Server → Server
unfolding broadcast
broadcast_all P [] s = s
broadcast_all P (event ∷ more) s = broadcast_all P more (broadcast P event s)

-- The events that a handler has broadcast.
abbrev pub fresh_events : Daemon → Daemon → List Json
fresh_events before after = drop (length before.broadcasts) after.broadcasts

-- One handler, and what it broadcasts. No handler reads the state of the server.
unfoldable pub serve : Platform → Input → Service → Service
unfolding step broadcast_all
serve P i s =
    let daemon = step P i s.daemon in
    record s { daemon = daemon; server = broadcast_all P (fresh_events s.daemon daemon) s.server }

unfoldable pub serve_all : Platform → List Input → Service → Service
unfolding serve
serve_all P [] s = s
serve_all P (i ∷ is) s = serve_all P is (serve P i s)
