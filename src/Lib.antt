-- ===== src/Lib.antt =====
-- usb-defense-system: the daemon that locks a workstation when an unknown USB device is plugged in.
--
-- The program. A daemon (usbguard_defense/daemon.py) takes USB events from udev, matches each device
-- against a signed whitelist, tells USBGuard to allow or block it, and enters or leaves a lockdown. In
-- a lockdown the text consoles are masked, a watcher reports console switches, and a flag file makes
-- the lockdown survive a restart. Clients send commands over a socket; those that change something
-- carry the admin password or the one-time paper recovery code, behind a throttle with growing
-- lockouts.
--
-- The files of this library, and the code they model (paths in src/usbguard_defense/):
--   Prelude      Boolean tests, lists over the native numbers, texts as lists of character codes
--   Json         JSON values with Python's truth value and equality (used everywhere)
--   Exec         exceptions, and methods that change a state and may raise: what was written before
--                a raise stays written
--   Platform     what is not the program's source: argon2, HMAC, the JSON and YAML codecs, chmod,
--                chattr, systemctl; each is a field of a record, and a theorem that relies on its
--                behaviour has that as a hypothesis
--   Files        the files that config.py names, and the calls of pathlib and os on them; a file has
--                a content, permission bits and the immutable attribute
--   Integrity    integrity.py       Auth         auth.py            Recovery     recovery.py
--   Config       config.py          EventLog     event_log.py       Monitor      monitor.py
--   Usbguard     usbguard_iface.py  TtyLockdown  tty_lockdown.py    Whitelist    whitelist.py
--   Daemon       daemon.py: State (the object), Throttle (_auth_locked_out, _record_auth_failure),
--                Lockdown (_enter_lockdown, _clear_lockdown, _restore_lockdown_if_needed), Events
--                (_handle_insert, _handle_remove), Commands and Dispatch (_handle_ipc_command), Run
--                (__init__, start, and the handlers as steps)
--                Broadcasts (what the broadcasts tell a client about the lockdown), Service (the
--                process: start, _on_signal, _shutdown, and the handlers with the socket server)
--   Ipc          ipc.py: the socket's permissions, and the lines of one client; Server (the other
--                methods of IPCServer), Client (IPCClient)
--   Ui           ui/: EventKind and Display (what the screens share), Overlay (lockdown.py),
--                Dashboard (dashboard.py), WhitelistScreen (whitelist_mgr.py), LogScreen
--                (event_log.py), SettingsScreen (settings.py), Window (main.py)
--   Setup        scripts/setup.py (that is src/scripts/setup.py): the first-run ceremony
--   Simulator    tests/simulate.py: the scenarios, and the client that sends one of them to the daemon
--   Tests        concrete hosts, files and daemons, and the theorems applied to them
--
-- A method of the source is a function of the same name, less a leading underscore. Random bytes, the
-- clocks and the output of tools are arguments of the function that reads them. The fields of a
-- message, of a whitelist entry and of the configuration are JSON values, as nothing in the source
-- checks their types; where the source would raise on a value of the wrong type, so does the model.
-- Handlers of different threads run one after the other, each to its end. The state of a widget is
-- what the code sets on it: texts, flags, rows; Qt's drawing is not part of it. The answers of dialogs
-- and the time of day are arguments, and the time zone of the host is a field of a record.
--
-- Fuel. Two loops of the source are on fuel: the one that trims the timeline of the overlay, with as
-- much fuel as there are rows, and the one that cuts lines off a buffer, with as much as there are
-- bytes. Each turn takes away a row, or a line with its end, so this is enough; the second is then
-- replaced by a recursion on the buffer with the same result. Every other loop of the source runs over
-- a list that is given, and is structural recursion here.
--
-- Not modelled: systemd's notification socket, the watchdog thread and the loop that waits for a
-- signal (daemon.py), the layout and the styles of the widgets (ui/), the writing of a CSV file, log
-- messages, the creation of parent directories, and fractions of a second.
pub mod Prelude
pub mod Json
pub mod Exec
pub mod Platform
pub mod Files
pub mod Integrity
pub mod Auth
pub mod Recovery
pub mod Config
pub mod EventLog
pub mod Monitor
pub mod Usbguard
pub mod TtyLockdown
pub mod Whitelist
pub mod Daemon
pub mod Ipc
pub mod Setup
pub mod Simulator
pub mod Tests
pub mod Ui
