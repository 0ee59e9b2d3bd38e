-- ===== src/Tests/Clients.antt =====
-- What two clients send, the window and the simulator, and what the daemon makes of it.
use usb_defense_system.Prelude.{
  ◌≡◌, refl, true, none, some, [], ◌∷◌, Text, codes, text_eq, strip, lower, if◌then◌else◌, arith,
}
use usb_defense_system.Json.{bool, obj, end, lit}
use usb_defense_system.Exec.{ok}
use usb_defense_system.Config.{default_config}
use usb_defense_system.Auth.{verify_admin_password}
use usb_defense_system.Whitelist.{match_entry, is_device, can_unlock}
use usb_defense_system.Daemon.State.{Daemon}
use usb_defense_system.Daemon.Dispatch.{handle_ipc_command}
use usb_defense_system.Ui.Overlay.{Answer}
use usb_defense_system.Ui.WhitelistScreen.{Form}
use usb_defense_system.Ui.Window.{MainWindow}
use usb_defense_system.Ui.Window.Opening.{new_client, built, add_clicked}
use usb_defense_system.Ui.Window.Adding.{request, entry_of_form, add_clicked-whitelist}
use usb_defense_system.Simulator.{
  authorized_normal, payload, envelope, connected, line, main, scenario_of,
}
use usb_defense_system.Simulator.Effects.{main-locked}
use usb_defense_system.Tests.Host.{
  host, no_files, password, with_password, daemon, offending, unlocked_daemon, moment,
}

-- A second stick, typed with capitals and spaces.
abbrev form : Form
form = record {
  label_input = codes "spare";
  vid_input = codes " 0951";
  pid_input = codes "16AB ";
  serial_input = codes "S2";
  class_input = [];
  unlock_check = true;
}

abbrev given : Answer
given = record { text = password; confirmed = true }

abbrev joined : MainWindow
joined =
    built no_files (record (new_client true) { connected = true })
      (record {
        config = end;
        grace_period = 0;
        require_unlock_key = true;
        notify_on_authorized = true;
      })
      []

add_clicked-whitelist_example :
    let msg = obj (request form password) in
    let es = (handle_ipc_command host moment msg unlocked_daemon).1.store.entries in
    ((add_clicked (some form) given joined).ipc.sent ≡ msg ∷ [])
    × (match_entry es (codes "0951") (codes "16AB") (codes "S2") ≡ some (entry_of_form moment form))
    × (can_unlock es (codes "0951") (codes "16AB") (codes "S2") ≡ true)
    × ((v p s : Text)
        → match_entry es v p s ≡ (
            if is_device (lower v) (lower p) s (entry_of_form moment form)
            then some (entry_of_form moment form)
            else match_entry unlocked_daemon.store.entries v p s))
unfolding text_eq strip verify_admin_password
add_clicked-whitelist_example =
    add_clicked-whitelist host moment form given joined unlocked_daemon refl refl refl refl
      (omega arith)

-- A locked daemon whose simulator is enabled.
abbrev demo_daemon : Daemon
demo_daemon =
    daemon with_password (record default_config { simulator_enabled = bool true }) true
      (obj offending) (lit "noon")

main-locked_example :
    let msg = envelope (payload authorized_normal) password in
    (main host (codes "authorized_normal" ∷ []) connected true none password
      ≡ (ok 0, line host msg ∷ []))
    × ((handle_ipc_command host moment (obj msg) demo_daemon).1.locked ≡ true)
unfolding text_eq scenario_of strip verify_admin_password
main-locked_example =
    main-locked host moment (codes "authorized_normal") [] none password authorized_normal
      demo_daemon refl refl refl refl (omega arith)
