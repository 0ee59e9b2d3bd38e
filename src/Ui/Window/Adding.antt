-- ===== src/Ui/Window/Adding.antt =====
-- The dialog that adds a device, from its form to the whitelist that the daemon holds.
use usb_defense_system.Prelude.{
  ◌≡◌, ◌≢◌, refl, true, not, Option, some, List, [], ◌∷◌, ◌++◌, if◌then◌else◌, Text, codes, text_eq,
  lower, strip, lower_idem, ◌≤◌, ◌-◌, arith, ◌∙◌,
}
use usb_defense_system.Json.{str, bool, obj, lit, field, end, Fields, lookup, update}
use usb_defense_system.Exec.{Result, ok}
use usb_defense_system.Platform.{Platform}
use usb_defense_system.Files.{FileSystem}
use usb_defense_system.Auth.{verify_admin_password}
use usb_defense_system.Whitelist.{
  WhitelistEntry, new_entry, is_device, match_entry, added, add, save, can_unlock,
}
use usb_defense_system.Whitelist.Matching.{match_entry-added, py_eq-str_refl}
use usb_defense_system.Daemon.State.{Daemon, Moment}
use usb_defense_system.Daemon.Throttle.{record_auth_success}
use usb_defense_system.Daemon.Commands.{
  do_add_whitelist_entry, insert_entry, insert_or_refuse, entry_of_message, command_of,
}
use usb_defense_system.Daemon.Commands.Access.{password_ok, check_password-eq}
use usb_defense_system.Daemon.Dispatch.{handle_ipc_command, dispatch, perform}
use usb_defense_system.Ipc.Client.{is_connected, send_command}
use usb_defense_system.Ui.Overlay.{Answer, is_given}
use usb_defense_system.Ui.WhitelistScreen.{Form, values, on_add, prompt_password, text_or}
use usb_defense_system.Ui.Window.{MainWindow, submit_add_whitelist}
use usb_defense_system.Ui.Window.Opening.{add_clicked}

-- The message that the window sends for a form and a password.
abbrev pub request : Form → Text → Fields
request f password = field "cmd" (lit "add_whitelist_entry") (
    field "password" (str password)
      (field "entry" (obj (update (values f) (field "added_by" (lit "admin") end))) end))

-- The entry that the daemon makes of it.
abbrev pub entry_of_form : Moment → Form → WhitelistEntry
entry_of_form t f = record {
  id = str t.uuid;
  label = str (text_or (strip f.label_input) (codes "Unlabeled"));
  vendor_id = str (lower (strip f.vid_input));
  product_id = str (lower (strip f.pid_input));
  serial = str (strip f.serial_input);
  device_class = str (text_or (strip f.class_input) (codes "Unknown"));
  added_by = lit "admin";
  added_at = str t.now;
  can_unlock = bool f.unlock_check;
}

add_clicked-sent :
    (f : Form) (a : Answer) (w : MainWindow)
    → is_given a ≡ true
    → is_connected w.ipc ≡ true
    → w.ipc.link ≡ true
    → (add_clicked (some f) a w).ipc.sent ≡ w.ipc.sent ++ obj (request f a.text) ∷ []
unfolding add_clicked on_add prompt_password submit_add_whitelist send_command
add_clicked-sent f a w g c l = rw (g, c, l) refl

text_eq-nil : not (text_eq [] []) ≢ true
unfolding text_eq
text_eq-nil h = cc

module _ (P : Platform) (t : Moment) (f : Form) where
  entry_of_message-form :
      entry_of_message P t (update (values f) (field "added_by" (lit "admin") end))
      ≡ ok (entry_of_form t f)
  unfolding update lookup values new_entry
  entry_of_message-form = rw (lower_idem (strip f.vid_input), lower_idem (strip f.pid_input)) refl

  password_ok-request :
      (password : Text) (fs : FileSystem)
      → not (text_eq password []) ≡ true
      → verify_admin_password P password fs ≡ (ok true, fs)
      → password_ok P (request f password) fs ≡ true
  unfolding password_ok lookup
  password_ok-request [] fs n h = absurd (text_eq-nil n)
  password_ok-request (c ∷ s) fs n h = rw h refl

  insert_entry-entries :
      (entry : WhitelistEntry) (d : Daemon)
      → (insert_entry P t entry d).1.store.entries ≡ added entry d.store.entries
  unfolding add save
  insert_entry-entries entry d = ground arith

  insert_or_refuse-entries :
      (r : Result WhitelistEntry) (entry : WhitelistEntry) (d : Daemon)
      → r ≡ ok entry
      → (insert_or_refuse P t r d).1.store.entries ≡ added entry d.store.entries
  insert_or_refuse-entries r entry d h = rw h (insert_entry-entries entry d)

  do_add_whitelist_entry-form :
      (password : Text) (d : Daemon)
      → password_ok P (request f password) d.store.files ≡ true
      → (do_add_whitelist_entry P t (request f password) d).1.store.entries
        ≡ added (entry_of_form t f) d.store.entries
  unfolding do_add_whitelist_entry record_auth_success lookup update new_entry values
  do_add_whitelist_entry-form password d right =
      rw (check_password-eq P (request f password) d, right)
        (insert_or_refuse-entries _ (entry_of_form t f) (record_auth_success d)
          entry_of_message-form)

  handle_ipc_command-request :
      (password : Text) (d : Daemon)
      → d.auth_lockout_until ≤ t.monotonic
      → handle_ipc_command P t (obj (request f password)) d
        ≡ do_add_whitelist_entry P t (request f password) d
  unfolding handle_ipc_command dispatch perform lookup command_of text_eq
  handle_ipc_command-request password d late =
      let e : d.auth_lockout_until - t.monotonic ≡ 0 = omega arith in rw e refl

  is_device-form :
      is_device
        (lower (strip f.vid_input))
        (lower (strip f.pid_input))
        (strip f.serial_input)
        (entry_of_form t f)
      ≡ true
  is_device-form =
      rw
        (
          py_eq-str_refl (lower (strip f.vid_input)),
          py_eq-str_refl (lower (strip f.pid_input)),
          py_eq-str_refl (strip f.serial_input),
        )
        refl

  -- The typed device
  abbrev match_typed : List WhitelistEntry → Option WhitelistEntry
  match_typed es = match_entry es (strip f.vid_input) (strip f.pid_input) (strip f.serial_input)

  match_typed-added :
      (es : List WhitelistEntry)
      → match_typed (added (entry_of_form t f) es) ≡ some (entry_of_form t f)
  match_typed-added es =
      match_entry-added (entry_of_form t f) es (strip f.vid_input) (strip f.pid_input)
        (strip f.serial_input)
      ∙ rw is_device-form refl

  can_unlock-typed :
      (es : List WhitelistEntry)
      → match_typed es ≡ some (entry_of_form t f)
      → can_unlock es (strip f.vid_input) (strip f.pid_input) (strip f.serial_input)
        ≡ f.unlock_check
  unfolding can_unlock
  can_unlock-typed es h = rw h refl

  -- The user fills in the form of a device and gives the right password, the window's connection
  -- works, and the lockout of the throttle is over. The window then sends one message, and whether or
  -- not the daemon can write the whitelist file: after it has handled that message, `match` finds for
  -- the typed vendor, product and serial (without the white space around them) the entry with the
  -- typed values, in lower case where the whitelist wants it; `can_unlock` says of that device what
  -- the box of the form says; and for every other device `match` finds what it found before.
  pub add_clicked-whitelist :
      (a : Answer) (w : MainWindow) (d : Daemon)
      → is_given a ≡ true
      → is_connected w.ipc ≡ true
      → w.ipc.link ≡ true
      → verify_admin_password P a.text d.store.files ≡ (ok true, d.store.files)
      → d.auth_lockout_until ≤ t.monotonic
      → let msg = obj (request f a.text) in
        let es = (handle_ipc_command P t msg d).1.store.entries in
        ((add_clicked (some f) a w).ipc.sent ≡ w.ipc.sent ++ msg ∷ [])
        × (match_typed es ≡ some (entry_of_form t f))
        × (can_unlock es (strip f.vid_input) (strip f.pid_input) (strip f.serial_input)
            ≡ f.unlock_check)
        × ((v p s : Text)
            → match_entry es v p s ≡ (
                if is_device (lower v) (lower p) s (entry_of_form t f)
                then some (entry_of_form t f)
                else match_entry d.store.entries v p s))
  add_clicked-whitelist a w d g c l right late =
      let es' = added (entry_of_form t f) d.store.entries in
      let found = match_typed-added d.store.entries in
      let nonempty : not (text_eq a.text []) ≡ true = ground (arith, g) in
      rw
        (
          handle_ipc_command-request a.text d late,
          do_add_whitelist_entry-form a.text d
              (password_ok-request a.text d.store.files nonempty right),
        )
        (
          add_clicked-sent f a w g c l,
          found,
          can_unlock-typed es' found,
          match_entry-added (entry_of_form t f) d.store.entries,
        )
