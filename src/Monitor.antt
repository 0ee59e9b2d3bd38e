-- ===== src/Monitor.antt =====
-- usbguard_defense/monitor.py: udev devices, filtered and turned into events.
use usb_defense_system.Prelude.{
  ℕ, ◌*◌, String, Bool, ◌&&◌, ◌||◌, Option, none, some, List, [], ◌∷◌, ◌++◌, if◌then◌else◌, Text,
  codes, text_eq, lower, strip, strip_chars, split, replace_char, parse_int, ◌==◌, length, leb,
  take,
}

-- A child of a udev device, as far as `_build_event` asks.
pub record Child : Type 0 where
  pub subsystem : Text
  pub device_type : Text
  pub device_node : Option Text
  pub size : Option Text

-- A udev device. `children` is `none` where listing them raises.
pub record Device : Type 0 where
  pub action : Text
  pub property : String → Option Text
  pub attribute : String → Option Text
  pub children : Option (List Child)
  pub sys_path : Text

pub record UsbEvent : Type 0 where
  pub action : Text
  pub vendor_id : Text
  pub product_id : Text
  pub serial : Text
  pub device_class : Text
  pub device_class_name : Text
  pub usb_version : Text
  pub manufacturer : Text
  pub product : Text
  pub devnode : Option Text
  pub capacity_bytes : Option ℕ
  pub sysfs_path : Text

unfoldable pub fingerprint : UsbEvent → Text
fingerprint e = e.vendor_id ++ (b':' ∷ (e.product_id ++ (b':' ∷ e.serial)))

abbrev class_names : List (String × String)
class_names =
    ("00", "InterfaceDefined")
    ∷ ("01", "Audio")
    ∷ ("02", "CDC")
    ∷ ("03", "HID")
    ∷ ("05", "Physical")
    ∷ ("06", "Image")
    ∷ ("07", "Printer")
    ∷ ("08", "MassStorage")
    ∷ ("09", "Hub")
    ∷ ("0a", "CDCData")
    ∷ ("0b", "SmartCard")
    ∷ ("0d", "ContentSecurity")
    ∷ ("0e", "Video")
    ∷ ("0f", "PersonalHealthcare")
    ∷ ("10", "AudioVideo")
    ∷ ("11", "Billboard")
    ∷ ("dc", "Diagnostic")
    ∷ ("e0", "WirelessController")
    ∷ ("ef", "Miscellaneous")
    ∷ ("fe", "ApplicationSpecific")
    ∷ ("ff", "VendorSpecific")
    ∷ []

name_in : List (String × String) → Text → Text
name_in [] hex = codes "Unknown"
name_in ((k, name) ∷ rest) hex =
    let more = name_in rest hex in if text_eq (codes k) hex then codes name else more

-- `DEVICE_CLASS_NAMES.get(hex, "Unknown")`
unfoldable pub class_name : Text → Text
unfolding name_in
class_name hex = name_in class_names hex

-- `value or default` for a text that may be `None`
abbrev pub text_or : Option Text → Text → Text
text_or none default = default
text_or (some []) default = default
text_or (some (c ∷ s)) default = c ∷ s

-- The class of the first interface in ":CCSSPP:CCSSPP:", or the value given.
unfoldable pub interface_class : List Text → Text → Text
interface_class [] default = default
interface_class (part ∷ rest) default =
    let more = interface_class rest default in
    if leb 2 (length part) then lower (take 2 part) else more

unfoldable pub device_class_of : Device → Text
unfolding interface_class
device_class_of d =
    let hex = lower (text_or (d.attribute "bDeviceClass") []) in
    if text_eq hex [] || text_eq hex (codes "00")
    then interface_class
        (split b':' (strip_chars (λ c. c == b':') (text_or (d.property "ID_USB_INTERFACES") [])))
        hex
    else hex

abbrev is_disk : Child → Bool
is_disk c = text_eq c.subsystem (codes "block") && text_eq c.device_type (codes "disk")

-- `int(size_str) * 512`; a size that is missing, empty or no number leaves `None`.
abbrev capacity : Option Text → Option ℕ
capacity none = none
capacity (some []) = none
capacity (some (c ∷ s)) = elim (parse_int (c ∷ s)) [ none ↦ none | some n ↦ some (n * 512) ]

-- The device node and the capacity of the first disk.
unfoldable pub block_device : List Child → Option Text × Option ℕ
block_device [] = (none, none)
block_device (c ∷ cs) =
    let more = block_device cs in if is_disk c then (c.device_node, capacity c.size) else more

abbrev block_device_of : Option (List Child) → Option Text × Option ℕ
block_device_of none = (none, none)
block_device_of (some cs) = block_device cs

unfoldable pub build_event : Device → UsbEvent
unfolding device_class_of block_device class_name
build_event d =
    let class = device_class_of d in
    let (node, bytes) = block_device_of d.children in
    record {
      action = d.action;
      vendor_id = lower (text_or (d.property "ID_VENDOR_ID") []);
      product_id = lower (text_or (d.property "ID_MODEL_ID") []);
      serial = text_or (d.property "ID_SERIAL_SHORT") (text_or (d.property "ID_SERIAL") []);
      device_class = class;
      device_class_name = class_name class;
      usb_version = strip (text_or (d.attribute "version") []);
      manufacturer = replace_char b'_' b' ' (
          text_or (d.property "ID_VENDOR")
            (text_or (d.property "ID_VENDOR_FROM_DATABASE") (codes "Unknown")));
      product = replace_char b'_' b' ' (
          text_or (d.property "ID_MODEL")
            (text_or (d.property "ID_MODEL_FROM_DATABASE") (codes "Unknown")));
      devnode = node;
      capacity_bytes = bytes;
      sysfs_path = d.sys_path;
    }

-- The two tests of `_run` that let a device through.
abbrev pub is_watched : Device → Bool
is_watched d =
    (text_eq d.action (codes "add") || text_eq d.action (codes "remove"))
    && text_eq (text_or (d.property "DEVTYPE") []) (codes "usb_device")

-- `_run`: what `poll` returns until `stop` is seen, and the events that reach the callback. The
-- flag beside a device says whether `stop` was set when `poll` returned it.
unfoldable pub run : List (Device × Bool) → List UsbEvent
unfolding build_event
run [] = []
run ((d, stopped) ∷ rest) =
    let more = run rest in
    if stopped then [] else if is_watched d then build_event d ∷ more else more
