-- ===== src/Ui.antt =====
-- usbguard_defense/ui: the user interface, a client of the daemon. A module for each screen, and the
-- main window that holds them. What Qt draws is kept as the texts and flags that the code sets.
pub mod Display
pub mod EventKind
pub mod Overlay
pub mod Dashboard
pub mod WhitelistScreen
pub mod LogScreen
pub mod SettingsScreen
pub mod Window
