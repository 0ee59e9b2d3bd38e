-- ===== src/Ui/Window/Agreement.antt =====
-- The daemon, the socket and the main window together.
use usb_defense_system.Prelude.{
  ℕ, Option, none, some, refl, sym, drop, length, map, [], ◌∷◌, ◌≡◌, ap, ◌∙◌, Bool, false, List,
  ◌++◌, Text,
}
use usb_defense_system.Json.{Json, truthy}
use usb_defense_system.Platform.{Platform}
use usb_defense_system.Config.{Config}
use usb_defense_system.Daemon.State.{Daemon}
use usb_defense_system.Daemon.Lockdown.Consistency.{IsConsistent}
use usb_defense_system.Daemon.Run.{Input, run}
use usb_defense_system.Daemon.Broadcasts.{told}
use usb_defense_system.Daemon.Broadcasts.Runs.{run-told}
use usb_defense_system.Daemon.Service.{Service, serve_all}
use usb_defense_system.Daemon.Service.Delivery.{
  client_at, IsClient, drop-appended, serve_all-IsClient,
}
use usb_defense_system.Ipc.Server.{Peer, line_of}
use usb_defense_system.Ipc.Framing.{joined}
use usb_defense_system.Ipc.Client.{Client, recv_loop}
use usb_defense_system.Ipc.Client.Receiving.{AreSent, stream, recv_loop-stream}
use usb_defense_system.Ui.Display.{Desktop}
use usb_defense_system.Ui.Window.{MainWindow}
use usb_defense_system.Ui.Window.Events.{on_event}
use usb_defense_system.Ui.Window.Following.{handle_all-visible}

abbrev received_by : Option Peer → List Text
received_by none = []
received_by (some p) = p.received

joined-lines : (P : Platform) (es : List Json) → joined (map (line_of P) es) ≡ stream P es
joined-lines P [] = refl
joined-lines P (e ∷ es) = ap (λ (t : Text). line_of P e ++ t) (joined-lines P es)

module _ (P : Platform) (D : Desktop) {c : Config} (off : truthy c.simulator_enabled ≡ false) where
  -- With the simulator disabled, take a daemon whose flag files agree with its memory and are not
  -- immutable, and a main window that shows the overlay exactly if this daemon is locked. After any
  -- sequence of inputs, and once the window's receive loop has read the lines of the events that were
  -- broadcast meanwhile, in chunks of any size, the window shows the overlay exactly if the daemon is
  -- locked.
  pub overlay_follows_daemon :
      (clock : Json → Text) (inputs : List Input) (events : List Json) (chunks : List Text)
      (d : Daemon) (k : Client) (w : MainWindow)
      → IsConsistent P c d
      → w.overlay.visible ≡ d.locked
      → (run P inputs d).broadcasts ≡ d.broadcasts ++ events
      → AreSent P events
      → joined chunks ≡ stream P events
      → (recv_loop P (λ e. on_event P D (clock e) e) chunks (k, w)).1.overlay.visible
        ≡ (run P inputs d).locked
  overlay_follows_daemon clock inputs events chunks d k w h v e sent j =
      ap (λ (r : Client × MainWindow). r.1.overlay.visible)
        (recv_loop-stream P (λ e. on_event P D (clock e) e) events chunks k w sent j)
      ∙ handle_all-visible P D clock events w
      ∙ ap (λ (l : Bool). told l events) v
      ∙ run-told P inputs events d off h e

  -- With the simulator disabled, take a running service whose flag files agree with its memory and
  -- are not immutable, a client of its socket server that can be reached, and a main window that shows
  -- the overlay exactly if the service is locked. After any sequence of USB events, client commands
  -- and console switches, and once the window's receive loop has read what that client was sent
  -- meanwhile, in chunks of any size, the window shows the overlay exactly if the service is locked.
  -- (The codec must write each of the events as one line that it reads back; the replies to commands
  -- of this client are not among what it reads.)
  pub overlay_follows_service :
      (clock : Json → Text) (inputs : List Input) (events : List Json) (chunks : List Text) (n : ℕ)
      (p q : Peer) (s : Service) (k : Client) (w : MainWindow)
      → IsConsistent P c s.daemon
      → IsClient P n p s.server
      → w.overlay.visible ≡ s.daemon.locked
      → (run P inputs s.daemon).broadcasts ≡ s.daemon.broadcasts ++ events
      → AreSent P events
      → let s' = serve_all P inputs s in
        client_at n s'.server.clients ≡ some q
        → joined chunks ≡ joined (drop (length p.received) q.received)
        → (recv_loop P (λ e. on_event P D (clock e) e) chunks (k, w)).1.overlay.visible
          ≡ s'.daemon.locked
  overlay_follows_service clock inputs events chunks n p q s k w h client v e sent f j =
      let (same, kept) = serve_all-IsClient P off inputs events n p s h client e in
      overlay_follows_daemon clock inputs events chunks s.daemon k w h v e sent (
        j
        ∙ ap (λ (ls : List Text). joined (drop (length p.received) ls))
            (sym (ap received_by (sym kept.found ∙ f)))
        ∙ ap joined (drop-appended p.received (map (line_of P) events))
        ∙ joined-lines P events)
      ∙ sym (ap (λ (d : Daemon). d.locked) same)
