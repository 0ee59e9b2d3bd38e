-- ===== src/Ipc/Client.antt =====
-- usbguard_defense/ipc.py, the user interface's side: `IPCClient`.
pub mod Receiving
use usb_defense_system.Prelude.{
  Bool, true, false, Option, none, some, List, [], ◌∷◌, ◌++◌, if◌then◌else◌, Text, strip, text_eq,
}
use usb_defense_system.Json.{Json}
use usb_defense_system.Exec.{Exec, ok, err, value_error, pure, ◌>>◌}
use usb_defense_system.Platform.{Platform}
use usb_defense_system.Ipc.{cut_lines}

-- `connected` says that `_sock` is not `None`, `link` whether `sendall` on it returns, and
-- `receiving` that the thread of `_recv_loop` was started. `sent` is what was written so far.
pub record Client : Type 0 where
  pub connected : Bool
  pub stopped : Bool
  pub receiving : Bool
  pub link : Bool
  pub sent : List Json

-- `connect`; `listening` says whether a daemon takes the connection.
unfoldable pub connect : Bool → Client → Bool × Client
connect true k = (true, record k { stopped = false; connected = true; receiving = true })
connect false k = (false, record k { stopped = false; connected = false })

abbrev pub is_connected : Client → Bool
is_connected k = k.connected

unfoldable pub disconnect : Client → Client
disconnect k = record k { stopped = true; connected = false }

-- `send_command`; where `sendall` raises, the socket counts as dead.
unfoldable pub send_command : Json → Client → Client
send_command msg k =
    if k.connected
    then (if k.link then record k { sent = k.sent ++ msg ∷ [] } else record k { connected = false })
    else k

module _ (P : Platform) {S : Type 0} (on_event : Json → Exec S (Unit {0})) where
  abbrev on_parsed : Option Json → S → S
  on_parsed none s = s
  on_parsed (some event) s = (on_event event s).1

  -- One line; what `on_event` raises is logged and dropped. A line that is no UTF-8 raises a
  -- `UnicodeDecodeError`, a `ValueError` that is no `JSONDecodeError`.
  unfoldable pub recv_line : Text → Exec S (Unit {0})
  recv_line line s =
      if text_eq (strip line) []
      then (ok tt, s)
      else if P.decodes line
      then (ok tt, on_parsed (P.loads line) s)
      else (err value_error, s)

  unfoldable pub recv_lines : List Text → Exec S (Unit {0})
  recv_lines [] = pure tt
  recv_lines (line ∷ ls) = recv_line line >> recv_lines ls

  -- The chunks that `recv` returns until `disconnect` stops the loop, or `recv` raises or returns an
  -- empty one
  unfoldable pub recv_chunks : Text → List Text → Exec S (Unit {0})
  unfolding cut_lines recv_lines
  recv_chunks buf [] = pure tt
  recv_chunks buf (chunk ∷ rest) =
      let (ls, buf') = cut_lines (buf ++ chunk) in recv_lines ls >> recv_chunks buf' rest

  -- `_recv_loop`; what it raises ends the thread, behind the `finally`.
  unfoldable pub recv_loop : List Text → Client × S → Client × S
  unfolding recv_chunks
  recv_loop chunks (k, s) = (record k { connected = false }, (recv_chunks [] chunks s).1)
