-- ===== src/Ipc/Server.antt =====
-- usbguard_defense/ipc.py, the daemon's side: `IPCServer.start`, `stop`, `broadcast` and
-- `_accept_loop`.
pub mod Broadcasting
use usb_defense_system.Prelude.{
  ℕ, ◌==◌, Bool, true, false, not, Option, none, some, List, [], ◌∷◌, ◌++◌, if◌then◌else◌, Text,
  map,
}
use usb_defense_system.Json.{Json}
use usb_defense_system.Exec.{Result, ok, err, Exec, os_error, modify, ◌>>=◌, ◌>>◌}
use usb_defense_system.Platform.{Platform}
use usb_defense_system.Ipc.{SocketHost, SocketFile, apply_socket_permissions}

-- The socket of an accepted client: its identity, whether `sendall` on it returns, and the lines
-- that were written to it.
pub record Peer : Type 0 where
  pub number : ℕ
  pub reachable : Bool
  pub received : List Text

pub record Server : Type 0 where
  pub socket_file : Option SocketFile
  pub listening : Bool
  pub stopped : Bool
  pub clients : List Peer
  -- the numbers of the sockets that were closed
  pub closed : List ℕ

-- The loop of `broadcast` over the clients: the clients after it, and `dead`.
unfoldable pub send_each : Text → List Peer → List Peer × List Peer
send_each line [] = ([], [])
send_each line (p ∷ ps) =
    let (qs, dead) = send_each line ps in
    if p.reachable
    then (record p { received = p.received ++ line ∷ [] } ∷ qs, dead)
    else (p ∷ qs, p ∷ dead)

-- `self._clients.remove(d)`
unfoldable pub remove_client : ℕ → List Peer → List Peer
remove_client n [] = []
remove_client n (p ∷ ps) = let rest = remove_client n ps in if p.number == n then ps else p ∷ rest

unfoldable pub remove_dead : List Peer → Server → Server
unfolding remove_client
remove_dead [] s = s
remove_dead (d ∷ ds) s =
    remove_dead ds
      (record s { clients = remove_client d.number s.clients; closed = s.closed ++ d.number ∷ [] })

-- The line that an event is sent as.
abbrev pub line_of : Platform → Json → Text
line_of P event = P.dumps event ++ 10 ∷ []

unfoldable pub broadcast : Platform → Json → Server → Server
unfolding send_each remove_dead
broadcast P event s =
    let (clients, dead) = send_each (line_of P event) s.clients in
    remove_dead dead (record s { clients = clients })

-- What `accept` does: it returns a connection, times out, or raises another `OSError`.
pub data Accept : Type 0 where
  connection : Peer → Accept
  timed_out failed : Accept

-- `_accept_loop`, on what `accept` does until `stop` is called
unfoldable pub accept_loop : List Accept → Server → Server
accept_loop [] s = s
accept_loop (connection p ∷ rest) s = accept_loop rest (record s { clients = s.clients ++ p ∷ [] })
accept_loop (timed_out ∷ rest) s = accept_loop rest s
accept_loop (failed ∷ rest) s = s

-- The end of `_client_loop`: `if conn in self._clients: self._clients.remove(conn)`, and `close`.
unfoldable pub drop_client : ℕ → Server → Server
unfolding remove_client
drop_client n s = record s { clients = remove_client n s.clients; closed = s.closed ++ n ∷ [] }

-- `new_mode` is the mode of a socket that was just bound, `bind_ok` and `unlink_ok` say whether
-- `bind` and `unlink` are permitted.
module _ (H : SocketHost) (new_mode : ℕ) (bind_ok unlink_ok : Bool) where
  abbrev unlink_old : Option SocketFile → Exec Server (Unit {0})
  unlink_old none s = (ok tt, s)
  unlink_old (some f) s =
      if unlink_ok then (ok tt, record s { socket_file = none }) else (err os_error, s)

  abbrev bind : Exec Server (Unit {0})
  bind s =
      if bind_ok
      then (
        ok tt,
        record s {
          socket_file = some (record { mode = new_mode; group = none });
          listening = true;
        },
      )
      else (err os_error, s)

  abbrev apply_to : Option SocketFile → Exec Server (Unit {0})
  apply_to none s = (ok tt, s)
  apply_to (some f) s =
      let r = apply_socket_permissions H f in (r.0, record s { socket_file = some r.1 })

  -- `start`, up to the thread that runs `_accept_loop`
  unfoldable pub start : Exec Server (Unit {0})
  start = do λ s. unlink_old s.socket_file s; bind; λ s. apply_to s.socket_file s

  abbrev unlink_if : Option SocketFile → Option SocketFile
  unlink_if none = none
  unlink_if (some f) = if unlink_ok then none else some f

  -- `stop`
  unfoldable pub stop : Server → Server
  stop s = record s {
    stopped = true;
    closed = s.closed ++ map (λ (p : Peer). p.number) s.clients;
    clients = [];
    listening = false;
    socket_file = unlink_if s.socket_file;
  }
