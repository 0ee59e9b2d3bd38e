-- ===== src/Ipc/Server/Broadcasting.antt =====
-- `broadcast` over the clients of the server.
use usb_defense_system.Prelude.{
  ◌∙◌, ℕ, ◌==◌, ◌≡◌, refl, Bool, true, false, not, List, [], ◌∷◌, ◌++◌, if◌then◌else◌, Text, arith,
  map, keep,
}
use mathlib.Core.List.{append_assoc, append-nil}
use usb_defense_system.Json.{Json}
use usb_defense_system.Platform.{Platform}
use usb_defense_system.Ipc.Server.{
  Peer, Server, send_each, remove_client, remove_dead, line_of, broadcast,
}

abbrev pub numbered : ℕ → List Peer → Bool
numbered n [] = false
numbered n (p ∷ ps) = if p.number == n then true else numbered n ps

-- No two clients share a socket.
abbrev pub AreDistinct : List Peer → Type 0
AreDistinct [] = Unit
AreDistinct (p ∷ ps) = (numbered p.number ps ≡ false) × AreDistinct ps

-- The client, with one more line received.
abbrev pub with_line : Text → Peer → Peer
with_line line p = record p { received = p.received ++ line ∷ [] }

abbrev pub is_reachable : Peer → Bool
is_reachable p = p.reachable

abbrev pub number_of : Peer → ℕ
number_of p = p.number

abbrev remove_all : List Peer → List Peer → List Peer
remove_all [] ps = ps
remove_all (d ∷ ds) ps = remove_all ds (remove_client d.number ps)

remove_dead-eq :
    (ds : List Peer) (s : Server)
    → remove_dead ds s
      ≡ record s { clients = remove_all ds s.clients; closed = s.closed ++ map number_of ds }
unfolding remove_dead
remove_dead-eq [] s = ground (arith, append-nil s.closed)
remove_dead-eq (d ∷ ds) s = ground (
  arith,
  remove_dead-eq ds
      (record s { clients = remove_client d.number s.clients; closed = s.closed ++ d.number ∷ [] }),
  append_assoc s.closed (d.number ∷ []) (map number_of ds),
)

-- A client that is not among the dead stays at the head.
remove_all-spared :
    (ds ps : List Peer) (p : Peer)
    → numbered p.number ds ≡ false
    → remove_all ds (p ∷ ps) ≡ p ∷ remove_all ds ps
unfolding remove_client
remove_all-spared [] ps p h = refl
remove_all-spared (d ∷ ds) ps p h =
    ground (arith, h, remove_all-spared ds (remove_client d.number ps) p)

module _ (line : Text) where
  dead-numbered :
      (n : ℕ) (ps : List Peer) → numbered n ps ≡ false → numbered n (send_each line ps).1 ≡ false
  unfolding send_each
  dead-numbered n [] h = refl
  dead-numbered n (p ∷ ps) h = ground (arith, h, dead-numbered n ps)

  send_each-dead :
      (ps : List Peer) → (send_each line ps).1 ≡ keep (λ (p : Peer). not p.reachable) ps
  unfolding send_each
  send_each-dead [] = refl
  send_each-dead (p ∷ ps) = ground (arith, send_each-dead ps)

  send_each-left :
      (ps : List Peer)
      → AreDistinct ps
      → remove_all (send_each line ps).1 (send_each line ps).0
        ≡ map (with_line line) (keep is_reachable ps)
  unfolding send_each remove_client
  send_each-left [] h = refl
  send_each-left (p ∷ ps) (n, h) = ground (
    arith,
    n,
    h,
    send_each-left ps h,
    dead-numbered p.number ps n,
    remove_all-spared (send_each line ps).1 (send_each line ps).0 (with_line line p),
  )

-- Where no two clients share a socket, after a broadcast the clients are those that could be
-- reached, in their order, each with the line of the event added to what it received, once; the
-- sockets of the others are closed. Nothing else of the server changes.
pub broadcast-reachable :
    (P : Platform) (event : Json) (s : Server)
    → AreDistinct s.clients
    → broadcast P event s ≡ record s {
      clients = map (with_line (line_of P event)) (keep is_reachable s.clients);
      closed = s.closed ++ map number_of (keep (λ (p : Peer). not p.reachable) s.clients);
    }
unfolding broadcast
broadcast-reachable P event s h =
    let line = line_of P event in
    remove_dead-eq (send_each line s.clients).1
      (record s { clients = (send_each line s.clients).0 })
    ∙ rw (send_each-left line s.clients h, send_each-dead line s.clients) refl
