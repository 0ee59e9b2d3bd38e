-- ===== src/Daemon/Service/Delivery.antt =====
-- The lines that a client of the daemon receives.
use usb_defense_system.Prelude.{
  ℕ, ◌==◌, ◌≡◌, refl, sym, ap, ◌∙◌, Bool, true, false, Option, none, some, List, [], ◌∷◌, ◌++◌,
  if◌then◌else◌, Text, arith, map, keep, length, drop,
}
use mathlib.Core.Path.{subst}
use mathlib.Core.List.{append_assoc, append-nil, map-append}
use usb_defense_system.Json.{Json, truthy}
use usb_defense_system.Platform.{Platform}
use usb_defense_system.Config.{Config}
use usb_defense_system.Ipc.Server.{Peer, Server, line_of, broadcast}
use usb_defense_system.Ipc.Server.Broadcasting.{
  numbered, AreDistinct, with_line, is_reachable, broadcast-reachable,
}
use usb_defense_system.Daemon.Lockdown.Consistency.{IsConsistent}
use usb_defense_system.Daemon.Broadcasts.{now-IsTold}
use usb_defense_system.Daemon.Broadcasts.Runs.{step-IsTold, run-IsTold, append-cancel}
use usb_defense_system.Daemon.Run.{Input, step, run}
use usb_defense_system.Daemon.Run.Safety.{step-IsConsistent}
use usb_defense_system.Daemon.Service.{Service, broadcast_all, fresh_events, serve, serve_all}

-- The client with a number, if there is one.
abbrev pub client_at : ℕ → List Peer → Option Peer
client_at n [] = none
client_at n (p ∷ ps) = let rest = client_at n ps in if p.number == n then some p else rest

-- The client, with the lines of some events received.
abbrev pub with_events : Platform → List Json → Peer → Peer
with_events P events p = record p { received = p.received ++ map (line_of P) events }

abbrev reached : Text → List Peer → List Peer
reached line ps = map (with_line line) (keep is_reachable ps)

client_at-reached :
    (line : Text) (n : ℕ) (ps : List Peer) (p : Peer)
    → client_at n ps ≡ some p
    → p.reachable ≡ true
    → client_at n (reached line ps) ≡ some (with_line line p)
client_at-reached line n [] p f r = cc
client_at-reached line n (q ∷ ps) p f r = ground (arith, f, r, client_at-reached line n ps p)

numbered-reached :
    (line : Text) (n : ℕ) (ps : List Peer)
    → numbered n ps ≡ false
    → numbered n (reached line ps) ≡ false
numbered-reached line n [] h = refl
numbered-reached line n (q ∷ ps) h = ground (arith, h, numbered-reached line n ps)

reached-AreDistinct :
    (line : Text) (ps : List Peer) → AreDistinct ps → AreDistinct (reached line ps)
reached-AreDistinct line [] h = tt
reached-AreDistinct line (q ∷ ps) (n, h) = by_reach q.reachable (reached-AreDistinct line ps h)
  where
    by_reach :
        (b : Bool)
        → AreDistinct (reached line ps)
        → AreDistinct
            (map (with_line line) (if b then q ∷ keep is_reachable ps else keep is_reachable ps))
    by_reach true rest = (numbered-reached line q.number ps n, rest)
    by_reach false rest = rest

pub drop-appended : {A : Type 0} (xs ys : List A) → drop (length xs) (xs ++ ys) ≡ ys
drop-appended [] ys = refl
drop-appended (x ∷ xs) ys = drop-appended xs ys

module _ (P : Platform) where
  with_events-append :
      (es fs : List Json) (p : Peer)
      → with_events P fs (with_events P es p) ≡ with_events P (es ++ fs) p
  with_events-append es fs p =
      ap (λ (ls : List Text). record p { received = ls })
        (append_assoc p.received (map (line_of P) es) (map (line_of P) fs)
          ∙ ap (λ (ls : List Text). p.received ++ ls) (sym (map-append (line_of P) es fs)))

  -- The client is there, and can be reached.
  pub record IsClient (n : ℕ) (p : Peer) (s : Server) : Type 0 where
    pub distinct : AreDistinct s.clients
    pub found : client_at n s.clients ≡ some p
    pub reachable : p.reachable ≡ true

  broadcast-IsClient :
      (event : Json) (n : ℕ) (p : Peer) (s : Server)
      → IsClient n p s
      → IsClient n (with_line (line_of P event) p) (broadcast P event s)
  broadcast-IsClient event n p s h = rw (broadcast-reachable P event s h.distinct) (record {
    distinct = reached-AreDistinct (line_of P event) s.clients h.distinct;
    found = client_at-reached (line_of P event) n s.clients p h.found h.reachable;
    reachable = h.reachable;
  })

  broadcast_all-IsClient :
      (events : List Json) (n : ℕ) (p : Peer) (s : Server)
      → IsClient n p s
      → IsClient n (with_events P events p) (broadcast_all P events s)
  unfolding broadcast_all
  broadcast_all-IsClient [] n p s h =
      subst (λ (ls : List Text). IsClient n (record p { received = ls }) s)
        (sym (append-nil p.received)) h
  broadcast_all-IsClient (e ∷ es) n p s h =
      let line = line_of P e in
      subst
        (λ (ls : List Text). IsClient n (record p { received = ls }) (broadcast_all P (e ∷ es) s))
        (append_assoc p.received (line ∷ []) (map (line_of P) es))
        (broadcast_all-IsClient es n (with_line line p) (broadcast P e s)
          (broadcast-IsClient e n p s h))

  module _ {c : Config} (off : truthy c.simulator_enabled ≡ false) where
    -- With the simulator disabled, take a daemon whose flag files agree with its memory and are not
    -- immutable, and a server whose clients have different sockets. After any sequence of inputs, a
    -- client that was there and could be reached is still there, and has received exactly the lines of
    -- the events that the daemon broadcast meanwhile, in their order, after what it had received
    -- before; and the daemon is as if it had run alone.
    pub serve_all-IsClient :
        (inputs : List Input) (events : List Json) (n : ℕ) (p : Peer) (s : Service)
        → IsConsistent P c s.daemon
        → IsClient n p s.server
        → (run P inputs s.daemon).broadcasts ≡ s.daemon.broadcasts ++ events
        → let s' = serve_all P inputs s in
          (s'.daemon ≡ run P inputs s.daemon) × IsClient n (with_events P events p) s'.server
    unfolding serve_all serve run
    serve_all-IsClient [] events n p s h k e =
        let none_yet : [] ≡ events =
          append-cancel s.daemon.broadcasts [] events (append-nil s.daemon.broadcasts ∙ e) in
        (
          refl,
          subst (λ (es : List Json). IsClient n (with_events P es p) s.server) none_yet
              (broadcast_all-IsClient [] n p s.server k),
        )
    serve_all-IsClient (i ∷ is) events n p s h k e =
        let d = s.daemon in
        let d' = step P i d in
        let ready = step-IsConsistent P off i d h in
        let first = step-IsTold P off i d h (now-IsTold d) in
        let later = run-IsTold P off is d' ready (now-IsTold d') in
        let sent : fresh_events d d' ≡ first.since =
          ap (drop (length d.broadcasts)) first.grown ∙ drop-appended d.broadcasts first.since in
        let client =
          subst
            (λ (es : List Json).
              IsClient n (with_events P es p) (broadcast_all P (fresh_events d d') s.server))
            sent (broadcast_all-IsClient (fresh_events d d') n p s.server k) in
        let (same, kept) =
          serve_all-IsClient is later.since n (with_events P first.since p) (serve P i s) ready
            client later.grown in
        let all : first.since ++ later.since ≡ events =
          append-cancel d.broadcasts (first.since ++ later.since) events (
            sym (append_assoc d.broadcasts first.since later.since)
            ∙ ap (λ (es : List Json). es ++ later.since) (sym first.grown)
            ∙ sym later.grown
            ∙ e) in
        (
          same,
          subst (λ (q : Peer). IsClient n q (serve_all P is (serve P i s)).server)
              (with_events-append first.since later.since p
                ∙ ap (λ (es : List Json). with_events P es p) all)
              kept,
        )
