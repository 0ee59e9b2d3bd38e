-- ===== src/Ipc/Client/Receiving.antt =====
-- `_recv_loop` on the lines that the daemon broadcasts.
use usb_defense_system.Prelude.{
  ℕ, ◌==◌, ◌≡◌, refl, sym, ap, ◌∙◌, true, false, some, List, [], ◌∷◌, ◌++◌, Text, arith, strip,
  text_eq,
}
use mathlib.Core.List.{append_assoc, append-nil}
use usb_defense_system.Json.{Json}
use usb_defense_system.Exec.{Result, ok, err, Exec, continue, ◌>>◌}
use usb_defense_system.Platform.{Platform}
use usb_defense_system.Ipc.{cut_lines}
use usb_defense_system.Ipc.Framing.{joined, cut_lines-append, cut_lines-buffer}
use usb_defense_system.Ipc.Server.{line_of}
use usb_defense_system.Ipc.Client.{Client, recv_line, recv_lines, recv_chunks, recv_loop}

-- The codec writes the event as one line, and reads it back.
pub record IsSent (P : Platform) (event : Json) : Type 0 where
  pub parses : P.loads (P.dumps event) ≡ some event
  pub one_line : cut_lines (P.dumps event) ≡ ([], P.dumps event)
  pub decodes : P.decodes (P.dumps event) ≡ true
  pub not_blank : text_eq (strip (P.dumps event)) [] ≡ false

abbrev pub AreSent : Platform → List Json → Type 0
AreSent P [] = Unit
AreSent P (e ∷ es) = IsSent P e × AreSent P es

-- The bytes of the events, one line each.
abbrev pub stream : Platform → List Json → Text
stream P [] = []
stream P (e ∷ es) = line_of P e ++ stream P es

cut_lines-tail :
    (c : ℕ) (l : Text)
    → cut_lines (c ∷ l) ≡ ([], c ∷ l)
    → ((c == 10) ≡ false) × (cut_lines l ≡ ([], l))
unfolding cut_lines
cut_lines-tail c l h = ground (arith, h)

cut_lines-line :
    (l rest : Text)
    → cut_lines l ≡ ([], l)
    → cut_lines ((l ++ 10 ∷ []) ++ rest) ≡ (l ∷ (cut_lines rest).0, (cut_lines rest).1)
unfolding cut_lines
cut_lines-line [] rest h = refl
cut_lines-line (c ∷ l) rest h =
    let (n, more) = cut_lines-tail c l h in ground (arith, n, cut_lines-line l rest more)

module _ (P : Platform) {S : Type 0} (on_event : Json → Exec S (Unit {0})) where
  recv_lines-append :
      (ls ms : List Text) (s : S)
      → recv_lines P on_event (ls ++ ms) s
        ≡ (recv_lines P on_event ls >> recv_lines P on_event ms) s
  unfolding recv_lines
  recv_lines-append [] ms s = refl
  recv_lines-append (l ∷ ls) ms s = from (recv_line P on_event l s) (recv_lines-append ls ms)
    where
      from :
          (r : Result (Unit {0}) × S)
          → ((s' : S)
              → recv_lines P on_event (ls ++ ms) s'
                ≡ (recv_lines P on_event ls >> recv_lines P on_event ms) s')
          → continue r.0 (λ _. recv_lines P on_event (ls ++ ms)) r.1 ≡ (
              let q = continue r.0 (λ _. recv_lines P on_event ls) r.1 in
              continue q.0 (λ _. recv_lines P on_event ms) q.1)
      from (ok u, s') rec = rec s'
      from (err x, s') rec = refl

  recv_chunks-joined :
      (chunks : List Text) (buf : Text) (s : S)
      → cut_lines buf ≡ ([], buf)
      → recv_chunks P on_event buf chunks s
        ≡ recv_lines P on_event (cut_lines (buf ++ joined chunks)).0 s
  unfolding recv_chunks recv_lines
  recv_chunks-joined [] buf s n = sym (
      ap (λ (t : Text). recv_lines P on_event (cut_lines t).0 s) (append-nil buf)
      ∙ ap (λ (c : List Text × Text). recv_lines P on_event c.0 s) n)
  recv_chunks-joined (chunk ∷ rest) buf s n =
      let (ls, buf') = cut_lines (buf ++ chunk) in
      rest_joined ls buf' (λ s'. recv_chunks-joined rest buf' s' (cut_lines-buffer (buf ++ chunk)))
        (recv_lines P on_event ls s)
      ∙ sym (recv_lines-append ls (cut_lines (buf' ++ joined rest)).0 s)
      ∙ sym (
          ap (λ (c : List Text × Text). recv_lines P on_event c.0 s)
            (cut_lines-append (buf ++ chunk) (joined rest)))
      ∙ ap (λ (t : Text). recv_lines P on_event (cut_lines t).0 s)
          (append_assoc buf chunk (joined rest))
    where
      rest_joined :
          (ls : List Text) (buf' : Text)
          → ((s' : S)
              → recv_chunks P on_event buf' rest s'
                ≡ recv_lines P on_event (cut_lines (buf' ++ joined rest)).0 s')
          → (r : Result (Unit {0}) × S)
          → continue r.0 (λ _. recv_chunks P on_event buf' rest) r.1
            ≡ continue r.0 (λ _. recv_lines P on_event (cut_lines (buf' ++ joined rest)).0) r.1
      rest_joined ls buf' rec (ok u, s') = rec s'
      rest_joined ls buf' rec (err x, s') = refl

  -- The handler on the events, one after the other.
  abbrev pub handle_all : List Json → S → S
  handle_all [] s = s
  handle_all (e ∷ es) s = handle_all es (on_event e s).1

  recv_lines-stream :
      (es : List Json) (s : S)
      → AreSent P es
      → recv_lines P on_event (cut_lines (stream P es)).0 s ≡ (ok tt, handle_all es s)
  unfolding cut_lines recv_lines recv_line
  recv_lines-stream [] s h = refl
  recv_lines-stream (e ∷ es) s (h, hs) =
      rw
        (
          cut_lines-line (P.dumps e) (stream P es) h.one_line,
          recv_lines,
          h.not_blank,
          h.decodes,
          h.parses,
        )
        (recv_lines-stream es (on_event e s).1 hs)

  -- If the codec writes each event as one line that it reads back, and the bytes that the client
  -- receives are those of the events, a line each, then however they are cut into chunks, the client
  -- hands exactly these events to its handler, in their order; afterwards it is no longer connected.
  pub recv_loop-stream :
      (es : List Json) (chunks : List Text) (k : Client) (s : S)
      → AreSent P es
      → joined chunks ≡ stream P es
      → recv_loop P on_event chunks (k, s) ≡ (record k { connected = false }, handle_all es s)
  unfolding recv_loop cut_lines
  recv_loop-stream es chunks k s h j =
      ap (λ (r : Result (Unit {0}) × S). (record k { connected = false }, r.1))
        (recv_chunks-joined chunks [] s refl
          ∙ ap (λ (t : Text). recv_lines P on_event (cut_lines t).0 s) j
          ∙ recv_lines-stream es s h)
