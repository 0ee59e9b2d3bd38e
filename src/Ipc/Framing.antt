-- ===== src/Ipc/Framing.antt =====
-- `_client_loop` over the chunks of one client, and `_apply_socket_permissions`.
use usb_defense_system.Prelude.{
  is_some, ◌&&◌, ◌||◌, ◌≡◌, ◌≢◌, refl, sym, ap, ◌∙◌, ◌⊎◌, Bool, true, false, text_eq, none, List,
  [], ◌∷◌, ◌++◌, Text, arith, if◌then◌else◌,
}
use mathlib.Core.List.{append_assoc, append-nil}
use usb_defense_system.Json.{Json}
use usb_defense_system.Exec.{Exec, Result, ok, err, runtime_error, continue, pure, ◌>>=◌, ◌>>◌}
use usb_defense_system.Platform.{Platform}
use usb_defense_system.Ipc.{
  SocketHost, SocketFile, apply_socket_permissions, Connection, cut_lines, uncut, serve_line,
  serve_lines, serve_buffer, client_loop,
}

-- On a POSIX host without the override, `_apply_socket_permissions` returns if the group
-- `usbdefense` exists and `chown` and `chmod` succeed, and otherwise raises a `RuntimeError`; where
-- it has not raised, the socket has mode 0660 and that group.
pub apply_socket_permissions_closed :
    (H : SocketHost) (s : SocketFile)
    → H.posix ≡ true
    → H.allow_open ≡ false
    → let (r, s') = apply_socket_permissions H s in
      (r ≡ (if is_some H.gid && (H.chown_ok && H.chmod_ok) then ok tt else err runtime_error))
      × ((r ≡ err runtime_error) ⊎ ((s'.mode ≡ 0o660) × (s'.group ≡ H.gid)))
unfolding apply_socket_permissions
apply_socket_permissions_closed H s p a = ground (arith, p, a)

pub cut_lines-append :
    (s t : Text)
    → let (ls, buf) = cut_lines s in
      let (ms, buf') = cut_lines (buf ++ t) in cut_lines (s ++ t) ≡ (ls ++ ms, buf')
unfolding cut_lines
cut_lines-append [] t = refl
cut_lines-append (c ∷ s) t = ground (arith, cut_lines-append s t)

-- What is left in the buffer holds no line.
pub cut_lines-buffer : (s : Text) → cut_lines (cut_lines s).1 ≡ ([], (cut_lines s).1)
unfolding cut_lines
cut_lines-buffer [] = refl
cut_lines-buffer (c ∷ s) = ground (arith, cut_lines-buffer s)

-- The chunks, joined.
abbrev pub joined : List Text → Text
joined [] = []
joined (chunk ∷ rest) = chunk ++ joined rest

-- The chunks that the loop takes: up to the stop, or to the first empty one.
abbrev pub received : List (Bool × Text) → List Text
received [] = []
received ((stopped, chunk) ∷ rest) =
    let more = received rest in if stopped || text_eq chunk [] then [] else chunk ∷ more

module _ (P : Platform) {S : Type 0} (on_command : Json → Exec S Json) where
  -- What comes after a line that was served.
  abbrev after_line : List Text → Text → Bool → Exec (Connection S) Text
  after_line ls buf goes_on = elim goes_on [
    | true ↦ serve_lines P on_command ls buf
    | false ↦ pure (uncut ls buf)
  ]

  serve_line-goes_on :
      (line : Text) (k : Connection S)
      → k.budget ≡ none
      → let (r, k') = serve_line P on_command line k in (r ≢ ok false) × (k'.budget ≡ none)
  unfolding serve_line
  serve_line-goes_on line k h = (λ e. ground (arith, h, e), ground (arith, h))

  -- Where no answer fails, the lines are all served, whatever is left in the buffer.
  serve_lines-then :
      (ls : List Text) (buf : Text) (f : Text → Exec (Connection S) Text) (k : Connection S)
      → k.budget ≡ none
      → (serve_lines P on_command ls buf >>= f) k ≡ (serve_lines P on_command ls [] >> f buf) k
  unfolding serve_lines
  serve_lines-then [] buf f k h = refl
  serve_lines-then (line ∷ ls) buf f k h =
      from (serve_line P on_command line k) (serve_line-goes_on line k h)
        (serve_lines-then ls buf f)
    where
      from :
          (r : Result Bool × Connection S)
          → (r.0 ≢ ok false) × (r.1.budget ≡ none)
          → ((k' : Connection S)
              → k'.budget ≡ none
              → (serve_lines P on_command ls buf >>= f) k'
                ≡ (serve_lines P on_command ls [] >> f buf) k')
          → (let q = continue r.0 (after_line ls buf) r.1 in continue q.0 f q.1)
            ≡ (let q = continue r.0 (after_line ls []) r.1 in continue q.0 (λ _. f buf) q.1)
      from (ok true, k') (n, free) rec = rec k' free
      from (ok false, k') (n, free) rec = absurd (n refl)
      from (err x, k') (n, free) rec = refl

  serve_lines-append :
      (ls ms : List Text) (buf : Text) (k : Connection S)
      → k.budget ≡ none
      → serve_lines P on_command (ls ++ ms) buf k
        ≡ (serve_lines P on_command ls [] >> serve_lines P on_command ms buf) k
  unfolding serve_lines
  serve_lines-append [] ms buf k h = refl
  serve_lines-append (line ∷ ls) ms buf k h =
      from (serve_line P on_command line k) (serve_line-goes_on line k h)
        (serve_lines-append ls ms buf)
    where
      from :
          (r : Result Bool × Connection S)
          → (r.0 ≢ ok false) × (r.1.budget ≡ none)
          → ((k' : Connection S)
              → k'.budget ≡ none
              → serve_lines P on_command (ls ++ ms) buf k'
                ≡ (serve_lines P on_command ls [] >> serve_lines P on_command ms buf) k')
          → continue r.0 (after_line (ls ++ ms) buf) r.1 ≡ (
              let q = continue r.0 (after_line ls []) r.1 in
              continue q.0 (λ _. serve_lines P on_command ms buf) q.1)
      from (ok true, k') (n, free) rec = rec k' free
      from (ok false, k') (n, free) rec = absurd (n refl)
      from (err x, k') (n, free) rec = refl

  serve_lines-budget :
      (ls : List Text) (buf : Text) (k : Connection S)
      → k.budget ≡ none
      → (serve_lines P on_command ls buf k).1.budget ≡ none
  unfolding serve_lines
  serve_lines-budget [] buf k h = h
  serve_lines-budget (line ∷ ls) buf k h =
      from (serve_line P on_command line k) (serve_line-goes_on line k h)
        (serve_lines-budget ls buf)
    where
      from :
          (r : Result Bool × Connection S)
          → (r.0 ≢ ok false) × (r.1.budget ≡ none)
          → ((k' : Connection S)
              → k'.budget ≡ none
              → (serve_lines P on_command ls buf k').1.budget ≡ none)
          → (continue r.0 (after_line ls buf) r.1).1.budget ≡ none
      from (ok true, k') (n, free) rec = rec k' free
      from (ok false, k') (n, free) rec = absurd (n refl)
      from (err x, k') (n, free) rec = free

  serve_buffer-rest :
      (buf : Text) (k : Connection S)
      → cut_lines buf ≡ ([], buf)
      → serve_buffer P on_command buf k ≡ (ok buf, k)
  unfolding serve_buffer serve_lines
  serve_buffer-rest buf k n = ap (λ (c : List Text × Text). serve_lines P on_command c.0 c.1 k) n

  -- What is there is served, and then the rest behind what was left of it.
  serve_buffer-append :
      (s t : Text) (k : Connection S)
      → k.budget ≡ none
      → serve_buffer P on_command (s ++ t) k
        ≡ (serve_lines P on_command (cut_lines s).0 []
              >> serve_buffer P on_command ((cut_lines s).1 ++ t))
            k
  unfolding serve_buffer
  serve_buffer-append s t k h =
      let (ls, buf) = cut_lines s in
      let (ms, buf') = cut_lines (buf ++ t) in
      ap (λ (c : List Text × Text). serve_lines P on_command c.0 c.1 k) (cut_lines-append s t)
      ∙ serve_lines-append ls ms buf' k h

  same_after :
      {A : Type 0} (m : Exec (Connection S) A) (f g : Exec (Connection S) Text) (k : Connection S)
      → (m k).1.budget ≡ none
      → ((k' : Connection S) → k'.budget ≡ none → f k' ≡ g k')
      → (m >> f) k ≡ (m >> g) k
  same_after {A} m f g k free same = from (m k) free
    where
      from :
          (r : Result A × Connection S)
          → r.1.budget ≡ none
          → continue r.0 (λ _. f) r.1 ≡ continue r.0 (λ _. g) r.1
      from (ok a, k') b = same k' b
      from (err x, k') b = refl

  loop-joined :
      (rounds : List (Bool × Text)) (buf : Text) (k : Connection S)
      → k.budget ≡ none
      → cut_lines buf ≡ ([], buf)
      → client_loop P on_command buf rounds k
        ≡ serve_buffer P on_command (buf ++ joined (received rounds)) k
  unfolding client_loop serve_buffer
  loop-joined [] buf k h n = sym (
      ap (λ (s : Text). serve_buffer P on_command s k) (append-nil buf) ∙ serve_buffer-rest buf k n)
  loop-joined ((stopped, chunk) ∷ rest) buf k h n =
      by_end (stopped || text_eq chunk [])
        (λ b k' free none_left. loop-joined rest b k' free none_left)
    where
      more : Text
      more = joined (received rest)

      by_end :
          (ends : Bool)
          → ((b : Text) (k' : Connection S)
              → k'.budget ≡ none
              → cut_lines b ≡ ([], b)
              → client_loop P on_command b rest k' ≡ serve_buffer P on_command (b ++ more) k')
          → (if ends
                then pure buf
                else (serve_buffer P on_command (buf ++ chunk) >>= λ b.
                    client_loop P on_command b rest))
              k
            ≡ serve_buffer P on_command
                (buf ++ joined (if ends then [] else chunk ∷ received rest))
                k
      by_end true rec = sym (
          ap (λ (s : Text). serve_buffer P on_command s k) (append-nil buf)
          ∙ serve_buffer-rest buf k n)
      by_end false rec =
          let (ls, buf') = cut_lines (buf ++ chunk) in
          serve_lines-then ls buf' (λ b. client_loop P on_command b rest) k h
          ∙ same_after (serve_lines P on_command ls []) (client_loop P on_command buf' rest)
              (serve_buffer P on_command (buf' ++ more)) k (serve_lines-budget ls [] k h)
              (λ k' free. rec buf' k' free (cut_lines-buffer (buf ++ chunk)))
          ∙ sym (serve_buffer-append (buf ++ chunk) more k h)
          ∙ ap (λ (s : Text). serve_buffer P on_command s k) (append_assoc buf chunk more)

  -- Where every answer can be sent, `_client_loop` handles the same messages, with the same answers
  -- and the same state, keeps the same unfinished line, and is ended by the same line that is no UTF-8,
  -- if any, however the bytes of the client are cut into chunks: as if those up to the stop, or to the
  -- end of the connection, had come in one.
  pub client_loop-joined :
      (rounds : List (Bool × Text)) (k : Connection S)
      → k.budget ≡ none
      → client_loop P on_command [] rounds k
        ≡ serve_buffer P on_command (joined (received rounds)) k
  unfolding cut_lines
  client_loop-joined rounds k h = loop-joined rounds [] k h refl
