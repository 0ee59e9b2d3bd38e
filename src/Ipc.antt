-- ===== src/Ipc.antt =====
-- usbguard_defense/ipc.py, the daemon's side: the permissions of the socket, and the lines that a
-- client sends.
pub mod Framing
pub mod Lines
pub mod Client
pub mod Server
use usb_defense_system.Prelude.{
  ℕ, zero, suc, ◌==◌, Bool, true, false, not, ◌||◌, Option, none, some, List, [], ◌∷◌, ◌++◌,
  if◌then◌else◌, Text, strip, text_eq,
}
use usb_defense_system.Json.{Json, obj, str, field, end, or_else}
use usb_defense_system.Exec.{
  Result, Exec, Error, ok, err, pure, runtime_error, value_error, modify, ◌>>=◌, ◌>>◌,
}
use usb_defense_system.Platform.{Platform}

-- The host, as far as the permissions of the socket depend on it. `allow_open` is the variable
-- `USB_DEFENSE_IPC_ALLOW_OPEN`, `gid` the number of the group `usbdefense`, if there is one.
pub record SocketHost : Type 0 where
  pub posix : Bool
  pub allow_open : Bool
  pub gid : Option ℕ
  pub chown_ok : Bool
  pub chmod_ok : Bool

-- The socket file: its permission bits, and the group that `chown` gave it.
pub record SocketFile : Type 0 where
  pub mode : ℕ
  pub group : Option ℕ

module _ (H : SocketHost) where
  abbrev try_open : SocketFile → SocketFile
  try_open s = if H.chmod_ok then record s { mode = 0o666 } else s

  abbrev chmod_closed : Exec SocketFile (Unit {0})
  chmod_closed s = if H.chmod_ok then (ok tt, record s { mode = 0o660 }) else (err runtime_error, s)

  abbrev lock_down : Option ℕ → Exec SocketFile (Unit {0})
  lock_down none s = (err runtime_error, s)
  lock_down (some gid) s =
      if H.chown_ok then chmod_closed (record s { group = some gid }) else (err runtime_error, s)

  -- `_apply_socket_permissions`
  unfoldable pub apply_socket_permissions : Exec SocketFile (Unit {0})
  apply_socket_permissions s =
      if not H.posix
      then (ok tt, s)
      else if H.allow_open
      then (ok tt, try_open s)
      else lock_down H.gid s

-- `buf.split(b"\n", 1)`, where `buf` has a line end
unfoldable pub split_line : Text → Option (Text × Text)
split_line [] = none
split_line (c ∷ s) =
    if c == 10
    then some ([], s)
    else elim (split_line s) [ none ↦ none | some (line, buf) ↦ some (c ∷ line, buf) ]

-- The loop `while b"\n" in buf: line, buf = buf.split(b"\n", 1)`, on fuel: the lines that it cuts off,
-- and what stays in `buf`.
unfoldable pub cut_while : ℕ → Text → List Text × Text
unfolding split_line
cut_while zero buf = ([], buf)
cut_while (suc fuel) buf = elim (split_line buf) [
  | none ↦ ([], buf)
  | some (line, rest) ↦ let (ls, left) = cut_while fuel rest in (line ∷ ls, left)
]

-- The same by recursion on the buffer: all the lines that the loop cuts off, and what stays in `buf`.
unfoldable pub cut_lines : Text → List Text × Text
cut_lines [] = ([], [])
cut_lines (c ∷ s) =
    let (ls, buf) = cut_lines s in
    if c == 10
    then ([] ∷ ls, buf)
    else elim ls [ [] ↦ ([], c ∷ buf) | l ∷ more ↦ ((c ∷ l) ∷ more, buf) ]

-- `b"\n".join(ls) + b"\n" + buf`: the buffer where the loop over the lines is left early
unfoldable pub uncut : List Text → Text → Text
uncut [] buf = buf
uncut (l ∷ ls) buf = l ++ (10 ∷ uncut ls buf)

-- A connection, with the state that the command handler changes. `budget` is how many more answers
-- `sendall` takes before it raises.
pub record Connection (S : Type 0) : Type 0 where
  pub state : S
  pub answers : List Json
  pub budget : Option ℕ

module _ (P : Platform) {S : Type 0} (on_command : Json → Exec S Json) where
  -- `on_command(msg) or {}`, or the error's text
  abbrev response_of : Result Json → Json
  response_of (ok j) = or_else j (obj end)
  response_of (err e) = obj (field "error" (str (P.error_text e)) end)

  abbrev sent : Json → Option ℕ → Connection S → Bool × Connection S
  sent j none k = (true, record k { answers = k.answers ++ j ∷ [] })
  sent j (some zero) k = (false, k)
  sent j (some (suc n)) k = (true, record k { answers = k.answers ++ j ∷ []; budget = some n })

  abbrev answer : Json → Connection S → Bool × Connection S
  answer msg k =
      let r = on_command msg k.state in sent (response_of r.0) k.budget (record k { state = r.1 })

  abbrev on_message : Option Json → Exec (Connection S) Bool
  on_message none k = (ok true, k)
  on_message (some msg) k = let (goes_on, k') = answer msg k in (ok goes_on, k')

  -- One line; false where `sendall` raised, which leaves the loop over the lines. A line that is no
  -- UTF-8 raises a `UnicodeDecodeError`, a `ValueError` that is no `JSONDecodeError`.
  unfoldable pub serve_line : Text → Exec (Connection S) Bool
  serve_line line k =
      if text_eq (strip line) []
      then (ok true, k)
      else if P.decodes line
      then on_message (P.loads line) k
      else (err value_error, k)

  -- The loop over the lines of the buffer, with what it leaves in the buffer.
  unfoldable pub serve_lines : List Text → Text → Exec (Connection S) Text
  serve_lines [] buf = pure buf
  serve_lines (line ∷ ls) buf = do
    goes_on ← serve_line line
    elim goes_on [ true ↦ serve_lines ls buf | false ↦ pure (uncut ls buf) ]

  unfoldable pub serve_buffer : Text → Exec (Connection S) Text
  unfolding cut_lines serve_lines
  serve_buffer text = let (ls, buf) = cut_lines text in serve_lines ls buf

  -- `_client_loop` up to its `finally`, with what it leaves in the buffer. A round is whether `_stop` is
  -- set at its start, and the chunk that `recv` returns otherwise; the loop also ends before a round
  -- that is not given, in which `recv` waits or raises.
  unfoldable pub client_loop : Text → List (Bool × Text) → Exec (Connection S) Text
  unfolding serve_buffer
  client_loop buf [] = pure buf
  client_loop buf ((stopped, chunk) ∷ rest) =
      if stopped || text_eq chunk []
      then pure buf
      else serve_buffer (buf ++ chunk) >>= λ buf'. client_loop buf' rest
