-- ===== src/Tests/Setup.antt =====
-- Witnesses for the setup ceremony and for the socket.
use usb_defense_system.Prelude.{
  ℕ, Bool, inl, inr, ◌≡◌, ◌⊎◌, refl, true, false, is_some, ◌&&◌, none, some, List, [], ◌∷◌, Text,
  codes, if◌then◌else◌, text_eq,
}
use usb_defense_system.Json.{Json}
use usb_defense_system.Exec.{Exec, ok, err, runtime_error, system_exit}
use usb_defense_system.Files.{
  FileSystem, set_file, whitelist_path, admin_hash_path, recovery_seed_hash_path, run_calls,
}
use usb_defense_system.Files.Content.{content_at}
use usb_defense_system.Auth.{set_admin_password, is_admin_password_set}
use usb_defense_system.Integrity.{ensure_master_key, create_key, checked_key}
use usb_defense_system.Recovery.{generate_new, display}
use usb_defense_system.Whitelist.{document}
use usb_defense_system.Setup.{
  Randomness, prompt_password, forget_secrets, ceremony, cmd_setup, init_signed_whitelist,
  init_calls,
}
use usb_defense_system.Setup.Reset.{cmd_setup_reset}
use usb_defense_system.Setup.Once.{cmd_setup_once}
use usb_defense_system.Ipc.{
  SocketHost, SocketFile, apply_socket_permissions, Connection, client_loop, serve_buffer,
}
use usb_defense_system.Ipc.Framing.{
  apply_socket_permissions_closed, joined, received, client_loop-joined,
}
use usb_defense_system.Tests.Host.{host, with_password, password, private_file}

abbrev random : Randomness
random = record {
  salt = codes "$";
  token = codes "0123456789abcdef";
  raw = codes "0123456789ABCDEF";
  code_salt = codes "$";
}

abbrev enrolled : FileSystem
enrolled = set_file whitelist_path (some (private_file (codes "devices"))) with_password

abbrev typed : List (Text × Text)
typed = (codes "short", []) ∷ (password, password) ∷ []

abbrev reset_files : FileSystem
reset_files = (cmd_setup host true true random typed enrolled).1

cmd_setup_reset_example : content_at reset_files whitelist_path ≡ some (host.dumps (document []))
unfolding cmd_setup ceremony forget_secrets prompt_password set_admin_password ensure_master_key
    create_key checked_key init_signed_whitelist init_calls run_calls generate_new text_eq
    is_admin_password_set
cmd_setup_reset_example =
    cmd_setup_reset host random typed enrolled reset_files (display random.raw) refl

abbrev only_key : FileSystem
only_key = set_file admin_hash_path none (set_file recovery_seed_hash_path none reset_files)

-- The master key alone is left.
cmd_setup_once_example :
    cmd_setup host true false random typed only_key ≡ (err system_exit, only_key)
unfolding cmd_setup ceremony forget_secrets prompt_password set_admin_password ensure_master_key
    create_key checked_key init_signed_whitelist init_calls run_calls generate_new text_eq
    is_admin_password_set
cmd_setup_once_example =
    cmd_setup_once host true true true random random typed typed enrolled reset_files only_key
      (display random.raw) (λ s e. cc) (λ s e. cc) refl (inr (inl refl))

abbrev socket_host : SocketHost
socket_host = record {
  posix = true;
  allow_open = false;
  gid = some 990;
  chown_ok = true;
  chmod_ok = true;
}

abbrev socket : SocketFile
socket = record { mode = 0o755; group = none }

apply_socket_permissions_closed_example :
    let (r, s') = apply_socket_permissions socket_host socket in
    (r ≡ (if is_some {A = ℕ} (some 990) && (true && true) then ok tt else err runtime_error))
    × ((r ≡ err runtime_error) ⊎ ((s'.mode ≡ 0o660) × (s'.group ≡ some 990)))
apply_socket_permissions_closed_example =
    apply_socket_permissions_closed socket_host socket refl refl

abbrev echo : Json → Exec ℕ Json
echo msg n = (ok msg, n)

abbrev connection : Connection ℕ
connection = record { state = 0; answers = []; budget = none }

-- The stop is set before the third chunk.
abbrev rounds : List (Bool × Text)
rounds = (false, codes "{") ∷ (false, codes "}\n{") ∷ (true, codes "}") ∷ []

client_loop-joined_example :
    client_loop host echo [] rounds connection
    ≡ serve_buffer host echo (joined (received rounds)) connection
client_loop-joined_example = client_loop-joined host echo rounds connection refl
