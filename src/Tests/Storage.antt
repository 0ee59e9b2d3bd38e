-- ===== src/Tests/Storage.antt =====
-- Witnesses for the password, the recovery code and the signatures.
use usb_defense_system.Prelude.{
  ◌≡◌, refl, true, false, none, some, Text, codes, arith, strip, text_eq, lower, strip_left,
  strip_chars,
}
use usb_defense_system.Exec.{ok}
use usb_defense_system.Files.{FileSystem, set_file, recovery_seed_hash_path}
use usb_defense_system.Auth.{
  set_admin_password, verify_admin_password, is_admin_password_set, check_stored,
}
use usb_defense_system.Auth.Laws.{verify-set_admin_password}
use usb_defense_system.Recovery.{generate_new, verify_and_consume, is_set, display, normalize}
use usb_defense_system.Recovery.Code.{normalize-display_crockford}
use usb_defense_system.Recovery.Once.{consume-generate_new, verify_and_consume_once}
use usb_defense_system.Tests.Host.{host, no_files, password, private_file}

abbrev set_files : FileSystem
set_files = (set_admin_password host (codes "$") password no_files).1

verify-set_admin_password_example :
    ((set_admin_password host (codes "$") password no_files).0 ≡ ok tt)
    × (is_admin_password_set set_files ≡ true)
    × (verify_admin_password host password set_files ≡ (ok true, set_files))
unfolding strip_left strip_chars strip text_eq
verify-set_admin_password_example =
    verify-set_admin_password host (codes "$") password password no_files true (omega arith) refl
      refl refl (λ e. cc) refl refl

abbrev drawn : Text
drawn = codes "0123456789ABCDEF"

normalize-display_crockford_example :
    (normalize (display drawn) ≡ drawn)
    × (normalize (lower (display drawn)) ≡ drawn)
    × (normalize drawn ≡ drawn)
normalize-display_crockford_example = normalize-display_crockford drawn refl (ground arith)

abbrev coded : FileSystem
coded = (generate_new host drawn (codes "$") no_files).1

consume-generate_new_example :
    ((generate_new host drawn (codes "$") no_files).0 ≡ ok (display drawn))
    × (verify_and_consume host (display drawn) coded
        ≡ (ok true, set_file recovery_seed_hash_path none coded))
    × (verify_and_consume host (lower (display drawn)) coded
        ≡ (ok true, set_file recovery_seed_hash_path none coded))
unfolding strip_left strip_chars strip text_eq
consume-generate_new_example =
    consume-generate_new host drawn (codes "$") no_files refl refl refl refl (ground arith)
      (λ e. cc) refl refl

abbrev stored : FileSystem
stored = set_file recovery_seed_hash_path (some (private_file (codes "$ABC"))) no_files

abbrev used : FileSystem
used = (verify_and_consume host (codes "a-bc") stored).1

verify_and_consume_once_example :
    (is_set used ≡ false) × (verify_and_consume host (codes "abc") used ≡ (ok false, used))
unfolding verify_and_consume check_stored normalize strip_left strip_chars strip text_eq
verify_and_consume_once_example =
    verify_and_consume_once host (codes "a-bc") (codes "abc") stored used refl refl
