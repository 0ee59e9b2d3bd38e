-- ===== src/Ui/Overlay/Visibility.antt =====
-- What `show_for` and `record_intrusion` do to the visibility of the overlay.
use usb_defense_system.Prelude.{◌≡◌, refl, ap, ◌∙◌, Bool, true, false, ◌||◌, [], ◌∷◌, Text, arith}
use usb_defense_system.Json.{
  Json, null, bool, int, pos, negsuc, str, arr, nil, cons, obj, field, end,
}
use usb_defense_system.Exec.{Result, ok, err, continue, modify}
use usb_defense_system.Platform.{Platform}
use usb_defense_system.Ui.Display.{Desktop}
use usb_defense_system.Daemon.Broadcasts.{is_time, can_show}
use usb_defense_system.Ui.Overlay.{
  Overlay, record_intrusion, timeline_row, add_row, format_started_at, show_for,
}

abbrev is_ok : {A : Type 0} → Result A → Bool
is_ok (ok a) = true
is_ok (err e) = false

module _ (P : Platform) (D : Desktop) where
  format_started_at-ok :
      (started_at : Json) → is_ok (format_started_at P D started_at) ≡ is_time started_at
  unfolding format_started_at
  format_started_at-ok null = refl
  format_started_at-ok (bool true) = refl
  format_started_at-ok (bool false) = refl
  format_started_at-ok (int (pos n)) = ground arith
  format_started_at-ok (int (negsuc n)) = refl
  format_started_at-ok (str []) = refl
  format_started_at-ok (str (c ∷ s)) = refl
  format_started_at-ok (arr nil) = refl
  format_started_at-ok (arr (cons x xs)) = refl
  format_started_at-ok (obj end) = refl
  format_started_at-ok (obj (field k v fs)) = refl

  abbrev uncovered : Text → Overlay → Overlay
  uncovered desc o = record o { device_label = desc; error_shown = false }

  abbrev covered : Text → Overlay → Overlay
  covered started o = record o {
    started_label = started;
    timeline = [];
    timeline_empty_shown = true;
    visible = true;
    blinking = true;
    grabs = true;
  }

  pub show_for-visible :
      (offender started_at : Json) (o : Overlay)
      → (show_for P D offender started_at o).1.visible ≡ (can_show offender started_at || o.visible)
  unfolding show_for
  show_for-visible (obj fields) started_at o =
      by_time _ (format_started_at P D started_at)
      ∙ ap (λ (b : Bool). b || o.visible) (format_started_at-ok started_at)
    where
      by_time :
          (desc : Text) (r : Result Text)
          → (continue r (λ started. modify (covered started)) (uncovered desc o)).1.visible
            ≡ (is_ok r || o.visible)
      by_time desc (ok started) = refl
      by_time desc (err e) = refl
  show_for-visible null started_at o = refl
  show_for-visible (bool b) started_at o = refl
  show_for-visible (int n) started_at o = refl
  show_for-visible (str s) started_at o = refl
  show_for-visible (arr xs) started_at o = refl

  pub record_intrusion-visible :
      (kind detail ts : Json) (o : Overlay)
      → (record_intrusion P D kind detail ts o).1.visible ≡ o.visible
  unfolding record_intrusion
  record_intrusion-visible kind detail ts o = by_row (timeline_row P D kind detail ts)
    where
      by_row :
          (r : Result Text) → (continue r (λ row. modify (add_row P D row)) o).1.visible ≡ o.visible
      by_row (ok row) = refl
      by_row (err e) = refl
