-- ===== src/Client/Capture.antt =====
-- packages/client/src/media/capture-state.ts
use Prim.Native.String.{◌++◌ as append}
use zvonok.Prelude.{String, ◌≡◌, refl, Bool, true, false, not, Option, none, some}

pub data CaptureState : Type 0 where
  stopped starting active muted device_error no_device : CaptureState
  device_in_use device_not_found system_denied capture_canceled : CaptureState

pub data CaptureKind : Type 0 where
  video audio : CaptureKind

pub data CaptureStatus : Type 0 where
  loading error on off : CaptureStatus

unfoldable pub is_active : CaptureState → Bool
is_active active = true
is_active muted = true
is_active _ = false

unfoldable pub is_error : CaptureState → Bool
is_error device_error = true
is_error no_device = true
is_error device_in_use = true
is_error device_not_found = true
is_error system_denied = true
is_error _ = false

unfoldable pub can_toggle : CaptureState → Bool
can_toggle stopped = true
can_toggle active = true
can_toggle muted = true
can_toggle device_error = true
can_toggle device_not_found = true
can_toggle capture_canceled = true
can_toggle _ = false

unfoldable pub can_retry : CaptureState → Bool
can_retry device_not_found = true
can_retry device_error = true
can_retry capture_canceled = true
can_retry _ = false

pub record CaptureStateDisplay : Type 0 where
  pub status : CaptureStatus
  pub status_text : Option String
  pub tooltip : String

label : CaptureKind → String
label video = "Camera"
label audio = "Microphone"

-- `label.toLowerCase()`
lower_label : CaptureKind → String
lower_label video = "camera"
lower_label audio = "microphone"

abbrev turn_on : CaptureKind → CaptureStateDisplay
turn_on kind = record {
  status = off;
  status_text = none;
  tooltip = append "Turn on " (lower_label kind);
}

unfoldable pub get_capture_state_display : CaptureState → CaptureKind → CaptureStateDisplay
unfolding label lower_label
get_capture_state_display active kind = record {
  status = on;
  status_text = none;
  tooltip = append "Turn off " (lower_label kind);
}
get_capture_state_display stopped kind = turn_on kind
get_capture_state_display muted kind = turn_on kind
get_capture_state_display capture_canceled kind = turn_on kind
get_capture_state_display starting kind = record {
  status = loading;
  status_text = some "Starting...";
  tooltip = append (label kind) " starting...";
}
get_capture_state_display device_not_found kind = record {
  status = error;
  status_text = some "Blocked";
  tooltip = append (label kind) " blocked. You can turn on in browser settings";
}
get_capture_state_display system_denied kind = record {
  status = error;
  status_text = some "Blocked in system settings";
  tooltip = append (label kind) " blocked in system settings";
}
get_capture_state_display device_in_use kind = record {
  status = error;
  status_text = some "In use by another app";
  tooltip = append (label kind) " in use by another app";
}
get_capture_state_display no_device kind = record {
  status = error;
  status_text = some "No device found";
  tooltip = append "No " (append (lower_label kind) " found");
}
get_capture_state_display device_error kind = record {
  status = error;
  status_text = some "Device unavailable";
  tooltip = append (label kind) " unavailable";
}

unfoldable pub shows_error : CaptureStatus → Bool
shows_error error = true
shows_error _ = false

unfoldable pub implies : Bool → Bool → Bool
implies true b = b
implies false b = true

-- What is shown and what is offered agree: an error is shown in just the states that are errors, a
-- capture that is under way is no error, what may be retried may be toggled, and so may what is under
-- way.
pub display_agrees :
    (s : CaptureState) (kind : CaptureKind)
    → (shows_error (get_capture_state_display s kind).status ≡ is_error s)
      × (implies (is_active s) (can_toggle s) ≡ true)
      × (implies (can_retry s) (can_toggle s) ≡ true)
      × (implies (is_active s) (not (is_error s)) ≡ true)
unfolding get_capture_state_display is_active is_error can_toggle can_retry shows_error implies
display_agrees stopped kind = (refl, refl, refl, refl)
display_agrees starting kind = (refl, refl, refl, refl)
display_agrees active kind = (refl, refl, refl, refl)
display_agrees muted kind = (refl, refl, refl, refl)
display_agrees device_error kind = (refl, refl, refl, refl)
display_agrees no_device kind = (refl, refl, refl, refl)
display_agrees device_in_use kind = (refl, refl, refl, refl)
display_agrees device_not_found kind = (refl, refl, refl, refl)
display_agrees system_denied kind = (refl, refl, refl, refl)
display_agrees capture_canceled kind = (refl, refl, refl, refl)
