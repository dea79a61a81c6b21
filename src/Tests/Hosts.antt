-- ===== src/Tests/Hosts.antt =====
-- The host's side at concrete inputs: device ids, endpoints, WIA settings, and the session slot.
use workcentre_3119_modern_d.Prelude.{
  ℕ, ◌+◌, ◌≤◌, ◌≡◌, refl, ◌⊎◌, Bool, true, false, List, [], ◌∷◌, ◌++◌, arith, length, some,
}
use workcentre_3119_modern_d.Scan.Machine.{ImageBand}
use workcentre_3119_modern_d.Scan.Diagnostics
use workcentre_3119_modern_d.Scan.Diagnostics.Limits.{validate_iff}
use workcentre_3119_modern_d.Wia.{Tone, toned}
use workcentre_3119_modern_d.Wia.Toned.{AllToned, toned_lem}
use workcentre_3119_modern_d.Prelude.Int.{pos, negsuc}
use workcentre_3119_modern_d.Errors.{ok}
use workcentre_3119_modern_d.Device.{
  scanner, identify, split, eq_ignore_ascii_case, by_hardware, usb_text, scanner_text, winusb_text,
  Device, readiness, driver_started, backslash,
}
use workcentre_3119_modern_d.Device.Identity.{IsScannerId, identify_scanner, readiness_iff}
use workcentre_3119_modern_d.Usb.{
  PipeInfo, BulkPipes, unique_scanner_path, select_bulk_pipes, pipes_loop, put_pipe, bad_pipe,
}
use workcentre_3119_modern_d.Usb.Selection.{
  select_bulk_pipes_unique, unique_scanner_path_iff, bulk_inputs, bulk_outputs,
}
use workcentre_3119_modern_d.Wia.{
  FlatbedSettings, bmp_format, to_request, checked_mode, validate, pixels_to_units, validate_offset,
  validate_end,
}
use workcentre_3119_modern_d.Wia.Request.{IsRequest, to_request-IsRequest}
use workcentre_3119_modern_d.Scan.Window.{ScanRequest, gray}
use workcentre_3119_modern_d.Scan.Job.{Outcome, returned}
use workcentre_3119_modern_d.Slot.{
  Connection, unlocked, opening, locked, quarantined, with_session, denied, AccessError,
}
use workcentre_3119_modern_d.Slot.Exclusive.{
  Shared, Call, opens, Reaches, here, there, begin_open, finish_open, one_holder, quarantine_final,
  held, held_by_calls,
}
use workcentre_3119_modern_d.Slot.Calls.{Used, with_session_lem}

abbrev scanner_id : List ℕ
scanner_id = usb_text ++ (backslash ∷ (scanner_text ++ (backslash ∷ 0x37 ∷ 0x38 ∷ [])))

identify_scanner_example : IsScannerId scanner_id
unfolding identify split by_hardware eq_ignore_ascii_case
identify_scanner_example = (identify_scanner scanner_id).0 refl

abbrev device : Device
device = record {
  interface = scanner;
  service = some winusb_text;
  problem_code = 0;
  started = true;
}

readiness_iff_example : readiness device ≡ driver_started
unfolding eq_ignore_ascii_case
readiness_iff_example = (readiness_iff device).1 (refl, refl, refl, (winusb_text, refl, refl))

abbrev in_pipe : PipeInfo
in_pipe = record { kind = 2; id = 0x81; maximum_packet = 64; interval = 0 }

abbrev out_pipe : PipeInfo
out_pipe = record { kind = 2; id = 0x02; maximum_packet = 64; interval = 0 }

abbrev chosen : BulkPipes
chosen = record { input = 0x81; output = 0x02; input_max_packet = 64; output_max_packet = 64 }

select_bulk_pipes_unique_example :
    (bulk_inputs (in_pipe ∷ out_pipe ∷ []) ≡ (0x81, 64) ∷ [])
    × (bulk_outputs (in_pipe ∷ out_pipe ∷ []) ≡ (0x02, 64) ∷ [])
unfolding select_bulk_pipes pipes_loop put_pipe bad_pipe
select_bulk_pipes_unique_example = select_bulk_pipes_unique (in_pipe ∷ out_pipe ∷ []) chosen refl

unique_scanner_path_iff_example :
    unique_scanner_path (record { active = (0x5c ∷ []) ∷ []; inactive = 0 }) ≡ ok (0x5c ∷ [])
unique_scanner_path_iff_example =
    (unique_scanner_path_iff (record { active = (0x5c ∷ []) ∷ []; inactive = 0 }) (0x5c ∷ [])).1
      (refl, refl)

abbrev settings : FlatbedSettings
settings = record {
  x_resolution = pos 300;
  y_resolution = pos 300;
  x_position = pos 3;
  y_position = pos 6;
  x_extent = pos 16;
  y_extent = pos 8;
  data_type = pos 2;
  depth = pos 8;
  brightness = pos 0;
  contrast = negsuc 4;
  compression = pos 0;
  format = bmp_format;
}

abbrev wanted : ScanRequest
wanted = record {
  dpi = 300;
  mode = gray;
  x_units = 12;
  y_units = 24;
  width_units = 64;
  height_units = 32;
}

to_request-IsRequest_example : IsRequest settings wanted
unfolding to_request checked_mode validate pixels_to_units validate_offset validate_end
to_request-IsRequest_example = to_request-IsRequest settings wanted refl

abbrev slot : Connection ℕ → List (Call ℕ) → Shared ℕ
slot c calls = record { connection = c; calls = calls }

one_open : Reaches (slot unlocked []) (slot (locked 7) [])
one_open =
    there {t = slot opening (opens ∷ [])} (there {t = slot unlocked []} here (begin_open refl refl))
      (finish_open [] [] (returned (ok 7)) refl refl refl)

one_holder_example :
    (held {T = ℕ} (locked 7) + held_by_calls {T = ℕ} [] ≤ 1) × (length {A = Call ℕ} [] ≤ 1)
one_holder_example = one_holder (slot unlocked []) (slot (locked 7) []) refl refl one_open

quarantine_final_example :
    ((slot quarantined []).connection ≡ quarantined) × ((slot quarantined []).calls ≡ [])
quarantine_final_example =
    quarantine_final (slot quarantined []) (slot quarantined []) refl refl here

with_session_lem_example :
    let operation : ℕ → Outcome (ℕ × Bool) × ℕ = λ r. (returned (5, false), r) in
    ((e : AccessError) × (with_session operation (locked 7) ≡ (returned (denied e), locked 7)))
    ⊎ ((r : ℕ) × (locked 7 ≡ locked r) × Used operation r (with_session operation (locked 7)))
with_session_lem_example = with_session_lem (λ r. (returned (5, false), r)) (locked 7)

abbrev band : ImageBand
band = record { width = 2; rows = 1; mode = gray; pixels = 10 ∷ 200 ∷ []; wire_data = [] }

abbrev harder : Tone
harder = record { brightness = pos 0; contrast = pos 500 }

toned_lem_example :
    (toned harder band ≡ record band { pixels = (toned harder band).pixels })
    × AllToned harder band.pixels (toned harder band).pixels
    × (pos 0 ≡ pos 0 → pos 500 ≡ pos 0 → toned harder band ≡ band)
toned_lem_example = toned_lem harder band (omega arith, (omega arith, tt))

validate_iff_example :
    (Diagnostics.validate (Diagnostics.tuning_of 5000000) ≡ ok tt)
    × (Diagnostics.validate_read_buffer_limit 65536 65536 ≡ ok tt)
validate_iff_example =
    (validate_iff (Diagnostics.tuning_of 5000000) 65536).1
      (omega arith, omega arith, omega arith, omega arith, refl, omega arith)
