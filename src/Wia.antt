-- ===== src/Wia.antt =====
-- src/wia.rs: the WIA settings of a flatbed item, their scan request, and the tone lookup.
-- An `i32` is an integer of the model. `scan_bmp` and `start_bmp_scan` are not modelled here: they join
-- this file's functions with the bitmap encoder and the USB session.
pub mod Request
pub mod Toned
use workcentre_3119_modern_d.Prelude.{
  ℕ, zero, suc, ◌+◌, ◌-◌, ◌*◌, ◌/◌, ◌%◌, ◌^◌, Bool, true, false, not, ◌&&◌, ◌||◌, List, [], ◌∷◌,
  map, Option, none, some, length, get_or, ltb, leb, ◌==◌, one_of, if◌then◌else◌,
}
use workcentre_3119_modern_d.Prelude.Int.{
  ℤ, pos, negsuc, ◌+ℤ◌, ◌-ℤ◌, ◌*ℤ◌, leb_ℤ, eq_ℤ, pos_part, div_euclid,
}
use workcentre_3119_modern_d.Errors.{Result, ok, err, text, refuse, ◌>>=◌, ◌>>◌, invalid_input}
use workcentre_3119_modern_d.Scan.Window.{ColorMode, gray, rgb, ScanRequest}
use workcentre_3119_modern_d.Scan.Machine.{ImageBand}

pub record FlatbedSettings : Type 0 where
  pub x_resolution : ℤ
  pub y_resolution : ℤ
  pub x_position : ℤ
  pub y_position : ℤ
  pub x_extent : ℤ
  pub y_extent : ℤ
  pub data_type : ℤ
  pub depth : ℤ
  pub brightness : ℤ
  pub contrast : ℤ
  pub compression : ℤ
  pub format : List ℕ

abbrev pub bmp_format : List ℕ
bmp_format =
    0xab ∷ 0x3c ∷ 0x6b ∷ 0xb9 ∷ 0x28 ∷ 0x07 ∷ 0xd3 ∷ 0x11 ∷ 0x9d ∷ 0x7b ∷ 0x00 ∷ 0x00 ∷ 0xf8 ∷ 0x1e
    ∷ 0xf3 ∷ 0x2e ∷ []

abbrev pub same_bytes : List ℕ → List ℕ → Bool
same_bytes [] [] = true
same_bytes [] (b ∷ bs) = false
same_bytes (a ∷ l) [] = false
same_bytes (a ∷ l) (b ∷ bs) = (a == b) && same_bytes l bs

pub record Tone : Type 0 where
  pub brightness : ℤ
  pub contrast : ℤ

abbrev pub tone_in_range : ℤ → Bool
tone_in_range v = leb_ℤ (negsuc 999) v && leb_ℤ v (pos 1000)

unfoldable pub validate : Tone → Result Tone
validate t = do
  refuse (not (tone_in_range t.brightness) || not (tone_in_range t.contrast)) invalid_input
  ok t

-- `clamp(0, 255) as u8`
abbrev pub clamp_byte : ℤ → ℕ
clamp_byte (negsuc n) = 0
clamp_byte (pos n) = if ltb 255 n then 255 else n

-- One entry of the lookup.
unfoldable pub lut_entry : Tone → ℕ → ℕ
lut_entry t input =
    let gain = t.contrast +ℤ pos 1000 in
    let offset = t.brightness *ℤ pos 255 in
    let centred = (pos input -ℤ pos 128) *ℤ gain +ℤ pos (128 * 1000) +ℤ offset in
    clamp_byte (div_euclid (centred +ℤ pos 500) 1000)

abbrev pub lut_from : Tone → ℕ → ℕ → List ℕ
lut_from t zero input = []
lut_from t (suc n) input = lut_entry t input ∷ lut_from t n (suc input)

unfoldable pub lut : Tone → Option (List ℕ)
lut t =
    if eq_ℤ t.brightness (pos 0) && eq_ℤ t.contrast (pos 0) then none else some (lut_from t 256 0)

unfoldable pub adjust : Tone → ImageBand → Option ImageBand
adjust t band = elim (lut t) [
  | none ↦ none
  | some table ↦
      some (record band { pixels = map (λ (value : ℕ). get_or table value 0) band.pixels })
]

-- `toned_sink`: the band that goes on to the consumer.
unfoldable pub toned : Tone → ImageBand → ImageBand
toned t band = elim (adjust t band) [ none ↦ band | some adjusted ↦ adjusted ]

abbrev pub neutral : Tone
neutral = record { brightness = pos 0; contrast = pos 0 }

abbrev pub supported_resolution : ℤ → Bool
supported_resolution (pos dpi) = one_of dpi (75 ∷ 100 ∷ 150 ∷ 200 ∷ 300 ∷ 600 ∷ [])
supported_resolution (negsuc n) = false

-- `checked_mul` cannot fail: an `i32` times 1200 is below 2 ^ 64.
unfoldable pub pixels_to_units : ℤ → ℤ → Result ℕ
pixels_to_units (negsuc n) dpi = err (text invalid_input)
pixels_to_units (pos pixels) (negsuc n) = err (text invalid_input)
pixels_to_units (pos pixels) (pos dpi) = do
  refuse (leb (2 ^ 64) (pixels * 1200)) invalid_input
  refuse (not (pixels * 1200 % dpi == 0)) invalid_input
  refuse (leb (2 ^ 32) (pixels * 1200 / dpi)) invalid_input
  ok (pixels * 1200 / dpi)

unfoldable pub validate_offset : ℕ → Result (Unit {0})
validate_offset units = do
  refuse (not (units % 12 == 0)) invalid_input
  refuse (ltb 255 (units / 1200)) invalid_input

unfoldable pub validate_end : ℕ → ℕ → Result (Unit {0})
validate_end start extent = do
  refuse (leb (2 ^ 64) (start + extent)) invalid_input
  refuse (ltb (2 ^ 32 - 1) (start + extent)) invalid_input

abbrev pub mode_of : ℤ → ℤ → Result ColorMode
mode_of data_type depth =
    if eq_ℤ data_type (pos 2) && eq_ℤ depth (pos 8)
    then ok gray
    else if eq_ℤ data_type (pos 3) && eq_ℤ depth (pos 24)
    then ok rgb
    else err (text invalid_input)

abbrev pub tone : FlatbedSettings → Tone
tone f = record { brightness = f.brightness; contrast = f.contrast }

-- The checks before the conversion to units.
unfoldable pub checked_mode : FlatbedSettings → Result ColorMode
checked_mode f = do
  refuse (not (supported_resolution f.x_resolution) || not (eq_ℤ f.x_resolution f.y_resolution))
      invalid_input
  mode ← mode_of f.data_type f.depth
  t ← validate (tone f)
  refuse (not (eq_ℤ f.compression (pos 0))) invalid_input
  refuse (not (same_bytes f.format bmp_format)) invalid_input
  refuse (leb_ℤ f.x_extent (pos 0) || leb_ℤ f.y_extent (pos 0)) invalid_input
  ok mode

unfoldable pub to_request : FlatbedSettings → Result ScanRequest
to_request f = do
  mode ← checked_mode f
  x_units ← pixels_to_units f.x_position f.x_resolution
  y_units ← pixels_to_units f.y_position f.y_resolution
  width_units ← pixels_to_units f.x_extent f.x_resolution
  height_units ← pixels_to_units f.y_extent f.y_resolution
  validate_offset x_units
  validate_offset y_units
  validate_end x_units width_units
  validate_end y_units height_units
  ok (record {
    dpi = pos_part f.x_resolution;
    mode = mode;
    x_units = x_units;
    y_units = y_units;
    width_units = width_units;
    height_units = height_units;
  })
