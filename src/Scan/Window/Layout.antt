-- ===== src/Scan/Window/Layout.antt =====
-- SET_WINDOW carries the request exactly, and is built only for what the scanner reports.
use workcentre_3119_modern_d.Prelude.{
  ℕ, ◌+◌, ◌*◌, ◌%◌, ◌^◌, ◌≤◌, ◌<◌, ◌≡◌, List, false, some, inl, inr, refl, Option-cases, arith,
  length, All,
}
use workcentre_3119_modern_d.Prelude.Bytes.{IsByte, byte_at, be32_at}
use workcentre_3119_modern_d.Errors.{ok}
use workcentre_3119_modern_d.Protocol.{Capabilities}
use workcentre_3119_modern_d.Scan.Window.Formats.{Reported, supported-Reported}
use workcentre_3119_modern_d.Scan.Window.{
  ColorMode, gray, rgb, code, ScanRequest, resolution_code, command, window_bytes,
  unsupported_format, bad_region,
}

-- The wire fields of a window, read back as a request's geometry.
pub record Carries (r : ScanRequest) (b : List ℕ) : Type 0 where
  pub size : length b ≡ 25
  pub bytes : All IsByte b
  pub width : be32_at b 5 ≡ r.width_units
  pub height : be32_at b 9 ≡ r.height_units
  pub x : byte_at b 15 * 1200 + byte_at b 16 * 12 ≡ r.x_units
  pub y : byte_at b 17 * 1200 + byte_at b 18 * 12 ≡ r.y_units
  pub opcode : (byte_at b 0 ≡ 0x1b) × (byte_at b 1 ≡ 0xa8) × (byte_at b 2 ≡ 0x24)
  pub both_axes : byte_at b 14 ≡ byte_at b 13

-- What `command` checks about the region, in plain arithmetic.
pub record Fits (r : ScanRequest) (caps : Capabilities) : Type 0 where
  pub wide : 0 < r.width_units
  pub high : 0 < r.height_units
  pub right : r.x_units + r.width_units ≤ caps.width_units
  pub bottom : r.y_units + r.height_units ≤ caps.flatbed_length_units
  pub bottom_adf : r.y_units + r.height_units ≤ caps.length_units
  pub x_aligned : r.x_units % 12 ≡ 0
  pub y_aligned : r.y_units % 12 ≡ 0
  pub x_encodable : r.x_units < 307200
  pub y_encodable : r.y_units < 307200

-- The ends of the region are 32-bit numbers.
abbrev Words : ScanRequest → Type 0
Words r = (r.x_units + r.width_units < 2 ^ 32) × (r.y_units + r.height_units < 2 ^ 32)

region-Words : (r : ScanRequest) (caps : Capabilities) → bad_region r caps ≡ false → Words r
unfolding bad_region
region-Words r caps h = ground arith

region-Fits : (r : ScanRequest) (caps : Capabilities) → bad_region r caps ≡ false → Fits r caps
unfolding bad_region
region-Fits r caps h = ground arith

resolution_code-lt : (dpi k : ℕ) → resolution_code dpi ≡ some k → k < 11
unfolding resolution_code
resolution_code-lt dpi k e = ground arith

code-lt : (m : ColorMode) → code m < 256
code-lt gray = omega arith
code-lt rgb = omega arith

window-Carries :
    (r : ScanRequest) (caps : Capabilities) (k : ℕ)
    → resolution_code r.dpi ≡ some k
    → Words r
    → Fits r caps
    → Carries r (window_bytes r k)
unfolding window_bytes
window-Carries r caps k e w f = record {
  size = refl;
  bytes = omega (arith, resolution_code-lt r.dpi k e, code-lt r.mode);
  width = omega arith;
  height = omega arith;
  x = omega arith;
  y = omega arith;
  opcode = (refl, refl, refl);
  both_axes = refl;
}

-- What `command` checked before it wrote.
abbrev Checked : ScanRequest → Capabilities → List ℕ → ℕ → Type 0
Checked r caps b k =
    (unsupported_format r caps ≡ false) × (bad_region r caps ≡ false) × (b ≡ window_bytes r k)

command_parts :
    (r : ScanRequest) (caps : Capabilities) (b : List ℕ)
    → command r caps ≡ ok b
    → (k : ℕ) × (resolution_code r.dpi ≡ some k) × Checked r caps b k
unfolding command
command_parts r caps b e = elim (Option-cases (resolution_code r.dpi)) [
  | inl q ↦ let e' = rw (q, command) at e in cc e'
  | inr (k, q) ↦ let e' = rw (q, command) at e in (k, q, ground arith)
]

-- A SET_WINDOW command is built only for a region inside the bed and a format that the scanner
-- reports, and its 25 bytes carry the request: size and offset read back, and the bytes of resolution
-- and mode are those of the reported format.
pub command-Carries :
    (r : ScanRequest) (caps : Capabilities) (b : List ℕ)
    → command r caps ≡ ok b
    → Reported r caps (byte_at b 13) (byte_at b 19) × Fits r caps × Carries r b
unfolding window_bytes
command-Carries r caps b e =
    let (k, q, (format, region, bytes)) = command_parts r caps b e in
    let fits = region-Fits r caps region in
    rw bytes (
      supported-Reported r caps k q format,
      fits,
      window-Carries r caps k q (region-Words r caps region) fits,
    )
