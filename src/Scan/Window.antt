-- ===== src/Scan/Window.antt =====
-- src/scan.rs: `ColorMode`, `ScanRequest` and the SET_WINDOW command.
pub mod Formats
pub mod Layout
use workcentre_3119_modern_d.Prelude.{
  ℕ, ◌+◌, ◌*◌, ◌/◌, ◌%◌, ◌^◌, Bool, true, false, not, ◌&&◌, ◌||◌, List, [], ◌∷◌, ◌++◌, Option, none,
  some, ltb, leb, ◌==◌, one_of, if◌then◌else◌, bit_and, min,
}
use workcentre_3119_modern_d.Prelude.Bytes.{be32}
use workcentre_3119_modern_d.Errors.{Result, ok, err, text, refuse, ◌>>=◌, ◌>>◌, invalid_data}
use workcentre_3119_modern_d.Protocol.{Capabilities, resolutions}

pub data ColorMode : Type 0 where
  gray rgb : ColorMode

pub ColorMode-discrete : Discrete ColorMode
ColorMode-discrete = hlevel

abbrev pub is_rgb : ColorMode → Bool
is_rgb gray = false
is_rgb rgb = true

abbrev pub mode_eq : ColorMode → ColorMode → Bool
mode_eq gray gray = true
mode_eq rgb rgb = true
mode_eq _ _ = false

abbrev pub code : ColorMode → ℕ
code gray = 3
code rgb = 5

abbrev pub channels : ColorMode → ℕ
channels gray = 1
channels rgb = 3

-- In 1/1200 inch.
pub record ScanRequest : Type 0 where
  pub dpi : ℕ
  pub mode : ColorMode
  pub x_units : ℕ
  pub y_units : ℕ
  pub width_units : ℕ
  pub height_units : ℕ

unfoldable pub resolution_code : ℕ → Option ℕ
resolution_code dpi =
    if dpi == 75
    then some 0
    else if dpi == 100
    then some 10
    else if dpi == 150
    then some 2
    else if dpi == 200
    then some 9
    else if dpi == 300
    then some 5
    else if dpi == 600
    then some 7
    else none

-- The closure `within` of `command`: `checked_add` fails at 2 ^ 32.
abbrev pub within : ℕ → ℕ → ℕ → Bool
within start size limit = ltb 0 size && ltb (start + size) (2 ^ 32) && leb (start + size) limit

unfoldable pub unsupported_format : ScanRequest → Capabilities → Bool
unsupported_format r caps =
    not (one_of r.dpi (resolutions caps))
    || bit_and caps.mode_mask (2 ^ code r.mode) == 0
    || bit_and caps.compression_mask 1 == 0
    || (is_rgb r.mode && ltb 1 caps.line_order)

unfoldable pub bad_region : ScanRequest → Capabilities → Bool
bad_region r caps =
    not (within r.x_units r.width_units caps.width_units)
    || not (within r.y_units r.height_units (min caps.flatbed_length_units caps.length_units))
    || not (r.x_units % 12 == 0)
    || not (r.y_units % 12 == 0)
    || ltb 255 (r.x_units / 1200)
    || ltb 255 (r.y_units / 1200)

-- The 25 bytes; `as u8` keeps the low eight bits.
unfoldable pub window_bytes : ScanRequest → ℕ → List ℕ
window_bytes r resolution =
    0x1b
    ∷ 0xa8
    ∷ 0x24
    ∷ 0x13
    ∷ 0x30
    ∷ (be32 r.width_units
        ++ (be32 r.height_units
            ++ (resolution
                ∷ resolution
                ∷ (r.x_units / 1200 % 256)
                ∷ (r.x_units % 1200 / 12 % 256)
                ∷ (r.y_units / 1200 % 256)
                ∷ (r.y_units % 1200 / 12 % 256)
                ∷ code r.mode
                ∷ 0
                ∷ 0
                ∷ 2
                ∷ 0x40
                ∷ 0
                ∷ [])))

unfoldable pub command : ScanRequest → Capabilities → Result (List ℕ)
command r caps = elim (resolution_code r.dpi) [
  | none ↦ err (text invalid_data)
  | some resolution ↦ do
    refuse (unsupported_format r caps) invalid_data
    refuse (bad_region r caps) invalid_data
    ok (window_bytes r resolution)
]
