-- ===== src/Bitmap.antt =====
-- src/bitmap.rs: what the encoder of an uncompressed top-down BMP accepts. `usize` has 64 bits, so that
-- the products of the checks do not overflow.
pub mod Encoder
pub mod Stream
pub mod Contents
pub mod Pushed
pub mod Push
pub mod Rows
pub mod Encoding
pub mod Accepting
pub mod Limits
pub mod Images
pub mod Poison
pub mod Reading
pub mod Readable
pub mod Files
use workcentre_3119_modern_d.Prelude.{ℕ, ◌+◌, ◌*◌, ◌/◌, ◌^◌, ◌||◌, not, length, ltb, leb, ◌==◌}
use workcentre_3119_modern_d.Errors.{Result, ok, refuse, ◌>>◌, invalid_data, invalid_input}
use workcentre_3119_modern_d.Scan.Window.{ColorMode, mode_eq, channels}
use workcentre_3119_modern_d.Scan.Machine.{ImageBand}

abbrev pub max_input_row_bytes : ℕ
max_input_row_bytes = 65536

abbrev pub max_pixel_bytes : ℕ
max_pixel_bytes = 256 * 1024 * 1024

abbrev pub max_bands : ℕ
max_bands = 4096

-- Pixels per metre, to the nearest; `i32::try_from` fails at 2 ^ 31.
unfoldable pub dpi_to_ppm : ℕ → Result ℕ
dpi_to_ppm dpi =
    let ppm = (dpi * 10000 + 127) / 254 in
    do refuse (dpi == 0) invalid_input; refuse (leb (2 ^ 31) ppm) invalid_input; ok ppm

pub record BandGeometry : Type 0 where
  pub row_bytes : ℕ
  pub row_stride : ℕ
  pub pixel_bytes : ℕ

-- `(row_bytes + 3) & !3`.
abbrev pub stride_of : ℕ → ℕ
stride_of row_bytes = (row_bytes + 3) / 4 * 4

unfoldable pub validate_band_geometry : ImageBand → ColorMode → Result BandGeometry
validate_band_geometry band mode =
    let row_bytes = band.width * channels mode in
    let pixel_bytes = row_bytes * band.rows in
    do
      refuse (not (mode_eq band.mode mode)) invalid_data
      refuse (band.width == 0 || band.rows == 0) invalid_data
      refuse (leb (2 ^ 31) band.width) invalid_data
      refuse (row_bytes == 0 || ltb max_input_row_bytes row_bytes) invalid_data
      refuse (not (length band.pixels == pixel_bytes)) invalid_data
      ok (record {
        row_bytes = row_bytes;
        row_stride = stride_of row_bytes;
        pixel_bytes = pixel_bytes;
      })

pub record Totals : Type 0 where
  pub height : ℕ
  pub bands : ℕ
  pub bytes : ℕ

-- The counters after a band; `checked_add` of the `u32` height fails at 2 ^ 32.
unfoldable pub validate_accumulation : Totals → ℕ → ℕ → ℕ → ℕ → Result Totals
validate_accumulation now width rows pixel_bytes row_stride = do
  refuse (width == 0 || leb (2 ^ 31) width || rows == 0 || row_stride == 0) invalid_data
  refuse (ltb (max_input_row_bytes + 3) row_stride) invalid_data
  refuse (leb max_bands now.bands) invalid_data
  refuse (leb (2 ^ 32) (now.height + rows)) invalid_data
  refuse (leb (2 ^ 31) (now.height + rows)) invalid_data
  refuse (ltb max_pixel_bytes (now.bytes + pixel_bytes)) invalid_data
  ok (record { height = now.height + rows; bands = now.bands + 1; bytes = now.bytes + pixel_bytes })
