-- ===== src/Bitmap/Reading.antt =====
-- What an uncompressed top-down BMP is to its reader, byte by byte and without the encoder of
-- src/bitmap.rs: the fields at their offsets, the palette, and where each sample of the image stands.
use workcentre_3119_modern_d.Prelude.{
  ℕ, ◌+◌, ◌-◌, ◌*◌, ◌/◌, ◌^◌, ◌<◌, ◌≤◌, ◌≡◌, List, [], ◌∷◌, ◌++◌, length, drop,
}
use workcentre_3119_modern_d.Prelude.Bytes.{byte_at, le16_at, le32_at}
use workcentre_3119_modern_d.Scan.Window.{ColorMode, gray, rgb}
use workcentre_3119_modern_d.Scan.Machine.{ImageBand}

-- The samples of the bands, one band after the other.
abbrev pub samples_of : List ImageBand → List ℕ
samples_of [] = []
samples_of (band ∷ bands) = band.pixels ++ samples_of bands

-- Row `r` of the pixel bytes: each pixel's samples in the reverse order, then zeros up to a multiple
-- of four bytes.
abbrev pub Stored : ℕ → ℕ → List ℕ → List ℕ → ℕ → Type 0
Stored channels width bytes samples r =
    ((x c : ℕ)
      → x < width
      → c < channels
      → byte_at bytes (r * ((width * channels + 3) / 4 * 4) + (x * channels + c))
        ≡ byte_at samples (r * (width * channels) + (x * channels + (channels - 1 - c))))
    × ((j : ℕ)
        → width * channels ≤ j
        → j < (width * channels + 3) / 4 * 4
        → byte_at bytes (r * ((width * channels + 3) / 4 * 4) + j) ≡ 0)

-- An image file with pixels of `channels` samples and `depth` bits, whose pixel bytes start at
-- `offset`, after a palette of `colours` grays.
pub record IsBmp (channels depth offset colours ppm width height : ℕ) (samples file : List ℕ)
    : Type 0 where
  pub signature : (byte_at file 0 ≡ 66) × (byte_at file 1 ≡ 77)
  pub file_size : le32_at file 2 ≡ length file
  pub reserved : le32_at file 6 ≡ 0
  pub pixel_offset : le32_at file 10 ≡ offset
  pub header_size : le32_at file 14 ≡ 40
  pub of_width : le32_at file 18 ≡ width
  pub top_down : le32_at file 22 + height ≡ 2 ^ 32
  pub planes : le16_at file 26 ≡ 1
  pub of_depth : le16_at file 28 ≡ depth
  pub uncompressed : le32_at file 30 ≡ 0
  pub image_size : offset + le32_at file 34 ≡ length file
  pub resolution : (le32_at file 38 ≡ ppm) × (le32_at file 42 ≡ ppm)
  pub of_colours : (le32_at file 46 ≡ colours) × (le32_at file 50 ≡ 0)
  pub length_of_file : length file ≡ offset + (width * channels + 3) / 4 * 4 * height
  pub length_of_samples : length samples ≡ width * channels * height
  pub grays : (v k : ℕ) → v < colours → k < 3 → byte_at (drop 54 file) (v * 4 + k) ≡ v
  pub unused : (v : ℕ) → v < colours → byte_at (drop 54 file) (v * 4 + 3) ≡ 0
  pub rows : (r : ℕ) → r < height → Stored channels width (drop offset file) samples r

-- A gray file has one byte for a pixel and 256 grays, a colour file three bytes and no palette.
abbrev pub IsImageFile : ColorMode → ℕ → ℕ → ℕ → List ℕ → List ℕ → Type 0
IsImageFile gray ppm width height samples file = IsBmp 1 8 1078 256 ppm width height samples file
IsImageFile rgb ppm width height samples file = IsBmp 3 24 54 0 ppm width height samples file

-- Pixels per metre of dots per inch, to the nearest: an inch is 0.0254 metres.
abbrev pub IsPpm : ℕ → ℕ → Type 0
IsPpm dpi ppm = (dpi * 10000 ≤ ppm * 254 + 127) × (ppm * 254 ≤ dpi * 10000 + 127)
