-- ===== src/Scan/Band.antt =====
-- src/scan.rs: `BandInfo`, the metadata of an image band, and its decoding.
pub mod Planar
pub mod Meta
use workcentre_3119_modern_d.Prelude.{
  ℕ, zero, suc, ◌+◌, ◌-◌, ◌*◌, ◌^◌, Bool, true, false, not, ◌&&◌, ◌||◌, List, [], ◌∷◌, ◌++◌, ltb,
  ◌==◌, if◌then◌else◌, length, take, drop, get_or, set, replicate,
}
use workcentre_3119_modern_d.Prelude.Bytes.{byte_at, be16_at, be32_at}
use workcentre_3119_modern_d.Prelude.Chunks.{chunks_exact, join}
use workcentre_3119_modern_d.Errors.{Result, ok, err, text, refuse, ◌>>=◌, ◌>>◌, invalid_data}
use workcentre_3119_modern_d.Scan.Reply.{ReplyStatus, good, busy, response_status}
use workcentre_3119_modern_d.Scan.Window.{ColorMode, gray, rgb, is_rgb, channels}
use mathlib.Core.List.{map}

abbrev pub max_band_bytes : ℕ
max_band_bytes = 16 * 1024 * 1024

pub record BandInfo : Type 0 where
  pub length : ℕ
  pub width : ℕ
  pub rows : ℕ
  pub final_band : Bool

abbrev pub is_busy : ReplyStatus → Bool
is_busy good = false
is_busy busy = true

-- The guard of `BandInfo::parse`; `usize` has 64 bits, so no product of the wire fields overflows.
unfoldable pub bad_band : ℕ → ℕ → ℕ → ColorMode → Bool
bad_band len width rows mode =
    width == 0
    || rows == 0
    || ltb 65536 (width * channels mode)
    || ltb max_band_bytes len
    || ltb len (width * rows * channels mode)
    || ltb 16 (len - width * rows * channels mode)

unfoldable pub parse : List ℕ → ColorMode → Result BandInfo
parse b mode = do
  status ← response_status b true
  refuse (is_busy status || not (byte_at b 3 == 0x80 || byte_at b 3 == 0x81)) invalid_data
  refuse (bad_band (be32_at b 4) (be16_at b 10) (be16_at b 8) mode) invalid_data
  ok (record {
    length = be32_at b 4;
    width = be16_at b 10;
    rows = be16_at b 8;
    final_band = byte_at b 3 == 0x81;
  })

-- `for c in 0..3 { output[x * 3 + c] = input[c * width + x] }`
abbrev pub spread_pixel : ℕ → List ℕ → ℕ → List ℕ → List ℕ
spread_pixel width input x output =
    set (set (set output (x * 3) (get_or input x 0)) (x * 3 + 1) (get_or input (width + x) 0))
      (x * 3 + 2) (get_or input (2 * width + x) 0)

-- The columns from `x` on, `n` of them.
unfoldable pub spread_row : ℕ → ℕ → ℕ → List ℕ → List ℕ → List ℕ
spread_row zero x width input output = output
spread_row (suc n) x width input output =
    spread_row n (x + 1) width input (spread_pixel width input x output)

-- Each row of the output starts as a copy of the row of the input.
unfoldable pub interleave : ℕ → List ℕ → List ℕ
unfolding spread_row
interleave width row = spread_row width 0 width row row

unfoldable pub decode : BandInfo → List ℕ → ColorMode → ℕ → Result (List ℕ)
decode band raw mode order = do
  refuse (not (length raw == band.length) || (is_rgb mode && ltb 1 order)) invalid_data
  let pixels = take (band.width * band.rows * channels mode) raw
  ok (
      if is_rgb mode && order == 1
      then join (map (interleave band.width) (chunks_exact (band.width * 3) pixels))
      else pixels)
