-- ===== src/Scan/Band/Meta.antt =====
-- What `BandInfo::parse` accepts.
use workcentre_3119_modern_d.Prelude.{
  ℕ, ◌+◌, ◌*◌, ◌≤◌, ◌<◌, ◌≡◌, ◌⊎◌, Bool, true, false, List, arith, ◌==◌,
}
use workcentre_3119_modern_d.Prelude.Bytes.{byte_at, be16_at, be32_at}
use workcentre_3119_modern_d.Errors.{ok}
use workcentre_3119_modern_d.Scan.Reply.Check.{IsFramed, good_iff}
use workcentre_3119_modern_d.Scan.Window.{ColorMode, channels}
use workcentre_3119_modern_d.Scan.Band.{BandInfo, max_band_bytes, bad_band, parse}

-- A band that the job can read: not empty, its rows and bytes bounded, all pixels on the wire, and
-- at most 16 bytes of padding behind them.
pub record IsBand (band : BandInfo) (mode : ColorMode) : Type 0 where
  pub wide : 0 < band.width
  pub high : 0 < band.rows
  pub row_bounded : band.width * channels mode ≤ 65536
  pub wire_bounded : band.length ≤ max_band_bytes
  pub holds : band.width * band.rows * channels mode ≤ band.length
  pub padded : band.length ≤ band.width * band.rows * channels mode + 16

bounds :
    (len width rows : ℕ) (mode : ColorMode) (last : Bool)
    → bad_band len width rows mode ≡ false
    → IsBand (record { length = len; width = width; rows = rows; final_band = last }) mode
unfolding bad_band
bounds len width rows mode last h = ground arith

-- An accepted reply is framed, Good and image metadata; the band is what its fields say.
pub parse-IsBand :
    (b : List ℕ) (mode : ColorMode) (band : BandInfo)
    → parse b mode ≡ ok band
    → IsBand band mode
      × IsFramed b
      × (byte_at b 1 ≡ 0)
      × (band.length ≡ be32_at b 4)
      × (band.rows ≡ be16_at b 8)
      × (band.width ≡ be16_at b 10)
      × ((byte_at b 3 ≡ 0x80) × (band.final_band ≡ false)
          ⊎ (byte_at b 3 ≡ 0x81) × (band.final_band ≡ true))
unfolding parse
parse-IsBand b mode band e = ground (
  arith,
  good_iff b true,
  bounds (be32_at b 4) (be16_at b 10) (be16_at b 8) mode (byte_at b 3 == 0x81),
)
