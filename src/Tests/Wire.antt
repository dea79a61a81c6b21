-- ===== src/Tests/Wire.antt =====
-- The wire formats at concrete bytes.
use workcentre_3119_modern_d.Prelude.{
  ℕ, ◌≡◌, refl, inl, true, false, List, [], ◌∷◌, arith, length, one_of, ◌↔◌,
}
use workcentre_3119_modern_d.Prelude.Chunks.{chunks_exact}
use workcentre_3119_modern_d.Errors.{ok}
use workcentre_3119_modern_d.Protocol
use workcentre_3119_modern_d.Protocol.{lacks_capabilities, fields, is_empty, resolutions}
use workcentre_3119_modern_d.Protocol.Parse.{parse-IsValid, IsValid}
use workcentre_3119_modern_d.Protocol.Frame.{frame, IsName, IsReport, parse-frame}
use workcentre_3119_modern_d.Protocol.Resolutions.{resolutions_lem, Reports}
use workcentre_3119_modern_d.Scan.Window.{
  ScanRequest, gray, rgb, command, window_bytes, resolution_code, unsupported_format, bad_region,
}
use workcentre_3119_modern_d.Scan.Window.Formats.{Reported}
use workcentre_3119_modern_d.Scan.Window.Layout.{Fits, Carries, command-Carries}
use workcentre_3119_modern_d.Scan.Reply.{busy, response_status}
use workcentre_3119_modern_d.Scan.Reply.Check.{busy_iff, IsFramed}
use workcentre_3119_modern_d.Scan.Band
use workcentre_3119_modern_d.Scan.Band.{BandInfo, decode, bad_band, interleave, spread_row}
use workcentre_3119_modern_d.Scan.Band.Meta.{IsBand, parse-IsBand}
use workcentre_3119_modern_d.Scan.Band.Planar.{decode_planar}
use workcentre_3119_modern_d.Tests.World.{capabilities, reply}

xerox-IsName : IsName capabilities.identity
xerox-IsName = record {
  short = omega arith;
  printable = omega arith;
  head_dark = ground arith;
  last_dark = ground arith;
}

capabilities-IsReport : IsReport capabilities
capabilities-IsReport = record {
  valid = record {
    named = λ e. cc e;
    mask_fits = omega arith;
    mask_set = omega arith;
    modes_fit = omega arith;
    modes_set = omega arith;
    width_fits = omega arith;
    width_set = omega arith;
    length_fits = omega arith;
    length_set = omega arith;
    flatbed_fits = omega arith;
    flatbed_set = omega arith;
  };
  name = xerox-IsName;
  order_fits = omega arith;
  compression_fits = omega arith;
}

parse-frame_example : Protocol.parse (frame capabilities) ≡ ok capabilities
parse-frame_example = parse-frame capabilities capabilities-IsReport

parse-IsValid_example : IsValid capabilities
unfolding frame
parse-IsValid_example =
    parse-IsValid (frame capabilities) capabilities (omega arith) parse-frame_example

resolutions_lem_example :
    (one_of 300 (resolutions capabilities) ≡ true) ↔ Reports capabilities.resolution_mask 300
resolutions_lem_example = resolutions_lem capabilities 300

abbrev request : ScanRequest
request = record {
  dpi = 150;
  mode = gray;
  x_units = 24;
  y_units = 1212;
  width_units = 64;
  height_units = 8;
}

command-Carries_example :
    Reported request capabilities 2 3
    × Fits request capabilities
    × Carries request (window_bytes request 2)
unfolding window_bytes command resolution_code unsupported_format bad_region resolutions
command-Carries_example = command-Carries request capabilities (window_bytes request 2) refl

abbrev busy_reply : List ℕ
busy_reply = reply 8 0 []

busy_iff_example : response_status busy_reply false ≡ ok busy
unfolding response_status
busy_iff_example = (busy_iff busy_reply false (omega arith)).1 ((omega arith, refl, refl), inl refl)

-- Two rows of two columns, with one byte of padding each way.
abbrev band : BandInfo
band = record { length = 12; width = 2; rows = 2; final_band = true }

abbrev meta : List ℕ
meta = reply 0 0x81 (0 ∷ 0 ∷ 0 ∷ 12 ∷ 0 ∷ 2 ∷ 0 ∷ 2 ∷ [])

parse-IsBand_example : IsBand band rgb × IsFramed meta
unfolding Band.parse response_status bad_band
parse-IsBand_example = let h = parse-IsBand meta rgb band refl in (h.0, h.1)

abbrev wire : List ℕ
wire = 1 ∷ 2 ∷ 3 ∷ 4 ∷ 5 ∷ 6 ∷ 7 ∷ 8 ∷ 9 ∷ 10 ∷ 11 ∷ 12 ∷ []

abbrev samples : List ℕ
samples = 1 ∷ 3 ∷ 5 ∷ 2 ∷ 4 ∷ 6 ∷ 7 ∷ 9 ∷ 11 ∷ 8 ∷ 10 ∷ 12 ∷ []

decode_planar_example : length samples ≡ 12
unfolding decode interleave spread_row chunks_exact
decode_planar_example = (decode_planar band wire samples (omega arith) (omega arith) refl).0
