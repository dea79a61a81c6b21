-- ===== src/Bitmap/Limits.antt =====
-- src/bitmap.rs: the images that `BmpEncoder` takes.
use workcentre_3119_modern_d.Prelude.{
  ℕ, zero, suc, ◌+◌, ◌*◌, ◌<◌, ◌≤◌, ◌≡◌, refl, sym, ap, ◌∙◌, Bool, true, false, List, [], ◌∷◌, ◌++◌,
  length, arith, All,
}
use mathlib.Core.Path.{subst}
use workcentre_3119_modern_d.Errors.{ok}
use workcentre_3119_modern_d.Writer.{Writer, FileLaws}
use workcentre_3119_modern_d.Writer.Reliable.{AlwaysWrites}
use workcentre_3119_modern_d.Scan.Window.{ColorMode, gray, rgb, channels, mode_eq}
use workcentre_3119_modern_d.Scan.Machine.{ImageBand}
use workcentre_3119_modern_d.Bitmap.{
  BandGeometry, Totals, stride_of, validate_band_geometry, validate_accumulation,
  max_input_row_bytes, max_pixel_bytes, max_bands,
}
use workcentre_3119_modern_d.Bitmap.Encoder.{
  BmpEncoder, push, push_band, begin_image, width_changed,
}
use workcentre_3119_modern_d.Bitmap.Contents.{band_data}
use workcentre_3119_modern_d.Bitmap.Pushed.{added, Begun, Ready, begun}
use workcentre_3119_modern_d.Bitmap.Push.{push-Begun, Ready-mode}
use workcentre_3119_modern_d.Bitmap.Encoding.{push_all, bytes_of}
use workcentre_3119_modern_d.Bitmap.Accepting.{begin_image-Succeeds, write_band-Succeeds}

-- A band with whole rows of the image's width and mode.
pub record Proper (mode : ColorMode) (width : ℕ) (band : ImageBand) : Type 0 where
  pub in_mode : band.mode ≡ mode
  pub of_width : band.width ≡ width
  pub some_row : 0 < band.rows
  pub whole_rows : length band.pixels ≡ width * channels mode * band.rows

pub record WithinLimits (mode : ColorMode) (width : ℕ) (bands : List ImageBand) : Type 0 where
  pub wide : 0 < width
  pub narrow : width * channels mode ≤ max_input_row_bytes
  pub proper : All (λ (band : ImageBand). Proper mode width band) bands
  pub few : length bands ≤ max_bands
  pub small : bytes_of bands ≤ max_pixel_bytes

abbrev geometry : ColorMode → ImageBand → BandGeometry
geometry mode band = record {
  row_bytes = band.width * channels mode;
  row_stride = stride_of (band.width * channels mode);
  pixel_bytes = band.width * channels mode * band.rows;
}

mode_eq_refl : (mode : ColorMode) → mode_eq mode mode ≡ true
mode_eq_refl gray = refl
mode_eq_refl rgb = refl

pub le_product : (n r : ℕ) → 0 < n → r ≤ n * r
le_product zero r h = absurd (omega arith)
le_product (suc n) r h = omega arith

pub row_facts :
    (mode : ColorMode) (width : ℕ) (band : ImageBand)
    → 0 < width
    → Proper mode width band
    → (band.width * channels mode ≡ width * channels mode)
      × (0 < band.width)
      × (band.width ≤ width * channels mode)
      × (length band.pixels ≡ band.width * channels mode * band.rows)
      × (band.rows ≤ length band.pixels)
row_facts mode width band pos h =
    let n : band.width * channels mode ≡ width * channels mode =
      ap (λ (x : ℕ). x * channels mode) h.of_width in
    let wide : width ≤ width * channels mode = elim mode as (λ m. width ≤ width * channels m) [
      | gray ↦ omega arith
      | rgb ↦ omega arith
    ] in
    let whole : length band.pixels ≡ band.width * channels mode * band.rows =
      h.whole_rows ∙ ap (λ (x : ℕ). x * band.rows) (sym n) in
    (
      n,
      omega (arith, h.of_width),
      omega (arith, wide, h.of_width),
      whole,
      omega
          (arith, le_product (width * channels mode) band.rows (omega (arith, wide)), h.whole_rows),
    )

validate-Proper :
    (mode : ColorMode) (width : ℕ) (band : ImageBand)
    → 0 < width
    → width * channels mode ≤ max_input_row_bytes
    → Proper mode width band
    → validate_band_geometry band mode ≡ ok (geometry mode band)
unfolding validate_band_geometry
validate-Proper mode width band pos narrow h =
    let f = row_facts mode width band pos h in
    ground (
      arith,
      f.0,
      f.1,
      f.2,
      h.some_row,
      narrow,
      ap mode_eq_of h.in_mode ∙ mode_eq_refl mode,
      h.whole_rows,
    )
  where
    mode_eq_of : ColorMode → Bool
    mode_eq_of m = mode_eq m mode

accumulate_ok :
    (mode : ColorMode) (width : ℕ) (band : ImageBand) (t : Totals)
    → 0 < width
    → width * channels mode ≤ max_input_row_bytes
    → Proper mode width band
    → t.bands < max_bands
    → t.height ≤ t.bytes
    → t.bytes + length band.pixels ≤ max_pixel_bytes
    → validate_accumulation t band.width band.rows
        (geometry mode band).pixel_bytes
        (geometry mode band).row_stride
      ≡ ok (added t band)
unfolding validate_accumulation
accumulate_ok mode width band t pos narrow h few tall small =
    let f = row_facts mode width band pos h in
    ground (arith, f.0, f.1, f.2, f.3, h.some_row, narrow, few, tall, small)

module _ {W : Type 0} (out : Writer W) (contents : W → List ℕ) (position : W → ℕ)
    (laws : FileLaws out contents position) (reliable : AlwaysWrites out) where
  pub push-Proper :
      (mode : ColorMode) (ppm width : ℕ) (t : Totals) (pixels : List ℕ) (e : BmpEncoder W)
      (band : ImageBand)
      → Ready out contents position laws mode ppm t pixels e
      → width_changed e band.width ≡ false
      → 0 < width
      → width * channels mode ≤ max_input_row_bytes
      → Proper mode width band
      → t.bands < max_bands
      → t.height ≤ t.bytes
      → t.bytes + length band.pixels ≤ max_pixel_bytes
      → (push out band e).0 ≡ ok tt
  unfolding push push_band
  push-Proper mode ppm width t pixels e band h same pos narrow proper few tall small =
      let known = Ready-mode out contents position laws mode ppm t pixels e h in
      let g = geometry mode band in
      let valid : validate_band_geometry band e.mode ≡ ok g =
        ap (validate_band_geometry band) known.0
        ∙ validate-Proper mode width band pos narrow proper in
      let counted : validate_accumulation e.totals band.width band.rows g.pixel_bytes g.row_stride
          ≡ ok (added t band) =
        ap (λ (x : Totals). validate_accumulation x band.width band.rows g.pixel_bytes g.row_stride)
          known.1
        ∙ accumulate_ok mode width band t pos narrow proper few tall small in
      ground (
        arith,
        known.2,
        valid,
        counted,
        same,
        begin_image-Succeeds out reliable band g e,
        write_band-Succeeds out reliable band g (begin_image out band g e).1,
      )

  pub push_all-Proper :
      (mode : ColorMode) (ppm width : ℕ) (t : Totals) (pixels : List ℕ) (e : BmpEncoder W)
      (bands : List ImageBand)
      → Begun out contents position laws mode ppm width t pixels e
      → 0 < width
      → width * channels mode ≤ max_input_row_bytes
      → All (λ (band : ImageBand). Proper mode width band) bands
      → t.bands + length bands ≤ max_bands
      → t.height ≤ t.bytes
      → t.bytes + bytes_of bands ≤ max_pixel_bytes
      → (push_all out bands e).0 ≡ ok tt
  push_all-Proper mode ppm width t pixels e [] h pos narrow proper few tall small = refl
  push_all-Proper mode ppm width t pixels e (band ∷ bands) h pos narrow proper few tall small =
      let same : width_changed e band.width ≡ false =
        ground (arith, h.of_width, proper.0.of_width) in
      let ready = begun width h in
      let first =
        push-Proper mode ppm width t pixels e band ready same pos narrow proper.0
          (omega (arith, few)) tall (omega (arith, small)) in
      let after : Begun out contents position laws mode ppm width (added t band)
          (pixels ++ band_data mode band) (push out band e).1 =
        subst
          (λ (x : ℕ).
            Begun out contents position laws mode ppm x (added t band)
              (pixels ++ band_data mode band) (push out band e).1)
          proper.0.of_width
          (push-Begun out contents position laws mode ppm t pixels e band ready first) in
      let facts = row_facts mode width band pos proper.0 in
      let rest =
        push_all-Proper mode ppm width (added t band) (pixels ++ band_data mode band)
          (push out band e).1 bands after pos narrow proper.1 (omega (arith, few))
          (omega (arith, tall, facts.4)) (omega (arith, small)) in
      ground (arith, first, rest)
