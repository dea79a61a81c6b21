-- ===== src/Bitmap/Images.antt =====
-- src/bitmap.rs: an image within the limits becomes a file, over a writer that never fails.
use workcentre_3119_modern_d.Prelude.{
  ℕ, zero, suc, ◌+◌, ◌*◌, ◌^◌, ◌<◌, ◌≤◌, ◌≡◌, inl, inr, refl, ap, ap₂, ◌∙◌, false, List, [], ◌∷◌,
  length, arith, All,
}
use mathlib.Core.Path.{subst}
use workcentre_3119_modern_d.Errors.{IoError, ok, err, Result-cases}
use workcentre_3119_modern_d.Writer.{Writer, FileLaws}
use workcentre_3119_modern_d.Writer.Reliable.{AlwaysWrites}
use workcentre_3119_modern_d.Scan.Window.{ColorMode, gray, rgb, channels}
use workcentre_3119_modern_d.Scan.Machine.{ImageBand, ScanSummary}
use workcentre_3119_modern_d.Bitmap.{Totals, stride_of, dpi_to_ppm, max_pixel_bytes}
use workcentre_3119_modern_d.Bitmap.Encoder.{BmpEncoder, new, push, finish, summary_differs}
use workcentre_3119_modern_d.Bitmap.Contents.{band_data, final_offset}
use workcentre_3119_modern_d.Bitmap.Pushed.{no_totals, added, Fresh, Begun, fresh, new-Fresh}
use workcentre_3119_modern_d.Bitmap.Push.{push-Begun}
use workcentre_3119_modern_d.Bitmap.Encoding.{
  push_all, encode, rows_of, bytes_of, added_all, added_all_lem, push_all-Begun,
}
use workcentre_3119_modern_d.Bitmap.Accepting.{write_final-Succeeds}
use workcentre_3119_modern_d.Bitmap.Limits.{
  Proper, WithinLimits, row_facts, le_product, push-Proper, push_all-Proper,
}

-- The summary that a scan of the bands reports.
abbrev pub summary_of : ℕ → List ImageBand → ScanSummary
summary_of width bands = record {
  width = width;
  height = rows_of bands;
  bands = length bands;
  bytes = bytes_of bands;
}

bytes-Proper :
    (mode : ColorMode) (width : ℕ) (bands : List ImageBand)
    → All (λ (band : ImageBand). Proper mode width band) bands
    → bytes_of bands ≡ width * channels mode * rows_of bands
bytes-Proper mode width [] h = omega arith
bytes-Proper mode width (band ∷ bands) h =
    omega (arith, bytes-Proper mode width bands h.1, h.0.whole_rows)

stride_le : (n r : ℕ) → 0 < n → stride_of n * r ≤ 4 * (n * r)
stride_le n zero h = omega arith
stride_le n (suc r) h = omega (arith, stride_le n r h)

offset_le : (mode : ColorMode) → final_offset mode ≤ 1078
offset_le gray = omega arith
offset_le rgb = omega arith

module _ {W : Type 0} (out : Writer W) (contents : W → List ℕ) (position : W → ℕ)
    (laws : FileLaws out contents position) (reliable : AlwaysWrites out) where
  finish-Proper :
      (mode : ColorMode) (ppm width : ℕ) (t : Totals) (pixels : List ℕ) (e : BmpEncoder W)
      (summary : ScanSummary)
      → Begun out contents position laws mode ppm width t pixels e
      → 0 < width * channels mode
      → t.bytes ≡ width * channels mode * t.height
      → t.bytes ≤ max_pixel_bytes
      → summary.width ≡ width
      → summary.height ≡ t.height
      → summary.bands ≡ t.bands
      → summary.bytes ≡ t.bytes
      → (finish out summary e).0 ≡ ok tt
  unfolding finish
  finish-Proper mode ppm width t pixels e summary h pos bytes small w1 w2 w3 w4 =
      let height : e.totals.height ≡ t.height = ap (λ (x : Totals). x.height) h.counted in
      let agree : summary_differs e width summary ≡ false = ground (
        arith,
        h.header,
        w1,
        w2,
        w3,
        w4,
        height,
        ap (λ (x : Totals). x.bands) h.counted,
        ap (λ (x : Totals). x.bytes) h.counted,
      ) in
      let image : e.row_stride * e.totals.height ≡ stride_of (width * channels mode) * t.height =
        ap₂ ◌*◌ h.of_stride height in
      let bounded = stride_le (width * channels mode) t.height pos in
      let total : e.row_stride * e.totals.height ≤ 2 ^ 30 =
        omega (arith, image, bounded, bytes, small) in
      let rows : e.totals.height < 2 ^ 31 =
        omega (arith, height, bytes, small, le_product (width * channels mode) t.height pos) in
      let offset : e.pixel_offset ≤ 1078 = omega (arith, h.at_offset, offset_le mode) in
      ground (
        arith,
        h.unpoisoned,
        h.of_width,
        agree,
        total,
        offset,
        rows,
        write_final-Succeeds out reliable (e.pixel_offset + e.row_stride * e.totals.height)
            e.totals.height (e.row_stride * e.totals.height) e.world,
      )

  first-Proper :
      (mode : ColorMode) (ppm width : ℕ) (e : BmpEncoder W) (bands : List ImageBand)
      → Fresh out contents position laws mode ppm e
      → 0 < length bands
      → WithinLimits mode width bands
      → ((push_all out bands e).0 ≡ ok tt)
        × ((finish out (summary_of width bands) (push_all out bands e).1).0 ≡ ok tt)
  first-Proper mode ppm width e [] h nonempty within = absurd (omega arith)
  first-Proper mode ppm width e (band ∷ bands) h nonempty within =
      let ready = fresh h refl refl in
      let proper = within.proper in
      let facts = row_facts mode width band within.wide proper.0 in
      let first =
        push-Proper out contents position laws reliable mode ppm width no_totals [] e band ready
          (ground (arith, h.no_width)) within.wide within.narrow proper.0 (omega arith)
          (omega arith) (omega (arith, within.small)) in
      let e1 = (push out band e).1 in
      let after : Begun out contents position laws mode ppm width (added no_totals band)
          (band_data mode band) e1 =
        subst
          (λ (x : ℕ).
            Begun out contents position laws mode ppm x (added no_totals band) (band_data mode band)
              e1)
          proper.0.of_width
          (push-Begun out contents position laws mode ppm no_totals [] e band ready first) in
      let rest =
        push_all-Proper out contents position laws reliable mode ppm width (added no_totals band)
          (band_data mode band) e1 bands after within.wide within.narrow proper.1
          (omega (arith, within.few)) (omega (arith, facts.4)) (omega (arith, within.small)) in
      let all =
        push_all-Begun out contents position laws mode ppm width (added no_totals band)
          (band_data mode band) e1 bands after rest in
      let t = added_all no_totals (band ∷ bands) in
      let sums = added_all_lem no_totals (band ∷ bands) in
      let rows : rows_of (band ∷ bands) ≡ t.height = omega (arith, sums.0) in
      let total : t.bytes ≡ width * channels mode * t.height =
        omega (arith, sums.2, bytes-Proper mode width (band ∷ bands) proper)
        ∙ ap (λ (x : ℕ). width * channels mode * x) rows in
      let done =
        finish-Proper mode ppm width t _ (push_all out bands e1).1 (summary_of width (band ∷ bands))
          all.0 (omega (arith, facts.0, facts.1, facts.2)) total
          (omega (arith, sums.2, within.small)) refl (omega (arith, sums.0)) (omega (arith, sums.1))
          (omega (arith, sums.2)) in
      (ground (arith, first, rest), ground (arith, first, done))

  new_refuses :
      (dpi ppm : ℕ) (mode : ColorMode) (w : W) (at end : ℕ) (x : IoError)
      → dpi_to_ppm dpi ≡ ok ppm
      → (out.stream_position w).0 ≡ ok at
      → (out.seek_end (out.stream_position w).1).0 ≡ ok end
      → end ≡ 0
      → ¬ ((new out dpi mode w).0 ≡ err x)
  unfolding new
  new_refuses dpi ppm mode w at end x d p q z e = ground (arith, d, p, q, z, e)

  -- Over a writer that never fails, on an empty stream, an image of at least one band within the
  -- limits is encoded, and the summary of its bands is accepted.
  pub encode-Succeeds :
      (dpi ppm : ℕ) (mode : ColorMode) (width : ℕ) (bands : List ImageBand) (w : W)
      → dpi_to_ppm dpi ≡ ok ppm
      → contents w ≡ []
      → 0 < length bands
      → WithinLimits mode width bands
      → (encode out dpi mode bands (summary_of width bands) w).0 ≡ ok tt
  unfolding encode
  encode-Succeeds dpi ppm mode width bands w d empty nonempty within =
      elim (Result-cases (new out dpi mode w).0) [
        | inl (e, p) ↦
            let start = new-Fresh out contents position laws dpi mode w e p in
            let done = first-Proper mode start.0 width e bands start.2 nonempty within in
            ground (arith, done.0, done.1)
        | inr (x, p) ↦
            let told = reliable.tells w in
            let w1 = (out.stream_position w).1 in
            let ended = reliable.ends w1 in
            let at = laws.end_ok w1 ended.0 ended.1 in
            let zero_end : ended.0 ≡ 0 =
              at.0 ∙ ap length (laws.position_ok w told.0 told.1 ∙ empty) in
            absurd (new_refuses dpi ppm mode w told.0 ended.0 x d told.1 ended.1 zero_end p)
      ]
