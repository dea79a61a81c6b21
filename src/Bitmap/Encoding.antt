-- ===== src/Bitmap/Encoding.antt =====
-- src/bitmap.rs: an image from `new` over every `push` to `finish`.
use workcentre_3119_modern_d.Prelude.{
  ℕ, ◌+◌, ◌*◌, ◌<◌, ◌^◌, ◌≡◌, inl, inr, refl, sym, ap, ap₂, ◌∙◌, false, List, [], ◌∷◌, ◌++◌, none,
  some, length, arith, append_assoc, append-nil, Bool-cases, All,
}
use mathlib.Core.Path.{subst}
use workcentre_3119_modern_d.Errors.{Result, ok, err, Result-cases, text, invalid_data}
use workcentre_3119_modern_d.Stateful.{St, then_do, then_do_ok, ◌>>◌, pure}
use workcentre_3119_modern_d.Writer.{Writer, FileLaws}
use workcentre_3119_modern_d.Scan.Window.{channels, ColorMode}
use workcentre_3119_modern_d.Scan.Machine.{ImageBand, ScanSummary}
use workcentre_3119_modern_d.Bitmap.{stride_of, Totals, dpi_to_ppm}
use workcentre_3119_modern_d.Bitmap.Encoder.{
  BmpEncoder, new, push, finish, summary_differs, write_final,
}
use workcentre_3119_modern_d.Bitmap.Stream.{write_final-Changes, final_fields}
use workcentre_3119_modern_d.Bitmap.Contents.{
  band_data, image_data, bmp_file, final_offset, final_fields-headers,
}
use workcentre_3119_modern_d.Bitmap.Pushed.{no_totals, added, Fresh, Begun, fresh, begun, new-Fresh}
use workcentre_3119_modern_d.Bitmap.Push.{push-Begun, push_same_width, push-Whole}
use workcentre_3119_modern_d.Bitmap.Rows.{Whole}

abbrev pub added_all : Totals → List ImageBand → Totals
added_all t [] = t
added_all t (band ∷ bands) = added_all (added t band) bands

abbrev pub rows_of : List ImageBand → ℕ
rows_of [] = 0
rows_of (band ∷ bands) = band.rows + rows_of bands

abbrev pub bytes_of : List ImageBand → ℕ
bytes_of [] = 0
bytes_of (band ∷ bands) = length band.pixels + bytes_of bands

pub added_all_lem :
    (t : Totals) (bands : List ImageBand)
    → ((added_all t bands).height ≡ t.height + rows_of bands)
      × ((added_all t bands).bands ≡ t.bands + length bands)
      × ((added_all t bands).bytes ≡ t.bytes + bytes_of bands)
added_all_lem t [] = (omega arith, omega arith, omega arith)
added_all_lem t (band ∷ bands) =
    let rest = added_all_lem (added t band) bands in
    (omega (arith, rest.0), omega (arith, rest.1), omega (arith, rest.2))

module _ {W : Type 0} (out : Writer W) where
  abbrev pub push_all : List ImageBand → St (BmpEncoder W) (Unit {0})
  push_all [] = pure tt
  push_all (band ∷ bands) = push out band >> push_all bands

  abbrev pub finished : ScanSummary → Result (Unit {0}) × BmpEncoder W → Result (Unit {0}) × W
  finished summary (ok tt, e) = finish out summary e
  finished summary (err x, e) = (err x, e.world)

  -- What a caller of the encoder does for an image.
  unfoldable pub encode : ℕ → ColorMode → List ImageBand → ScanSummary → W → Result (Unit {0}) × W
  encode dpi mode bands summary w =
      then_do (new out dpi mode w) λ e _. finished summary (push_all bands e)

module _ {W : Type 0} (out : Writer W) (contents : W → List ℕ) (position : W → ℕ)
    (laws : FileLaws out contents position) where
  pub push_all-Begun :
      (mode : ColorMode) (ppm width : ℕ) (t : Totals) (pixels : List ℕ) (e : BmpEncoder W)
      (bands : List ImageBand)
      → Begun out contents position laws mode ppm width t pixels e
      → (push_all out bands e).0 ≡ ok tt
      → Begun out contents position laws mode ppm width
          (added_all t bands)
          (pixels ++ image_data mode bands)
          (push_all out bands e).1
        × All (λ (band : ImageBand). band.width ≡ width) bands
        × All (Whole mode) bands
  push_all-Begun mode ppm width t pixels e [] h q = (
    subst (λ (x : List ℕ). Begun out contents position laws mode ppm width t x e)
        (sym (append-nil pixels)) h,
    tt,
    tt,
  )
  push_all-Begun mode ppm width t pixels e (band ∷ bands) h q =
      let s = then_do_ok (push out band e) (λ _. push_all out bands) tt q in
      let first : (push out band e).0 ≡ ok tt =
        ap (λ (r : Result (Unit {0}) × BmpEncoder W). r.0) s.1 in
      let same =
        push_same_width out contents position laws mode ppm width t pixels e band h first in
      let after : Begun out contents position laws mode ppm width (added t band)
          (pixels ++ band_data mode band) (push out band e).1 =
        subst
          (λ (x : ℕ).
            Begun out contents position laws mode ppm x (added t band)
              (pixels ++ band_data mode band) (push out band e).1)
          same
          (push-Begun out contents position laws mode ppm t pixels e band (begun width h) first) in
      let rest =
        push_all-Begun mode ppm width (added t band) (pixels ++ band_data mode band)
          (push out band e).1 bands after s.2 in
      (
        subst
            (λ (r : Result (Unit {0}) × BmpEncoder W).
              Begun out contents position laws mode ppm width (added_all t (band ∷ bands))
                (pixels ++ image_data mode (band ∷ bands)) r.1)
            (sym s.3)
            (subst
              (λ (x : List ℕ).
                Begun out contents position laws mode ppm width (added_all t (band ∷ bands)) x
                  (push_all out bands (push out band e).1).1)
              (append_assoc pixels (band_data mode band) (image_data mode bands)) rest.0),
        (same, rest.1),
        (
          push-Whole out contents position laws mode ppm t pixels e band (begun width h) first,
          rest.2,
        ),
      )

  summary_agrees :
      (width : ℕ) (e : BmpEncoder W) (summary : ScanSummary)
      → summary_differs e width summary ≡ false
      → (summary.width ≡ width)
        × (summary.height ≡ e.totals.height)
        × (summary.bands ≡ e.totals.bands)
        × (summary.bytes ≡ e.totals.bytes)
  summary_agrees width e summary d = (ground arith, ground arith, ground arith, ground arith)

  finish_accepts :
      (width : ℕ) (e : BmpEncoder W) (summary : ScanSummary)
      → e.poisoned ≡ none
      → e.width ≡ some width
      → (finish out summary e).0 ≡ ok tt
      → (summary_differs e width summary ≡ false)
        × ((e.pixel_offset + e.row_stride * e.totals.height < 2 ^ 32) × (e.totals.height < 2 ^ 31))
        × (finish out summary e
            ≡ write_final out
                (e.pixel_offset + e.row_stride * e.totals.height)
                e.totals.height
                (e.row_stride * e.totals.height)
                e.world)
  unfolding finish
  finish_accepts width e summary h k q = elim (Bool-cases (summary_differs e width summary)) [
    | inl d ↦ ground (arith, h, k)
    | inr d ↦
        (d, (ground (arith, h, k, q, d), ground (arith, h, k, q, d)), ground (arith, h, k, q, d))
  ]

  -- The summary that `finish` asked for, and what it then leaves.
  finish_ok :
      (mode : ColorMode) (ppm width : ℕ) (t : Totals) (pixels : List ℕ) (e : BmpEncoder W)
      (summary : ScanSummary)
      → Begun out contents position laws mode ppm width t pixels e
      → (finish out summary e).0 ≡ ok tt
      → (contents (finish out summary e).1 ≡ bmp_file mode ppm width t.height pixels)
        × (summary.width ≡ width)
        × (summary.height ≡ t.height)
        × (summary.bands ≡ t.bands)
        × (summary.bytes ≡ t.bytes)
        × ((final_offset mode + length pixels < 2 ^ 32) × (t.height < 2 ^ 31))
  finish_ok mode ppm width t pixels e summary h q =
      let s = finish_accepts width e summary h.unpoisoned h.of_width q in
      let image_size = e.row_stride * e.totals.height in
      let size : image_size ≡ length pixels =
        ap₂ (λ (x : ℕ) (y : Totals). x * y.height) h.of_stride h.counted ∙ sym h.sized in
      let offset : e.pixel_offset + image_size ≡ final_offset mode + length pixels =
        ap₂ ◌+◌ h.at_offset size in
      let height : e.totals.height ≡ t.height = ap (λ (x : Totals). x.height) h.counted in
      let wrote =
        write_final-Changes out contents position laws (e.pixel_offset + image_size) e.totals.height
          image_size e.world (ap (λ (r : Result (Unit {0}) × W). r.0) (sym s.2) ∙ q) in
      let filled : final_fields (e.pixel_offset + image_size) e.totals.height image_size
            (contents e.world)
          ≡ bmp_file mode ppm width t.height pixels =
        rw offset (
          rw size (rw height (rw h.holds (final_fields-headers mode ppm width t.height pixels)))) in
      let agree = summary_agrees width e summary s.0 in
      (
        ap (λ (r : Result (Unit {0}) × W). contents r.1) s.2 ∙ wrote ∙ filled,
        agree.0,
        agree.1 ∙ height,
        agree.2 ∙ ap (λ (x : Totals). x.bands) h.counted,
        agree.3 ∙ ap (λ (x : Totals). x.bytes) h.counted,
        (omega (arith, s.1.0, offset), omega (arith, s.1.1, height)),
      )

  finish-Fresh :
      (mode : ColorMode) (ppm : ℕ) (e : BmpEncoder W) (summary : ScanSummary)
      → Fresh out contents position laws mode ppm e
      → (finish out summary e).0 ≡ err (text invalid_data)
  unfolding finish
  finish-Fresh mode ppm e summary h = rw h.unpoisoned (rw h.no_width refl)

  -- What a file and the summary say of the bands.
  pub record Encoded (mode : ColorMode) (ppm : ℕ) (bands : List ImageBand) (summary : ScanSummary)
      (w : W) : Type 0 where
    pub file : contents w ≡ bmp_file mode ppm summary.width summary.height (image_data mode bands)
    pub sized :
        length (image_data mode bands) ≡ stride_of (summary.width * channels mode) * summary.height
    pub one_width : All (λ (band : ImageBand). band.width ≡ summary.width) bands
    pub all_rows : summary.height ≡ rows_of bands
    pub all_bands : summary.bands ≡ length bands
    pub all_bytes : summary.bytes ≡ bytes_of bands
    pub whole : All (Whole mode) bands
    pub some_rows : 0 < summary.height
    pub few_rows : summary.height < 2 ^ 31
    pub small : final_offset mode + length (image_data mode bands) < 2 ^ 32

  pushed-Encoded :
      (mode : ColorMode) (ppm : ℕ) (e : BmpEncoder W) (bands : List ImageBand)
      (summary : ScanSummary)
      → Fresh out contents position laws mode ppm e
      → (push_all out bands e).0 ≡ ok tt
      → (finish out summary (push_all out bands e).1).0 ≡ ok tt
      → Encoded mode ppm bands summary (finish out summary (push_all out bands e).1).1
  pushed-Encoded mode ppm e [] summary h p q = ground (arith, finish-Fresh mode ppm e summary h)
  pushed-Encoded mode ppm e (band ∷ bands) summary h p q =
      let s = then_do_ok (push out band e) (λ _. push_all out bands) tt p in
      let e1 = (push out band e).1 in
      let first =
        push-Begun out contents position laws mode ppm no_totals [] e band (fresh h refl refl)
          (ap (λ (r : Result (Unit {0}) × BmpEncoder W). r.0) s.1) in
      let whole =
        push-Whole out contents position laws mode ppm no_totals [] e band (fresh h refl refl)
          (ap (λ (r : Result (Unit {0}) × BmpEncoder W). r.0) s.1) in
      let rest =
        push_all-Begun mode ppm band.width (added no_totals band) (band_data mode band) e1 bands
          first s.2 in
      let done =
        finish_ok mode ppm band.width (added_all no_totals (band ∷ bands))
          (image_data mode (band ∷ bands)) (push_all out bands e1).1 summary rest.0
          (ap (λ (r : Result (Unit {0}) × BmpEncoder W). (finish out summary r.1).0) (sym s.3)
            ∙ q) in
      let sums = added_all_lem no_totals (band ∷ bands) in
      let last : contents (finish out summary (push_all out (band ∷ bands) e).1).1
          ≡ contents (finish out summary (push_all out bands e1).1).1 =
        ap (λ (r : Result (Unit {0}) × BmpEncoder W). contents (finish out summary r.1).1) s.3 in
      record {
        file =
            last
            ∙ done.0
            ∙ ap₂ (λ (x y : ℕ). bmp_file mode ppm x y (image_data mode (band ∷ bands))) (sym done.1)
                (sym done.2);
        sized =
            rest.0.sized
            ∙ ap₂ (λ (x y : ℕ). stride_of (x * channels mode) * y) (sym done.1) (sym done.2);
        one_width =
            subst (λ (x : ℕ). All (λ (b : ImageBand). b.width ≡ x) (band ∷ bands)) (sym done.1)
              (refl, rest.1);
        all_rows = omega (arith, done.2, sums.0);
        all_bands = omega (arith, done.3, sums.1);
        all_bytes = omega (arith, done.4, sums.2);
        whole = (whole, rest.2);
        some_rows = omega (arith, done.2, sums.0, whole.tall);
        few_rows = omega (arith, done.2, done.5.1);
        small = done.5.0;
      }

  -- When an image is encoded without an error, the stream holds the BMP file of the summary's size
  -- with the stored rows of all the bands, every band has the summary's width, and the summary's
  -- height, bands and bytes are the sums over the bands.
  pub encode-Encoded :
      (dpi : ℕ) (mode : ColorMode) (bands : List ImageBand) (summary : ScanSummary) (w : W)
      → (encode out dpi mode bands summary w).0 ≡ ok tt
      → (ppm : ℕ) × (dpi_to_ppm dpi ≡ ok ppm)
        × Encoded mode ppm bands summary (encode out dpi mode bands summary w).1
  unfolding encode
  encode-Encoded dpi mode bands summary w q = elim (Result-cases (new out dpi mode w).0) [
    | inr (x, p) ↦ ground arith
    | inl (e, p) ↦
        let start = new-Fresh out contents position laws dpi mode w e p in
        elim (Result-cases (push_all out bands e).0) [
          | inr (x, r) ↦ ground arith
          | inl (tt, r) ↦
              let same : encode out dpi mode bands summary w
                  ≡ finish out summary (push_all out bands e).1 =
                ground arith in
              (
                start.0,
                start.1,
                subst (λ (t : Result (Unit {0}) × W). Encoded mode start.0 bands summary t.1)
                    (sym same)
                    (pushed-Encoded mode start.0 e bands summary start.2 r
                      (ap (λ (t : Result (Unit {0}) × W). t.0) (sym same) ∙ q)),
              )
        ]
  ]
