-- ===== src/Bitmap/Pushed.antt =====
-- src/bitmap.rs: what `push` keeps true of `BmpEncoder` and of the bytes in the stream.
use workcentre_3119_modern_d.Prelude.{
  ℕ, ◌+◌, ◌-◌, ◌*◌, ◌≡◌, inl, inr, refl, sym, ap, ap₂, ◌∙◌, true, false, List, [], ◌∷◌, ◌++◌, none,
  some, length, arith, append_assoc, append-nil, length-append,
}
use mathlib.Core.Path.{subst}
use workcentre_3119_modern_d.Prelude.Chunks.{chunks_exact}
use workcentre_3119_modern_d.Errors.{ok, Result-cases}
use workcentre_3119_modern_d.Writer.{Writer, FileLaws, overwrite}
use workcentre_3119_modern_d.Writer.Overwrite.{overwrite_end}
use workcentre_3119_modern_d.Scan.Window.{ColorMode, channels}
use workcentre_3119_modern_d.Scan.Machine.{ImageBand}
use workcentre_3119_modern_d.Bitmap.{
  BandGeometry, Totals, stride_of, dpi_to_ppm, validate_accumulation,
}
use workcentre_3119_modern_d.Bitmap.Encoder.{
  BmpEncoder, new, begin_image, width_changed, write_band, write_initial_header, write_headers,
  write_rows,
}
use workcentre_3119_modern_d.Bitmap.Stream.{
  headers, stored_rows, write_headers-Places, write_rows-Writes,
}
use workcentre_3119_modern_d.Bitmap.Contents.{band_data, final_offset, Fits, length-band_data}

abbrev pub no_totals : Totals
no_totals = record { height = 0; bands = 0; bytes = 0 }

abbrev pub added : Totals → ImageBand → Totals
added t band = record {
  height = t.height + band.rows;
  bands = t.bands + 1;
  bytes = t.bytes + length band.pixels;
}

pub validate_accumulation-added :
    (t next : Totals) (band : ImageBand) (pixel_bytes stride : ℕ)
    → validate_accumulation t band.width band.rows pixel_bytes stride ≡ ok next
    → pixel_bytes ≡ length band.pixels
    → next ≡ added t band
unfolding validate_accumulation
validate_accumulation-added t next band pixel_bytes stride e h = ground arith

no_bytes : (c : List ℕ) → length c ≡ 0 → c ≡ []
no_bytes [] e = refl
no_bytes (x ∷ c) e = absurd (omega arith)

module _ {W : Type 0} (out : Writer W) (contents : W → List ℕ) (position : W → ℕ)
    (laws : FileLaws out contents position) where
  -- Before the first band.
  pub record Fresh (mode : ColorMode) (ppm : ℕ) (e : BmpEncoder W) : Type 0 where
    pub unpoisoned : e.poisoned ≡ none
    pub in_mode : e.mode ≡ mode
    pub at_ppm : e.pixels_per_metre ≡ ppm
    pub at_offset : e.pixel_offset ≡ final_offset mode
    pub no_width : e.width ≡ none
    pub nothing_yet : e.totals ≡ no_totals
    pub empty_stream : contents e.world ≡ []

  -- With the header written: the pixel bytes `pixels` of bands that count `t`.
  pub record Begun (mode : ColorMode) (ppm width : ℕ) (t : Totals) (pixels : List ℕ)
      (e : BmpEncoder W) : Type 0 where
    pub unpoisoned : e.poisoned ≡ none
    pub in_mode : e.mode ≡ mode
    pub at_offset : e.pixel_offset ≡ final_offset mode
    pub of_width : e.width ≡ some width
    pub of_stride : e.row_stride ≡ stride_of (width * channels mode)
    pub header : e.header_written ≡ true
    pub counted : e.totals ≡ t
    pub holds : contents e.world ≡ headers mode ppm (final_offset mode) width ++ pixels
    pub at_end : position e.world ≡ length (contents e.world)
    pub sized : length pixels ≡ stride_of (width * channels mode) * t.height

  pub data Ready (mode : ColorMode) (ppm : ℕ) (t : Totals) (pixels : List ℕ) (e : BmpEncoder W)
      : Type 0 where
    fresh : Fresh mode ppm e → t ≡ no_totals → pixels ≡ [] → Ready mode ppm t pixels e
    begun : (width : ℕ) → Begun mode ppm width t pixels e → Ready mode ppm t pixels e

  abbrev fresh_encoder : ColorMode → ℕ → W → BmpEncoder W
  fresh_encoder mode ppm w = record {
    world = w;
    mode = mode;
    pixels_per_metre = ppm;
    width = none;
    totals = no_totals;
    row_stride = 0;
    pixel_offset = final_offset mode;
    header_written = false;
    poisoned = none;
  }

  pub new-Fresh :
      (dpi : ℕ) (mode : ColorMode) (w : W) (e : BmpEncoder W)
      → (new out dpi mode w).0 ≡ ok e
      → (ppm : ℕ) × (dpi_to_ppm dpi ≡ ok ppm) × Fresh mode ppm e
  unfolding new
  new-Fresh dpi mode w e h = elim (Result-cases (dpi_to_ppm dpi)) [
    | inl (ppm, p) ↦ elim (Result-cases (out.stream_position w).0) [
      | inl (original, q) ↦ elim (Result-cases (out.seek_end (out.stream_position w).1).0) [
        | inl (end, r) ↦
            let ended = laws.end_ok (out.stream_position w).1 end r in
            let nothing : end ≡ 0 = ground arith in
            let empty : contents (out.seek_end (out.stream_position w).1).1 ≡ [] =
              ended.1 ∙ no_bytes (contents (out.stream_position w).1) (sym ended.0 ∙ nothing) in
            let is : fresh_encoder mode ppm (out.seek_end (out.stream_position w).1).1 ≡ e =
              ground arith in
            (
              ppm,
              p,
              subst (λ (x : BmpEncoder W). Fresh mode ppm x) is
                  (record {
                    unpoisoned = refl;
                    in_mode = refl;
                    at_ppm = refl;
                    at_offset = refl;
                    no_width = refl;
                    nothing_yet = refl;
                    empty_stream = empty;
                  }),
            )
        | inr (x, r) ↦ ground arith
      ]
      | inr (x, q) ↦ ground arith
    ]
    | inr (x, p) ↦ ground arith
  ]

  begun_encoder : BmpEncoder W → ImageBand → BandGeometry → BmpEncoder W
  begun_encoder e band g = record e {
    world = (write_headers out e.mode e.pixels_per_metre e.pixel_offset band.width e.world).1;
    width = some band.width;
    row_stride = g.row_stride;
    header_written = true;
  }

  begin_image_ok :
      (e : BmpEncoder W) (band : ImageBand) (g : BandGeometry)
      → e.width ≡ none
      → (begin_image out band g e).0 ≡ ok tt
      → ((write_headers out e.mode e.pixels_per_metre e.pixel_offset band.width e.world).0 ≡ ok tt)
        × ((begin_image out band g e).1 ≡ begun_encoder e band g)
  unfolding write_initial_header begun_encoder
  begin_image_ok e band g h q = ground arith

  pub first-Begun :
      (mode : ColorMode) (ppm : ℕ) (e : BmpEncoder W) (band : ImageBand) (g : BandGeometry)
      → Fresh mode ppm e
      → Fits mode band g
      → (begin_image out band g e).0 ≡ ok tt
      → Begun mode ppm band.width no_totals [] (begin_image out band g e).1
  unfolding begun_encoder
  first-Begun mode ppm e band g h fit q =
      let started = begin_image_ok e band g h.no_width q in
      let placed =
        write_headers-Places out contents position laws e.mode e.pixels_per_metre e.pixel_offset
          band.width e.world started.0 in
      let header = headers mode ppm (final_offset mode) band.width in
      let same : headers e.mode e.pixels_per_metre e.pixel_offset band.width ≡ header =
        rw h.in_mode (rw h.at_ppm (rw h.at_offset refl)) in
      let written : contents (begun_encoder e band g).world ≡ header =
        placed.0
        ∙ ap₂ (λ (c b : List ℕ). overwrite c 0 b) h.empty_stream same
        ∙ overwrite_end [] header in
      subst (λ (x : BmpEncoder W). Begun mode ppm band.width no_totals [] x) (sym started.1)
        (record {
          unpoisoned = h.unpoisoned;
          in_mode = h.in_mode;
          at_offset = h.at_offset;
          of_width = refl;
          of_stride = fit.row_stride;
          header = refl;
          counted = h.nothing_yet;
          holds = written ∙ sym (append-nil header);
          at_end = omega (arith, placed.1, ap length same, ap length written);
          sized = omega arith;
        })

  pub later-Begun :
      (mode : ColorMode) (ppm width : ℕ) (t : Totals) (pixels : List ℕ) (e : BmpEncoder W)
      (band : ImageBand) (g : BandGeometry)
      → Begun mode ppm width t pixels e
      → width_changed e band.width ≡ false
      → Begun mode ppm band.width t pixels (begin_image out band g e).1
  later-Begun mode ppm width t pixels e band g h q =
      let wide : width ≡ band.width = ground (arith, h.of_width) in
      let same : (begin_image out band g e).1 ≡ e = rw h.of_width refl in
      subst (λ (x : BmpEncoder W). Begun mode ppm band.width t pixels x) (sym same)
        (subst (λ (x : ℕ). Begun mode ppm x t pixels e) wide h)

  pub write_band-Begun :
      (mode : ColorMode) (ppm : ℕ) (t : Totals) (pixels : List ℕ) (e : BmpEncoder W)
      (band : ImageBand) (g : BandGeometry)
      → Begun mode ppm band.width t pixels e
      → Fits mode band g
      → (write_band out band g e).0 ≡ ok tt
      → Begun mode ppm band.width
          (added t band)
          (pixels ++ band_data mode band)
          (record (write_band out band g e).1 { totals = added t band })
  unfolding write_band
  write_band-Begun mode ppm t pixels e band g h fit q =
      let w' =
        (write_rows out e.mode (g.row_stride - g.row_bytes) (chunks_exact g.row_bytes band.pixels)
          e.world).1 in
      let wrote =
        write_rows-Writes out contents position laws e.mode (g.row_stride - g.row_bytes)
          (chunks_exact g.row_bytes band.pixels) e.world q in
      let more = band_data mode band in
      let same : stored_rows e.mode (g.row_stride - g.row_bytes)
            (chunks_exact g.row_bytes band.pixels)
          ≡ more =
        rw h.in_mode (rw fit.row_stride (rw fit.row_bytes refl)) in
      let grown : contents w' ≡ contents e.world ++ more =
        wrote.now_holds
        ∙ ap₂ (overwrite (contents e.world)) h.at_end same
        ∙ overwrite_end (contents e.world) more in
      record {
        unpoisoned = h.unpoisoned;
        in_mode = h.in_mode;
        at_offset = h.at_offset;
        of_width = h.of_width;
        of_stride = h.of_stride;
        header = h.header;
        counted = refl;
        holds =
            grown
            ∙ ap (λ (c : List ℕ). c ++ more) h.holds
            ∙ append_assoc (headers mode ppm (final_offset mode) band.width) pixels more;
        at_end = omega (
          arith,
          wrote.now_at,
          h.at_end,
          ap length grown,
          ap length same,
          length-append (contents e.world) more,
        );
        sized = omega (
          arith,
          length-append pixels more,
          h.sized,
          length-band_data mode band fit.wide fit.whole_rows,
        );
      }
