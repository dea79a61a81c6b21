-- ===== src/Bitmap/Push.antt =====
-- src/bitmap.rs: `push` extends what the stream holds by the rows of its band.
use workcentre_3119_modern_d.Prelude.{
  ℕ, ◌≡◌, inl, inr, refl, sym, ap, ◌∙◌, false, List, ◌++◌, none, arith, Bool-cases,
}
use mathlib.Core.Path.{subst}
use workcentre_3119_modern_d.Errors.{Result, ok, Result-cases}
use workcentre_3119_modern_d.Stateful.{St, then_do_ok, ◌>>◌, change}
use workcentre_3119_modern_d.Writer.{Writer, FileLaws}
use workcentre_3119_modern_d.Scan.Window.{ColorMode}
use workcentre_3119_modern_d.Scan.Machine.{ImageBand}
use workcentre_3119_modern_d.Bitmap.{
  BandGeometry, Totals, validate_band_geometry, validate_accumulation,
}
use workcentre_3119_modern_d.Bitmap.Encoder.{
  BmpEncoder, push, push_band, begin_image, width_changed, write_band,
}
use workcentre_3119_modern_d.Bitmap.Rows.{Whole, validate_band_geometry-Whole}
use workcentre_3119_modern_d.Bitmap.Contents.{band_data, Fits, validate_band_geometry-Fits}
use workcentre_3119_modern_d.Bitmap.Pushed.{
  no_totals, added, validate_accumulation-added, Begun, Ready, fresh, begun, first-Begun,
  later-Begun, write_band-Begun,
}

module _ {W : Type 0} (out : Writer W) (contents : W → List ℕ) (position : W → ℕ)
    (laws : FileLaws out contents position) where
  begin_image-Begun :
      (mode : ColorMode) (ppm : ℕ) (t : Totals) (pixels : List ℕ) (e : BmpEncoder W)
      (band : ImageBand) (g : BandGeometry)
      → Ready out contents position laws mode ppm t pixels e
      → Fits mode band g
      → width_changed e band.width ≡ false
      → (begin_image out band g e).0 ≡ ok tt
      → Begun out contents position laws mode ppm band.width t pixels (begin_image out band g e).1
  begin_image-Begun mode ppm t pixels e band g (fresh h p q) fit same r =
      subst
        (λ (x : Totals).
          Begun out contents position laws mode ppm band.width x pixels
            (begin_image out band g e).1)
        (sym p)
        (subst
          (λ (x : List ℕ).
            Begun out contents position laws mode ppm band.width no_totals x
              (begin_image out band g e).1)
          (sym q) (first-Begun out contents position laws mode ppm e band g h fit r))
  begin_image-Begun mode ppm t pixels e band g (begun width h) fit same r =
      later-Begun out contents position laws mode ppm width t pixels e band g h same

  pub Ready-mode :
      (mode : ColorMode) (ppm : ℕ) (t : Totals) (pixels : List ℕ) (e : BmpEncoder W)
      → Ready out contents position laws mode ppm t pixels e
      → (e.mode ≡ mode) × (e.totals ≡ t) × (e.poisoned ≡ none)
  Ready-mode mode ppm t pixels e (fresh h p q) = (h.in_mode, h.nothing_yet ∙ sym p, h.unpoisoned)
  Ready-mode mode ppm t pixels e (begun width h) = (h.in_mode, h.counted, h.unpoisoned)

  -- `push` behind its checks.
  abbrev store : ImageBand → BandGeometry → Totals → St (BmpEncoder W) (Unit {0})
  store band g next =
      begin_image out band g >> (write_band out band g >> change (λ e. record e { totals = next }))

  store-Begun :
      (mode : ColorMode) (ppm : ℕ) (t : Totals) (pixels : List ℕ) (e : BmpEncoder W)
      (band : ImageBand) (g : BandGeometry)
      → Ready out contents position laws mode ppm t pixels e
      → Fits mode band g
      → width_changed e band.width ≡ false
      → (store band g (added t band) e).0 ≡ ok tt
      → Begun out contents position laws mode ppm band.width
          (added t band)
          (pixels ++ band_data mode band)
          (store band g (added t band) e).1
  store-Begun mode ppm t pixels e band g h fit same q =
      let count : St (BmpEncoder W) (Unit {0}) = change (λ e. record e { totals = added t band }) in
      let e1 = (begin_image out band g e).1 in
      let s = then_do_ok (begin_image out band g e) (λ _. write_band out band g >> count) tt q in
      let started =
        begin_image-Begun mode ppm t pixels e band g h fit same
          (ap (λ (r : Result (Unit {0}) × BmpEncoder W). r.0) s.1) in
      let u = then_do_ok (write_band out band g e1) (λ _. count) tt s.2 in
      let kept =
        write_band-Begun out contents position laws mode ppm t pixels e1 band g started fit
          (ap (λ (r : Result (Unit {0}) × BmpEncoder W). r.0) u.1) in
      subst
        (λ (r : Result (Unit {0}) × BmpEncoder W).
          Begun out contents position laws mode ppm band.width (added t band)
            (pixels ++ band_data mode band) r.1)
        (sym (s.3 ∙ u.3)) kept

  push_band_ok :
      (e : BmpEncoder W) (band : ImageBand)
      → (push_band out band e).0 ≡ ok tt
      → (g : BandGeometry) × (validate_band_geometry band e.mode ≡ ok g)
        × (width_changed e band.width ≡ false)
        × (next : Totals) × (validate_accumulation e.totals band.width band.rows g.pixel_bytes
              g.row_stride
            ≡ ok next)
        × (push_band out band e ≡ store band g next e)
  unfolding push_band
  push_band_ok e band q = elim (Result-cases (validate_band_geometry band e.mode)) [
    | inr (x, p) ↦ ground arith
    | inl (g, p) ↦ elim (Bool-cases (width_changed e band.width)) [
      | inl c ↦ ground arith
      | inr c ↦
          elim (Result-cases
            (validate_accumulation e.totals band.width band.rows g.pixel_bytes g.row_stride)) [
              | inr (x, a) ↦ ground arith
              | inl (next, a) ↦ (g, p, c, next, a, rw p (rw c (rw a refl)))
            ]
    ]
  ]

  push_band-Begun :
      (mode : ColorMode) (ppm : ℕ) (t : Totals) (pixels : List ℕ) (e : BmpEncoder W)
      (band : ImageBand)
      → Ready out contents position laws mode ppm t pixels e
      → (push_band out band e).0 ≡ ok tt
      → Begun out contents position laws mode ppm band.width
          (added t band)
          (pixels ++ band_data mode band)
          (push_band out band e).1
  push_band-Begun mode ppm t pixels e band h q =
      let known = Ready-mode mode ppm t pixels e h in
      let s = push_band_ok e band q in
      let g = s.0 in
      let fit =
        validate_band_geometry-Fits mode band g
          (ap (validate_band_geometry band) (sym known.0) ∙ s.1) in
      let next : s.3 ≡ added t band =
        validate_accumulation-added e.totals s.3 band g.pixel_bytes g.row_stride s.4 fit.pixel_bytes
        ∙ ap (λ (x : Totals). added x band) known.1 in
      let done : push_band out band e ≡ store band g (added t band) e =
        s.5 ∙ ap (λ (x : Totals). store band g x e) next in
      subst
        (λ (r : Result (Unit {0}) × BmpEncoder W).
          Begun out contents position laws mode ppm band.width (added t band)
            (pixels ++ band_data mode band) r.1)
        (sym done)
        (store-Begun mode ppm t pixels e band g h fit s.2
          (ap (λ (r : Result (Unit {0}) × BmpEncoder W). r.0) (sym done) ∙ q))

  pub push-Begun :
      (mode : ColorMode) (ppm : ℕ) (t : Totals) (pixels : List ℕ) (e : BmpEncoder W)
      (band : ImageBand)
      → Ready out contents position laws mode ppm t pixels e
      → (push out band e).0 ≡ ok tt
      → Begun out contents position laws mode ppm band.width
          (added t band)
          (pixels ++ band_data mode band)
          (push out band e).1
  unfolding push
  push-Begun mode ppm t pixels e band h q =
      let known = Ready-mode mode ppm t pixels e h in
      elim (Result-cases (push_band out band e).0) [
        | inl (tt, p) ↦
            let same : push out band e ≡ push_band out band e = ground (arith, known.2) in
            subst
              (λ (r : Result (Unit {0}) × BmpEncoder W).
                Begun out contents position laws mode ppm band.width (added t band)
                  (pixels ++ band_data mode band) r.1)
              (sym same) (push_band-Begun mode ppm t pixels e band h p)
        | inr (x, p) ↦ ground (arith, known.2)
      ]

  pub push_same_width :
      (mode : ColorMode) (ppm width : ℕ) (t : Totals) (pixels : List ℕ) (e : BmpEncoder W)
      (band : ImageBand)
      → Begun out contents position laws mode ppm width t pixels e
      → (push out band e).0 ≡ ok tt
      → band.width ≡ width
  unfolding push
  push_same_width mode ppm width t pixels e band h q =
      elim (Result-cases (push_band out band e).0) [
        | inl (tt, p) ↦ let s = push_band_ok e band p in ground (arith, s.2, h.of_width)
        | inr (x, p) ↦ ground (arith, h.unpoisoned)
      ]

  -- A band that `push` accepts has whole rows.
  pub push-Whole :
      (mode : ColorMode) (ppm : ℕ) (t : Totals) (pixels : List ℕ) (e : BmpEncoder W)
      (band : ImageBand)
      → Ready out contents position laws mode ppm t pixels e
      → (push out band e).0 ≡ ok tt
      → Whole mode band
  unfolding push
  push-Whole mode ppm t pixels e band h q =
      let known = Ready-mode mode ppm t pixels e h in
      elim (Result-cases (push_band out band e).0) [
        | inl (tt, p) ↦
            let s = push_band_ok e band p in
            validate_band_geometry-Whole mode band s.0
              (ap (validate_band_geometry band) (sym known.0) ∙ s.1)
        | inr (x, p) ↦ ground (arith, known.2)
      ]
