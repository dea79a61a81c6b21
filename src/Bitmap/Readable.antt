-- ===== src/Bitmap/Readable.antt =====
-- src/bitmap.rs: the stored rows and the palette, as a reader of the file sees them.
use workcentre_3119_modern_d.Prelude.{
  ℕ, zero, suc, ◌+◌, ◌-◌, ◌*◌, ◌/◌, ◌<◌, ◌≤◌, ◌≡◌, inl, inr, refl, sym, ap, ◌∙◌, List, [], ◌∷◌,
  ◌++◌, length, arith, All, ltb, Bool-cases, length-append, get_or-append, get_or-append_left,
}
use mathlib.Core.Path.{subst}
use workcentre_3119_modern_d.Prelude.Bytes.{byte_at}
use workcentre_3119_modern_d.Scan.Window.{ColorMode, channels}
use workcentre_3119_modern_d.Scan.Machine.{ImageBand}
use workcentre_3119_modern_d.Bitmap.Encoder.{palette_from}
use workcentre_3119_modern_d.Bitmap.Contents.{band_data, image_data, length-band_data}
use workcentre_3119_modern_d.Bitmap.Rows.{row_le, Whole, band_pixel, band_padding}
use workcentre_3119_modern_d.Bitmap.Reading.{samples_of, Stored}
use workcentre_3119_modern_d.Bitmap.Encoding.{rows_of}

place-lt : (width ch x c : ℕ) → x < width → c < ch → x * ch + c < width * ch
place-lt width ch x c hx hc = omega (arith, row_le x width ch hx)

module _ (ch width : ℕ) where
  abbrev n : ℕ
  n = width * ch

  abbrev m : ℕ
  m = (n + 3) / 4 * 4

  -- More bytes and samples after the row.
  Stored-before :
      (a b s t : List ℕ) (r k : ℕ)
      → length a ≡ k * m
      → length s ≡ k * n
      → r < k
      → Stored ch width a s r
      → Stored ch width (a ++ b) (s ++ t) r
  Stored-before a b s t r k ea es hr (pixels, padding) = (
    λ x c hx hc.
        get_or-append_left a b (r * m + (x * ch + c)) 0
          (omega (arith, row_le r k m hr, place-lt width ch x c hx hc))
        ∙ pixels x c hx hc
        ∙ sym (
            get_or-append_left s t (r * n + (x * ch + (ch - 1 - c))) 0
              (omega (arith, row_le r k n hr, place-lt width ch x (ch - 1 - c) hx (omega arith)))),
    λ j low high.
        get_or-append_left a b (r * m + j) 0 (omega (arith, row_le r k m hr)) ∙ padding j low high,
  )

  shifted : (k r i p : ℕ) → (k + r) * p + i ≡ k * p + (r * p + i)
  shifted k r i p = grind arith

  -- More bytes and samples before the row.
  Stored-after :
      (a b s t : List ℕ) (r k : ℕ)
      → length a ≡ k * m
      → length s ≡ k * n
      → Stored ch width b t r
      → Stored ch width (a ++ b) (s ++ t) (k + r)
  Stored-after a b s t r k ea es (pixels, padding) = (
    λ x c hx hc.
        ap (byte_at (a ++ b)) (shifted k r (x * ch + c) m)
        ∙ get_or-append a b (k * m) (r * m + (x * ch + c)) 0 ea
        ∙ pixels x c hx hc
        ∙ sym (get_or-append s t (k * n) (r * n + (x * ch + (ch - 1 - c))) 0 es)
        ∙ sym (ap (byte_at (s ++ t)) (shifted k r (x * ch + (ch - 1 - c)) n)),
    λ j low high.
        ap (byte_at (a ++ b)) (shifted k r j m)
        ∙ get_or-append a b (k * m) (r * m + j) 0 ea
        ∙ padding j low high,
  )

band-Stored :
    (mode : ColorMode) (band : ImageBand) (width r : ℕ)
    → band.width ≡ width
    → Whole mode band
    → r < band.rows
    → Stored (channels mode) width (band_data mode band) band.pixels r
band-Stored mode band width r e h hr =
    subst (λ (w : ℕ). Stored (channels mode) w (band_data mode band) band.pixels r) e
      (band_pixel mode band h r hr, band_padding mode band h r hr)

band_size :
    (mode : ColorMode) (band : ImageBand) (width : ℕ)
    → band.width ≡ width
    → Whole mode band
    → (length (band_data mode band) ≡ band.rows * ((width * channels mode + 3) / 4 * 4))
      × (length band.pixels ≡ band.rows * (width * channels mode))
band_size mode band width e h =
    subst
      (λ (w : ℕ).
        (length (band_data mode band) ≡ band.rows * ((w * channels mode + 3) / 4 * 4))
        × (length band.pixels ≡ band.rows * (w * channels mode)))
      e (omega (arith, length-band_data mode band h.wide h.whole_rows), omega (arith, h.whole_rows))

pub image-Stored :
    (mode : ColorMode) (width : ℕ) (bands : List ImageBand) (r : ℕ)
    → All (λ (band : ImageBand). band.width ≡ width) bands
    → All (Whole mode) bands
    → r < rows_of bands
    → Stored (channels mode) width (image_data mode bands) (samples_of bands) r
image-Stored mode width [] r same whole hr = absurd (omega arith)
image-Stored mode width (band ∷ bands) r same whole hr =
    let (a, s) = band_size mode band width same.0 whole.0 in
    elim (Bool-cases (ltb r band.rows)) [
      | inl q ↦
          let inside : r < band.rows = ground arith in
          Stored-before (channels mode) width (band_data mode band) (image_data mode bands)
            band.pixels (samples_of bands) r band.rows a s inside
            (band-Stored mode band width r same.0 whole.0 inside)
      | inr q ↦
          let above : band.rows ≤ r = ground arith in
          let at : band.rows + (r - band.rows) ≡ r = omega arith in
          subst
            (λ (t : ℕ).
              Stored (channels mode) width (image_data mode (band ∷ bands))
                (samples_of (band ∷ bands)) t)
            at
            (Stored-after (channels mode) width (band_data mode band) (image_data mode bands)
              band.pixels (samples_of bands) (r - band.rows) band.rows a s
              (image-Stored mode width bands (r - band.rows) same.1 whole.1 (omega arith)))
    ]

pub length-samples_of :
    (mode : ColorMode) (width : ℕ) (bands : List ImageBand)
    → All (λ (band : ImageBand). band.width ≡ width) bands
    → All (Whole mode) bands
    → length (samples_of bands) ≡ width * channels mode * rows_of bands
length-samples_of mode width [] same whole = omega arith
length-samples_of mode width (band ∷ bands) same whole = omega (
  arith,
  length-append band.pixels (samples_of bands),
  (band_size mode band width same.0 whole.0).1,
  length-samples_of mode width bands same.1 whole.1,
)

pub palette_gray : (v n i k : ℕ) → i < n → k < 3 → byte_at (palette_from v n) (i * 4 + k) ≡ v + i
unfolding palette_from
palette_gray v zero i k hi hk = absurd (omega arith)
palette_gray v (suc n) zero zero hi hk = omega arith
palette_gray v (suc n) zero (suc zero) hi hk = omega arith
palette_gray v (suc n) zero (suc (suc zero)) hi hk = omega arith
palette_gray v (suc n) zero (suc (suc (suc k))) hi hk = absurd (omega arith)
palette_gray v (suc n) (suc i) k hi hk =
    ap (byte_at (palette_from v (suc n)))
      (let q : suc i * 4 + k ≡ suc (suc (suc (suc (i * 4 + k)))) = omega arith in q)
    ∙ palette_gray (suc v) n i k (omega arith) hk
    ∙ (let q : suc v + i ≡ v + suc i = omega arith in q)

pub palette_unused : (v n i : ℕ) → i < n → byte_at (palette_from v n) (i * 4 + 3) ≡ 0
unfolding palette_from
palette_unused v zero i hi = absurd (omega arith)
palette_unused v (suc n) zero hi = refl
palette_unused v (suc n) (suc i) hi =
    ap (byte_at (palette_from v (suc n)))
      (let q : suc i * 4 + 3 ≡ suc (suc (suc (suc (i * 4 + 3)))) = omega arith in q)
    ∙ palette_unused (suc v) n i (omega arith)
