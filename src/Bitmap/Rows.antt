-- ===== src/Bitmap/Rows.antt =====
-- src/bitmap.rs: where a sample of the image stands among the stored rows.
use workcentre_3119_modern_d.Prelude.{
  ℕ, zero, suc, ◌+◌, ◌-◌, ◌*◌, ◌<◌, ◌≤◌, ◌≡◌, refl, ap, ◌∙◌, List, [], ◌∷◌, ◌++◌, length, take,
  drop, replicate, arith, length-append, length-replicate, length-take, length-drop, get_or-append,
  get_or-append_left,
}
use workcentre_3119_modern_d.Prelude.Bytes.{byte_at}
use workcentre_3119_modern_d.Prelude.Chunks.{join_at, chunk_at}
use workcentre_3119_modern_d.Errors.{ok}
use workcentre_3119_modern_d.Scan.Window.{ColorMode, gray, rgb, channels}
use workcentre_3119_modern_d.Scan.Machine.{ImageBand}
use workcentre_3119_modern_d.Bitmap.{BandGeometry, stride_of, validate_band_geometry}
use workcentre_3119_modern_d.Bitmap.Encoder.{stored_row, swap_pixel}
use workcentre_3119_modern_d.Bitmap.Contents.{band_data, length-swap_pixel, length-stored_row}

-- A band of whole rows.
pub record Whole (mode : ColorMode) (band : ImageBand) : Type 0 where
  pub wide : 0 < band.width * channels mode
  pub tall : 0 < band.rows
  pub whole_rows : length band.pixels ≡ band.width * channels mode * band.rows

pub validate_band_geometry-Whole :
    (mode : ColorMode) (band : ImageBand) (g : BandGeometry)
    → validate_band_geometry band mode ≡ ok g
    → Whole mode band
unfolding validate_band_geometry
validate_band_geometry-Whole mode band g e = record {
  wide = ground arith;
  tall = ground arith;
  whole_rows = ground arith;
}

pub row_le : (r k n : ℕ) → r < k → r * n + n ≤ k * n
row_le r zero n h = absurd (omega arith)
row_le zero (suc k) n h = omega arith
row_le (suc r) (suc k) n h = omega (arith, row_le r k n (omega arith))

swap_at :
    (p : List ℕ) (c : ℕ) → length p ≡ 3 → c < 3 → byte_at (swap_pixel p) c ≡ byte_at p (3 - 1 - c)
swap_at [] c e h = absurd (omega arith)
swap_at (x ∷ []) c e h = absurd (omega arith)
swap_at (x ∷ y ∷ []) c e h = absurd (omega arith)
swap_at (x ∷ y ∷ z ∷ w ∷ rest) c e h = absurd (omega arith)
swap_at (x ∷ y ∷ z ∷ []) zero e h = refl
swap_at (x ∷ y ∷ z ∷ []) (suc zero) e h = refl
swap_at (x ∷ y ∷ z ∷ []) (suc (suc zero)) e h = refl
swap_at (x ∷ y ∷ z ∷ []) (suc (suc (suc c))) e h = absurd (omega arith)

-- In a stored row the samples of a pixel stand in the reverse order.
stored_at :
    (mode : ColorMode) (width x c : ℕ) (row : List ℕ)
    → length row ≡ width * channels mode
    → x < width
    → c < channels mode
    → byte_at (stored_row mode row) (x * channels mode + c)
      ≡ byte_at row (x * channels mode + (channels mode - 1 - c))
stored_at gray width x c row e hx hc =
    ap (byte_at row) (let q : x * 1 + c ≡ x * 1 + (1 - 1 - c) = omega arith in q)
stored_at rgb width x c row e hx hc =
    let room = row_le x width 3 hx in
    join_at swap_pixel width 3 3 row x c 0 length-swap_pixel (omega arith) e hx hc
    ∙ swap_at (take 3 (drop (x * 3) row)) c
        (omega (arith, length-take 3 (drop (x * 3) row), length-drop (x * 3) row)) hc
    ∙ chunk_at (x * 3) 3 (3 - 1 - c) row 0 (omega arith)

pixel-lt :
    (mode : ColorMode) (width x c : ℕ)
    → x < width
    → c < channels mode
    → x * channels mode + c < width * channels mode
pixel-lt mode width x c hx hc = omega (arith, row_le x width (channels mode) hx)

reversed-lt : (mode : ColorMode) (c : ℕ) → c < channels mode → channels mode - 1 - c < channels mode
reversed-lt mode c h = omega arith

zeros : (k i : ℕ) → byte_at (replicate k 0) i ≡ 0
zeros zero i = refl
zeros (suc k) zero = refl
zeros (suc k) (suc i) = zeros k i

module _ (mode : ColorMode) (band : ImageBand) (h : Whole mode band) (r : ℕ)
    (hr : r < band.rows) where
  abbrev n : ℕ
  n = band.width * channels mode

  abbrev m : ℕ
  m = stride_of n

  abbrev row : List ℕ
  row = take n (drop (r * n) band.pixels)

  row_size : length row ≡ n
  row_size = omega (
    arith,
    length-take n (drop (r * n) band.pixels),
    length-drop (r * n) band.pixels,
    h.whole_rows,
    row_le r band.rows n hr,
  )

  padded : (ys : List ℕ) → length ys ≡ n → length (stored_row mode ys ++ replicate (m - n) 0) ≡ m
  padded ys e = omega (
    arith,
    length-append (stored_row mode ys) (replicate (m - n) 0),
    length-replicate {A = ℕ} (m - n) 0,
    length-stored_row mode band.width ys e,
  )

  band_at :
      (i : ℕ)
      → i < m
      → byte_at (band_data mode band) (r * m + i)
        ≡ byte_at (stored_row mode row ++ replicate (m - n) 0) i
  band_at i hi =
      join_at (λ (ys : List ℕ). stored_row mode ys ++ replicate (m - n) 0) band.rows n m band.pixels
        r i 0 padded h.wide (omega (arith, h.whole_rows)) hr hi

  pub band_pixel :
      (x c : ℕ)
      → x < band.width
      → c < channels mode
      → byte_at (band_data mode band) (r * m + (x * channels mode + c))
        ≡ byte_at band.pixels (r * n + (x * channels mode + (channels mode - 1 - c)))
  band_pixel x c hx hc =
      let inside = pixel-lt mode band.width x c hx hc in
      let size = length-stored_row mode band.width row row_size in
      band_at (x * channels mode + c) (omega arith)
      ∙ get_or-append_left (stored_row mode row) (replicate (m - n) 0) (x * channels mode + c) 0
          (omega (arith, size))
      ∙ stored_at mode band.width x c row row_size hx hc
      ∙ chunk_at (r * n) n (x * channels mode + (channels mode - 1 - c)) band.pixels 0
          (pixel-lt mode band.width x (channels mode - 1 - c) hx (reversed-lt mode c hc))

  pub band_padding : (j : ℕ) → n ≤ j → j < m → byte_at (band_data mode band) (r * m + j) ≡ 0
  band_padding j low high =
      let size = length-stored_row mode band.width row row_size in
      band_at j high
      ∙ ap (byte_at (stored_row mode row ++ replicate (m - n) 0))
          (let q : j ≡ n + (j - n) = omega arith in q)
      ∙ get_or-append (stored_row mode row) (replicate (m - n) 0) n (j - n) 0 size
      ∙ zeros (m - n) (j - n)
