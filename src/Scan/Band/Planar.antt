-- ===== src/Scan/Band/Planar.antt =====
-- `decode` turns planar RGB rows into interleaved ones, and changes nothing else.
use workcentre_3119_modern_d.Prelude.{
  ℕ, zero, suc, ◌+◌, ◌*◌, ◌≤◌, ◌<◌, ◌≡◌, ◌⊎◌, inl, inr, refl, ap, ◌∙◌, List, arith, length, take,
  drop, get_or, set, length-set, length-take, length-drop, get_or-set_self, get_or-set_ne,
  get_or-take,
}
use workcentre_3119_modern_d.Prelude.Chunks.{chunks_exact, join, join_at, length-join, chunk_at}
use workcentre_3119_modern_d.Errors.{ok}
use workcentre_3119_modern_d.Scan.Window.{ColorMode, gray, rgb, channels}
use workcentre_3119_modern_d.Scan.Band.{BandInfo, spread_pixel, spread_row, interleave, decode}
use mathlib.Core.List.{map}

le_cases : (x y : ℕ) → x ≤ y → (x ≡ y) ⊎ (x < y)
le_cases x y h = omega arith

module _ (width : ℕ) (input : List ℕ) where
  length-spread_pixel :
      (x : ℕ) (out : List ℕ) → length (spread_pixel width input x out) ≡ length out
  length-spread_pixel x out =
      length-set (set (set out (x * 3) _) (x * 3 + 1) _) (x * 3 + 2) _
      ∙ length-set (set out (x * 3) _) (x * 3 + 1) _
      ∙ length-set out (x * 3) _

  spread_pixel_other :
      (x j : ℕ) (out : List ℕ)
      → (j < x * 3) ⊎ (x * 3 + 2 < j)
      → get_or (spread_pixel width input x out) j 0 ≡ get_or out j 0
  spread_pixel_other x j out h =
      get_or-set_ne (set (set out (x * 3) _) (x * 3 + 1) _) (x * 3 + 2) j _ 0 (omega arith)
      ∙ get_or-set_ne (set out (x * 3) _) (x * 3 + 1) j _ 0 (omega arith)
      ∙ get_or-set_ne out (x * 3) j _ 0 (omega arith)

  spread_pixel_at :
      (x c : ℕ) (out : List ℕ)
      → c < 3
      → x * 3 + 2 < length out
      → get_or (spread_pixel width input x out) (x * 3 + c) 0 ≡ get_or input (c * width + x) 0
  spread_pixel_at x zero out hc h =
      let e : x * 3 + zero ≡ x * 3 = omega arith in
      let e' : x ≡ zero * width + x = omega arith in
      ap (λ (t : ℕ). get_or (spread_pixel width input x out) t 0) e
      ∙ get_or-set_ne (set (set out (x * 3) _) (x * 3 + 1) _) (x * 3 + 2) (x * 3) _ 0 (omega arith)
      ∙ get_or-set_ne (set out (x * 3) _) (x * 3 + 1) (x * 3) _ 0 (omega arith)
      ∙ get_or-set_self out (x * 3) _ 0 (omega arith)
      ∙ ap (λ (t : ℕ). get_or input t 0) e'
  spread_pixel_at x (suc zero) out hc h =
      let e' : width + x ≡ 1 * width + x = omega arith in
      get_or-set_ne (set (set out (x * 3) _) (x * 3 + 1) _) (x * 3 + 2) (x * 3 + 1) _ 0
        (omega arith)
      ∙ get_or-set_self (set out (x * 3) _) (x * 3 + 1) _ 0
          (omega (arith, length-set out (x * 3) (get_or input x 0)))
      ∙ ap (λ (t : ℕ). get_or input t 0) e'
  spread_pixel_at x (suc (suc zero)) out hc h =
      get_or-set_self (set (set out (x * 3) _) (x * 3 + 1) _) (x * 3 + 2) _ 0 (
        omega (
          arith,
          length-set (set out (x * 3) (get_or input x 0)) (x * 3 + 1) (get_or input (width + x) 0),
          length-set out (x * 3) (get_or input x 0),
        ))
  spread_pixel_at x (suc (suc (suc c))) out hc h = absurd (omega arith)

  length-spread_row :
      (n x : ℕ) (out : List ℕ) → length (spread_row n x width input out) ≡ length out
  unfolding spread_row
  length-spread_row zero x out = refl
  length-spread_row (suc n) x out = length-spread_row n (x + 1) _ ∙ length-spread_pixel x out

  -- Columns before the current one are done.
  spread_row_keeps :
      (n x j : ℕ) (out : List ℕ)
      → j < x * 3
      → get_or (spread_row n x width input out) j 0 ≡ get_or out j 0
  unfolding spread_row
  spread_row_keeps zero x j out h = refl
  spread_row_keeps (suc n) x j out h =
      spread_row_keeps n (x + 1) j _ (omega arith) ∙ spread_pixel_other x j out (inl h)

  spread_row_at :
      (n x y c : ℕ) (out : List ℕ)
      → x ≤ y
      → y < x + n
      → c < 3
      → (x + n) * 3 ≤ length out
      → get_or (spread_row n x width input out) (y * 3 + c) 0 ≡ get_or input (c * width + y) 0
  unfolding spread_row
  spread_row_at zero x y c out lo hi hc h = absurd (omega arith)
  spread_row_at (suc n) x y c out lo hi hc h = elim (le_cases x y lo) [
    | inl e ↦
        spread_row_keeps n (x + 1) (y * 3 + c) _ (omega arith)
        ∙ rw (← e) (spread_pixel_at x c out hc (omega arith))
    | inr lt ↦
        spread_row_at n (x + 1) y c _ (omega arith) (omega arith) hc
          (omega (arith, length-spread_pixel x out))
  ]

-- One row: sample `c` of column `x` is the input's sample `x` in plane `c`.
interleave_at :
    (width x c : ℕ) (row : List ℕ)
    → length row ≡ width * 3
    → x < width
    → c < 3
    → get_or (interleave width row) (x * 3 + c) 0 ≡ get_or row (c * width + x) 0
unfolding interleave
interleave_at width x c row e hx hc =
    spread_row_at width row width 0 x c row (omega arith) (omega arith) hc (omega arith)

length-interleave : (width : ℕ) (row : List ℕ) → length (interleave width row) ≡ length row
unfolding interleave
length-interleave width row = length-spread_row width row width 0 row

plane-lt : (c x w : ℕ) → c < 3 → x < w → c * w + x < w * 3
plane-lt zero x w hc hx = omega arith
plane-lt (suc zero) x w hc hx = omega arith
plane-lt (suc (suc zero)) x w hc hx = omega arith
plane-lt (suc (suc (suc c))) x w hc hx = absurd (omega arith)

room : (r rows n : ℕ) → r < rows → r * n + n ≤ rows * n
room r rows n h = grind arith

module _ (band : BandInfo) (raw : List ℕ) where
  -- The wire data holds every pixel that the metadata announces.
  abbrev pub HoldsPixels : ColorMode → Type 0
  HoldsPixels mode = band.width * band.rows * channels mode ≤ band.length

  planar : List ℕ
  planar = join (
      map (interleave band.width)
        (chunks_exact (band.width * 3) (take (band.width * band.rows * 3) raw)))

  decode_rgb :
      (pixels : List ℕ)
      → decode band raw rgb 1 ≡ ok pixels
      → (length raw ≡ band.length) × (pixels ≡ planar)
  unfolding decode planar
  decode_rgb pixels e = ground arith

  length-interleave_row :
      (ys : List ℕ)
      → length ys ≡ band.width * 3
      → length (interleave band.width ys) ≡ band.width * 3
  length-interleave_row ys h = length-interleave band.width ys ∙ h

  taken :
      length raw ≡ band.length
      → HoldsPixels rgb
      → length (take (band.width * band.rows * 3) raw) ≡ band.rows * (band.width * 3)
  taken e h = omega (arith, length-take (band.width * band.rows * 3) raw)

  index-lt :
      (r i : ℕ)
      → r < band.rows
      → i < band.width * 3
      → r * (band.width * 3) + i < band.width * band.rows * 3
  index-lt r i hr hi = grind arith

  row_len :
      (r : ℕ)
      → length raw ≡ band.length
      → HoldsPixels rgb
      → r < band.rows
      → length (
          take
            (band.width * 3)
            (drop (r * (band.width * 3)) (take (band.width * band.rows * 3) raw)))
        ≡ band.width * 3
  row_len r e h hr =
      let xs = take (band.width * band.rows * 3) raw in
      omega (
        arith,
        length-take (band.width * 3) (drop (r * (band.width * 3)) xs),
        length-drop (r * (band.width * 3)) xs,
        taken e h,
        room r band.rows (band.width * 3) hr,
      )

  planar_at :
      (r x c : ℕ)
      → length raw ≡ band.length
      → HoldsPixels rgb
      → r < band.rows
      → x < band.width
      → c < 3
      → get_or planar (r * (band.width * 3) + (x * 3 + c)) 0
        ≡ get_or raw (r * (band.width * 3) + (c * band.width + x)) 0
  unfolding planar
  planar_at r x c e h hr hx hc =
      let n = band.width * 3 in
      let xs = take (band.width * band.rows * 3) raw in
      join_at (interleave band.width) band.rows n n xs r (x * 3 + c) 0 length-interleave_row
        (omega arith) (taken e h) hr (omega arith)
      ∙ interleave_at band.width x c (take n (drop (r * n) xs)) (row_len r e h hr) hx hc
      ∙ chunk_at (r * n) n (c * band.width + x) xs 0 (plane-lt c x band.width hc hx)
      ∙ get_or-take (band.width * band.rows * 3) (r * n + (c * band.width + x)) raw 0
          (index-lt r (c * band.width + x) hr (plane-lt c x band.width hc hx))

  length-planar :
      0 < band.width
      → length raw ≡ band.length
      → HoldsPixels rgb
      → length planar ≡ band.rows * (band.width * 3)
  unfolding planar
  length-planar pos e h =
      length-join (interleave band.width) band.rows (band.width * 3) (band.width * 3)
        (take (band.width * band.rows * 3) raw) length-interleave_row (omega arith) (taken e h)

  -- For a band that holds its pixels, in planar wire order: in row `r`, sample `c` of column `x` comes from plane `c` of the same wire row,
  -- and there are exactly the announced samples.
  pub decode_planar :
      (pixels : List ℕ)
      → 0 < band.width
      → HoldsPixels rgb
      → decode band raw rgb 1 ≡ ok pixels
      → (length pixels ≡ band.rows * (band.width * 3))
        × ((r x c : ℕ)
            → r < band.rows
            → x < band.width
            → c < 3
            → get_or pixels (r * (band.width * 3) + (x * 3 + c)) 0
              ≡ get_or raw (r * (band.width * 3) + (c * band.width + x)) 0)
  decode_planar pixels pos h e =
      let (len, same) = decode_rgb pixels e in
      rw same (length-planar pos len h, λ r x c hr hx hc. planar_at r x c len h hr hx hc)

  -- A band that holds its pixels, gray or in interleaved order, decodes to the wire data without its
  -- padding.
  pub decode_plain :
      (mode : ColorMode) (order : ℕ) (pixels : List ℕ)
      → (mode ≡ gray) ⊎ (order ≡ 0)
      → HoldsPixels mode
      → decode band raw mode order ≡ ok pixels
      → (length pixels ≡ band.width * band.rows * channels mode)
        × (pixels ≡ take (band.width * band.rows * channels mode) raw)
  unfolding decode
  decode_plain mode order pixels plain h e =
      ground (arith, length-take (band.width * band.rows * channels mode) raw)

  -- Other channel orders are refused.
  pub decode_order :
      (order : ℕ) (pixels : List ℕ) → decode band raw rgb order ≡ ok pixels → order ≤ 1
  unfolding decode
  decode_order order pixels e = ground arith
