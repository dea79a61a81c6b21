-- ===== src/Minidrv/Geometry.antt =====
-- src/com_server/minidrv/properties/catalog.rs: sizes of the bed, of the hardware step and of a file.
-- A count that the source has checked not to be negative is a natural number here.
use workcentre_3119_modern_d.Prelude.{
  ℕ, zero, suc, ◌+◌, ◌-◌, ◌*◌, ◌/◌, ◌%◌, ◌^◌, ◌<◌, ◌≤◌, ◌≡◌, refl, sym, ◌⊎◌, inl, inr, true, ◌==◌,
  leb, arith, if◌then◌else◌,
}
use mathlib.Core.Path.{subst}
use workcentre_3119_modern_d.Prelude.Int.{pos}
use workcentre_3119_modern_d.Scan.Window.{ColorMode, gray, rgb}
use workcentre_3119_modern_d.Wia.{supported_resolution}
use workcentre_3119_modern_d.Minidrv.{Hresult, refuse, ◌>>◌, to_i32}

-- `units` in 1/1200 inch as whole pixels; the product is below 2 ^ 64.
unfoldable pub pixels_from_units : ℕ → ℕ → Hresult ℕ
pixels_from_units units dpi = to_i32 (units * dpi / 1200)

unfoldable pub size_thousandths : ℕ → Hresult ℕ
size_thousandths units = to_i32 (units * 1000 / 1200)

unfoldable pub min_size_thousandths : ℕ → Hresult ℕ
min_size_thousandths max_dpi = to_i32 ((1000 + (max_dpi - 1)) / max_dpi)

-- The loop of `offset_step`: each turn makes `b` smaller.
unfoldable pub step_loop : ℕ → ℕ → ℕ → ℕ
step_loop zero a b = a
step_loop (suc fuel) a b = let rest = step_loop fuel b (a % b) in if b == 0 then a else rest

unfoldable pub offset_step : ℕ → ℕ
offset_step dpi = dpi / step_loop 101 dpi 100

-- `div_ceil(32) * 4` bytes for a row, and the headers.
unfoldable pub bmp_size : ℕ → ℕ → ℕ → Hresult ℕ
bmp_size width height depth =
    let stride = (width * depth + 31) / 32 * 4 in
    let palette = if depth == 8 then 1024 else 0 in
    do
      refuse (leb (2 ^ 64) (stride * height + (14 + 40 + palette)))
      to_i32 (stride * height + (14 + 40 + palette))

abbrev pub depth_of : ColorMode → ℕ
depth_of gray = 8
depth_of rgb = 24

-- A hardware offset is 1/100 inch: `step` pixels are a whole number of them, and fewer are not.
pub record LeastStep (dpi step : ℕ) : Type 0 where
  pub some_pixels : 0 < step
  pub whole : step * 100 % dpi ≡ 0
  pub least : (k : ℕ) → 0 < k → k * 100 % dpi ≡ 0 → step ≤ k

LeastStep-75 : LeastStep 75 (offset_step 75)
unfolding offset_step step_loop
LeastStep-75 = record { some_pixels = omega arith; whole = refl; least = λ k h e. omega arith }

LeastStep-100 : LeastStep 100 (offset_step 100)
unfolding offset_step step_loop
LeastStep-100 = record { some_pixels = omega arith; whole = refl; least = λ k h e. omega arith }

LeastStep-150 : LeastStep 150 (offset_step 150)
unfolding offset_step step_loop
LeastStep-150 = record { some_pixels = omega arith; whole = refl; least = λ k h e. omega arith }

LeastStep-200 : LeastStep 200 (offset_step 200)
unfolding offset_step step_loop
LeastStep-200 = record { some_pixels = omega arith; whole = refl; least = λ k h e. omega arith }

LeastStep-300 : LeastStep 300 (offset_step 300)
unfolding offset_step step_loop
LeastStep-300 = record { some_pixels = omega arith; whole = refl; least = λ k h e. omega arith }

LeastStep-600 : LeastStep 600 (offset_step 600)
unfolding offset_step step_loop
LeastStep-600 = record { some_pixels = omega arith; whole = refl; least = λ k h e. omega arith }

resolution_cases :
    (dpi : ℕ)
    → supported_resolution (pos dpi) ≡ true
    → (dpi ≡ 75) ⊎ (dpi ≡ 100) ⊎ (dpi ≡ 150) ⊎ (dpi ≡ 200) ⊎ (dpi ≡ 300) ⊎ (dpi ≡ 600)
resolution_cases dpi h = ground arith

-- A selectable resolution has its least step.
pub offset_step-LeastStep :
    (dpi : ℕ) → supported_resolution (pos dpi) ≡ true → LeastStep dpi (offset_step dpi)
offset_step-LeastStep dpi h = elim (resolution_cases dpi h) [
  | inl e ↦ at 75 LeastStep-75 e
  | inr (inl e) ↦ at 100 LeastStep-100 e
  | inr (inr (inl e)) ↦ at 150 LeastStep-150 e
  | inr (inr (inr (inl e))) ↦ at 200 LeastStep-200 e
  | inr (inr (inr (inr (inl e)))) ↦ at 300 LeastStep-300 e
  | inr (inr (inr (inr (inr e)))) ↦ at 600 LeastStep-600 e
]
  where
    at : (d : ℕ) → LeastStep d (offset_step d) → dpi ≡ d → LeastStep dpi (offset_step dpi)
    at d l e = subst (λ (x : ℕ). LeastStep x (offset_step x)) (sym e) l
