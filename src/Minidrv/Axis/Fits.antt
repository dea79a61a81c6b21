-- ===== src/Minidrv/Axis/Fits.antt =====
-- What `resolve_axis` makes of a side of the rectangle.
use workcentre_3119_modern_d.Prelude.{
  ℕ, ◌+◌, ◌-◌, ◌*◌, ◌/◌, ◌%◌, ◌^◌, ◌<◌, ◌≤◌, ◌≡◌, inl, inr, refl, sym, ap, ◌∙◌, Bool, true, false,
  ◌&&◌, ltb, leb, min, arith, if◌then◌else◌, Bool-cases,
}
use native.Mathlib.Nat.{div-add-mod', mod-lt}
use mathlib.Core.Path.{subst}
use workcentre_3119_modern_d.Prelude.Int.{ℤ, pos, negsuc, pos_part, leb_ℤ}
use workcentre_3119_modern_d.Minidrv.{success, natural, Hresult-cases}
use workcentre_3119_modern_d.Minidrv.Axis.{
  AxisInput, quantize_position, floor_to_step, resolution_changed, step_of, chosen_position,
  chosen_extent, snapped, usable_extent, moved_down, fitted, fit_axis, resolve_axis,
}

-- A position on the hardware step `step`, less than a step away from `asked`.
pub record Near (step asked position : ℕ) : Type 0 where
  pub on_step : (k : ℕ) × (position ≡ k * step)
  pub above : position < asked + step
  pub below : asked < position + step

quantize-Near :
    (value step q : ℕ) → 0 < step → quantize_position value step ≡ success q → Near step value q
unfolding quantize_position
quantize-Near value step q positive e =
    let split = div-add-mod' value step in
    let rest = mod-lt value positive in
    elim (Bool-cases (leb step (value % step * 2))) [
      | inl h ↦
          let same : q ≡ (value / step + 1) * step = ground arith in
          record {
            on_step = (value / step + 1, same);
            above = grind (arith, split, rest, same);
            below = grind (arith, split, rest, same);
          }
      | inr h ↦
          let same : q ≡ value / step * step = ground arith in
          record {
            on_step = (value / step, same);
            above = omega (arith, split, rest, same);
            below = omega (arith, split, rest, same);
          }
    ]

floor-Near : (value step : ℕ) → 0 < step → Near step value (floor_to_step value step)
unfolding floor_to_step
floor-Near value step positive =
    let split = div-add-mod' value step in
    let rest = mod-lt value positive in
    record {
      on_step = (value / step, refl);
      above = omega (arith, split, rest);
      below = omega (arith, split, rest);
    }

-- What `fit_axis` makes of a position and an extent that are not negative.
pub record Fitted (position_explicit extent_explicit : Bool)
    (max step asked wanted position extent : ℕ) : Type 0 where
  pub inside : position + extent ≤ max
  pub some_pixels : 0 < extent
  pub near : position_explicit ≡ true → Near step asked position
  pub extent_kept : extent_explicit ≡ true → extent ≡ wanted

snapped-Near :
    (ee : Bool) (max step asked wanted q : ℕ)
    → 0 < step
    → snapped true ee max step asked wanted ≡ success q
    → Near step asked q
unfolding snapped
snapped-Near ee max step asked wanted q positive e =
    elim (Hresult-cases (quantize_position asked step)) [
      | inr (x, p) ↦ ground arith
      | inl (r, p) ↦ elim (Bool-cases (ltb max (r + (if ee && ltb 0 wanted then wanted else 1)))) [
        | inl h ↦
            let same : floor_to_step asked step ≡ q = ground arith in
            subst (λ (x : ℕ). Near step asked x) same (floor-Near asked step positive)
        | inr h ↦
            let same : r ≡ q = ground arith in
            subst (λ (x : ℕ). Near step asked x) same (quantize-Near asked step r positive p)
      ]
    ]

fitted_inside :
    (ee : Bool) (max start length position extent : ℕ)
    → 0 < length
    → fitted ee max start length ≡ success (position, extent)
    → (position + extent ≤ max) × (0 < extent) × (position ≡ start) × (ee ≡ true → extent ≡ length)
unfolding fitted
fitted_inside ee max start length position extent nonempty e = elim (Bool-cases (leb max start)) [
  | inl h ↦ ground arith
  | inr h ↦ elim (Bool-cases (ltb (max - start) length && ee)) [
    | inl k ↦ ground arith
    | inr k ↦
        let pair : Path (ℕ × ℕ) (start, min length (max - start)) (position, extent) =
          ground arith in
        let at : start ≡ position = ap (λ (x : ℕ × ℕ). x.0) pair in
        let cut : min length (max - start) ≡ extent = ap (λ (x : ℕ × ℕ). x.1) pair in
        (
          ground (arith, at, cut),
          ground (arith, at, cut),
          sym at,
          λ x. ground (arith, at, cut, x, k),
        )
  ]
]

usable_extent_ok :
    (ee : Bool) (max wanted length : ℕ)
    → usable_extent ee max wanted ≡ success length
    → (0 < length) × (ee ≡ true → length ≡ wanted)
unfolding usable_extent
usable_extent_ok true max wanted length e = (ground arith, λ t. ground arith)
usable_extent_ok false max wanted length e = (ground arith, λ t. ground arith)

moved_down-Near :
    (pe ee : Bool) (max step asked wanted start length : ℕ)
    → 0 < step
    → pe ≡ true
    → snapped pe ee max step asked wanted ≡ success start
    → Near step asked (moved_down pe ee max step start length)
unfolding moved_down
moved_down-Near true ee max step asked wanted start length positive t p =
    snapped-Near ee max step asked wanted start positive p
moved_down-Near false ee max step asked wanted start length positive t p = absurd (cc t)

fit_axis-Fitted :
    (pe ee : Bool) (max step asked wanted position extent : ℕ)
    → 0 < step
    → fit_axis pe ee max step asked wanted ≡ success (position, extent)
    → Fitted pe ee max step asked wanted position extent
unfolding fit_axis
fit_axis-Fitted pe ee max step asked wanted position extent positive e =
    elim (Hresult-cases (snapped pe ee max step asked wanted)) [
      | inr (x, p) ↦ ground arith
      | inl (start, p) ↦ elim (Hresult-cases (usable_extent ee max wanted)) [
        | inr (x, q) ↦ ground arith
        | inl (length, q) ↦
            let usable = usable_extent_ok ee max wanted length q in
            let end =
              fitted_inside ee max (moved_down pe ee max step start length) length position extent
                usable.0 (ground arith) in
            record {
              inside = end.0;
              some_pixels = end.1;
              near = λ t.
                  subst (λ (x : ℕ). Near step asked x) (sym end.2)
                    (moved_down-Near pe ee max step asked wanted start length positive t p);
              extent_kept = λ t. end.3 t ∙ usable.1 t;
            }
      ]
    ]

-- A resolved axis, for what was asked of it.
pub record AxisFits (i : AxisInput) (position extent : ℕ) : Type 0 where
  pub inside : position + extent ≤ pos_part i.max_extent
  pub some_pixels : 0 < extent
  pub near :
      i.position.explicit ≡ true
      → (asked : ℕ) × (i.position.current ≡ pos asked) × Near (step_of i) asked position
  pub extent_kept : i.extent.explicit ≡ true → i.extent.current ≡ pos extent

natural_ok : (z : ℤ) (n : ℕ) → natural z ≡ success n → z ≡ pos n
natural_ok (pos m) n e = let same : m ≡ n = cc e in ap (λ (x : ℕ). pos x) same
natural_ok (negsuc m) n e = absurd (cc e)

chosen_position_explicit :
    (i : AxisInput) (n : ℕ)
    → i.position.explicit ≡ true
    → chosen_position i ≡ success n
    → i.position.current ≡ pos n
unfolding chosen_position
chosen_position_explicit i n t e = natural_ok i.position.current n (ground (arith, t, e))

chosen_extent_explicit :
    (i : AxisInput) (n : ℕ)
    → i.extent.explicit ≡ true
    → chosen_extent i ≡ success n
    → i.extent.current ≡ pos n
unfolding chosen_extent
chosen_extent_explicit i n t e = natural_ok i.extent.current n (ground (arith, t, e))

-- A rectangle's side that is resolved lies within the bed and has pixels. An explicit position is
-- moved by less than a hardware step, onto a step; an explicit extent is kept.
pub resolve_axis-AxisFits :
    (i : AxisInput) (position extent : ℕ)
    → 0 < step_of i
    → resolve_axis i ≡ success (position, extent)
    → AxisFits i position extent
unfolding resolve_axis
resolve_axis-AxisFits i position extent positive e = elim (Hresult-cases (chosen_position i)) [
  | inr (x, p) ↦ ground arith
  | inl (asked, p) ↦ elim (Hresult-cases (chosen_extent i)) [
    | inr (x, q) ↦ ground arith
    | inl (wanted, q) ↦
        let f =
          fit_axis-Fitted i.position.explicit i.extent.explicit (pos_part i.max_extent) (step_of i)
            asked wanted position extent positive (ground arith) in
        record {
          inside = f.inside;
          some_pixels = f.some_pixels;
          near = λ t. (asked, chosen_position_explicit i asked t p, f.near t);
          extent_kept = λ t.
              chosen_extent_explicit i wanted t q ∙ ap (λ (x : ℕ). pos x) (sym (f.extent_kept t));
        }
  ]
]

some_room : (z : ℤ) → 0 < pos_part z → leb_ℤ z (pos 0) ≡ false
some_room (pos n) h = ground arith
some_room (negsuc n) h = absurd (omega arith)

kept_position :
    (i : AxisInput) (position : ℕ)
    → resolution_changed i ≡ false
    → i.position.current ≡ pos position
    → chosen_position i ≡ success position
unfolding chosen_position
kept_position i position same at = elim (Bool-cases i.position.explicit) [
  | inl pe ↦ rw pe (rw at refl)
  | inr pe ↦ rw pe (rw same (rw at refl))
]

kept_extent :
    (i : AxisInput) (extent : ℕ)
    → resolution_changed i ≡ false
    → i.extent.current ≡ pos extent
    → chosen_extent i ≡ success extent
unfolding chosen_extent
kept_extent i extent same at = elim (Bool-cases i.extent.explicit) [
  | inl ee ↦ rw ee (rw at refl)
  | inr ee ↦ rw ee (rw same (rw at refl))
]

fit_axis_keeps :
    (max step position extent : ℕ)
    → 0 < extent
    → position + extent ≤ max
    → fit_axis false false max step position extent ≡ success (position, extent)
unfolding fit_axis snapped usable_extent moved_down fitted
fit_axis_keeps max step position extent nonempty inside = ground arith

-- Without a new resolution and without explicit values, a side within the bed stays as it is.
pub resolve_axis_keeps :
    (i : AxisInput) (position extent : ℕ)
    → resolution_changed i ≡ false
    → i.position.explicit ≡ false
    → i.extent.explicit ≡ false
    → i.position.current ≡ pos position
    → i.extent.current ≡ pos extent
    → 0 < extent
    → position + extent ≤ pos_part i.max_extent
    → resolve_axis i ≡ success (position, extent)
unfolding resolve_axis
resolve_axis_keeps i position extent same pe ee at of nonempty inside =
    rw (some_room i.max_extent (omega arith)) (
      rw (kept_position i position same at) (
        rw (kept_extent i extent same of) (
          rw pe (
            rw ee (
              fit_axis_keeps (pos_part i.max_extent) (step_of i) position extent nonempty
                inside)))))

quantize_small :
    (value step : ℕ)
    → 0 < step
    → value + step < 2 ^ 31
    → (q : ℕ) × (quantize_position value step ≡ success q)
unfolding quantize_position
quantize_small value step positive small =
    let split = div-add-mod' value step in
    elim (Bool-cases (leb step (value % step * 2))) [
      | inl h ↦
          let low : (value / step + 1) * step < 2 ^ 31 = grind (arith, split) in
          ((value / step + 1) * step, ground (arith, h, low))
      | inr h ↦
          let low : value / step * step < 2 ^ 31 = omega (arith, split) in
          (value / step * step, ground (arith, h, low))
    ]

fit_axis_accepts :
    (max step position extent : ℕ)
    → 0 < step
    → 0 < extent
    → position + extent ≤ max
    → max + step < 2 ^ 31
    → (kept : ℕ) × (fit_axis true true max step position extent ≡ success (kept, extent))
unfolding fit_axis snapped usable_extent moved_down fitted floor_to_step
fit_axis_accepts max step position extent positive nonempty inside small =
    let rounded = quantize_small position step positive (omega arith) in
    let q = rounded.0 in
    let split = div-add-mod' position step in
    elim (Bool-cases (ltb max (q + extent))) [
      | inl h ↦ (position / step * step, ground (arith, rounded.1, h, split))
      | inr h ↦ (q, ground (arith, rounded.1, h))
    ]

-- An explicit side within the bed is accepted, with its extent.
pub resolve_axis_accepts :
    (i : AxisInput) (position extent : ℕ)
    → 0 < step_of i
    → i.position.explicit ≡ true
    → i.extent.explicit ≡ true
    → i.position.current ≡ pos position
    → i.extent.current ≡ pos extent
    → 0 < extent
    → position + extent ≤ pos_part i.max_extent
    → pos_part i.max_extent + step_of i < 2 ^ 31
    → (kept : ℕ) × (resolve_axis i ≡ success (kept, extent))
unfolding resolve_axis chosen_position chosen_extent
resolve_axis_accepts i position extent positive pe ee at of nonempty inside small =
    let fit =
      fit_axis_accepts (pos_part i.max_extent) (step_of i) position extent positive nonempty inside
        small in
    (fit.0, rw (some_room i.max_extent (omega arith)) (rw pe (rw at (rw ee (rw of fit.1)))))
