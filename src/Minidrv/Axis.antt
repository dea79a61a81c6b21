-- ===== src/Minidrv/Axis.antt =====
-- src/com_server/minidrv/properties/validation.rs: the position and the extent of one axis.
-- Every refusal has the code E_INVALIDARG, so that the signs of the values can be checked first.
-- The step of a resolution is not zero.
pub mod Fits
use workcentre_3119_modern_d.Prelude.{
  ℕ, zero, suc, ◌+◌, ◌-◌, ◌*◌, ◌/◌, ◌%◌, ◌^◌, ◌<◌, ◌≤◌, ◌≡◌, ◌⊎◌, inl, inr, refl, sym, ap, ◌∙◌,
  Bool, true, false, not, ◌&&◌, ◌||◌, ◌==◌, ltb, leb, min, arith, if◌then◌else◌, Bool-cases,
}
use native.Mathlib.Nat.{div-add-mod', mod-lt}
use mathlib.Core.Path.{subst}
use workcentre_3119_modern_d.Prelude.Int.{ℤ, pos, negsuc, pos_part, eq_ℤ, ltb_ℤ, leb_ℤ}
use workcentre_3119_modern_d.Minidrv.{
  ErrorCode, Hresult, success, failure, e_invalidarg, refuse, ◌>>◌, ◌>>=◌, to_i32, natural,
  Hresult-cases,
}
use workcentre_3119_modern_d.Minidrv.Geometry.{offset_step}

-- `current` of the source is `now`.
pub record AxisValue : Type 0 where
  pub old : ℤ
  pub current : ℤ
  pub explicit : Bool

pub record AxisInput : Type 0 where
  pub old_dpi : ℤ
  pub target_dpi : ℤ
  pub position : AxisValue
  pub extent : AxisValue
  pub max_extent : ℤ

unfoldable pub scale_extent : ℤ → ℤ → ℤ → Hresult ℕ
scale_extent value old_dpi target_dpi =
    let numerator = pos_part value * pos_part target_dpi in
    do
      refuse (ltb_ℤ value (pos 0) || leb_ℤ old_dpi (pos 0) || leb_ℤ target_dpi (pos 0))
      refuse (leb (2 ^ 64) (numerator + pos_part old_dpi / 2))
      to_i32 ((numerator + pos_part old_dpi / 2) / pos_part old_dpi)

-- `checked_add` and `checked_mul` of an `i32` fail at 2 ^ 31.
unfoldable pub quantize_position : ℕ → ℕ → Hresult ℕ
quantize_position value step =
    let quotient = value / step in
    let rounded = if leb step (value % step * 2) then quotient + 1 else quotient in
    refuse (step == 0) >> to_i32 (rounded * step)

-- `floor_to_step`, whose value is never negative here.
unfoldable pub floor_to_step : ℕ → ℕ → ℕ
floor_to_step value step = value / step * step

abbrev pub resolution_changed : AxisInput → Bool
resolution_changed i = not (eq_ℤ i.old_dpi i.target_dpi)

abbrev pub step_of : AxisInput → ℕ
step_of i = offset_step (pos_part i.target_dpi)

unfoldable pub quantize_scaled_position : ℤ → ℤ → ℤ → Hresult ℕ
quantize_scaled_position value old_dpi target_dpi =
    scale_extent value old_dpi target_dpi >>= λ scaled.
    quantize_position scaled (offset_step (pos_part target_dpi))

-- The first value of the position and of the extent.
unfoldable pub chosen_position : AxisInput → Hresult ℕ
chosen_position i =
    if i.position.explicit
    then natural i.position.current
    else if resolution_changed i && eq_ℤ i.position.current i.position.old
    then quantize_scaled_position i.position.old i.old_dpi i.target_dpi
    else natural i.position.current

unfoldable pub chosen_extent : AxisInput → Hresult ℕ
chosen_extent i =
    if i.extent.explicit
    then natural i.extent.current
    else if resolution_changed i && eq_ℤ i.extent.current i.extent.old
    then scale_extent i.extent.old i.old_dpi i.target_dpi
    else natural i.extent.current

-- An explicit position snaps to the nearest step, or to the step below where an explicit extent
-- would not fit.
unfoldable pub snapped : Bool → Bool → ℕ → ℕ → ℕ → ℕ → Hresult ℕ
snapped false extent_explicit max step position extent = success position
snapped true extent_explicit max step position extent =
    let taken = if extent_explicit && ltb 0 extent then extent else 1 in
    refuse (leb max position)
    >> (quantize_position position step >>= λ q.
        success (if ltb max (q + taken) then floor_to_step position step else q))

unfoldable pub usable_extent : Bool → ℕ → ℕ → Hresult ℕ
usable_extent true max extent = refuse (extent == 0 || ltb max extent) >> success extent
usable_extent false max extent = success (if extent == 0 then 1 else extent)

-- A dependent position moves down to the last step that fits.
unfoldable pub moved_down : Bool → Bool → ℕ → ℕ → ℕ → ℕ → ℕ
moved_down true extent_explicit max step position extent = position
moved_down false false max step position extent =
    if leb max position then floor_to_step (max - 1) step else position
moved_down false true max step position extent = min position (floor_to_step (max - extent) step)

unfoldable pub fitted : Bool → ℕ → ℕ → ℕ → Hresult (ℕ × ℕ)
fitted extent_explicit max position extent =
    let available = max - position in
    do
      refuse (leb max position)
      refuse (ltb available extent && extent_explicit)
      success (position, min extent available)

unfoldable pub fit_axis : Bool → Bool → ℕ → ℕ → ℕ → ℕ → Hresult (ℕ × ℕ)
fit_axis position_explicit extent_explicit max step position extent =
    snapped position_explicit extent_explicit max step position extent >>= λ start.
    usable_extent extent_explicit max extent >>= λ length.
    fitted extent_explicit max (moved_down position_explicit extent_explicit max step start length)
      length

unfoldable pub resolve_axis : AxisInput → Hresult (ℕ × ℕ)
resolve_axis i =
    refuse (leb_ℤ i.max_extent (pos 0))
    >> (chosen_position i >>= λ position. chosen_extent i >>= λ extent.
        fit_axis i.position.explicit i.extent.explicit (pos_part i.max_extent) (step_of i) position
          extent)
