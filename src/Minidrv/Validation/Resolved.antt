-- ===== src/Minidrv/Validation/Resolved.antt =====
-- What `resolve` keeps of the values that the application wrote.
use workcentre_3119_modern_d.Prelude.{
  ℕ, ◌==◌, ◌<◌, ◌≡◌, inl, inr, refl, sym, ap, ◌∙◌, Bool, true, false, not, ◌&&◌, ◌||◌, List, arith,
  Bool-cases, Option-cases,
}
use mathlib.Core.Path.{subst}
use workcentre_3119_modern_d.Prelude.Int.{ℤ, pos, negsuc, pos_part, eq_ℤ}
use workcentre_3119_modern_d.Wia.{FlatbedSettings, supported_resolution}
use workcentre_3119_modern_d.Wia.Request.{to_request-IsRequest, same_resolution}
use workcentre_3119_modern_d.Minidrv.{success, bind_ok, refuse_ok}
use workcentre_3119_modern_d.Minidrv.Geometry.{offset_step, offset_step-LeastStep}
use workcentre_3119_modern_d.Minidrv.Axis.{resolve_axis}
use workcentre_3119_modern_d.Minidrv.Axis.Fits.{Near, resolve_axis-AxisFits}
use workcentre_3119_modern_d.Minidrv.Catalog.{PropertyCatalog, with_settings, max_extent}
use workcentre_3119_modern_d.Minidrv.Catalog.Values.{Selected, with_settings-Selected}
use workcentre_3119_modern_d.Minidrv.Validation.{
  data_type_id, depth_id, x_resolution_id, y_resolution_id, x_position_id, y_position_id,
  x_extent_id, y_extent_id, is_written, known_depth, with_known_depth, with_depth_type,
  depth_matches, mode_and_depth, resolve_mode_and_depth, resolve_resolutions, x_axis, y_axis,
  placed, resolve,
}

-- Only the data type and the depth may differ, and neither where it was written.
record Moded (type_written depth_written : Bool) (s m : FlatbedSettings) : Type 0 where
  rest : m ≡ record s { data_type = m.data_type; depth = m.depth }
  type_kept : type_written ≡ true → m.data_type ≡ s.data_type
  depth_kept : depth_written ≡ true → m.depth ≡ s.depth

same-Moded : (t d : Bool) (s m : FlatbedSettings) → s ≡ m → Moded t d s m
same-Moded t d s m e =
    subst (λ (x : FlatbedSettings). Moded t d s x) e
      (record { rest = refl; type_kept = λ h. refl; depth_kept = λ h. refl })

depth-Moded :
    (t : Bool) (s m : FlatbedSettings) → with_known_depth s ≡ success m → Moded t false s m
depth-Moded t s m e = elim (Option-cases (known_depth s.data_type)) [
  | inl p ↦ ground arith
  | inr (d, p) ↦
      let same : record s { depth = d } ≡ m = ground arith in
      subst (λ (x : FlatbedSettings). Moded t false s x) same
        (record { rest = refl; type_kept = λ h. refl; depth_kept = λ h. absurd (cc h) })
]

type-Moded : (s m : FlatbedSettings) → with_depth_type s ≡ success m → Moded false true s m
type-Moded s m e = elim (Bool-cases (eq_ℤ s.depth (pos 8))) [
  | inl p ↦
      let same : record s { data_type = pos 2 } ≡ m = ground arith in
      subst (λ (x : FlatbedSettings). Moded false true s x) same
        (record { rest = refl; type_kept = λ h. absurd (cc h); depth_kept = λ h. refl })
  | inr p ↦ elim (Bool-cases (eq_ℤ s.depth (pos 24))) [
    | inl q ↦
        let same : record s { data_type = pos 3 } ≡ m = ground arith in
        subst (λ (x : FlatbedSettings). Moded false true s x) same
          (record { rest = refl; type_kept = λ h. absurd (cc h); depth_kept = λ h. refl })
    | inr q ↦ ground arith
  ]
]

mode_and_depth-Moded :
    (t d : Bool) (s m : FlatbedSettings) → mode_and_depth t d s ≡ success m → Moded t d s m
mode_and_depth-Moded true true s m e =
    let k = refuse_ok (not (depth_matches s)) (success s) m e in same-Moded true true s m (cc (k.1))
mode_and_depth-Moded true false s m e = depth-Moded true s m e
mode_and_depth-Moded false true s m e = type-Moded s m e
mode_and_depth-Moded false false s m e = elim (Bool-cases (depth_matches s)) [
  | inl h ↦ same-Moded false false s m (ground arith)
  | inr h ↦ depth-Moded false s m (ground arith)
]

resolutions_ok :
    (s : FlatbedSettings) (written : List ℕ) (dpi : ℤ)
    → resolve_resolutions s written ≡ success dpi
    → (is_written written x_resolution_id ≡ true → dpi ≡ s.x_resolution)
      × (is_written written y_resolution_id ≡ true → dpi ≡ s.y_resolution)
unfolding resolve_resolutions
resolutions_ok s written dpi e =
    let x_written = is_written written x_resolution_id in
    let y_written = is_written written y_resolution_id in
    let k =
      refuse_ok (x_written && y_written && not (eq_ℤ s.x_resolution s.y_resolution)) _ dpi e in
    elim (Bool-cases x_written) [
      | inl x ↦
          let at : s.x_resolution ≡ dpi = ground (arith, k.1, x) in
          (
            λ h. sym at,
            λ y.
                let both : eq_ℤ s.x_resolution s.y_resolution ≡ true = ground (arith, k.0, x, y) in
                sym at ∙ same_resolution s.x_resolution s.y_resolution both,
          )
      | inr x ↦ (λ h. absurd (cc (h, x)), λ y. ground (arith, k.1, x, y))
    ]

-- What the resolved settings are, for the settings after the write of the service.
pub record Kept (c : PropertyCatalog) (current : FlatbedSettings) (written : List ℕ)
    (s : FlatbedSettings) : Type 0 where
  pub selection : (c' : PropertyCatalog) × (with_settings c s ≡ success c') × Selected c s c'
  pub square : s.x_resolution ≡ s.y_resolution
  pub x_resolution_kept :
      is_written written x_resolution_id ≡ true → s.x_resolution ≡ current.x_resolution
  pub y_resolution_kept :
      is_written written y_resolution_id ≡ true → s.y_resolution ≡ current.y_resolution
  pub type_kept : is_written written data_type_id ≡ true → s.data_type ≡ current.data_type
  pub depth_kept : is_written written depth_id ≡ true → s.depth ≡ current.depth
  pub x_extent_kept : is_written written x_extent_id ≡ true → s.x_extent ≡ current.x_extent
  pub y_extent_kept : is_written written y_extent_id ≡ true → s.y_extent ≡ current.y_extent
  pub x_near :
      is_written written x_position_id ≡ true
      → (asked : ℕ) × (current.x_position ≡ pos asked)
        × Near (offset_step (pos_part s.x_resolution)) asked (pos_part s.x_position)
  pub y_near :
      is_written written y_position_id ≡ true
      → (asked : ℕ) × (current.y_position ≡ pos asked)
        × Near (offset_step (pos_part s.x_resolution)) asked (pos_part s.y_position)
  pub tone_kept : (s.brightness ≡ current.brightness) × (s.contrast ≡ current.contrast)
  pub others_kept : (s.compression ≡ current.compression) × (s.format ≡ current.format)

some_step : (dpi : ℤ) → supported_resolution dpi ≡ true → 0 < offset_step (pos_part dpi)
some_step (pos n) h = let l = offset_step-LeastStep n h in l.some_pixels
some_step (negsuc n) h = absurd (cc h)

placed-Kept :
    (c c' : PropertyCatalog) (old current m : FlatbedSettings) (written : List ℕ) (dpi : ℤ)
    (x y : ℕ × ℕ)
    → Moded (is_written written data_type_id) (is_written written depth_id) current m
    → resolve_resolutions m written ≡ success dpi
    → resolve_axis (x_axis old current written dpi (max_extent c dpi).0) ≡ success x
    → resolve_axis (y_axis old current written dpi (max_extent c dpi).1) ≡ success y
    → with_settings c (placed m dpi x y) ≡ success c'
    → Kept c current written (placed m dpi x y)
placed-Kept c c' old current m written dpi x y moded r ax ay sel =
    let chosen = with_settings-Selected c (placed m dpi x y) c' sel in
    let asked = to_request-IsRequest (placed m dpi x y) chosen.request.0 chosen.request.1 in
    let step = some_step dpi asked.supported in
    let fx =
      resolve_axis-AxisFits (x_axis old current written dpi (max_extent c dpi).0) x.0 x.1 step ax in
    let fy =
      resolve_axis-AxisFits (y_axis old current written dpi (max_extent c dpi).1) y.0 y.1 step ay in
    let res = resolutions_ok m written dpi r in
    record {
      selection = (c', sel, chosen);
      square = refl;
      x_resolution_kept = λ h. res.0 h ∙ ap (λ (t : FlatbedSettings). t.x_resolution) moded.rest;
      y_resolution_kept = λ h. res.1 h ∙ ap (λ (t : FlatbedSettings). t.y_resolution) moded.rest;
      type_kept = moded.type_kept;
      depth_kept = moded.depth_kept;
      x_extent_kept = λ h. sym (fx.extent_kept h);
      y_extent_kept = λ h. sym (fy.extent_kept h);
      x_near = fx.near;
      y_near = fy.near;
      tone_kept = (
        ap (λ (t : FlatbedSettings). t.brightness) moded.rest,
        ap (λ (t : FlatbedSettings). t.contrast) moded.rest,
      );
      others_kept = (
        ap (λ (t : FlatbedSettings). t.compression) moded.rest,
        ap (λ (t : FlatbedSettings). t.format) moded.rest,
      );
    }

-- Resolved settings are those of a selection, with one resolution. Resolutions, data type, depth and
-- extents that the application wrote are kept; a position that it wrote is moved onto a hardware step, by less
-- than a step. Brightness, contrast, compression and format are kept.
pub resolve-Kept :
    (c : PropertyCatalog) (old current : FlatbedSettings) (written : List ℕ) (s : FlatbedSettings)
    → resolve c old current written ≡ success s
    → Kept c current written s
unfolding resolve resolve_mode_and_depth
resolve-Kept c old current written s e =
    let s1 = bind_ok (with_settings c old) _ s e in
    let s2 =
      bind_ok
        (mode_and_depth (is_written written data_type_id) (is_written written depth_id) current) _ s
        s1.2 in
    let m = s2.0 in
    let s3 = bind_ok (resolve_resolutions m written) _ s s2.2 in
    let dpi = s3.0 in
    let s4 = refuse_ok ((max_extent c dpi).0 == 0 || (max_extent c dpi).1 == 0) _ s s3.2 in
    let s5 =
      bind_ok (resolve_axis (x_axis old current written dpi (max_extent c dpi).0)) _ s s4.1 in
    let s6 =
      bind_ok (resolve_axis (y_axis old current written dpi (max_extent c dpi).1)) _ s s5.2 in
    let s7 = bind_ok (with_settings c (placed m dpi s5.0 s6.0)) _ s s6.2 in
    let same : placed m dpi s5.0 s6.0 ≡ s = cc (s7.2) in
    subst (λ (x : FlatbedSettings). Kept c current written x) same
      (placed-Kept c s7.0 old current m written dpi s5.0 s6.0
        (mode_and_depth-Moded (is_written written data_type_id) (is_written written depth_id)
          current m s2.1)
        s3.1 s5.1 s6.1 s7.1)
