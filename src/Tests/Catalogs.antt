-- ===== src/Tests/Catalogs.antt =====
-- A flatbed of 8.5 by 11.7 inches with three resolutions, and settings on it.
use workcentre_3119_modern_d.Prelude.{ℕ, ◌≡◌, refl, true, List, [], ◌∷◌, map, arith}
use workcentre_3119_modern_d.Prelude.Int.{pos}
use workcentre_3119_modern_d.Wia
use workcentre_3119_modern_d.Wia.{FlatbedSettings, bmp_format}
use workcentre_3119_modern_d.Minidrv.Geometry
use workcentre_3119_modern_d.Minidrv.Axis
use workcentre_3119_modern_d.Minidrv.Catalog
use workcentre_3119_modern_d.Minidrv.Validation
use workcentre_3119_modern_d.Minidrv.{Hresult, success, failure}
use workcentre_3119_modern_d.Minidrv.Geometry.{offset_step, LeastStep, offset_step-LeastStep}
use workcentre_3119_modern_d.Minidrv.Axis.{AxisInput, resolve_axis, step_of}
use workcentre_3119_modern_d.Minidrv.Axis.Fits.{
  AxisFits, resolve_axis-AxisFits, resolve_axis_accepts,
}
use workcentre_3119_modern_d.Minidrv.Catalog.{
  PropertyCatalog, PropertyValue, long, PropertyAttribute, none_long, flatbed, with_settings,
}
use workcentre_3119_modern_d.Minidrv.Catalog.Settings.{IsSelection, with_settings-IsSelection}
use workcentre_3119_modern_d.Minidrv.Validation.{resolve}
use workcentre_3119_modern_d.Minidrv.Validation.Resolved.{Kept, resolve-Kept}
use workcentre_3119_modern_d.Minidrv.Validation.NoWrite.{resolve_keeps}

abbrev identifiers : List ℕ
identifiers =
    6147 ∷ 6148 ∷ 6149 ∷ 6150 ∷ 6151 ∷ 6152 ∷ 4103 ∷ 4104 ∷ 4109 ∷ 4112 ∷ 4114 ∷ 4116 ∷ 6167 ∷ 6168
    ∷ []

abbrev catalog : PropertyCatalog
catalog = record {
  item_kind = flatbed;
  ids = identifiers;
  names = map (λ (id : ℕ). id ∷ []) identifiers;
  initial_values = map (λ (id : ℕ). long (pos 0)) identifiers;
  attributes = map (λ (id : ℕ). none_long 1 3) identifiers;
  resolutions = pos 75 ∷ pos 300 ∷ pos 600 ∷ [];
  data_types = pos 2 ∷ pos 3 ∷ [];
  default_resolution = pos 300;
  width_units = 10200;
  height_units = 14040;
}

abbrev settings : FlatbedSettings
settings = record {
  x_resolution = pos 300;
  y_resolution = pos 300;
  x_position = pos 3;
  y_position = pos 0;
  x_extent = pos 600;
  y_extent = pos 900;
  data_type = pos 2;
  depth = pos 8;
  brightness = pos 0;
  contrast = pos 0;
  compression = pos 0;
  format = bmp_format;
}

abbrev or_else : {A : Type 0} → Hresult A → A → A
or_else (success a) d = a
or_else (failure e) d = d

abbrev selected : PropertyCatalog
selected = or_else (with_settings catalog settings) catalog

selection : with_settings catalog settings ≡ success selected
unfolding with_settings Wia.to_request Wia.checked_mode Wia.validate Wia.pixels_to_units
    Wia.validate_offset Wia.validate_end Catalog.assert_aligned Catalog.max_extent
    Geometry.pixels_from_units Geometry.bmp_size Geometry.min_size_thousandths Catalog.put_values
    Catalog.put_value Catalog.put_attributes Catalog.put_attribute
selection = refl

with_settings-IsSelection_example : IsSelection catalog settings selected
with_settings-IsSelection_example = with_settings-IsSelection catalog settings selected selection

resolve_keeps_example : resolve catalog settings settings [] ≡ success settings
resolve_keeps_example = resolve_keeps catalog selected settings selection

-- The application asks for 600 dpi and a position that is not on the step of six pixels.
abbrev asked : FlatbedSettings
asked = record settings {
  x_resolution = pos 600;
  x_position = pos 7;
  x_extent = pos 1000;
  y_extent = pos 1200;
}

abbrev asked_ids : List ℕ
asked_ids = 6147 ∷ 6149 ∷ 6150 ∷ 6151 ∷ 6152 ∷ []

abbrev answered : FlatbedSettings
answered = record asked { y_resolution = pos 600; x_position = pos 6 }

answers : resolve catalog settings asked asked_ids ≡ success answered
unfolding resolve with_settings Wia.to_request Wia.checked_mode Wia.validate Wia.pixels_to_units
    Wia.validate_offset Wia.validate_end Catalog.assert_aligned Catalog.max_extent
    Geometry.pixels_from_units Geometry.bmp_size Geometry.min_size_thousandths Catalog.put_values
    Catalog.put_value Catalog.put_attributes Catalog.put_attribute Validation.resolve_mode_and_depth
    Validation.resolve_resolutions offset_step Geometry.step_loop resolve_axis Axis.chosen_position
    Axis.chosen_extent Axis.fit_axis Axis.snapped Axis.usable_extent Axis.moved_down Axis.fitted
    Axis.quantize_position Axis.floor_to_step
answers = refl

resolve-Kept_example : Kept catalog asked asked_ids answered
resolve-Kept_example = resolve-Kept catalog settings asked asked_ids answered answers

abbrev side : AxisInput
side = record {
  old_dpi = pos 300;
  target_dpi = pos 600;
  position = record { old = pos 3; current = pos 7; explicit = true };
  extent = record { old = pos 600; current = pos 1000; explicit = true };
  max_extent = pos 5100;
}

step_at_600 : step_of side ≡ 6
unfolding offset_step Geometry.step_loop
step_at_600 = refl

side_resolves : resolve_axis side ≡ success (6, 1000)
unfolding offset_step Geometry.step_loop resolve_axis Axis.chosen_position Axis.chosen_extent
    Axis.fit_axis Axis.snapped Axis.usable_extent Axis.moved_down Axis.fitted Axis.quantize_position
    Axis.floor_to_step
side_resolves = refl

resolve_axis-AxisFits_example : AxisFits side 6 1000
resolve_axis-AxisFits_example =
    resolve_axis-AxisFits side 6 1000 (omega (arith, step_at_600)) side_resolves

resolve_axis_accepts_example : (kept : ℕ) × (resolve_axis side ≡ success (kept, 1000))
resolve_axis_accepts_example =
    resolve_axis_accepts side 7 1000 (omega (arith, step_at_600)) refl refl refl refl (omega arith)
      (omega arith) (omega (arith, step_at_600))

offset_step-LeastStep_example : LeastStep 300 (offset_step 300)
offset_step-LeastStep_example = offset_step-LeastStep 300 refl
