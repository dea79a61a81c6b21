-- ===== src/Minidrv/Validation.antt =====
-- src/com_server/minidrv/properties/validation.rs: the settings after a write of the application.
pub mod Resolved
pub mod NoWrite
use workcentre_3119_modern_d.Prelude.{
  ℕ, ◌==◌, Bool, true, false, not, ◌&&◌, ◌||◌, List, [], ◌∷◌, Option, none, some, bit_and, one_of,
  if◌then◌else◌,
}
use workcentre_3119_modern_d.Prelude.Int.{ℤ, pos, negsuc, eq_ℤ}
use workcentre_3119_modern_d.Wia.{FlatbedSettings}
use workcentre_3119_modern_d.Minidrv.{Hresult, success, failure, e_invalidarg, refuse, ◌>>=◌, ◌>>◌}
use workcentre_3119_modern_d.Minidrv.Axis.{AxisValue, AxisInput, resolve_axis}
use workcentre_3119_modern_d.Minidrv.Catalog.{
  PropertyCatalog, with_settings, with_service_values, max_extent,
}

-- The identifiers of data type, depth, resolutions, positions and extents.
abbrev pub data_type_id : ℕ
data_type_id = 4103

abbrev pub depth_id : ℕ
depth_id = 4104

abbrev pub x_resolution_id : ℕ
x_resolution_id = 6147

abbrev pub y_resolution_id : ℕ
y_resolution_id = 6148

abbrev pub x_position_id : ℕ
x_position_id = 6149

abbrev pub y_position_id : ℕ
y_position_id = 6150

abbrev pub x_extent_id : ℕ
x_extent_id = 6151

abbrev pub y_extent_id : ℕ
y_extent_id = 6152

abbrev pub is_written : List ℕ → ℕ → Bool
is_written written id = one_of id written

-- A negative intent has its highest bit, which is not known.
unfoldable pub data_type_for_intent : ℤ → Hresult (Option ℤ)
data_type_for_intent (negsuc n) = failure e_invalidarg
data_type_for_intent (pos intent) =
    let color = not (bit_and intent 1 == 0) in
    let grayscale = not (bit_and intent 2 == 0) in
    do
      refuse (not (bit_and intent 0x30003 == intent))
      refuse (color && grayscale)
      success (if color then some (pos 3) else if grayscale then some (pos 2) else none)

-- `depth_for` of this file.
abbrev pub known_depth : ℤ → Option ℤ
known_depth data_type =
    if eq_ℤ data_type (pos 2)
    then some (pos 8)
    else if eq_ℤ data_type (pos 3)
    then some (pos 24)
    else none

abbrev pub depth_is : ℤ → Option ℤ → Bool
depth_is depth none = false
depth_is depth (some d) = eq_ℤ d depth

abbrev pub depth_matches : FlatbedSettings → Bool
depth_matches s = depth_is s.depth (known_depth s.data_type)

abbrev pub with_known_depth : FlatbedSettings → Hresult FlatbedSettings
with_known_depth s = elim (known_depth s.data_type) [
  | none ↦ failure e_invalidarg
  | some d ↦ success (record s { depth = d })
]

abbrev pub with_depth_type : FlatbedSettings → Hresult FlatbedSettings
with_depth_type s =
    if eq_ℤ s.depth (pos 8)
    then success (record s { data_type = pos 2 })
    else if eq_ℤ s.depth (pos 24)
    then success (record s { data_type = pos 3 })
    else failure e_invalidarg

-- The first two arguments: whether the data type and the depth were written.
abbrev pub mode_and_depth : Bool → Bool → FlatbedSettings → Hresult FlatbedSettings
mode_and_depth true true s = refuse (not (depth_matches s)) >> success s
mode_and_depth true false s = with_known_depth s
mode_and_depth false true s = with_depth_type s
mode_and_depth false false s = if depth_matches s then success s else with_known_depth s

unfoldable pub resolve_mode_and_depth : FlatbedSettings → List ℕ → Hresult FlatbedSettings
resolve_mode_and_depth s written =
    mode_and_depth (is_written written data_type_id) (is_written written depth_id) s

-- One resolution for both axes.
unfoldable pub resolve_resolutions : FlatbedSettings → List ℕ → Hresult ℤ
resolve_resolutions s written =
    let x_written = is_written written x_resolution_id in
    let y_written = is_written written y_resolution_id in
    do
      refuse (x_written && y_written && not (eq_ℤ s.x_resolution s.y_resolution))
      success (if x_written || not y_written then s.x_resolution else s.y_resolution)

abbrev pub x_axis : FlatbedSettings → FlatbedSettings → List ℕ → ℤ → ℕ → AxisInput
x_axis old current written dpi max = record {
  old_dpi = old.x_resolution;
  target_dpi = dpi;
  position = record {
    old = old.x_position;
    current = current.x_position;
    explicit = is_written written x_position_id;
  };
  extent = record {
    old = old.x_extent;
    current = current.x_extent;
    explicit = is_written written x_extent_id;
  };
  max_extent = pos max;
}

abbrev pub y_axis : FlatbedSettings → FlatbedSettings → List ℕ → ℤ → ℕ → AxisInput
y_axis old current written dpi max = record {
  old_dpi = old.y_resolution;
  target_dpi = dpi;
  position = record {
    old = old.y_position;
    current = current.y_position;
    explicit = is_written written y_position_id;
  };
  extent = record {
    old = old.y_extent;
    current = current.y_extent;
    explicit = is_written written y_extent_id;
  };
  max_extent = pos max;
}

abbrev pub placed : FlatbedSettings → ℤ → ℕ × ℕ → ℕ × ℕ → FlatbedSettings
placed s dpi x y = record s {
  x_resolution = dpi;
  y_resolution = dpi;
  x_position = pos x.0;
  x_extent = pos x.1;
  y_position = pos y.0;
  y_extent = pos y.1;
}

unfoldable pub resolve :
    PropertyCatalog → FlatbedSettings → FlatbedSettings → List ℕ → Hresult FlatbedSettings
resolve c old current written = with_settings c old >>= λ baseline.
    resolve_mode_and_depth current written >>= λ moded. resolve_resolutions moded written >>= λ dpi.
    refuse ((max_extent c dpi).0 == 0 || (max_extent c dpi).1 == 0)
    >> (resolve_axis (x_axis old current written dpi (max_extent c dpi).0) >>= λ x.
        resolve_axis (y_axis old current written dpi (max_extent c dpi).1) >>= λ y.
        with_settings c (placed moded dpi x y) >>= λ selected. success (placed moded dpi x y))

-- What an intent makes of the settings and of the written identifiers.
abbrev pub intended : Option ℤ → FlatbedSettings → List ℕ → Hresult (FlatbedSettings × List ℕ)
intended none current written = success (current, written)
intended (some intent) current written = data_type_for_intent intent >>= λ wanted. elim wanted [
  | none ↦ success (current, written)
  | some data_type ↦ success (
    record current { data_type = data_type },
    if is_written written data_type_id then written else written_too written,
  )
]
  where
    written_too : List ℕ → List ℕ
    written_too [] = data_type_id ∷ []
    written_too (id ∷ ids) = id ∷ written_too ids

-- The catalogues before and after, and the written identifiers.
unfoldable pub prepare_catalogs :
    PropertyCatalog
    → FlatbedSettings
    → FlatbedSettings
    → Option ℤ
    → List ℕ
    → Hresult (PropertyCatalog × PropertyCatalog × List ℕ)
prepare_catalogs c old current intent written = intended intent current written >>= λ target.
    resolve c old target.0 target.1 >>= λ resolved. with_settings c old >>= λ baseline.
    with_service_values baseline current >>= λ before.
    with_settings c resolved >>= λ after. success (before, after, target.1)
