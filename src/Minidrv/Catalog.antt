-- ===== src/Minidrv/Catalog.antt =====
-- src/com_server/minidrv/properties/catalog.rs: `PropertyCatalog` and its updates from settings.
pub mod Values
pub mod Settings
use workcentre_3119_modern_d.Prelude.{
  ℕ, zero, suc, ◌+◌, ◌-◌, ◌*◌, ◌/◌, Bool, true, false, not, ◌&&◌, ◌||◌, List, [], ◌∷◌, map, filter,
  Option, none, some, length, get_elem?, set, ltb, ◌==◌, if◌then◌else◌,
}
use workcentre_3119_modern_d.Prelude.Int.{ℤ, pos, pos_part, eq_ℤ, leb_ℤ, ltb_ℤ, ◌+ℤ◌}
use workcentre_3119_modern_d.Errors.{ok, err}
use mathlib.Core.Option
use workcentre_3119_modern_d.Wia.{FlatbedSettings, to_request}
use workcentre_3119_modern_d.Minidrv.{
  Hresult, success, failure, e_invalidarg, e_unexpected, refuse, ◌>>=◌, ◌>>◌,
}
use workcentre_3119_modern_d.Minidrv.Geometry.{
  pixels_from_units, min_size_thousandths, offset_step, bmp_size,
}

pub data PropertyValue : Type 0 where
  long : ℤ → PropertyValue
  guid string : List ℕ → PropertyValue

-- The arguments in the order of the source's fields.
pub data PropertyAttribute : Type 0 where
  none_long : ℕ → ℕ → PropertyAttribute
  range_long : ℕ → ℤ → ℤ → ℤ → ℤ → PropertyAttribute
  list_long : ℕ → List ℤ → ℤ → PropertyAttribute
  list_guid : ℕ → List (List ℕ) → List ℕ → PropertyAttribute
  flag_long : ℕ → ℤ → ℤ → PropertyAttribute

pub data ItemKind : Type 0 where
  root flatbed : ItemKind

abbrev pub is_flatbed : ItemKind → Bool
is_flatbed root = false
is_flatbed flatbed = true

pub record PropertyCatalog : Type 0 where
  pub item_kind : ItemKind
  pub ids : List ℕ
  pub names : List (List ℕ)
  pub initial_values : List PropertyValue
  pub attributes : List PropertyAttribute
  pub resolutions : List ℤ
  pub data_types : List ℤ
  pub default_resolution : ℤ
  pub width_units : ℕ
  pub height_units : ℕ

abbrev pub contains : List ℤ → ℤ → Bool
contains [] v = false
contains (x ∷ xs) v = eq_ℤ x v || contains xs v

abbrev pub index_of : List ℕ → ℕ → Option ℕ
index_of [] id = none
index_of (x ∷ xs) id =
    let rest = Option.map suc (index_of xs id) in if x == id then some 0 else rest

abbrev pub index : PropertyCatalog → ℕ → Hresult ℕ
index c id = elim (index_of c.ids id) [ none ↦ failure e_unexpected | some i ↦ success i ]

-- `selected.initial_values[index] = PropertyValue::Long(value)`, and for the attributes.
unfoldable pub put_value : ℕ → ℤ → PropertyCatalog → Hresult PropertyCatalog
put_value id value c =
    index c id >>= λ i. success (record c { initial_values = set c.initial_values i (long value) })

unfoldable pub put_attribute : ℕ → PropertyAttribute → PropertyCatalog → Hresult PropertyCatalog
put_attribute id attribute c =
    index c id >>= λ i. success (record c { attributes = set c.attributes i attribute })

unfoldable pub put_values : List (ℕ × ℤ) → PropertyCatalog → Hresult PropertyCatalog
put_values [] c = success c
put_values ((id, value) ∷ rest) c = put_value id value c >>= λ c'. put_values rest c'

unfoldable pub put_attributes :
    List (ℕ × PropertyAttribute) → PropertyCatalog → Hresult PropertyCatalog
put_attributes [] c = success c
put_attributes ((id, a) ∷ rest) c = put_attribute id a c >>= λ c'. put_attributes rest c'

unfoldable pub assert_aligned : PropertyCatalog → Hresult (Unit {0})
assert_aligned c =
    if length c.ids == length c.names
      && length c.ids == length c.initial_values
      && length c.ids == length c.attributes
    then success tt
    else failure e_unexpected

abbrev pub or_zero : Hresult ℕ → ℕ
or_zero (success n) = n
or_zero (failure e) = 0

unfoldable pub max_extent : PropertyCatalog → ℤ → ℕ × ℕ
max_extent c dpi =
    if not (is_flatbed c.item_kind) || not (contains c.resolutions dpi) then (0, 0) else (
      or_zero (pixels_from_units c.width_units (pos_part dpi)),
      or_zero (pixels_from_units c.height_units (pos_part dpi)),
    )

-- `depth_for` and `channels_for`.
abbrev pub depth_for : ℤ → ℤ
depth_for data_type =
    if eq_ℤ data_type (pos 2) then pos 8 else if eq_ℤ data_type (pos 3) then pos 24 else pos 0

abbrev pub channels_for : ℤ → ℤ
channels_for data_type =
    if eq_ℤ data_type (pos 2) then pos 1 else if eq_ℤ data_type (pos 3) then pos 3 else pos 0

abbrev pub positive_only : List ℤ → List ℤ
positive_only [] = []
positive_only (z ∷ zs) = let rest = positive_only zs in if ltb_ℤ (pos 0) z then z ∷ rest else rest

abbrev pub all_depths : PropertyCatalog → List ℤ
all_depths c = positive_only (map depth_for c.data_types)

abbrev pub requested : FlatbedSettings → Hresult (Unit {0})
requested s = elim (to_request s) [ ok request ↦ success tt | err e ↦ failure e_invalidarg ]

-- The values that follow from the settings: X and Y resolution, position and extent, data type,
-- depth, channels, pixels per line, lines, item size, and the least sizes.
abbrev pub settings_values : FlatbedSettings → ℕ → ℕ → List (ℕ × ℤ)
settings_values s size min_size =
    (6147, s.x_resolution)
    ∷ (6148, s.y_resolution)
    ∷ (6149, s.x_position)
    ∷ (6150, s.y_position)
    ∷ (6151, s.x_extent)
    ∷ (6152, s.y_extent)
    ∷ (4103, s.data_type)
    ∷ (4104, s.depth)
    ∷ (4109, channels_for s.data_type)
    ∷ (4112, s.x_extent)
    ∷ (4114, s.y_extent)
    ∷ (4116, pos size)
    ∷ (6167, pos min_size)
    ∷ (6168, pos min_size)
    ∷ []

-- Read, write and list, and read, write and range.
abbrev rw_list : ℕ
rw_list = 0x23

abbrev rw_range : ℕ
rw_range = 0x13

-- The extents are within the bed here, so that no difference is negative.
abbrev pub settings_attributes :
    PropertyCatalog → FlatbedSettings → ℕ → ℕ → ℕ → List (ℕ × PropertyAttribute)
settings_attributes c s max_width max_height step =
    let x_room = max_width - pos_part s.x_extent in
    let y_room = max_height - pos_part s.y_extent in
    let x_left = max_width - pos_part s.x_position in
    let y_left = max_height - pos_part s.y_position in
    (6148, list_long rw_list c.resolutions s.y_resolution)
    ∷ (4104, list_long rw_list (all_depths c) s.depth)
    ∷ (6149, range_long rw_range (pos 0) (pos 0) (pos (x_room / step * step)) (pos step))
    ∷ (6150, range_long rw_range (pos 0) (pos 0) (pos (y_room / step * step)) (pos step))
    ∷ (6151, range_long rw_range (pos 1) (pos x_left) (pos x_left) (pos 1))
    ∷ (6152, range_long rw_range (pos 1) (pos y_left) (pos y_left) (pos 1))
    ∷ []

abbrev pub unlisted : PropertyCatalog → FlatbedSettings → Bool
unlisted c s =
    not (is_flatbed c.item_kind)
    || not (contains c.resolutions s.x_resolution)
    || not (contains c.data_types s.data_type)

-- `checked_add` cannot overflow where the sum is within the bed.
abbrev pub outside : PropertyCatalog → FlatbedSettings → Bool
outside c s =
    not (leb_ℤ (s.x_position +ℤ s.x_extent) (pos (max_extent c s.x_resolution).0))
    || not (leb_ℤ (s.y_position +ℤ s.y_extent) (pos (max_extent c s.x_resolution).1))

unfoldable pub with_settings : PropertyCatalog → FlatbedSettings → Hresult PropertyCatalog
with_settings c s =
    let most = max_extent c s.x_resolution in
    let step = offset_step (pos_part s.x_resolution) in
    refuse (unlisted c s)
    >> (requested s
        >> (assert_aligned c
            >> (refuse (outside c s)
                >> (bmp_size (pos_part s.x_extent) (pos_part s.y_extent) (pos_part s.depth)
                    >>= λ size. min_size_thousandths (pos_part s.x_resolution) >>= λ min_size.
                        put_values (settings_values s size min_size) c >>= λ c'.
                        put_attributes (settings_attributes c s most.0 most.1 step) c'))))

unfoldable pub with_service_values : PropertyCatalog → FlatbedSettings → Hresult PropertyCatalog
with_service_values c s =
    put_values
      ((6147, s.x_resolution)
        ∷ (6148, s.y_resolution)
        ∷ (6149, s.x_position)
        ∷ (6150, s.y_position)
        ∷ (6151, s.x_extent)
        ∷ (6152, s.y_extent)
        ∷ (4103, s.data_type)
        ∷ (4104, s.depth)
        ∷ [])
      c
