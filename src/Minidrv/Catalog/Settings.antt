-- ===== src/Minidrv/Catalog/Settings.antt =====
-- catalog.rs, `with_settings`: what the catalogue publishes for the settings that it takes.
use workcentre_3119_modern_d.Prelude.{
  ℕ, suc, ◌+◌, ◌-◌, ◌*◌, ◌/◌, ◌<◌, ◌≤◌, ◌≡◌, ◌≢◌, ◌⊎◌, inl, inr, refl, sym, ap, ◌∙◌, true, false,
  List, [], ◌∷◌, Option, some, get_elem?, ◌==◌, ◌&&◌, arith, All, Bool, Bool-cases, if◌then◌else◌,
}
use mathlib.Core.Path.{subst}
use native.Mathlib.Nat.{div-add-mod', mod-lt}
use workcentre_3119_modern_d.Prelude.Int.{ℤ, pos, negsuc, pos_part, neg_part, eq_ℤ, leb_ℤ, ◌+ℤ◌}
use workcentre_3119_modern_d.Errors.{ok}
use workcentre_3119_modern_d.Scan.Window.{ColorMode, gray, rgb, ScanRequest}
use workcentre_3119_modern_d.Wia.{FlatbedSettings, to_request, mode_of, supported_resolution}
use workcentre_3119_modern_d.Wia.Request.{to_request-IsRequest, same_resolution}
use workcentre_3119_modern_d.Minidrv.{success}
use workcentre_3119_modern_d.Minidrv.Geometry.{pixels_from_units, bmp_size, min_size_thousandths}
use workcentre_3119_modern_d.Minidrv.ItemSize.{bmp_size_ok}
use workcentre_3119_modern_d.Minidrv.Catalog.{
  PropertyCatalog, PropertyValue, long, contains, max_extent, channels_for, settings_values,
  with_settings,
}
use workcentre_3119_modern_d.Minidrv.Catalog.Values.{
  value_of, overlay, SameShape, with_settings-Selected,
}

-- One of the values of a list.
abbrev pub Listed : List ℤ → ℤ → Type 0
Listed values v = (i : ℕ) × (get_elem? values i ≡ some v)

-- Channels, depth and the file size for the data types 2 (gray) and 3 (colour).
abbrev pub OfType : ℤ → ℤ → ℕ → ℕ → ℕ → ℕ → Type 0
OfType data_type depth channels size width height =
    ((data_type ≡ pos 2)
      × (depth ≡ pos 8)
      × (channels ≡ 1)
      × (size ≡ 1078 + (width + 3) / 4 * 4 * height))
    ⊎ ((data_type ≡ pos 3)
        × (depth ≡ pos 24)
        × (channels ≡ 3)
        × (size ≡ 54 + (width * 3 + 3) / 4 * 4 * height))

abbrev pub changed : List ℕ
changed =
    6147 ∷ 6148 ∷ 6149 ∷ 6150 ∷ 6151 ∷ 6152 ∷ 4103 ∷ 4104 ∷ 4109 ∷ 4112 ∷ 4114 ∷ 4116 ∷ 6167 ∷ 6168
    ∷ []

-- Settings in numbers, the bed around them, and the values that a catalogue has for them.
pub record IsSelection (c : PropertyCatalog) (s : FlatbedSettings) (c' : PropertyCatalog)
    : Type 0 where
  pub dpi : ℕ
  pub x : ℕ
  pub y : ℕ
  pub width : ℕ
  pub height : ℕ
  pub channels : ℕ
  pub size : ℕ
  pub least : ℕ
  pub request : (r : ScanRequest) × (to_request s ≡ ok r)
  pub resolution : (s.x_resolution ≡ pos dpi) × (s.y_resolution ≡ pos dpi)
  pub position : (s.x_position ≡ pos x) × (s.y_position ≡ pos y)
  pub extent : (s.x_extent ≡ pos width) × (s.y_extent ≡ pos height)
  pub listed : Listed c.resolutions (pos dpi) × Listed c.data_types s.data_type
  pub in_width : (x + width) * 1200 ≤ c.width_units * dpi
  pub in_height : (y + height) * 1200 ≤ c.height_units * dpi
  pub of_type : OfType s.data_type s.depth channels size width height
  pub least_size : (1000 ≤ least * dpi) × (least * dpi < 1000 + dpi)
  pub shape : SameShape c c'
  pub x_resolution : value_of c' 6147 ≡ some (long (pos dpi))
  pub y_resolution : value_of c' 6148 ≡ some (long (pos dpi))
  pub x_position : value_of c' 6149 ≡ some (long (pos x))
  pub y_position : value_of c' 6150 ≡ some (long (pos y))
  pub x_extent : value_of c' 6151 ≡ some (long (pos width))
  pub y_extent : value_of c' 6152 ≡ some (long (pos height))
  pub data_type : value_of c' 4103 ≡ some (long s.data_type)
  pub depth : value_of c' 4104 ≡ some (long s.depth)
  pub channels_per_pixel : value_of c' 4109 ≡ some (long (pos channels))
  pub pixels_per_line : value_of c' 4112 ≡ some (long (pos width))
  pub lines : value_of c' 4114 ≡ some (long (pos height))
  pub item_size : value_of c' 4116 ≡ some (long (pos size))
  pub least_width : value_of c' 6167 ≡ some (long (pos least))
  pub least_height : value_of c' 6168 ≡ some (long (pos least))
  pub others : (id : ℕ) → All (λ (key : ℕ). key ≢ id) changed → value_of c' id ≡ value_of c id

contains-Listed : (values : List ℤ) (v : ℤ) → contains values v ≡ true → Listed values v
contains-Listed [] v h = absurd (cc h)
contains-Listed (x ∷ xs) v h = elim (Bool-cases (eq_ℤ x v)) [
  | inl e ↦ (0, ap (λ (t : ℤ). some t) (same_resolution x v e))
  | inr e ↦ let rest = contains-Listed xs v (ground arith) in (suc rest.0, rest.1)
]

natural_of : (z : ℤ) → neg_part z ≡ 0 → z ≡ pos (pos_part z)
natural_of (pos n) h = refl
natural_of (negsuc n) h = absurd (omega arith)

in_bed :
    (a b : ℤ) (n : ℕ)
    → leb_ℤ (a +ℤ b) (pos n) ≡ true
    → neg_part a ≡ 0
    → neg_part b ≡ 0
    → pos_part a + pos_part b ≤ n
in_bed (pos a) (pos b) n h p q = ground arith
in_bed (pos a) (negsuc b) n h p q = absurd (omega arith)
in_bed (negsuc a) b n h p q = absurd (omega arith)

bed_le :
    (c : PropertyCatalog) (dpi : ℤ)
    → ((max_extent c dpi).0 ≤ c.width_units * pos_part dpi / 1200)
      × ((max_extent c dpi).1 ≤ c.height_units * pos_part dpi / 1200)
unfolding max_extent pixels_from_units
bed_le c dpi = (ground arith, ground arith)

-- In a mode the data type and the depth, with the channels and the size that follow.
mode-OfType :
    (data_type depth : ℤ) (mode : ColorMode) (width height size : ℕ)
    → mode_of data_type depth ≡ ok mode
    → bmp_size width height (pos_part depth) ≡ success size
    → (channels : ℕ) × OfType data_type depth channels size width height
mode-OfType data_type depth mode width height size e b =
    elim (Bool-cases (eq_ℤ data_type (pos 2) && eq_ℤ depth (pos 8))) [
      | inl q ↦
          let deep = same_resolution depth (pos 8) (ground arith) in
          let sized : bmp_size width height 8 ≡ success size =
            ap (λ (t : ℤ). bmp_size width height (pos_part t)) (sym deep) ∙ b in
          let total : size ≡ 1078 + (width * 1 + 3) / 4 * 4 * height =
            bmp_size_ok gray width height size sized in
          let stride : (width * 1 + 3) / 4 * 4 ≡ (width + 3) / 4 * 4 = omega arith in
          (
            1,
            inl (
              same_resolution data_type (pos 2) (ground arith),
              deep,
              refl,
              total ∙ ap (λ (n : ℕ). 1078 + n * height) stride,
            ),
          )
      | inr q ↦
          let colour : (eq_ℤ data_type (pos 3) && eq_ℤ depth (pos 24)) ≡ true = ground arith in
          let deep = same_resolution depth (pos 24) (ground arith) in
          let sized : bmp_size width height 24 ≡ success size =
            ap (λ (t : ℤ). bmp_size width height (pos_part t)) (sym deep) ∙ b in
          (
            3,
            inr (
              same_resolution data_type (pos 3) (ground arith),
              deep,
              refl,
              bmp_size_ok rgb width height size sized,
            ),
          )
    ]

channels_for-OfType :
    (data_type depth : ℤ) (channels size width height : ℕ)
    → OfType data_type depth channels size width height
    → channels_for data_type ≡ pos channels
channels_for-OfType data_type depth channels size width height (inl (t, d, n, z)) =
    ap channels_for t ∙ ap (λ (k : ℕ). pos k) (sym n)
channels_for-OfType data_type depth channels size width height (inr (t, d, n, z)) =
    ap channels_for t ∙ ap (λ (k : ℕ). pos k) (sym n)

rounded_up :
    (dpi : ℕ)
    → 0 < dpi
    → (1000 ≤ (1000 + (dpi - 1)) / dpi * dpi) × ((1000 + (dpi - 1)) / dpi * dpi < 1000 + dpi)
rounded_up dpi h =
    let whole = div-add-mod' (1000 + (dpi - 1)) dpi in
    let rest = mod-lt (1000 + (dpi - 1)) h in
    (omega (arith, whole, rest), omega (arith, whole, rest))

supported_natural :
    (z : ℤ) → supported_resolution z ≡ true → (z ≡ pos (pos_part z)) × (0 < pos_part z)
supported_natural (pos n) h = (refl, ground arith)
supported_natural (negsuc n) h = absurd (cc h)

least_ok :
    (dpi least : ℕ)
    → 0 < dpi
    → min_size_thousandths dpi ≡ success least
    → (1000 ≤ least * dpi) × (least * dpi < 1000 + dpi)
unfolding min_size_thousandths
least_ok dpi least h e =
    let q : least ≡ (1000 + (dpi - 1)) / dpi = ground arith in rw q (rounded_up dpi h)

-- An identifier that no update names keeps its value.
overlay_other :
    (kvs : List (ℕ × ℤ)) (f : ℕ → Option PropertyValue) (id : ℕ)
    → All (λ (kv : ℕ × ℤ). kv.0 ≢ id) kvs
    → overlay kvs f id ≡ f id
overlay_other [] f id h = refl
overlay_other ((key, value) ∷ rest) f id (h, hs) =
    let other : (key == id) ≡ false = ground arith in
    overlay_other rest (λ k. if key == k then some (long value) else f k) id hs
    ∙ ap (λ (b : Bool). if b then some (long value) else f id) other

-- A selection of settings with `with_settings` succeeds only for settings that `to_request` accepts,
-- at a listed resolution and data type, in a rectangle within the bed. The catalogue then has the
-- settings' resolution, position, extent, data type and depth, the channels, pixels per line, lines and
-- file size that follow from them, and one pixel in thousandths of an inch, rounded up, as the least size;
-- identifiers, names, and the values of all other identifiers stay.
pub with_settings-IsSelection :
    (c : PropertyCatalog) (s : FlatbedSettings) (c' : PropertyCatalog)
    → with_settings c s ≡ success c'
    → IsSelection c s c'
with_settings-IsSelection c s c' e =
    let sel = with_settings-Selected c s c' e in
    let q = to_request-IsRequest s sel.request.0 sel.request.1 in
    let dpi = pos_part s.x_resolution in
    let at = supported_natural s.x_resolution q.supported in
    let bed = bed_le c s.x_resolution in
    let right =
      in_bed s.x_position s.x_extent (max_extent c s.x_resolution).0 sel.in_width q.left.1
        q.wide.1 in
    let bottom =
      in_bed s.y_position s.y_extent (max_extent c s.x_resolution).1 sel.in_height q.top.1
        q.high.1 in
    let (channels, typed) =
      mode-OfType s.data_type s.depth sel.request.0.mode (pos_part s.x_extent) (pos_part s.y_extent)
        sel.size q.mode sel.of_size in
    let plane = channels_for-OfType s.data_type s.depth channels sel.size _ _ typed in
    let y_at = sym q.square ∙ at.0 in
    let x = natural_of s.x_position q.left.1 in
    let y = natural_of s.y_position q.top.1 in
    let w = natural_of s.x_extent q.wide.1 in
    let h = natural_of s.y_extent q.high.1 in
    record {
      dpi = dpi;
      x = pos_part s.x_position;
      y = pos_part s.y_position;
      width = pos_part s.x_extent;
      height = pos_part s.y_extent;
      channels = channels;
      size = sel.size;
      least = sel.min_size;
      request = sel.request;
      resolution = (at.0, y_at);
      position = (x, y);
      extent = (w, h);
      listed = (
        subst (Listed c.resolutions) at.0 (contains-Listed c.resolutions s.x_resolution sel.listed),
        contains-Listed c.data_types s.data_type sel.listed_type,
      );
      in_width = omega (arith, bed.0, right);
      in_height = omega (arith, bed.1, bottom);
      of_type = typed;
      least_size = least_ok dpi sel.min_size at.1 sel.of_min_size;
      shape = sel.shape;
      x_resolution = sel.values 6147 ∙ value at.0;
      y_resolution = sel.values 6148 ∙ value y_at;
      x_position = sel.values 6149 ∙ value x;
      y_position = sel.values 6150 ∙ value y;
      x_extent = sel.values 6151 ∙ value w;
      y_extent = sel.values 6152 ∙ value h;
      data_type = sel.values 4103;
      depth = sel.values 4104;
      channels_per_pixel = sel.values 4109 ∙ value plane;
      pixels_per_line = sel.values 4112 ∙ value w;
      lines = sel.values 4114 ∙ value h;
      item_size = sel.values 4116;
      least_width = sel.values 6167;
      least_height = sel.values 6168;
      others = λ id away.
          sel.values id
          ∙ overlay_other (settings_values s sel.size sel.min_size) (value_of c) id away;
    }
  where
    value : {a b : ℤ} → a ≡ b → Path (Option PropertyValue) (some (long a)) (some (long b))
    value p = ap (λ (z : ℤ). some (long z)) p
