-- ===== src/Minidrv/Catalog/Values.antt =====
-- The catalogue as a map from identifiers to values: what the updates do to it.
use workcentre_3119_modern_d.Prelude.{
  ℕ, suc, ◌≡◌, inl, inr, refl, sym, ap, ◌∙◌, true, false, List, [], ◌∷◌, Option, none, some, length,
  get_elem?, set, ◌==◌, arith, if◌then◌else◌, Bool-cases, Option-cases, length-set,
}
use mathlib.Core.Path.{subst}
use mathlib.Core.Option
use workcentre_3119_modern_d.Prelude.Int.{ℤ, pos, pos_part, leb_ℤ, ◌+ℤ◌}
use workcentre_3119_modern_d.Errors.{ok, Result-cases}
use workcentre_3119_modern_d.Scan.Window.{ScanRequest}
use workcentre_3119_modern_d.Wia.{FlatbedSettings, to_request}
use workcentre_3119_modern_d.Minidrv.{success, Hresult-cases, bind_ok, refuse_ok, then_ok}
use workcentre_3119_modern_d.Minidrv.Geometry.{bmp_size, min_size_thousandths, offset_step}
use workcentre_3119_modern_d.Minidrv.Catalog.{
  unlisted, outside, is_flatbed, contains, requested, PropertyCatalog, PropertyValue, long,
  PropertyAttribute, index_of, put_value, put_attribute, put_values, put_attributes, assert_aligned,
  with_settings, settings_values, settings_attributes, max_extent,
}

-- The value of an identifier: that of its first place.
abbrev pub at_place : List PropertyValue → Option ℕ → Option PropertyValue
at_place values none = none
at_place values (some i) = get_elem? values i

abbrev pub value_in : List ℕ → List PropertyValue → ℕ → Option PropertyValue
value_in ids values id = at_place values (index_of ids id)

abbrev pub value_of : PropertyCatalog → ℕ → Option PropertyValue
value_of c id = value_in c.ids c.initial_values id

-- The map after the updates, one after the other.
abbrev pub overlay : List (ℕ × ℤ) → (ℕ → Option PropertyValue) → ℕ → Option PropertyValue
overlay [] before id = before id
overlay ((key, value) ∷ rest) before id =
    overlay rest (λ other. if key == other then some (long value) else before other) id

index_of_there :
    (x id : ℕ) (xs : List ℕ)
    → (x == id) ≡ false
    → index_of (x ∷ xs) id ≡ Option.map suc (index_of xs id)
index_of_there x id xs h = rw h refl

index_of_here : (x id : ℕ) (xs : List ℕ) → (x == id) ≡ true → index_of (x ∷ xs) id ≡ some 0
index_of_here x id xs h = rw h refl

next_place :
    (y : PropertyValue) (values : List PropertyValue) (place : Option ℕ)
    → at_place (y ∷ values) (Option.map suc place) ≡ at_place values place
next_place y values none = refl
next_place y values (some i) = refl

value_there :
    (x id : ℕ) (y : PropertyValue) (ids : List ℕ) (values : List PropertyValue)
    → (x == id) ≡ false
    → value_in (x ∷ ids) (y ∷ values) id ≡ value_in ids values id
value_there x id y ids values h =
    ap (at_place (y ∷ values)) (index_of_there x id ids h) ∙ next_place y values (index_of ids id)

value_here :
    (x id : ℕ) (y : PropertyValue) (ids : List ℕ) (values : List PropertyValue)
    → (x == id) ≡ true
    → value_in (x ∷ ids) (y ∷ values) id ≡ some y
value_here x id y ids values h = ap (at_place (y ∷ values)) (index_of_here x id ids h)

there_ok :
    (x key i : ℕ) (ids : List ℕ)
    → (x == key) ≡ false
    → index_of (x ∷ ids) key ≡ some i
    → (j : ℕ) × (index_of ids key ≡ some j) × (i ≡ suc j)
there_ok x key i ids h e = elim (Option-cases (index_of ids key)) [
  | inl p ↦ ground (arith, h, p, e)
  | inr (j, p) ↦ (j, p, ground (arith, h, p, e))
]

here_ok : (x key i : ℕ) (ids : List ℕ) → (x == key) ≡ true → index_of (x ∷ ids) key ≡ some i → i ≡ 0
here_ok x key i ids h e = ground (arith, h, e)

-- A write at the place of `key`.
set_at_key :
    (ids : List ℕ) (values : List PropertyValue) (key i id : ℕ) (v : PropertyValue)
    → length ids ≡ length values
    → index_of ids key ≡ some i
    → value_in ids (set values i v) id ≡ (if key == id then some v else value_in ids values id)
set_at_key [] values key i id v n e = absurd (cc e)
set_at_key (x ∷ ids) [] key i id v n e = absurd (omega arith)
set_at_key (x ∷ ids) (y ∷ values) key i id v n e = elim (Bool-cases (x == key)) [
  | inl h ↦
      let at : i ≡ 0 = here_ok x key i ids h e in
      elim (Bool-cases (x == id)) [
        | inl k ↦
            let same : (key == id) ≡ true = ground arith in
            rw at (rw same (value_here x id v ids values k))
        | inr k ↦
            let other : (key == id) ≡ false = ground arith in
            rw at
              (rw other (value_there x id v ids values k ∙ sym (value_there x id y ids values k)))
      ]
  | inr h ↦
      let (j, p, at) = there_ok x key i ids h e in
      elim (Bool-cases (x == id)) [
        | inl k ↦
            let other : (key == id) ≡ false = ground arith in
            rw at (
              rw other
                (value_here x id y ids (set values j v) k ∙ sym (value_here x id y ids values k)))
        | inr k ↦ rw at (
            value_there x id y ids (set values j v) k
            ∙ set_at_key ids values key j id v (omega (arith, n)) p
            ∙ ap (λ (t : Option PropertyValue). if key == id then some v else t)
                (sym (value_there x id y ids values k)))
      ]
]

-- The identifiers stay, and each has a value.
pub record SameShape (c c' : PropertyCatalog) : Type 0 where
  pub same_ids : c'.ids ≡ c.ids
  pub same_names : c'.names ≡ c.names
  pub same_length : length c'.initial_values ≡ length c.initial_values

SameShape-trans : (a b c : PropertyCatalog) → SameShape a b → SameShape b c → SameShape a c
SameShape-trans a b c p q = record {
  same_ids = q.same_ids ∙ p.same_ids;
  same_names = q.same_names ∙ p.same_names;
  same_length = q.same_length ∙ p.same_length;
}

put_value_lem :
    (c c' : PropertyCatalog) (key : ℕ) (value : ℤ)
    → length c.ids ≡ length c.initial_values
    → put_value key value c ≡ success c'
    → SameShape c c'
      × ((id : ℕ) → value_of c' id ≡ (if key == id then some (long value) else value_of c id))
unfolding put_value
put_value_lem c c' key value aligned e = elim (Option-cases (index_of c.ids key)) [
  | inl p ↦ ground arith
  | inr (i, p) ↦
      let same : record c { initial_values = set c.initial_values i (long value) } ≡ c' =
        ground arith in
      subst
        (λ (x : PropertyCatalog).
          SameShape c x
          × ((id : ℕ) → value_of x id ≡ (if key == id then some (long value) else value_of c id)))
        same
        (
          record {
            same_ids = refl;
            same_names = refl;
            same_length = length-set c.initial_values i (long value);
          },
          λ id. set_at_key c.ids c.initial_values key i id (long value) aligned p,
        )
]

overlay_same :
    (kvs : List (ℕ × ℤ)) (f g : ℕ → Option PropertyValue) (id : ℕ)
    → ((other : ℕ) → f other ≡ g other)
    → overlay kvs f id ≡ overlay kvs g id
overlay_same [] f g id h = h id
overlay_same ((key, value) ∷ rest) f g id h = overlay_same rest _ _ id λ other.
    ap (λ (t : Option PropertyValue). if key == other then some (long value) else t) (h other)

-- The updates of values are the updates of the map.
pub put_values-overlay :
    (kvs : List (ℕ × ℤ)) (c c' : PropertyCatalog)
    → length c.ids ≡ length c.initial_values
    → put_values kvs c ≡ success c'
    → SameShape c c' × ((id : ℕ) → value_of c' id ≡ overlay kvs (value_of c) id)
unfolding put_values
put_values-overlay [] c c' aligned e =
    let same : c ≡ c' = cc e in
    subst (λ (x : PropertyCatalog). SameShape c x × ((id : ℕ) → value_of x id ≡ value_of c id)) same
      (record { same_ids = refl; same_names = refl; same_length = refl }, λ id. refl)
put_values-overlay ((key, value) ∷ rest) c c' aligned e =
    elim (Hresult-cases (put_value key value c)) [
      | inr (x, p) ↦ ground arith
      | inl (c1, p) ↦
          let first = put_value_lem c c1 key value aligned p in
          let shape = first.0 in
          let still : length c1.ids ≡ length c1.initial_values =
            ap length shape.same_ids ∙ aligned ∙ sym shape.same_length in
          let later = put_values-overlay rest c1 c' still (ground arith) in
          (
            SameShape-trans c c1 c' shape later.0,
            λ id. later.1 id ∙ overlay_same rest _ _ id first.1,
          )
    ]

-- Attributes leave the values alone.
put_attributes_lem :
    (kas : List (ℕ × PropertyAttribute)) (c c' : PropertyCatalog)
    → put_attributes kas c ≡ success c'
    → (c'.ids ≡ c.ids) × (c'.names ≡ c.names) × (c'.initial_values ≡ c.initial_values)
unfolding put_attributes put_attribute
put_attributes_lem [] c c' e =
    let same : c ≡ c' = cc e in
    (
      ap (λ (x : PropertyCatalog). x.ids) (sym same),
      ap (λ (x : PropertyCatalog). x.names) (sym same),
      ap (λ (x : PropertyCatalog). x.initial_values) (sym same),
    )
put_attributes_lem ((key, a) ∷ rest) c c' e = elim (Option-cases (index_of c.ids key)) [
  | inl p ↦ ground arith
  | inr (i, p) ↦
      put_attributes_lem rest (record c { attributes = set c.attributes i a }) c' (ground arith)
]

aligned_ok :
    (c : PropertyCatalog) → assert_aligned c ≡ success tt → length c.ids ≡ length c.initial_values
unfolding assert_aligned
aligned_ok c e = ground arith

requested_ok :
    (s : FlatbedSettings) → requested s ≡ success tt → (r : ScanRequest) × (to_request s ≡ ok r)
requested_ok s e = elim (Result-cases (to_request s)) [
  | inl (r, p) ↦ (r, p)
  | inr (x, p) ↦ ground arith
]

-- What a selection of settings says of them, and of the catalogue after it.
pub record Selected (c : PropertyCatalog) (s : FlatbedSettings) (c' : PropertyCatalog)
    : Type 0 where
  pub flat : is_flatbed c.item_kind ≡ true
  pub listed : contains c.resolutions s.x_resolution ≡ true
  pub listed_type : contains c.data_types s.data_type ≡ true
  pub request : (r : ScanRequest) × (to_request s ≡ ok r)
  pub in_width : leb_ℤ (s.x_position +ℤ s.x_extent) (pos (max_extent c s.x_resolution).0) ≡ true
  pub in_height : leb_ℤ (s.y_position +ℤ s.y_extent) (pos (max_extent c s.x_resolution).1) ≡ true
  pub size : ℕ
  pub of_size :
      bmp_size (pos_part s.x_extent) (pos_part s.y_extent) (pos_part s.depth) ≡ success size
  pub min_size : ℕ
  pub of_min_size : min_size_thousandths (pos_part s.x_resolution) ≡ success min_size
  pub shape : SameShape c c'
  pub values : (id : ℕ) → value_of c' id ≡ overlay (settings_values s size min_size) (value_of c) id

-- A selection with `with_settings` succeeds only for settings that `to_request` accepts, at a listed
-- resolution and data type, in a rectangle within the bed. It keeps identifiers and names, and changes
-- the values of the identifiers that follow from the settings, to these, and no others.
pub with_settings-Selected :
    (c : PropertyCatalog) (s : FlatbedSettings) (c' : PropertyCatalog)
    → with_settings c s ≡ success c'
    → Selected c s c'
unfolding with_settings
with_settings-Selected c s c' e =
    let most = max_extent c s.x_resolution in
    let step = offset_step (pos_part s.x_resolution) in
    let s1 = refuse_ok (unlisted c s) _ c' e in
    let s2 = then_ok (requested s) _ c' s1.1 in
    let s3 = then_ok (assert_aligned c) _ c' s2.1 in
    let s4 = refuse_ok (outside c s) _ c' s3.1 in
    let s5 =
      bind_ok (bmp_size (pos_part s.x_extent) (pos_part s.y_extent) (pos_part s.depth)) _ c' s4.1 in
    let s6 = bind_ok (min_size_thousandths (pos_part s.x_resolution)) _ c' s5.2 in
    let s7 = bind_ok (put_values (settings_values s s5.0 s6.0) c) _ c' s6.2 in
    let put = put_values-overlay (settings_values s s5.0 s6.0) c s7.0 (aligned_ok c s3.0) s7.1 in
    let marked = put_attributes_lem (settings_attributes c s most.0 most.1 step) s7.0 c' s7.2 in
    record {
      flat = ground (arith, s1.0);
      listed = ground (arith, s1.0);
      listed_type = ground (arith, s1.0);
      request = requested_ok s s2.0;
      in_width = ground (arith, s4.0);
      in_height = ground (arith, s4.0);
      size = s5.0;
      of_size = s5.1;
      min_size = s6.0;
      of_min_size = s6.1;
      shape = record {
        same_ids = marked.0 ∙ put.0.same_ids;
        same_names = marked.1 ∙ put.0.same_names;
        same_length = ap length marked.2 ∙ put.0.same_length;
      };
      values = λ id.
          ap (λ (x : List ℕ). value_in x c'.initial_values id) marked.0
          ∙ ap (λ (x : List PropertyValue). value_in s7.0.ids x id) marked.2
          ∙ put.1 id;
    }
