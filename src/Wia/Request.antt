-- ===== src/Wia/Request.antt =====
-- An accepted set of settings becomes a request of exactly the same lengths.
use workcentre_3119_modern_d.Prelude.{
  ℕ, zero, suc, ◌+◌, ◌*◌, ◌/◌, ◌%◌, ◌^◌, ◌≤◌, ◌<◌, ◌≡◌, inl, inr, ap, ◌∙◌, true, false, arith,
}
use workcentre_3119_modern_d.Prelude.Int.{ℤ, pos, negsuc, pos_part, neg_part, leb_ℤ, eq_ℤ}
use mathlib.Core.Path.{subst}
use workcentre_3119_modern_d.Errors.{ok, Result-cases}
use workcentre_3119_modern_d.Scan.Window.{ColorMode, ScanRequest}
use workcentre_3119_modern_d.Wia.{
  FlatbedSettings, validate, supported_resolution, pixels_to_units, validate_offset, validate_end,
  mode_of, tone, checked_mode, to_request,
}

-- `units` in 1/1200 inch are exactly `pixels` at `dpi`.
abbrev pub SameLength : ℕ → ℤ → ℤ → Type 0
SameLength units pixels dpi =
    (units * pos_part dpi ≡ pos_part pixels * 1200) × (neg_part pixels ≡ 0) × (units < 2 ^ 32)

pixels_to_units-SameLength :
    (pixels dpi : ℤ) (units : ℕ)
    → supported_resolution dpi ≡ true
    → pixels_to_units pixels dpi ≡ ok units
    → SameLength units pixels dpi
unfolding pixels_to_units
pixels_to_units-SameLength (negsuc n) dpi units s e = ground arith
pixels_to_units-SameLength (pos p) (negsuc n) units s e = ground arith
pixels_to_units-SameLength (pos p) (pos dpi) units s e = ground arith

checked_mode_ok :
    (f : FlatbedSettings) (mode : ColorMode)
    → checked_mode f ≡ ok mode
    → (supported_resolution f.x_resolution ≡ true)
      × (eq_ℤ f.x_resolution f.y_resolution ≡ true)
      × (mode_of f.data_type f.depth ≡ ok mode)
      × (leb_ℤ f.x_extent (pos 0) ≡ false)
      × (leb_ℤ f.y_extent (pos 0) ≡ false)
unfolding checked_mode
checked_mode_ok f mode e = elim (Result-cases (mode_of f.data_type f.depth)) [
  | inl (k, q) ↦ elim (Result-cases (validate (tone f))) [
    | inl (t, q2) ↦ ground arith
    | inr (x, q2) ↦ ground arith
  ]
  | inr (x, q) ↦ ground arith
]

pub same_resolution : (x y : ℤ) → eq_ℤ x y ≡ true → x ≡ y
same_resolution (pos a) (pos b) e = let q : a ≡ b = ground arith in ap (λ (t : ℕ). pos t) q
same_resolution (pos a) (negsuc b) e = absurd (ground arith)
same_resolution (negsuc a) (pos b) e = absurd (ground arith)
same_resolution (negsuc a) (negsuc b) e = let q : a ≡ b = ground arith in ap (λ (t : ℕ). negsuc t) q

positive : (extent dpi : ℤ) (b : ℕ) → SameLength b extent dpi → leb_ℤ extent (pos 0) ≡ false → 0 < b
positive (pos p) dpi zero l h = absurd (ground arith)
positive (pos p) dpi (suc b) l h = omega arith
positive (negsuc n) dpi b l h = absurd (ground arith)

-- An origin and an extent, converted.
lengths :
    (start extent dpi : ℤ) (a b : ℕ)
    → supported_resolution dpi ≡ true
    → pixels_to_units start dpi ≡ ok a
    → pixels_to_units extent dpi ≡ ok b
    → leb_ℤ extent (pos 0) ≡ false
    → SameLength a start dpi × (SameLength b extent dpi × (0 < b))
lengths start extent dpi a b s p q h =
    let l = pixels_to_units-SameLength extent dpi b s q in
    (pixels_to_units-SameLength start dpi a s p, (l, positive extent dpi b l h))

-- What a request for these settings has to be.
pub record IsRequest (f : FlatbedSettings) (r : ScanRequest) : Type 0 where
  pub supported : supported_resolution f.x_resolution ≡ true
  pub square : f.x_resolution ≡ f.y_resolution
  pub mode : mode_of f.data_type f.depth ≡ ok r.mode
  pub resolution : r.dpi ≡ pos_part f.x_resolution
  pub left : SameLength r.x_units f.x_position f.x_resolution
  pub top : SameLength r.y_units f.y_position f.y_resolution
  pub wide : SameLength r.width_units f.x_extent f.x_resolution
  pub high : SameLength r.height_units f.y_extent f.y_resolution
  pub left_offset : (r.x_units % 12 ≡ 0) × (r.x_units / 1200 ≤ 255)
  pub top_offset : (r.y_units % 12 ≡ 0) × (r.y_units / 1200 ≤ 255)
  pub right_end : r.x_units + r.width_units < 2 ^ 32
  pub bottom_end : r.y_units + r.height_units < 2 ^ 32
  pub not_empty : (0 < r.width_units) × (0 < r.height_units)

-- If settings are accepted, the request has their lengths exactly, in 1/1200 inch; its offsets are
-- whole hundredths of an inch below 256 inches, its ends fit 32 bits, and it is not empty.
pub to_request-IsRequest :
    (f : FlatbedSettings) (r : ScanRequest) → to_request f ≡ ok r → IsRequest f r
unfolding to_request validate_offset validate_end
to_request-IsRequest f r e = elim (Result-cases (checked_mode f)) [
  | inl (mode, q0) ↦
      let (sup, sq, md, we, he) = checked_mode_ok f mode q0 in
      let same = same_resolution f.x_resolution f.y_resolution sq in
      elim (Result-cases (pixels_to_units f.x_position f.x_resolution)) [
        | inl (x, q1) ↦ elim (Result-cases (pixels_to_units f.y_position f.y_resolution)) [
          | inl (y, q2) ↦ elim (Result-cases (pixels_to_units f.x_extent f.x_resolution)) [
            | inl (w, q3) ↦ elim (Result-cases (pixels_to_units f.y_extent f.y_resolution)) [
              | inl (h, q4) ↦
                  let sup_y = subst (λ (t : ℤ). supported_resolution t ≡ true) same sup in
                  let (a, b) = lengths f.x_position f.x_extent f.x_resolution x w sup q1 q3 we in
                  let (c, d) = lengths f.y_position f.y_extent f.y_resolution y h sup_y q2 q4 he in
                  record {
                    supported = sup;
                    square = same;
                    resolution = ground arith;
                    mode = md ∙ ap (λ (t : ColorMode). ok t) (ground arith);
                    left =
                        subst (λ (t : ℕ). SameLength t f.x_position f.x_resolution) (ground arith)
                          a;
                    top =
                        subst (λ (t : ℕ). SameLength t f.y_position f.y_resolution) (ground arith)
                          c;
                    wide =
                        subst (λ (t : ℕ). SameLength t f.x_extent f.x_resolution) (ground arith)
                          b.0;
                    high =
                        subst (λ (t : ℕ). SameLength t f.y_extent f.y_resolution) (ground arith)
                          d.0;
                    left_offset = ground arith;
                    top_offset = ground arith;
                    right_end = ground arith;
                    bottom_end = ground arith;
                    not_empty = (ground (arith, b.1), ground (arith, d.1));
                  }
              | inr (k, q4) ↦ ground arith
            ]
            | inr (k, q3) ↦ ground arith
          ]
          | inr (k, q2) ↦ ground arith
        ]
        | inr (k, q1) ↦ ground arith
      ]
  | inr (k, q0) ↦ ground arith
]
