-- ===== src/Protocol/Parse.antt =====
-- What `parse` accepts.
use workcentre_3119_modern_d.Prelude.{
  ℕ, ◌+◌, ◌*◌, ◌^◌, ◌<◌, ◌≡◌, ◌≢◌, ap, ◌∙◌, false, List, [], arith, All, bit_or,
}
use workcentre_3119_modern_d.Prelude.Bits.{bit_or_fields}
use workcentre_3119_modern_d.Prelude.Bytes.{IsByte, byte_at, byte_at-IsByte, be32_at-lt}
use workcentre_3119_modern_d.Errors.{ok}
use workcentre_3119_modern_d.Protocol.{Capabilities, fields, lacks_capabilities, parse}

-- The three mask bytes are disjoint fields.
pub mask_as_sum :
    (a b c : ℕ)
    → b < 256
    → c < 256
    → bit_or (bit_or (a * 2 ^ 16) (b * 2 ^ 8)) c ≡ a * 2 ^ 16 + b * 2 ^ 8 + c
mask_as_sum a b c hb hc =
    ap (λ (t : ℕ). bit_or t c) (bit_or_fields 16 a (b * 2 ^ 8) (omega arith))
    ∙ ap (λ (t : ℕ). bit_or t c)
        (let e : a * 2 ^ 16 + b * 2 ^ 8 ≡ (a * 256 + b) * 2 ^ 8 = omega arith in e)
    ∙ bit_or_fields 8 (a * 256 + b) c (omega arith)
    ∙ omega arith

-- What holds of accepted capabilities: every field fits its wire width, and none is empty.
pub record IsValid (c : Capabilities) : Type 0 where
  pub named : c.identity ≢ []
  pub mask_fits : c.resolution_mask < 2 ^ 24
  pub mask_set : 0 < c.resolution_mask
  pub modes_fit : c.mode_mask < 256
  pub modes_set : 0 < c.mode_mask
  pub width_fits : c.width_units < 2 ^ 32
  pub width_set : 0 < c.width_units
  pub length_fits : c.length_units < 2 ^ 32
  pub length_set : 0 < c.length_units
  pub flatbed_fits : c.flatbed_length_units < 2 ^ 32
  pub flatbed_set : 0 < c.flatbed_length_units

no_lack :
    (c : Capabilities)
    → lacks_capabilities c ≡ false
    → (c.identity ≢ [])
      × (0 < c.resolution_mask)
      × (0 < c.mode_mask)
      × (0 < c.width_units)
      × (0 < c.length_units)
      × (0 < c.flatbed_length_units)
unfolding lacks_capabilities
no_lack c full = ground arith

mask-lt : (b : List ℕ) → All IsByte b → (fields b).resolution_mask < 2 ^ 24
unfolding fields
mask-lt b h = omega (
  arith,
  byte_at-IsByte b 55 h,
  byte_at-IsByte b 36 h,
  byte_at-IsByte b 37 h,
  mask_as_sum (byte_at b 55) (byte_at b 36) (byte_at b 37) (byte_at-IsByte b 36 h)
      (byte_at-IsByte b 37 h),
)

full-IsValid :
    (b : List ℕ) → All IsByte b → lacks_capabilities (fields b) ≡ false → IsValid (fields b)
full-IsValid b h full =
    let (named, mask, modes, width, long, bed) = no_lack (fields b) full in
    record {
      named = named;
      mask_fits = mask-lt b h;
      mask_set = mask;
      modes_fit = unfold fields in byte_at-IsByte b 39 h;
      modes_set = modes;
      width_fits = unfold fields in be32_at-lt b 40 h;
      width_set = width;
      length_fits = unfold fields in be32_at-lt b 44 h;
      length_set = long;
      flatbed_fits = unfold fields in be32_at-lt b 60 h;
      flatbed_set = bed;
    }

-- Of any bytes, what `parse` accepts has a name, a resolution, a mode and an area, each in its width.
pub parse-IsValid : (b : List ℕ) (c : Capabilities) → All IsByte b → parse b ≡ ok c → IsValid c
unfolding parse
parse-IsValid b c h e = ground (arith, full-IsValid b h)
