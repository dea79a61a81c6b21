-- ===== src/Protocol.antt =====
-- src/protocol.rs: the scanner's INQUIRY reply.
pub mod Parse
pub mod Frame
pub mod Resolutions
use workcentre_3119_modern_d.Prelude.{
  ℕ, ◌+◌, ◌*◌, ◌^◌, Bool, true, false, not, ◌&&◌, ◌||◌, List, [], ◌∷◌, ltb, leb, ◌==◌,
  if◌then◌else◌, length, take, drop, bit_and, bit_or,
}
use workcentre_3119_modern_d.Prelude.Bytes.{byte_at, be32_at}
use workcentre_3119_modern_d.Errors.{Result, ok, err, refuse, ◌>>=◌, ◌>>◌, invalid_data}
use mathlib.Core.List.{map, reverse}

pub record Capabilities : Type 0 where
  pub identity : List ℕ
  pub resolution_mask : ℕ
  pub mode_mask : ℕ
  pub width_units : ℕ
  pub length_units : ℕ
  pub flatbed_length_units : ℕ
  pub line_order : ℕ
  pub compression_mask : ℕ

-- `b != 0 && !(0x20..=0x7e).contains(&b)`
abbrev pub invalid_text_byte : ℕ → Bool
invalid_text_byte b = not (b == 0) && not (leb 0x20 b && leb b 0x7e)

abbrev pub any : (ℕ → Bool) → List ℕ → Bool
any p [] = false
any p (b ∷ bs) = p b || any p bs

abbrev pub text_char : ℕ → ℕ
text_char b = if b == 0 then 0x20 else b

abbrev pub skip_spaces : List ℕ → List ℕ
skip_spaces [] = []
skip_spaces (c ∷ cs) = let rest = skip_spaces cs in if c == 0x20 then rest else c ∷ cs

-- `str::trim`. The text holds codes 0x20 to 0x7e alone, where the blank is the only white space.
abbrev pub trim : List ℕ → List ℕ
trim cs = reverse (skip_spaces (reverse (skip_spaces cs)))

abbrev pub is_empty : List ℕ → Bool
is_empty [] = true
is_empty (c ∷ cs) = false

unfoldable pub fields : List ℕ → Capabilities
fields b = record {
  identity = trim (map text_char (take 32 (drop 4 b)));
  resolution_mask = bit_or (bit_or (byte_at b 55 * 2 ^ 16) (byte_at b 36 * 2 ^ 8)) (byte_at b 37);
  mode_mask = byte_at b 39;
  width_units = be32_at b 40;
  length_units = be32_at b 44;
  flatbed_length_units = be32_at b 60;
  line_order = byte_at b 49;
  compression_mask = byte_at b 50;
}

unfoldable pub lacks_capabilities : Capabilities → Bool
lacks_capabilities c =
    is_empty c.identity
    || c.resolution_mask == 0
    || c.mode_mask == 0
    || c.width_units == 0
    || c.length_units == 0
    || c.flatbed_length_units == 0

unfoldable pub parse : List ℕ → Result Capabilities
parse b = do
  refuse (ltb (length b) 4 || not (byte_at b 0 == 0xa8) || not (byte_at b 2 + 3 == length b))
      invalid_data
  refuse (not (byte_at b 1 == 0)) invalid_data
  refuse (ltb (length b) 70 || not (byte_at b 3 == 0x10)) invalid_data
  refuse (any invalid_text_byte (take 32 (drop 4 b))) invalid_data
  refuse (lacks_capabilities (fields b)) invalid_data
  ok (fields b)

-- The resolutions of `resolutions`, with the bit that reports each.
abbrev pub resolution_bits : List (ℕ × ℕ)
resolution_bits =
    (75, 0)
    ∷ (100, 12)
    ∷ (150, 1)
    ∷ (200, 4)
    ∷ (300, 5)
    ∷ (600, 8)
    ∷ (1200, 11)
    ∷ (2400, 15)
    ∷ (4800, 17)
    ∷ (9600, 19)
    ∷ []

abbrev pub reported : ℕ → List (ℕ × ℕ) → List ℕ
reported mask [] = []
reported mask ((dpi, bit) ∷ r) =
    let rest = reported mask r in if not (bit_and mask (2 ^ bit) == 0) then dpi ∷ rest else rest

unfoldable pub resolutions : Capabilities → List ℕ
resolutions c = reported c.resolution_mask resolution_bits
