-- ===== src/Prelude/Bytes.antt =====
-- Bytes as numbers below 256, and the big- and little-endian fields of the Rust source.
use Prim.Native.Nat.{ℕ, ◌+◌, ◌*◌, ◌/◌, ◌%◌, ◌^◌, ◌<◌}
use mathlib.Core.List.{List, [], ◌∷◌}
use native.Mathlib.Omega.{arith}
use workcentre_3119_modern_d.Prelude.Lists.{get_or, All, get_or-All}

abbrev pub IsByte : ℕ → Type 0
IsByte b = b < 256

-- `b[i]` where the code has checked `i < b.len()`.
abbrev pub byte_at : List ℕ → ℕ → ℕ
byte_at b i = get_or b i 0

pub byte_at-IsByte : (b : List ℕ) (i : ℕ) → All IsByte b → byte_at b i < 256
byte_at-IsByte b i h = get_or-All IsByte b i 0 (omega arith) h

-- `u16::from_be_bytes`, `u32::from_be_bytes` at an offset.
abbrev pub be16_at : List ℕ → ℕ → ℕ
be16_at b i = byte_at b i * 256 + byte_at b (i + 1)

abbrev pub be32_at : List ℕ → ℕ → ℕ
be32_at b i =
    byte_at b i * 2 ^ 24 + byte_at b (i + 1) * 2 ^ 16 + byte_at b (i + 2) * 256 + byte_at b (i + 3)

abbrev pub le16_at : List ℕ → ℕ → ℕ
le16_at b i = byte_at b i + byte_at b (i + 1) * 256

abbrev pub le32_at : List ℕ → ℕ → ℕ
le32_at b i =
    byte_at b i + byte_at b (i + 1) * 256 + byte_at b (i + 2) * 2 ^ 16 + byte_at b (i + 3) * 2 ^ 24

-- `to_be_bytes` and `to_le_bytes` of a word.
abbrev pub be32 : ℕ → List ℕ
be32 n = (n / 2 ^ 24 % 256) ∷ (n / 2 ^ 16 % 256) ∷ (n / 256 % 256) ∷ (n % 256) ∷ []

abbrev pub le32 : ℕ → List ℕ
le32 n = (n % 256) ∷ (n / 256 % 256) ∷ (n / 2 ^ 16 % 256) ∷ (n / 2 ^ 24 % 256) ∷ []

abbrev pub le16 : ℕ → List ℕ
le16 n = (n % 256) ∷ (n / 256 % 256) ∷ []

pub be32_at-lt : (b : List ℕ) (i : ℕ) → All IsByte b → be32_at b i < 2 ^ 32
be32_at-lt b i h = omega (
  arith,
  byte_at-IsByte b i h,
  byte_at-IsByte b (i + 1) h,
  byte_at-IsByte b (i + 2) h,
  byte_at-IsByte b (i + 3) h,
)

pub be16_at-lt : (b : List ℕ) (i : ℕ) → All IsByte b → be16_at b i < 2 ^ 16
be16_at-lt b i h = omega (arith, byte_at-IsByte b i h, byte_at-IsByte b (i + 1) h)
