-- ===== src/Protocol/Resolutions.antt =====
-- `resolutions` lists exactly the resolutions whose bit the scanner reports.
use workcentre_3119_modern_d.Prelude.{
  ℕ, ◌/◌, ◌%◌, ◌^◌, ◌≡◌, refl, Bool, false, ◌&&◌, ◌||◌, List, [], ◌∷◌, arith, true, ◌↔◌, ◌⊎◌, sym,
  ◌∙◌, inl, inr, Bool-cases, ◌==◌, one_of, bit_and,
}
use mathlib.Core.Path.{subst}
use workcentre_3119_modern_d.Prelude.Bits.{bit_and_bit}
use workcentre_3119_modern_d.Protocol.{Capabilities, resolutions, resolution_bits, reported}
use native.Mathlib.Nat.{one-le-pow}

-- The bit of a resolution in a table, none if it is not there.
abbrev pub has_bit : ℕ → ℕ → List (ℕ × ℕ) → Bool
has_bit mask d [] = false
has_bit mask d ((dpi, bit) ∷ r) = (d == dpi && mask / 2 ^ bit % 2 == 1) || has_bit mask d r

pub bit_test : (mask k : ℕ) → (bit_and mask (2 ^ k) == 0) ≡ (mask / 2 ^ k % 2 == 0)
bit_test mask k = ground (arith, bit_and_bit k mask, one-le-pow k 2)

one_of-reported :
    (mask d : ℕ) (table : List (ℕ × ℕ)) → one_of d (reported mask table) ≡ has_bit mask d table
one_of-reported mask d [] = refl
one_of-reported mask d ((dpi, bit) ∷ r) =
    ground (arith, bit_test mask bit, one_of-reported mask d r)

-- The resolutions that a mask reports, with the weights of their bits.
abbrev Above : ℕ → ℕ → Type 0
Above mask d =
    ((d ≡ 100) × (mask / 4096 % 2 ≡ 1))
    ⊎ ((d ≡ 150) × (mask / 2 % 2 ≡ 1))
    ⊎ ((d ≡ 200) × (mask / 16 % 2 ≡ 1))
    ⊎ ((d ≡ 300) × (mask / 32 % 2 ≡ 1))
    ⊎ ((d ≡ 600) × (mask / 256 % 2 ≡ 1))
    ⊎ ((d ≡ 1200) × (mask / 2048 % 2 ≡ 1))
    ⊎ ((d ≡ 2400) × (mask / 32768 % 2 ≡ 1))
    ⊎ ((d ≡ 4800) × (mask / 131072 % 2 ≡ 1))
    ⊎ ((d ≡ 9600) × (mask / 524288 % 2 ≡ 1))

abbrev pub Reports : ℕ → ℕ → Type 0
Reports mask d = ((d ≡ 75) × (mask % 2 ≡ 1)) ⊎ Above mask d

-- The same of any table.
abbrev InTable : ℕ → ℕ → List (ℕ × ℕ) → Type 0
InTable mask d [] = ⊥
InTable mask d ((dpi, bit) ∷ []) = (d ≡ dpi) × (mask / 2 ^ bit % 2 ≡ 1)
InTable mask d ((dpi, bit) ∷ row ∷ r) =
    ((d ≡ dpi) × (mask / 2 ^ bit % 2 ≡ 1)) ⊎ InTable mask d (row ∷ r)

has_bit-InTable :
    (mask d : ℕ) (table : List (ℕ × ℕ)) → (has_bit mask d table ≡ true) ↔ InTable mask d table
has_bit-InTable mask d [] = (λ e. absurd (cc e), λ h. absurd h)
has_bit-InTable mask d ((dpi, bit) ∷ []) = (λ e. ground arith, λ h. ground arith)
has_bit-InTable mask d ((dpi, bit) ∷ row ∷ r) =
    let rest = has_bit-InTable mask d (row ∷ r) in
    elim (Bool-cases (has_bit mask d (row ∷ r))) [
      | inl p ↦ (λ e. inr (rest.0 p), λ h. ground (arith, p))
      | inr p ↦ (
        λ e. inl (ground (arith, p)),
        λ h. elim h [ inl k ↦ ground (arith, p) | inr k ↦ absurd (cc (rest.1 k, p)) ],
      )
    ]

has_bit-Reports : (mask d : ℕ) → (has_bit mask d resolution_bits ≡ true) ↔ Reports mask d
has_bit-Reports mask d =
    let one : mask / 1 % 2 ≡ mask % 2 = omega arith in
    subst
      (λ (n : ℕ). (has_bit mask d resolution_bits ≡ true) ↔ (((d ≡ 75) × (n ≡ 1)) ⊎ Above mask d))
      one (has_bit-InTable mask d resolution_bits)

-- A resolution is listed exactly when it is one of the ten that the scanner can report, and the bit
-- of this resolution is set in the reported mask.
pub resolutions_lem :
    (c : Capabilities) (d : ℕ) → (one_of d (resolutions c) ≡ true) ↔ Reports c.resolution_mask d
unfolding resolutions
resolutions_lem c d =
    let same = one_of-reported c.resolution_mask d resolution_bits in
    (
      λ e. (has_bit-Reports c.resolution_mask d).0 (sym same ∙ e),
      λ h. same ∙ (has_bit-Reports c.resolution_mask d).1 h,
    )
