-- ===== src/Prelude/Bits.antt =====
-- `|` of disjoint fields and `&` with one bit, as arithmetic. Both are proved of the recursion on
-- digits itself, for any count of digits that is large enough.
use Prim.Native.Nat.{bit_or, bit_or-bitwise, bit_and, bit_and-bitwise, digits, max, min}
use Prim.Native.Nat.{◌^◌, ◌%◌, ◌/◌, ◌*◌, ◌+◌, ◌<◌, ◌≤◌, suc, zero, ℕ}
use native.Mathlib.Nat.{le_refl, pow-suc, div-div-eq-div-mul}
use native.Mathlib.Omega.{arith}
use mathlib.Core.Path.{◌≡◌, refl, sym, ap, ◌∙◌}

abbrev or_digits : ℕ → ℕ → ℕ → ℕ
or_digits = digits (λ rest. rest) max

abbrev and_digits : ℕ → ℕ → ℕ → ℕ
and_digits = digits (λ rest. 0) min

or_nothing : (count v : ℕ) → v ≤ count → or_digits count v 0 ≡ v
or_nothing zero v enough = omega arith
or_nothing (suc count) zero enough = refl
or_nothing (suc count) (suc v) enough = omega (arith, or_nothing count (suc v / 2) (omega arith))

and_nothing : (count v : ℕ) → and_digits count v 0 ≡ 0
and_nothing zero v = refl
and_nothing (suc count) zero = refl
and_nothing (suc count) (suc v) = omega (arith, and_nothing count (suc v / 2))

twice_field : (width field : ℕ) → field * 2 ^ suc width ≡ field * 2 ^ width + field * 2 ^ width
twice_field width field =
    let doubled = pow-suc 2 width in ap (λ (t : ℕ). field * t) doubled ∙ omega arith

half_div : (v width : ℕ) → v / 2 ^ suc width ≡ v / 2 / 2 ^ width
half_div v width =
    let doubled : 2 ^ suc width ≡ 2 * 2 ^ width = omega (arith, pow-suc 2 width) in
    ap (λ (t : ℕ). v / t) doubled ∙ sym (div-div-eq-div-mul v 2 (2 ^ width))

fields_as_sum :
    (k count v q low : ℕ)
    → v ≡ q * 2 ^ k
    → v ≤ count
    → low < 2 ^ k
    → or_digits count v low ≡ v + low
fields_as_sum zero count v q low high enough small =
    let none_low : low ≡ 0 = omega arith in
    ap (λ (t : ℕ). or_digits count v t) none_low ∙ or_nothing count v enough ∙ omega arith
fields_as_sum (suc k) zero zero q low high enough small = omega arith
fields_as_sum (suc k) zero (suc v) q low high enough small = absurd (omega arith)
fields_as_sum (suc k) (suc count) zero q low high enough small = omega arith
fields_as_sum (suc k) (suc count) (suc v) q low high enough small =
    let double = twice_field k q in
    ground (
      arith,
      fields_as_sum k count (suc v / 2) q (low / 2) (omega arith) (omega arith)
          (omega (arith, pow-suc 2 k)),
    )

-- A number `|` a smaller field below its lowest bit is their sum.
pub bit_or_fields : (k q r : ℕ) → r < 2 ^ k → bit_or (q * 2 ^ k) r ≡ q * 2 ^ k + r
bit_or_fields k q r small =
    bit_or-bitwise (q * 2 ^ k) r
    ∙ fields_as_sum k (q * 2 ^ k) (q * 2 ^ k) q r refl (le_refl _) small

zero_div : (k : ℕ) → 0 / 2 ^ k ≡ 0
zero_div zero = refl
zero_div (suc k) = half_div 0 k ∙ zero_div k

no_digit : (k : ℕ) → 0 ≡ 0 / 2 ^ k % 2 * 2 ^ k
no_digit k = rw (zero_div k) (omega arith)

one_digit : (k count v : ℕ) → v ≤ count → and_digits count v (2 ^ k) ≡ v / 2 ^ k % 2 * 2 ^ k
one_digit zero zero v enough = omega arith
one_digit zero (suc count) zero enough = refl
one_digit zero (suc count) (suc v) enough = omega (arith, and_nothing count (suc v / 2))
one_digit (suc k) zero v enough =
    let none_left : v ≡ 0 = omega arith in
    no_digit (suc k) ∙ ap (λ (t : ℕ). t / 2 ^ suc k % 2 * 2 ^ suc k) (sym none_left)
one_digit (suc k) (suc count) zero enough = no_digit (suc k)
one_digit (suc k) (suc count) (suc v) enough =
    let deeper = one_digit k count (suc v / 2) (omega arith) in
    let halved : 2 ^ suc k / 2 ≡ 2 ^ k = omega (arith, pow-suc 2 k) in
    let above = ap (λ (t : ℕ). and_digits count (suc v / 2) t) halved in
    ground
      (arith, above, deeper, pow-suc 2 k, half_div (suc v) k, twice_field k (suc v / 2 / 2 ^ k % 2))

-- `a & (1 << k)` is the bit of weight `2 ^ k`.
pub bit_and_bit : (k a : ℕ) → bit_and a (2 ^ k) ≡ a / 2 ^ k % 2 * 2 ^ k
bit_and_bit k a = bit_and-bitwise a (2 ^ k) ∙ one_digit k a a (le_refl _)
