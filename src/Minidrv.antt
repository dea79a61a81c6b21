-- ===== src/Minidrv.antt =====
-- src/com_server/minidrv/properties: the error codes of the minidriver's callbacks, as values.
pub mod Geometry
pub mod Axis
pub mod ItemSize
pub mod Catalog
pub mod Validation
use workcentre_3119_modern_d.Prelude.{ℕ, ◌^◌, Bool, true, false, ◌≡◌, ◌⊎◌, inl, inr, refl, leb}
use workcentre_3119_modern_d.Prelude.Int.{ℤ, pos, negsuc}

pub data ErrorCode : Type 0 where
  e_invalidarg e_unexpected : ErrorCode

-- `Result<T, i32>`.
pub data Hresult {ℓ} (A : Type ℓ) : Type ℓ where
  success : A → Hresult A
  failure : ErrorCode → Hresult A

infixl 5 ◌>>=◌ ◌>>◌
abbrev pub ◌>>=◌ {ℓ κ} : {X : Type ℓ} {Y : Type κ} → Hresult X → (X → Hresult Y) → Hresult Y
failure code >>= next = failure code
success value >>= next = next value

-- `if bad { return Err(E_INVALIDARG) }`.
abbrev pub refuse : Bool → Hresult (Unit {0})
refuse true = failure e_invalidarg
refuse false = success tt

abbrev pub ◌>>◌ {κ} : {Y : Type κ} → Hresult (Unit {0}) → Hresult Y → Hresult Y
check >> next = check >>= λ passed. next

-- `i32::try_from` of an unsigned value, and an `i32` that must not be negative.
abbrev pub to_i32 : ℕ → Hresult ℕ
to_i32 n = refuse (leb (2 ^ 31) n) >> success n

abbrev pub natural : ℤ → Hresult ℕ
natural (pos n) = success n
natural (negsuc n) = failure e_invalidarg

pub Hresult-cases {ℓ} :
    {A : Type ℓ} (r : Hresult A) → ((a : A) × (r ≡ success a)) ⊎ ((e : ErrorCode) × (r ≡ failure e))
Hresult-cases (success a) = inl (a, refl)
Hresult-cases (failure e) = inr (e, refl)

-- What a sequence that succeeded went through.
pub bind_ok {ℓ κ} :
    {X : Type ℓ} {Y : Type κ} (r : Hresult X) (f : X → Hresult Y) (y : Y)
    → (r >>= f) ≡ success y
    → (x : X) × (r ≡ success x) × (f x ≡ success y)
bind_ok (success x) f y e = (x, refl, e)
bind_ok (failure c) f y e = absurd (cc e)

pub refuse_ok {κ} :
    {Y : Type κ} (bad : Bool) (k : Hresult Y) (y : Y)
    → (refuse bad >> k) ≡ success y
    → (bad ≡ false) × (k ≡ success y)
refuse_ok true k y e = absurd (cc e)
refuse_ok false k y e = (refl, e)

pub then_ok {κ} :
    {Y : Type κ} (r : Hresult (Unit {0})) (k : Hresult Y) (y : Y)
    → (r >> k) ≡ success y
    → (r ≡ success tt) × (k ≡ success y)
then_ok (success tt) k y e = (refl, e)
then_ok (failure c) k y e = absurd (cc e)
