-- ===== src/Scan/Reply/Check.antt =====
-- The CHECK states that count as busy.
use workcentre_3119_modern_d.Prelude.{
  ◌↔◌, ◌⊎◌, ℕ, zero, suc, ◌+◌, ◌≤◌, ◌<◌, ◌≡◌, refl, Bool, true, false, not, ◌&&◌, List, [], ◌∷◌,
  arith, one_of, if◌then◌else◌, length, All,
}
use workcentre_3119_modern_d.Prelude.Bytes.{IsByte, byte_at, be16_at, be16_at-lt}
use workcentre_3119_modern_d.Errors.{ok}
use workcentre_3119_modern_d.Scan.Reply.{good, busy, check_busy, response_status}

abbrev pub busy_states : List ℕ
busy_states = 0x080 ∷ 0x081 ∷ 0x400 ∷ 0x401 ∷ 0x480 ∷ 0x481 ∷ []

same : Bool → Bool → Bool
same true b = b
same false b = not b

every_state : (ℕ → Bool) → ℕ → Bool
every_state test zero = true
every_state test (suc count) = every_state test count && test count

table : every_state (λ x. same (check_busy x) (one_of x busy_states)) 65536 ≡ true
unfolding every_state same check_busy
table = refl

every_state_holds :
    (test : ℕ → Bool) (state count : ℕ)
    → state < count
    → every_state test count ≡ true
    → test state ≡ true
unfolding every_state
every_state_holds test state (suc count) small holds =
    ground (arith, every_state_holds test state count)
every_state_holds test state zero small holds = absurd (omega arith)

same→eq : (a b : Bool) → same a b ≡ true → a ≡ b
unfolding same
same→eq a b h = ground arith

-- Of the 65536 CHECK states exactly six mean busy.
check_busy_lem : (state : ℕ) → state < 65536 → check_busy state ≡ one_of state busy_states
check_busy_lem state h = same→eq _ _ (every_state_holds _ state 65536 h table)

-- A reply whose header and length agree.
abbrev pub IsFramed : List ℕ → Type 0
IsFramed b = (32 ≤ length b) × (byte_at b 0 ≡ 0xa8) × (byte_at b 2 + 3 ≡ length b)

abbrev pub state_of : List ℕ → Bool → ℕ
state_of b read = be16_at b (if read then 12 else 4)

pub good_iff :
    (b : List ℕ) (read : Bool)
    → (response_status b read ≡ ok good) ↔ (IsFramed b × (byte_at b 1 ≡ 0))
unfolding response_status
good_iff b read = (λ h. ground arith, λ h. ground arith)

busy_iff_check :
    (b : List ℕ) (read : Bool)
    → (response_status b read ≡ ok busy) ↔ (
        IsFramed b
        × ((byte_at b 1 ≡ 8) ⊎ ((byte_at b 1 ≡ 2) × (check_busy (state_of b read) ≡ true))))
unfolding response_status
busy_iff_check b read = (λ q. ground arith, λ q. ground arith)

-- A reply is busy exactly when it is framed, and its status is 8, or it is CHECK with one of the
-- six busy states, read at offset 12 for READ and 4 for other commands.
pub busy_iff :
    (b : List ℕ) (read : Bool)
    → All IsByte b
    → (response_status b read ≡ ok busy) ↔ (
        IsFramed b
        × ((byte_at b 1 ≡ 8) ⊎ ((byte_at b 1 ≡ 2) × (one_of (state_of b read) busy_states ≡ true))))
busy_iff b read h =
    rw (← check_busy_lem (state_of b read) (be16_at-lt b _ h)) (busy_iff_check b read)
