-- ===== src/Errors.antt =====
-- `std::io::Error` as src/scan.rs uses it: a kind and a payload. The payload is a text, the
-- `HostCancelled` mark, or a `DiagnosticError` with its context and its source. The wording of
-- messages is not modelled; the values that a diagnostic message prints are.
use workcentre_3119_modern_d.Prelude.{ℕ, Option, Bool, true, false, ◌≡◌, refl, ◌⊎◌, inl, inr}

-- The kinds that the driver creates; `unnamed` stands for those that the system reports.
pub data ErrorKind : Type 0 where
  invalid_data invalid_input interrupted timed_out other : ErrorKind
  write_zero not_connected not_found unsupported : ErrorKind
  storage_full permission_denied : ErrorKind
  unnamed : ℕ → ErrorKind

pub data ScanStage : Type 0 where
  inquiry prepare reserve set_window start read_metadata read_image decode consumer cleanup :
      ScanStage

-- What `ScanDiagnostics::error` prints, but for the elapsed time.
pub record Context : Type 0 where
  pub stage : ScanStage
  pub completed_bands : ℕ
  pub pixel_bytes : ℕ
  pub opcode : Option ℕ
  pub last_busy_status : Option ℕ
  pub last_busy_state : Option ℕ
  pub busy_replies : ℕ

pub data IoError : Type 0 where
  text : ErrorKind → IoError
  host_cancelled : ErrorKind → IoError
  diagnostic : ErrorKind → Context → IoError → IoError

abbrev pub kind : IoError → ErrorKind
kind (text k) = k
kind (host_cancelled k) = k
kind (diagnostic k c e) = k

unfoldable pub is_host_cancelled : IoError → Bool
is_host_cancelled (text k) = false
is_host_cancelled (host_cancelled k) = true
is_host_cancelled (diagnostic k c original) = is_host_cancelled original

-- `io::Error::new(e.kind(), format!(… e …))`: the kind stays, the payload becomes a text.
abbrev pub reworded : IoError → IoError
reworded e = text (kind e)

pub data Result {ℓ} (A : Type ℓ) : Type ℓ where
  ok : A → Result A
  err : IoError → Result A

-- The operator `?` of the code.
infixl 5 ◌>>=◌
abbrev pub ◌>>=◌ {ℓ κ} : {X : Type ℓ} {Y : Type κ} → Result X → (X → Result Y) → Result Y
err refusal >>= next = err refusal
ok value >>= next = next value

-- `if bad { return Err(…) }`.
abbrev pub refuse : Bool → ErrorKind → Result (Unit {0})
refuse true k = err (text k)
refuse false k = ok tt

infixl 5 ◌>>◌
abbrev pub ◌>>◌ {κ} : {Y : Type κ} → Result (Unit {0}) → Result Y → Result Y
check >> next = check >>= λ passed. next

abbrev pub is_ok {ℓ} : {A : Type ℓ} → Result A → Bool
is_ok (ok a) = true
is_ok (err e) = false

abbrev pub map_err {ℓ} : {A : Type ℓ} → (IoError → IoError) → Result A → Result A
map_err f (ok a) = ok a
map_err f (err e) = err (f e)

pub Result-cases {ℓ} :
    {A : Type ℓ} (r : Result A) → ((a : A) × (r ≡ ok a)) ⊎ ((e : IoError) × (r ≡ err e))
Result-cases (ok a) = inl (a, refl)
Result-cases (err e) = inr (e, refl)
