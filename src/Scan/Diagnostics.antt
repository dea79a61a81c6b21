-- ===== src/Scan/Diagnostics.antt =====
-- src/scan.rs: `ScanDiagnostics`, `ScanTuning` and their checks. Durations are in nanoseconds. The
-- timing profile is not modelled.
pub mod Limits
use workcentre_3119_modern_d.Prelude.{
  ℕ, ◌+◌, ◌-◌, ◌*◌, ◌%◌, ◌^◌, Bool, true, false, not, ◌&&◌, ◌||◌, List, [], ◌∷◌, Option, none, some,
  ltb, leb, ◌==◌, one_of, if◌then◌else◌, get_elem?, min,
}
use workcentre_3119_modern_d.Errors.{
  ScanStage, Context, IoError, diagnostic, kind, Result, ok, err, refuse, ◌>>◌, invalid_input,
}

abbrev pub millisecond : ℕ
millisecond = 1_000_000

abbrev pub second : ℕ
second = 1000 * millisecond

pub record ScanTuning : Type 0 where
  pub read_poll_interval : ℕ
  pub read_buffer_bytes : ℕ

abbrev pub default_tuning : ScanTuning
default_tuning = record { read_poll_interval = 100 * millisecond; read_buffer_bytes = 65536 }

-- `From<Duration>`
abbrev pub tuning_of : ℕ → ScanTuning
tuning_of interval = record default_tuning { read_poll_interval = interval }

unfoldable pub validate_poll_interval : ℕ → Result (Unit {0})
validate_poll_interval interval =
    refuse (not (leb (1 * millisecond) interval && leb interval (1000 * millisecond))) invalid_input

unfoldable pub validate : ScanTuning → Result (Unit {0})
unfolding validate_poll_interval
validate t = do
  validate_poll_interval t.read_poll_interval
  refuse
      (not (leb 1024 t.read_buffer_bytes && leb t.read_buffer_bytes (1024 * 1024))
        || not (t.read_buffer_bytes % 1024 == 0))
      invalid_input

unfoldable pub validate_read_buffer_limit : ℕ → ℕ → Result (Unit {0})
validate_read_buffer_limit requested limit = refuse (ltb limit requested) invalid_input

unfoldable pub busy_poll_interval : ℕ → ℕ → ℕ
busy_poll_interval opcode read_interval =
    if opcode == 0x28 then read_interval else 100 * millisecond

pub record Diagnostics : Type 0 where
  pub context : Context
  pub open context use *
  pub read_poll_interval : ℕ
  pub read_buffer_bytes : ℕ

-- `ScanDiagnostics::new`
abbrev pub new : Diagnostics
new = record {
  context = record {
    stage = ScanStage.inquiry;
    completed_bands = 0;
    pixel_bytes = 0;
    opcode = none;
    last_busy_status = none;
    last_busy_state = none;
    busy_replies = 0;
  };
  read_poll_interval = 100 * millisecond;
  read_buffer_bytes = 65536;
}

abbrev pub saturating_inc : ℕ → ℕ
saturating_inc n = min (n + 1) (2 ^ 32 - 1)

unfoldable pub set_stage : Diagnostics → ScanStage → Diagnostics
set_stage d stage = record d { context = record (d.context) { stage = stage } }

unfoldable pub record_band : Diagnostics → ℕ → ℕ → Diagnostics
record_band d bands bytes = record d {
  context = record (d.context) { completed_bands = bands; pixel_bytes = bytes };
}

unfoldable pub set_opcode : Diagnostics → ℕ → Diagnostics
set_opcode d opcode = record d {
  context = record (d.context) {
    opcode = some opcode;
    busy_replies = 0;
    last_busy_status = none;
    last_busy_state = none;
  };
}

abbrev pub pair_be16 : Option ℕ → Option ℕ → Option ℕ
pair_be16 (some high) (some low) = some (high * 256 + low)
pair_be16 _ _ = none

abbrev pub is_check_message : Option ℕ → Bool
is_check_message none = false
is_check_message (some m) = m == 0x20

abbrev pub busy_state : List ℕ → Bool → ℕ → Option ℕ
busy_state reply read status =
    let offset : ℕ = if read then 12 else 4 in
    if status == 0x02 && is_check_message (get_elem? reply 3)
    then pair_be16 (get_elem? reply offset) (get_elem? reply (offset + 1))
    else none

unfoldable pub record_busy_reply : Diagnostics → ℕ → List ℕ → Bool → Diagnostics
record_busy_reply d opcode reply read = elim (get_elem? reply 1) [
  | none ↦ d
  | some status ↦
      if one_of status (0x02 ∷ 0x08 ∷ [])
      then (record d {
        context = record (d.context) {
          opcode = some opcode;
          busy_replies = saturating_inc d.busy_replies;
          last_busy_status = some status;
          last_busy_state = busy_state reply read status;
        };
      })
      else d
]

-- `ScanDiagnostics::error`: the kind stays, the original is kept below the context.
abbrev pub error : Diagnostics → IoError → IoError
error d e = diagnostic (kind e) d.context e
