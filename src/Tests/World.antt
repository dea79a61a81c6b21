-- ===== src/Tests/World.antt =====
-- A world whose scanner answers from a list of replies, with a clock that only `sleep` moves.
use workcentre_3119_modern_d.Prelude.{
  ℕ, ◌+◌, ◌-◌, ◌≤◌, ◌≡◌, true, false, List, [], ◌∷◌, ◌++◌, arith, length, take, replicate,
  length-append, length-take, length-replicate, none,
}
use workcentre_3119_modern_d.Errors.{Result, ok, err, text, timed_out, ScanStage}
use workcentre_3119_modern_d.Protocol.{Capabilities}
use workcentre_3119_modern_d.Scan.Machine.{Machine, Session, ClockLaws, BufferLaws}
use workcentre_3119_modern_d.Scan.Diagnostics.{Diagnostics}

pub record Scanner : Type 0 where
  pub clock : ℕ
  pub replies : List (List ℕ)

abbrev pub filled : ℕ → List ℕ → List ℕ
filled n r = take n r ++ replicate (n - length r) 0

abbrev answer : ℕ → ℕ → List (List ℕ) → Result (ℕ × List ℕ) × Scanner
answer n t [] = (err (text timed_out), record { clock = t; replies = [] })
answer n t (r ∷ rs) = (ok (length r, filled n r), record { clock = t; replies = rs })

abbrev pub machine : Machine Scanner
machine = record {
  write = λ w c. (ok tt, w);
  read = λ w n. answer n w.clock w.replies;
  now = λ w. (w.clock, w);
  cancelled = λ w. (false, w);
  sleep = λ w d. record w { clock = w.clock + d };
}

length-filled : (n : ℕ) (r : List ℕ) → length (filled n r) ≡ n
length-filled n r = omega (
  arith,
  length-append (take n r) (replicate (n - length r) 0),
  length-take n r,
  length-replicate {A = ℕ} (n - length r) 0,
)

answer-length :
    (n t : ℕ) (rs : List (List ℕ)) (count : ℕ) (buffer : List ℕ)
    → (answer n t rs).0 ≡ ok (count, buffer)
    → length buffer ≡ n
answer-length n t [] count buffer e = ground arith
answer-length n t (r ∷ rs) count buffer e = ground (arith, length-filled n r)

pub machine-buffers : BufferLaws machine
machine-buffers = record {
  keeps_length = λ w n count buffer e. answer-length n w.clock w.replies count buffer e;
}

answer-clock : (n t : ℕ) (rs : List (List ℕ)) → t ≤ (answer n t rs).1.clock
answer-clock n t [] = omega arith
answer-clock n t (r ∷ rs) = omega arith

pub machine-clock : ClockLaws machine (λ w. w.clock)
machine-clock = record {
  write_later = λ w c. omega arith;
  read_later = λ w n. answer-clock n w.clock w.replies;
  now_reads = λ w. (omega arith, omega arith);
  cancelled_later = λ w. omega arith;
  sleep_lasts = λ w d. omega arith;
}

abbrev pub idle : Diagnostics
idle = record {
  context = record {
    stage = ScanStage.inquiry;
    completed_bands = 0;
    pixel_bytes = 0;
    opcode = none;
    last_busy_status = none;
    last_busy_state = none;
    busy_replies = 0;
  };
  read_poll_interval = 100000000;
  read_buffer_bytes = 1024;
}

-- A fresh session with a scanner that will give these replies.
abbrev pub fresh : List (List ℕ) → Session Scanner
fresh rs = record {
  world = record { clock = 0; replies = rs };
  synchronized = true;
  attempted = false;
  deferred_failed = false;
  diagnostics = idle;
  sent = [];
  delivered = [];
}

-- A reply with the given status and message and 28 data bytes.
abbrev pub reply : ℕ → ℕ → List ℕ → List ℕ
reply status message fields = take 32 (0xa8 ∷ status ∷ 29 ∷ message ∷ (fields ++ replicate 28 0))

abbrev pub good_reply : List ℕ
good_reply = reply 0 0 []

abbrev pub capabilities : Capabilities
capabilities = record {
  identity = 0x58 ∷ 0x65 ∷ 0x72 ∷ 0x6f ∷ 0x78 ∷ [];
  resolution_mask = 0xffff;
  mode_mask = 0x28;
  width_units = 10200;
  length_units = 14040;
  flatbed_length_units = 14040;
  line_order = 1;
  compression_mask = 1;
}
