-- ===== src/Scan/Exchange/Ready.antt =====
-- Waiting for a command: it ends at the deadline at the latest, answers Good replies only, and a
-- command that was never attempted leaves the stream untouched.
use workcentre_3119_modern_d.Prelude.{
  ℕ, zero, suc, ◌+◌, ◌≤◌, ◌<◌, ◌≡◌, ◌∙◌, inl, inr, Bool, true, false, List, arith, ◌==◌,
}
use workcentre_3119_modern_d.Scan.Reply.{ReplyStatus, good, busy}
use workcentre_3119_modern_d.Scan.Diagnostics.{busy_poll_interval, record_busy_reply, set_opcode}
use workcentre_3119_modern_d.Scan.Machine.{Machine, Session, done, Answer-cases, ClockLaws}
use workcentre_3119_modern_d.Scan.Exchange.{
  plain_command, checkpoint, wait_check, try_command, pause, ready_loop, ready_with_attempt,
}
use workcentre_3119_modern_d.Scan.Exchange.Sync.{NotStuck, exchange-NotStuck, exchange_later}
use workcentre_3119_modern_d.Scan.Exchange.Frame.{
  again, try_command-Leaves, pause_keeps, ready_loop_step,
}

module _ {W : Type 0} (m : Machine W) (time : W → ℕ) (laws : ClockLaws m time) where
  -- The check passes only before the deadline.
  wait_check_early :
      (cancel : Bool) (deadline : ℕ) (s : Session W)
      → (wait_check m cancel deadline s).0 ≡ done tt
      → time s.world < deadline
  unfolding wait_check checkpoint
  wait_check_early false deadline s e = ground (arith, laws.now_reads s.world)
  wait_check_early true deadline s e =
      ground (arith, laws.cancelled_later s.world, laws.now_reads (m.cancelled s.world).1)

  wait_check_later :
      (cancel : Bool) (deadline : ℕ) (s : Session W)
      → time s.world ≤ time (wait_check m cancel deadline s).1.world
  unfolding wait_check checkpoint
  wait_check_later false deadline s = ground (arith, laws.now_reads s.world)
  wait_check_later true deadline s =
      ground (arith, laws.cancelled_later s.world, laws.now_reads (m.cancelled s.world).1)

  wait_check-NotStuck :
      (cancel : Bool) (deadline : ℕ) (s : Session W) → NotStuck (wait_check m cancel deadline s).0
  unfolding wait_check checkpoint
  wait_check-NotStuck false deadline s = ground arith
  wait_check-NotStuck true deadline s = ground arith

  try_command_early :
      (opcode : ℕ) (cancel : Bool) (deadline : ℕ) (s : Session W) (a : ReplyStatus × List ℕ)
      → (try_command m opcode cancel deadline s).0 ≡ done a
      → time s.world < deadline
  unfolding try_command
  try_command_early opcode cancel deadline s a e =
      ground (arith, wait_check_early cancel deadline s)

  try_command_later :
      (opcode : ℕ) (cancel : Bool) (deadline : ℕ) (s : Session W)
      → time s.world ≤ time (try_command m opcode cancel deadline s).1.world
  unfolding try_command
  try_command_later opcode cancel deadline s = ground (
    arith,
    wait_check_later cancel deadline s,
    exchange_later m (plain_command opcode)
        (record (wait_check m cancel deadline s).1 { attempted = true }) time laws,
  )

  try_command-NotStuck :
      (opcode : ℕ) (cancel : Bool) (deadline : ℕ) (s : Session W)
      → NotStuck (try_command m opcode cancel deadline s).0
  unfolding try_command
  try_command-NotStuck opcode cancel deadline s = ground (
    arith,
    wait_check-NotStuck cancel deadline s,
    exchange-NotStuck m (plain_command opcode)
        (record (wait_check m cancel deadline s).1 { attempted = true }),
  )

  pause_later :
      (opcode : ℕ) (b : List ℕ) (s : Session W)
      → 0 < s.diagnostics.read_poll_interval
      → time s.world < time (pause m opcode b s).1.world
  unfolding pause busy_poll_interval record_busy_reply
  pause_later opcode b s h = ground (
    arith,
    laws.sleep_lasts s.world s.diagnostics.read_poll_interval,
    laws.sleep_lasts s.world 100_000_000,
  )

  again-time :
      (opcode : ℕ) (cancel : Bool) (deadline : ℕ) (b : List ℕ) (s : Session W)
      → 0 < s.diagnostics.read_poll_interval
      → time s.world < time (again m opcode cancel deadline b s).world
  again-time opcode cancel deadline b s h =
      let t = (try_command m opcode cancel deadline s).1 in
      omega (
        arith,
        try_command_later opcode cancel deadline s,
        pause_later opcode b t (rw ((try_command-Leaves m opcode cancel deadline s).interval) h),
      )

  again-interval :
      (opcode : ℕ) (cancel : Bool) (deadline : ℕ) (b : List ℕ) (s : Session W)
      → (again m opcode cancel deadline b s).diagnostics.read_poll_interval
        ≡ s.diagnostics.read_poll_interval
  again-interval opcode cancel deadline b s =
      let t = (try_command m opcode cancel deadline s).1 in
      (pause_keeps m opcode cancel deadline b t).0.interval
      ∙ (try_command-Leaves m opcode cancel deadline s).interval

  -- Every round waits, so the rounds left are at most the time left.
  pub ready_loop-NotStuck :
      (k opcode : ℕ) (cancel : Bool) (deadline : ℕ) (s : Session W)
      → 0 < s.diagnostics.read_poll_interval
      → deadline < time s.world + k
      → NotStuck (ready_loop m (suc k) opcode cancel deadline s).0
  unfolding ready_loop
  ready_loop-NotStuck zero opcode cancel deadline s h lt =
      elim (Answer-cases (try_command m opcode cancel deadline s).0) [
        | inl (a, q) ↦ absurd (omega (arith, try_command_early opcode cancel deadline s a q))
        | inr (inl (x, q)) ↦ ground arith
        | inr (inr q) ↦ ground (arith, try_command-NotStuck opcode cancel deadline s)
      ]
  ready_loop-NotStuck (suc k) opcode cancel deadline s h lt =
      elim (Answer-cases (try_command m opcode cancel deadline s).0) [
        | inl ((good, b), q) ↦ ground arith
        | inl ((busy, b), q) ↦ rw (ready_loop_step m opcode cancel deadline (suc k) s b q) (
            ready_loop-NotStuck k opcode cancel deadline (again m opcode cancel deadline b s)
              (rw (again-interval opcode cancel deadline b s) h)
              (omega (arith, again-time opcode cancel deadline b s h)))
        | inr (inl (x, q)) ↦ ground arith
        | inr (inr q) ↦ ground (arith, try_command-NotStuck opcode cancel deadline s)
      ]

  -- Under the clock's laws and with a positive poll interval, a wait gives an answer if its fuel is
  -- larger than the number of nanoseconds left until the deadline, and one more.
  pub ready_with_attempt-NotStuck :
      (k opcode : ℕ) (cancel : Bool) (deadline : ℕ) (s : Session W)
      → 0 < s.diagnostics.read_poll_interval
      → deadline < time s.world + k
      → NotStuck (ready_with_attempt m (suc k) opcode cancel deadline s).0
  unfolding ready_with_attempt set_opcode
  ready_with_attempt-NotStuck k opcode cancel deadline s h lt =
      ready_loop-NotStuck k opcode cancel deadline
        (record s { attempted = false; diagnostics = set_opcode s.diagnostics opcode }) h lt

  pause_waits :
      (opcode : ℕ) (b : List ℕ) (s : Session W) → time s.world ≤ time (pause m opcode b s).1.world
  unfolding pause
  pause_waits opcode b s = ground (
    arith,
    laws.sleep_lasts s.world (
        busy_poll_interval opcode
          (record_busy_reply s.diagnostics opcode b (opcode == 0x28)).read_poll_interval),
  )

  ready_loop_later :
      (fuel opcode : ℕ) (cancel : Bool) (deadline : ℕ) (s : Session W)
      → time s.world ≤ time (ready_loop m fuel opcode cancel deadline s).1.world
  unfolding ready_loop
  ready_loop_later zero opcode cancel deadline s = omega arith
  ready_loop_later (suc fuel) opcode cancel deadline s =
      let t = (try_command m opcode cancel deadline s).1 in
      let l = try_command_later opcode cancel deadline s in
      elim (Answer-cases (try_command m opcode cancel deadline s).0) [
        | inl ((good, b), q) ↦ ground arith
        | inl ((busy, b), q) ↦ rw (ready_loop_step m opcode cancel deadline fuel s b q) (
            omega (
              arith,
              l,
              pause_waits opcode b t,
              ready_loop_later fuel opcode cancel deadline (again m opcode cancel deadline b s),
            ))
        | inr (inl (x, q)) ↦ ground arith
        | inr (inr q) ↦ ground arith
      ]

  pub ready_with_attempt_later :
      (fuel opcode : ℕ) (cancel : Bool) (deadline : ℕ) (s : Session W)
      → time s.world ≤ time (ready_with_attempt m fuel opcode cancel deadline s).1.world
  unfolding ready_with_attempt
  ready_with_attempt_later fuel opcode cancel deadline s =
      ready_loop_later fuel opcode cancel deadline
        (record s { attempted = false; diagnostics = set_opcode s.diagnostics opcode })
