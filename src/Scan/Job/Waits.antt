-- ===== src/Scan/Job/Waits.antt =====
-- Every exchange and wait of a job answers, with more fuel than the time that is left.
use workcentre_3119_modern_d.Prelude.{ℕ, suc, ◌+◌, ◌≤◌, ◌<◌, ap, Bool, true, false, List, arith}
use workcentre_3119_modern_d.Errors.{ScanStage}
use workcentre_3119_modern_d.Protocol.{Capabilities}
use workcentre_3119_modern_d.Scan.Reply.{response_status}
use workcentre_3119_modern_d.Scan.Diagnostics.{Diagnostics, set_stage, set_opcode, error}
use workcentre_3119_modern_d.Scan.Machine.{
  Machine, ImageBand, Session, Answer, done, failed, stuck, ClockLaws, on_error, lift,
}
use workcentre_3119_modern_d.Scan.Lives.{
  Lives, Lives-refl, Answers, and_then-Answers, caught-Answers, on_error-Answers,
}
use workcentre_3119_modern_d.Scan.Exchange.{plain_command, exchange, checkpoint, ready_with_attempt}
use workcentre_3119_modern_d.Scan.Exchange.Sync.{
  NotStuck, exchange-NotStuck, exchange-Keeps, exchange_later,
}
use workcentre_3119_modern_d.Scan.Exchange.Frame.{ready_with_attempt-Waited}
use workcentre_3119_modern_d.Scan.Exchange.Ready.{
  ready_with_attempt-NotStuck, ready_with_attempt_later,
}
use workcentre_3119_modern_d.Scan.Drain.Later.{checkpoint-Lives}
use workcentre_3119_modern_d.Scan.Machine.{BufferLaws}
use workcentre_3119_modern_d.Scan.Job.{Caller, start_scan, inquire, prepare_request, reserve}

-- The caller's closures let the clock run on.
pub record CallerLaws {W : Type 0} (c : Caller W) (time : W → ℕ) : Type 0 where
  pub prepare_later : (w : W) (raw : List ℕ) → time w ≤ time (c.prepare w raw).1
  pub sink_later : (w : W) (image : ImageBand) → time w ≤ time (c.sink w image).1

pub NotStuck-Answers :
    {W A : Type 0} (time : W → ℕ) (s : Session W) (r : Answer A × Session W)
    → NotStuck r.0
    → Lives time s r.1
    → Answers time s r
NotStuck-Answers time s (done a, t) n l = l
NotStuck-Answers time s (failed e, t) n l = l
NotStuck-Answers time s (stuck, t) n l = n

module _ {W : Type 0} (m : Machine W) (c : Caller W) (time : W → ℕ) (laws : ClockLaws m time)
    (buffers : BufferLaws m) (calls : CallerLaws c time) (k deadline : ℕ) where
  -- The fuel lasts longer than the time that is left.
  abbrev pub Enough : Session W → Type 0
  Enough s = (0 < s.diagnostics.read_poll_interval) × (deadline < time s.world + k)

  pub Enough-later : (s t : Session W) → Lives time s t → Enough s → Enough t
  Enough-later s t (later, same) (h, lt) = (rw same h, omega arith)

  pub wait-Answers :
      (opcode : ℕ) (cancel : Bool) (s : Session W)
      → Enough s
      → Answers time s (ready_with_attempt m (suc k) opcode cancel deadline s)
  wait-Answers opcode cancel s (h, lt) =
      NotStuck-Answers time s (ready_with_attempt m (suc k) opcode cancel deadline s)
        (ready_with_attempt-NotStuck m time laws k opcode cancel deadline s h lt)
        (
          ready_with_attempt_later m time laws (suc k) opcode cancel deadline s,
          (ready_with_attempt-Waited m opcode cancel deadline (suc k) s).leaves.interval,
        )

  pub exchange-Answers : (command : List ℕ) (s : Session W) → Answers time s (exchange m command s)
  exchange-Answers command s = NotStuck-Answers time s _ (exchange-NotStuck m command s) (
    exchange_later m command s time laws,
    ap (λ (d : Diagnostics). d.read_poll_interval) (exchange-Keeps m command s).diagnostics,
  )

  pub checkpoint-Answers : (s : Session W) → Answers time s (checkpoint m deadline s)
  unfolding checkpoint
  checkpoint-Answers s = ground (arith, checkpoint-Lives m time laws deadline s)

  abbrev pub inquiring : Session W → Session W
  inquiring s =
      record (checkpoint m deadline (record s {
        diagnostics = set_opcode (set_stage s.diagnostics ScanStage.inquiry) 0x12;
      })).1 { synchronized = true }

  pub inquire-Answers : (s : Session W) → Answers time s (inquire m c (suc k) deadline s)
  unfolding inquire set_stage set_opcode
  inquire-Answers s = ground (
    arith,
    checkpoint-Answers
        (record s { diagnostics = set_opcode (set_stage s.diagnostics ScanStage.inquiry) 0x12 }),
    exchange-Answers (plain_command 0x12) (inquiring s),
  )

  pub prepare-Answers :
      (raw : List ℕ) (caps : Capabilities) (s : Session W)
      → Answers time s (prepare_request m c (suc k) deadline raw caps s)
  unfolding prepare_request set_stage set_opcode
  prepare-Answers raw caps s = ground (arith, calls.prepare_later s.world raw)

  pub reserve-Answers : (s : Session W) → Enough s → Answers time s (reserve m c (suc k) deadline s)
  unfolding reserve set_stage
  reserve-Answers s h =
      and_then-Answers time s _ _ (caught-Answers time s _ (wait-Answers 0x16 true _ h))
        λ r t q l. ground arith

  abbrev pub at : ScanStage → Session W → Session W
  at stage s = record s { diagnostics = set_stage s.diagnostics stage }

  pub status-Answers :
      (b : List ℕ) (s : Session W)
      → Answers time s (on_error (lift (response_status b false) s) (λ s e. error s.diagnostics e))
  status-Answers b s = ground arith

  pub start_scan-Answers :
      (window : List ℕ) (s : Session W)
      → Enough s
      → Answers time s (start_scan m c (suc k) deadline window s)
  unfolding start_scan set_stage set_opcode
  start_scan-Answers window s h =
      and_then-Answers time s _ _ (on_error-Answers time s _ _ (checkpoint-Answers _)) λ x t q l.
        and_then-Answers time t _ _ (on_error-Answers time t _ _ (exchange-Answers window t))
          λ b u q2 l2. and_then-Answers time u _ _ (status-Answers b u) λ status v q3 l3.
            and_then-Answers time v _ _
              (on_error-Answers time v _ _ (
                wait-Answers 0x31 true (at ScanStage.start v)
                  (Enough-later u v l3 (Enough-later t u l2 (Enough-later s t l h)))))
              λ started w q4 l4. Lives-refl time w
