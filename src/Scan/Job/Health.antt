-- ===== src/Scan/Job/Health.antt =====
-- A job that reports a ready session left a synchronized stream.
use workcentre_3119_modern_d.Prelude.{ℕ, ◌≡◌, inl, inr, Bool, true, false, not, List, arith}
use workcentre_3119_modern_d.Errors.{ScanStage, Result, ok, is_ok}
use workcentre_3119_modern_d.Protocol.{Capabilities}
use workcentre_3119_modern_d.Scan.Diagnostics.{set_stage, set_opcode}
use workcentre_3119_modern_d.Scan.Machine.{
  Machine, ScanSummary, Session, Answer, done, failed, stuck, Answer-cases,
}
use workcentre_3119_modern_d.Scan.Exchange.{exchange, ready_with_attempt, checkpoint, plain_command}
use workcentre_3119_modern_d.Scan.Exchange.Sync.{exchange-Keeps, exchange-synchronized}
use workcentre_3119_modern_d.Scan.Exchange.Frame.{Waited, ready_with_attempt-Waited}
use workcentre_3119_modern_d.Scan.Exchange.Cleanup.{finish_done, finish-Apart, finish-NotStuck}
use workcentre_3119_modern_d.Scan.Job.{
  Caller, Part, go, stop, ready, needs_reconnect, Report, inquire, prepare_request, reserve,
  conclude_job, combine, start_scan,
}

module _ {W : Type 0} (m : Machine W) (c : Caller W) (fuel deadline : ℕ) where
  -- A part that returned a ready session left the stream as certain as it found it.
  abbrev pub Sound : {A : Type 0} → Session W → Answer (Part A) → Session W → Type 0
  Sound s (done (stop e ready)) s' = s'.synchronized ≡ true
  Sound s (done (stop e needs_reconnect)) s' = Unit
  Sound s (done (go a)) s' =
      (s'.synchronized ≡ true)
      × (s'.delivered ≡ s.delivered)
      × (s'.deferred_failed ≡ s.deferred_failed)
  Sound s (failed e) s' = Unit
  Sound s stuck s' = Unit

  -- The state in which INQUIRY is sent.
  abbrev inquiring : Session W → Session W
  inquiring s =
      record (checkpoint m deadline (record s {
        diagnostics = set_opcode (set_stage s.diagnostics ScanStage.inquiry) 0x12;
      })).1 { synchronized = true }

  abbrev at : ScanStage → Session W → Session W
  at stage s = record s { diagnostics = set_stage s.diagnostics stage }

  waited :
      (opcode : ℕ) (cancel : Bool) (s : Session W)
      → Waited m opcode cancel deadline s
          (ready_with_attempt m fuel opcode cancel deadline s).0
          (ready_with_attempt m fuel opcode cancel deadline s).1
  waited opcode cancel s = ready_with_attempt-Waited m opcode cancel deadline fuel s

  pub inquire-Sound :
      (s : Session W)
      → s.synchronized ≡ true
      → Sound s (inquire m c fuel deadline s).0 (inquire m c fuel deadline s).1
  unfolding inquire checkpoint
  inquire-Sound s h =
      let u = inquiring s in
      ground (
        arith,
        exchange-synchronized m (plain_command 0x12) u,
        exchange-Keeps m (plain_command 0x12) u,
      )

  pub prepare-Sound :
      (raw : List ℕ) (caps : Capabilities) (s : Session W)
      → s.synchronized ≡ true
      → Sound s
          (prepare_request m c fuel deadline raw caps s).0
          (prepare_request m c fuel deadline raw caps s).1
  unfolding prepare_request
  prepare-Sound raw caps s h = ground arith

  pub reserve-Sound :
      (s : Session W)
      → s.synchronized ≡ true
      → Sound s (reserve m c fuel deadline s).0 (reserve m c fuel deadline s).1
  unfolding reserve
  reserve-Sound s h =
      elim (Answer-cases
        (ready_with_attempt m fuel 0x16 true deadline (at ScanStage.reserve s)).0) [
          | inl (b, q) ↦ ground (
            arith,
            (waited 0x16 true (at ScanStage.reserve s)).leaves,
            (waited 0x16 true (at ScanStage.reserve s)).answered_synchronized b q,
          )
          | inr (inl (x, q)) ↦
              ground (arith, (waited 0x16 true (at ScanStage.reserve s)).unattempted_synchronized)
          | inr (inr q) ↦ ground arith
        ]

  abbrev setting : Session W → Session W
  setting s = record s {
    diagnostics = set_opcode (set_stage s.diagnostics ScanStage.set_window) 0x24;
  }

  pub start_scan_done :
      (window : List ℕ) (s : Session W) (u : Unit)
      → (start_scan m c fuel deadline window s).0 ≡ done u
      → ((start_scan m c fuel deadline window s).1.delivered ≡ s.delivered)
        × ((start_scan m c fuel deadline window s).1.deferred_failed ≡ s.deferred_failed)
  unfolding start_scan checkpoint
  start_scan_done window s u e =
      let v = (checkpoint m deadline (setting s)).1 in
      let w = at ScanStage.start (exchange m window v).1 in
      ground (arith, exchange-Keeps m window v, (waited 0x31 true w).leaves)

  -- What the report of a reserved job says.
  pub conclude_job_done :
      (result : Result ScanSummary) (s : Session W) (report : Report)
      → (conclude_job m c fuel deadline result s).0 ≡ done report
      → (report.1 ≡ ready → (conclude_job m c fuel deadline result s).1.synchronized ≡ true)
        × ((summary : ScanSummary) → report.0 ≡ ok summary → result ≡ ok summary)
        × ((conclude_job m c fuel deadline result s).1.delivered ≡ s.delivered)
        × ((summary : ScanSummary)
            → report.0 ≡ ok summary
            → s.deferred_failed ≡ false
            → report.1 ≡ ready)
  unfolding conclude_job combine
  conclude_job_done result s report e =
      let u = at ScanStage.cleanup s in
      let abort = not (is_ok result) in
      ground (arith, finish_done m abort u, finish-Apart m abort u, finish-NotStuck m abort u)
