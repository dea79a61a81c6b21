-- ===== src/Scan/Job/Final.antt =====
-- What the report of a whole job says about the session and about the delivered bands.
use workcentre_3119_modern_d.Prelude.{
  ℕ, ◌+◌, ◌*◌, ◌≡◌, inl, inr, refl, sym, ap, ◌∙◌, Bool, true, false, not, List, [], ◌∷◌, ◌⊎◌, arith,
}
use mathlib.Core.Path.{subst}
use workcentre_3119_modern_d.Errors.{IoError, ScanStage, Result, ok, err, is_ok, text, other}
use workcentre_3119_modern_d.Protocol.{Capabilities}
use workcentre_3119_modern_d.Scan.Window.{ColorMode, ScanRequest}
use workcentre_3119_modern_d.Scan.Diagnostics.{set_stage, second}
use workcentre_3119_modern_d.Scan.Machine.{
  Machine, ScanSummary, Session, Answer, done, failed, Answer-cases, BufferLaws,
}
use workcentre_3119_modern_d.Scan.Exchange.{finish}
use workcentre_3119_modern_d.Scan.Exchange.Cleanup.{
  finish-sent, stop_command, release_command, stop_accepted_diagnostics, finish_uncertain,
  finish-NotStuck, CleanupSent,
}
use workcentre_3119_modern_d.Scan.Job.{
  Caller, ready, needs_reconnect, Report, max_bands, empty_summary, acquire, start_scan,
  conclude_job, combine, run_reserved, run_job, run_prepared_job,
}
use workcentre_3119_modern_d.Scan.Job.Totals.{IsTotal, IsTotal-along, bands_loop-IsTotal}
use workcentre_3119_modern_d.Scan.Job.Health.{start_scan_done, conclude_job_done}
use workcentre_3119_modern_d.Scan.Job.Reserved.{run_job-Ends}

-- A session before its job.
pub record IsFresh {W : Type 0} (s : Session W) : Type 0 where
  pub synchronized : s.synchronized ≡ true
  pub delivered : s.delivered ≡ []
  pub deferred : s.deferred_failed ≡ false

empty-IsTotal : (mode : ColorMode) → IsTotal mode [] empty_summary
empty-IsTotal mode = record {
  bands = refl;
  height = refl;
  bytes = refl;
  images = tt;
  few = omega arith;
  bounded = omega arith;
  fits = omega arith;
  wide = λ p. absurd (omega arith);
}

module _ {W : Type 0} (m : Machine W) (c : Caller W) (fuel deadline : ℕ) where
  module _ (request : ScanRequest) (window : List ℕ) (caps : Capabilities) where
    acquire-IsTotal :
        (s : Session W) (summary : ScanSummary)
        → BufferLaws m
        → s.delivered ≡ []
        → (acquire m c fuel deadline request window caps s).0 ≡ done summary
        → IsTotal request.mode (acquire m c fuel deadline request window caps s).1.delivered summary
          × ((acquire m c fuel deadline request window caps s).1.deferred_failed
              ≡ s.deferred_failed)
    unfolding acquire
    acquire-IsTotal s summary laws d e =
        elim (Answer-cases (start_scan m c fuel deadline window s).0) [
          | inl (u, q) ↦
              let s1 = (start_scan m c fuel deadline window s).1 in
              let (kept, deferred) = start_scan_done m c fuel deadline window s u q in
              let t : IsTotal request.mode s1.delivered empty_summary =
                rw (kept, d) (empty-IsTotal request.mode) in
              let r =
                bands_loop-IsTotal m c fuel deadline laws (max_bands + 1) request.mode
                  caps.line_order empty_summary summary s1 t (ground arith) in
              (IsTotal-along request.mode _ _ _ _ (ground arith) refl r.0, ground (arith, r.1))
          | inr (inl (x, q)) ↦ ground arith
          | inr (inr q) ↦ ground arith
        ]

    run_reserved_done :
        (s : Session W) (report : Report)
        → BufferLaws m
        → s.delivered ≡ []
        → s.deferred_failed ≡ false
        → (run_reserved m c fuel deadline request window caps s).0 ≡ done report
        → (report.1 ≡ ready
            → (run_reserved m c fuel deadline request window caps s).1.synchronized ≡ true)
          × ((summary : ScanSummary)
              → report.0 ≡ ok summary
              → IsTotal request.mode
                  (run_reserved m c fuel deadline request window caps s).1.delivered
                  summary
                × (report.1 ≡ ready))
    unfolding run_reserved
    run_reserved_done s report laws d f e =
        elim (Answer-cases (acquire m c fuel deadline request window caps s).0) [
          | inl (sum, q) ↦
              let s1 = (acquire m c fuel deadline request window caps s).1 in
              let (total, deferred) = acquire-IsTotal s sum laws d q in
              let (certain, same, kept, fine) =
                conclude_job_done m c fuel deadline (ok sum) s1 report (ground arith) in
              (
                ground arith,
                λ summary o. (
                  IsTotal-along request.mode _ _ _ _ (ground arith) (ground (arith, same summary o))
                      total,
                  fine summary o (deferred ∙ f),
                ),
              )
          | inr (inl (x, q)) ↦
              let s1 = (acquire m c fuel deadline request window caps s).1 in
              let (certain, same, kept, fine) =
                conclude_job_done m c fuel deadline (err x) s1 report (ground arith) in
              (ground arith, λ summary o. absurd (cc (same summary o)))
          | inr (inr q) ↦ ground arith
        ]

  abbrev at_cleanup : Session W → Session W
  at_cleanup s = record s { diagnostics = set_stage s.diagnostics ScanStage.cleanup }

  conclude_job-state :
      (result : Result ScanSummary) (s : Session W)
      → (conclude_job m c fuel deadline result s).1
        ≡ (finish m (not (is_ok result)) (at_cleanup s)).1
  unfolding conclude_job
  conclude_job-state result s =
      ground (arith, finish-NotStuck m (not (is_ok result)) (at_cleanup s))

  conclude_job-uncertain :
      (result : Result ScanSummary) (s : Session W)
      → finish m (not (is_ok result)) (at_cleanup s) ≡ (failed (text other), at_cleanup s)
      → ((conclude_job m c fuel deadline result s).1.sent ≡ s.sent)
        × ((e : IoError) × ((conclude_job m c fuel deadline result s).0
              ≡ done (err e, needs_reconnect)))
  unfolding conclude_job combine
  conclude_job-uncertain (ok sum) s q = rw (q) (refl, (_, refl))
  conclude_job-uncertain (err e) s q = rw (q) (refl, (_, refl))

  same_sent :
      (abort : Bool) (s t : Session W)
      → CleanupSent m abort (at_cleanup s) t
      → CleanupSent m abort s t
  same_sent false s t h = h
  same_sent true s t h =
      subst
        (λ (b : Bool).
          ((b ≡ false) × (t.sent ≡ stop_command ∷ s.sent) × (t.synchronized ≡ false))
          ⊎ ((b ≡ true) × (t.sent ≡ release_command ∷ stop_command ∷ s.sent)))
        (stop_accepted_diagnostics m s (set_stage s.diagnostics ScanStage.cleanup)) h

  -- After the bands, on a synchronized stream, RELEASE is sent if they succeeded. If they failed STOP is
  -- sent, and then RELEASE exactly when the reply to STOP left the stream synchronized. On an uncertain
  -- stream nothing is sent, and the report is an error that asks for a reconnection.
  pub conclude_job-sent :
      (result : Result ScanSummary) (s : Session W)
      → (s.synchronized ≡ true
          → CleanupSent m (not (is_ok result)) s (conclude_job m c fuel deadline result s).1)
        × (s.synchronized ≡ false
            → ((conclude_job m c fuel deadline result s).1.sent ≡ s.sent)
              × ((e : IoError) × ((conclude_job m c fuel deadline result s).0
                    ≡ done (err e, needs_reconnect))))
  conclude_job-sent result s = (
    λ h.
        subst (λ (t : Session W). CleanupSent m (not (is_ok result)) s t)
          (sym (conclude_job-state result s))
          (same_sent (not (is_ok result)) s _
            (finish-sent m (not (is_ok result)) (at_cleanup s) h)),
    λ h. conclude_job-uncertain result s (finish_uncertain m (not (is_ok result)) (at_cleanup s) h),
  )

  run_job-report :
      (s : Session W) (report : Report)
      → BufferLaws m
      → IsFresh s
      → (run_job m c fuel deadline s).0 ≡ done report
      → (report.1 ≡ ready → (run_job m c fuel deadline s).1.synchronized ≡ true)
        × ((summary : ScanSummary)
            → report.0 ≡ ok summary
            → ((mode : ColorMode) × IsTotal mode (run_job m c fuel deadline s).1.delivered summary)
              × (report.1 ≡ ready))
  run_job-report s report laws fresh e =
      elim (run_job-Ends m c fuel deadline s fresh.synchronized) [
        | inl (x, health, q, certain, sends) ↦
            (λ h. certain (cc (e, q, h)), λ summary o. absurd (cc (e, q, o)))
        | inr (inl (request, window, caps, u, granted, fits, q)) ↦
            let r =
              run_reserved_done request window caps u report laws
                (granted.delivered ∙ fresh.delivered) (granted.deferred ∙ fresh.deferred)
                (sym (ap (λ (t : Answer Report × Session W). t.0) q) ∙ e) in
            (
              λ h. ap (λ (t : Answer Report × Session W). t.1.synchronized) q ∙ r.0 h,
              λ summary o. (
                (
                  request.mode,
                  IsTotal-along request.mode _ _ _ _
                      (ap (λ (t : Answer Report × Session W). t.1.delivered) q) refl
                      (r.1 summary o).0,
                ),
                (r.1 summary o).1,
              ),
            )
        | inr (inr q) ↦ absurd (cc (e, q))
      ]

module _ {W : Type 0} (m : Machine W) (c : Caller W) (fuel : ℕ) where
  -- If a fresh job answers, a report that says `ready` leaves a synchronized stream; and a report with
  -- a summary says `ready`, its counters are the sums over the bands that the consumer accepted, and
  -- each of these bands has the summary's width and as many samples as its size and mode say.
  pub run_prepared_job-report :
      (s : Session W) (report : Report)
      → BufferLaws m
      → IsFresh s
      → (run_prepared_job m c fuel s).0 ≡ done report
      → (report.1 ≡ ready → (run_prepared_job m c fuel s).1.synchronized ≡ true)
        × ((summary : ScanSummary)
            → report.0 ≡ ok summary
            → ((mode : ColorMode) × IsTotal mode (run_prepared_job m c fuel s).1.delivered summary)
              × (report.1 ≡ ready))
  unfolding run_prepared_job
  run_prepared_job-report s report laws fresh e =
      run_job-report m c fuel ((m.now s.world).0 + 120 * second)
        (record s { world = (m.now s.world).1 }) report laws
        (record {
          synchronized = fresh.synchronized;
          delivered = fresh.delivered;
          deferred = fresh.deferred;
        })
        e
