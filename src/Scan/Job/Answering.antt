-- ===== src/Scan/Job/Answering.antt =====
-- A whole job answers: the deadline bounds its waits, and the limits bound its bands.
use workcentre_3119_modern_d.Prelude.{
  ℕ, zero, suc, ◌+◌, ◌*◌, ◌<◌, ◌≡◌, inl, inr, refl, sym, ap, ◌∙◌, Bool, true, false, not, ◌||◌,
  List, [], ◌∷◌, arith,
}
use workcentre_3119_modern_d.Errors.{IoError, Result, ok, err, is_ok}
use workcentre_3119_modern_d.Protocol.{Capabilities}
use workcentre_3119_modern_d.Scan.Window.{ColorMode, ScanRequest}
use workcentre_3119_modern_d.Scan.Diagnostics.{second, set_stage, set_opcode}
use workcentre_3119_modern_d.Scan.Machine.{
  Machine, ScanSummary, Session, Answer, done, failed, stuck, M, ClockLaws,
}
use workcentre_3119_modern_d.Scan.Lives.{
  Lives-refl, Answers, and_then-Answers, caught-Answers, on_error-Answers,
}
use workcentre_3119_modern_d.Scan.Exchange.{plain_command, cleanup_command, cleanup_all, finish}
use workcentre_3119_modern_d.Scan.Machine.{BufferLaws}
use workcentre_3119_modern_d.Scan.Job.{
  Caller, Part, go, stop, Report, ready, conclude_job, run_reserved, then_part, run_job,
  run_prepared_job,
}
use workcentre_3119_modern_d.Scan.Job.Reserved.{run_job-Ends}
use workcentre_3119_modern_d.Scan.Job.Totals.{IsTotal}
use workcentre_3119_modern_d.Scan.Job.Final.{IsFresh, run_prepared_job-report}
use workcentre_3119_modern_d.Scan.Job.Waits.{
  CallerLaws, Enough, Enough-later, exchange-Answers, inquire-Answers, prepare-Answers,
  reserve-Answers,
}
use workcentre_3119_modern_d.Scan.Job.Bands.{acquire-Answers}

module _ {W : Type 0} (m : Machine W) (c : Caller W) (time : W → ℕ) (laws : ClockLaws m time)
    (buffers : BufferLaws m) (calls : CallerLaws c time) (k deadline : ℕ) where
  cleanup_command-Answers :
      (opcode : ℕ) (s : Session W) → Answers time s (cleanup_command m opcode s)
  unfolding cleanup_command
  cleanup_command-Answers opcode s =
      and_then-Answers time s _ _
        (exchange-Answers m c time laws buffers calls k deadline (plain_command opcode) s)
        λ b t q l. ground arith

  cleanup_all-Answers :
      (opcodes : List ℕ) (bad : Bool) (s : Session W) → Answers time s (cleanup_all m opcodes bad s)
  unfolding cleanup_all set_opcode
  cleanup_all-Answers [] bad s = Lives-refl time s
  cleanup_all-Answers (opcode ∷ opcodes) bad s =
      and_then-Answers time s _ _ (caught-Answers time s _ (cleanup_command-Answers opcode _))
        λ r t q l. let rest = cleanup_all-Answers opcodes (bad || not (is_ok r)) t in ground arith

  finish-Answers : (abort : Bool) (s : Session W) → Answers time s (finish m abort s)
  unfolding finish
  finish-Answers abort s = ground (
    arith,
    cleanup_all-Answers (0x06 ∷ 0x17 ∷ []) false s,
    cleanup_all-Answers (0x17 ∷ []) false s,
  )

  conclude_job-Answers :
      (result : Result ScanSummary) (s : Session W)
      → Answers time s (conclude_job m c (suc k) deadline result s)
  unfolding conclude_job set_stage
  conclude_job-Answers result s =
      and_then-Answers time s _ _
        (caught-Answers time s _
          (on_error-Answers time s _ _ (finish-Answers (not (is_ok result)) _)))
        λ r t q l. Lives-refl time t

  run_reserved-Answers :
      (request : ScanRequest) (window : List ℕ) (caps : Capabilities) (s : Session W)
      → Enough m c time laws buffers calls k deadline s
      → Answers time s (run_reserved m c (suc k) deadline request window caps s)
  unfolding run_reserved
  run_reserved-Answers request window caps s h =
      and_then-Answers time s _ _
        (caught-Answers time s _
          (acquire-Answers m c time laws buffers calls k deadline request window caps s h))
        λ r t q l. conclude_job-Answers r t

  part-Answers :
      {A : Type 0} (p : Part A) (f : A → M W Report) (s : Session W)
      → ((a : A) → Answers time s (f a s))
      → Answers time s (then_part m c (suc k) deadline p f s)
  part-Answers (stop e health) f s h = Lives-refl time s
  part-Answers (go a) f s h = h a

  run_job-Answers :
      (s : Session W)
      → Enough m c time laws buffers calls k deadline s
      → Answers time s (run_job m c (suc k) deadline s)
  unfolding run_job
  run_job-Answers s h =
      and_then-Answers time s _ _ (inquire-Answers m c time laws buffers calls k deadline s)
        λ i t q l. part-Answers i _ t λ (raw, caps).
          and_then-Answers time t _ _
            (prepare-Answers m c time laws buffers calls k deadline raw caps t)
            λ p u q2 l2. part-Answers p _ u λ (request, window).
              let enough =
                Enough-later m c time laws buffers calls k deadline t u l2
                  (Enough-later m c time laws buffers calls k deadline s t l h) in
              and_then-Answers time u _ _
                (reserve-Answers m c time laws buffers calls k deadline u enough)
                λ r v q3 l3. part-Answers r _ v λ x.
                  run_reserved-Answers request window caps v
                    (Enough-later m c time laws buffers calls k deadline u v l3 enough)

  run_reserved-NotFailed :
      (request : ScanRequest) (window : List ℕ) (caps : Capabilities) (s : Session W) (e : IoError)
      → ¬ ((run_reserved m c (suc k) deadline request window caps s).0 ≡ failed e)
  unfolding run_reserved conclude_job
  run_reserved-NotFailed request window caps s e q = ground arith

  -- Neither stuck nor failed.
  settled :
      {A : Type 0} (s : Session W) (r : Answer A × Session W)
      → Answers time s r
      → ((e : IoError) → ¬ (r.0 ≡ failed e))
      → (a : A) × (r.0 ≡ done a)
  settled s (done a, t) h n = (a, refl)
  settled s (failed e, t) h n = absurd (n e refl)
  settled s (stuck, t) h n = absurd h

  not_stuck :
      {A : Type 0} (s : Session W) (r : Answer A × Session W) → Answers time s r → r.0 ≡ stuck → ⊥
  not_stuck s (done a, t) h q = cc q
  not_stuck s (failed e, t) h q = cc q
  not_stuck s (stuck, t) h q = h

  pub run_job_returns :
      (s : Session W)
      → s.synchronized ≡ true
      → Enough m c time laws buffers calls k deadline s
      → (report : Report) × ((run_job m c (suc k) deadline s).0 ≡ done report)
  run_job_returns s sync h = elim (run_job-Ends m c (suc k) deadline s sync) [
    | inl (e, health, q, certain, sends) ↦ ((err e, health), q)
    | inr (inl (request, window, caps, u, granted, fits, q)) ↦
        settled s _ (run_job-Answers s h) λ e f.
          run_reserved-NotFailed request window caps u e
            (sym (ap (λ (t : Answer Report × Session W). t.0) q) ∙ f)
    | inr (inr q) ↦ absurd (not_stuck s _ (run_job-Answers s h) q)
  ]

module _ {W : Type 0} (m : Machine W) (c : Caller W) (time : W → ℕ) (laws : ClockLaws m time)
    (buffers : BufferLaws m) (calls : CallerLaws c time) where
  -- With more fuel than the nanoseconds of two minutes, and one more, a fresh job with a positive poll
  -- interval answers with a report. If the report says `ready`, the stream is synchronized. If it has a
  -- summary, it says `ready`, and the summary adds up the bands that the consumer accepted.
  pub run_prepared_job-Returns :
      (s : Session W) (fuel : ℕ)
      → IsFresh s
      → 0 < s.diagnostics.read_poll_interval
      → 120 * second + 1 < fuel
      → (report : Report) × ((run_prepared_job m c fuel s).0 ≡ done report)
        × (report.1 ≡ ready → (run_prepared_job m c fuel s).1.synchronized ≡ true)
        × ((summary : ScanSummary)
            → report.0 ≡ ok summary
            → ((mode : ColorMode) × IsTotal mode (run_prepared_job m c fuel s).1.delivered summary)
              × (report.1 ≡ ready))
  run_prepared_job-Returns s zero fresh positive enough = absurd (omega arith)
  run_prepared_job-Returns s (suc k) fresh positive enough =
      let (report, e) = answers s k fresh positive enough in
      let (sync, totals) = run_prepared_job-report m c (suc k) s report buffers fresh e in
      (report, e, sync, totals)
    where
      answers :
          (s : Session W) (k : ℕ)
          → IsFresh s
          → 0 < s.diagnostics.read_poll_interval
          → 120 * second + 1 < suc k
          → (report : Report) × ((run_prepared_job m c (suc k) s).0 ≡ done report)
      answers s k fresh positive enough =
          unfold run_prepared_job in
          run_job_returns m c time laws buffers calls k ((m.now s.world).0 + 120 * second)
            (record s { world = (m.now s.world).1 }) fresh.synchronized
            (positive, omega (arith, laws.now_reads s.world))
