-- ===== src/Tests/Jobs.antt =====
-- Scan jobs with a scanner that gives listed replies.
use workcentre_3119_modern_d.Prelude.{ℕ, ◌≡◌, refl, true, false, List, [], ◌∷◌, arith}
use workcentre_3119_modern_d.Prelude.Chunks.{chunks_exact}
use workcentre_3119_modern_d.Errors.{IoError, ok, err, text, other}
use workcentre_3119_modern_d.Protocol
use workcentre_3119_modern_d.Protocol.{lacks_capabilities, fields, resolutions}
use workcentre_3119_modern_d.Protocol.Frame.{frame}
use workcentre_3119_modern_d.Scan.Window.{
  ScanRequest, ColorMode, gray, command, window_bytes, resolution_code, unsupported_format,
  bad_region,
}
use workcentre_3119_modern_d.Scan.Reply.{check_busy, response_status}
use workcentre_3119_modern_d.Scan.Band
use workcentre_3119_modern_d.Scan.Band.{bad_band}
use workcentre_3119_modern_d.Scan.Diagnostics.{
  set_stage, set_opcode, record_band, busy_poll_interval, record_busy_reply,
}
use workcentre_3119_modern_d.Scan.Machine.{ScanSummary, done}
use workcentre_3119_modern_d.Scan.Exchange.{
  plain_command, exchange, unframed, expected_message, checkpoint, checkpoint_deadline, wait_check,
  try_command, pause, ready_loop, ready_with_attempt, cleanup_command, cleanup_all, finish,
}
use workcentre_3119_modern_d.Scan.Exchange.Sync.{
  IsReply, Transferred, is_done, exchange-IsReply, exchange-synchronized, NotStuck,
}
use workcentre_3119_modern_d.Scan.Exchange.Frame.{Waited, ready_with_attempt-Waited}
use workcentre_3119_modern_d.Scan.Exchange.Ready.{ready_with_attempt-NotStuck}
use workcentre_3119_modern_d.Scan.Exchange.Cleanup.{CleanupSent}
use workcentre_3119_modern_d.Scan.Drain
use workcentre_3119_modern_d.Scan.Drain.{read_image_band}
use workcentre_3119_modern_d.Scan.Drain.Length.{BandRead, read_image_band-BandRead}
use workcentre_3119_modern_d.Scan.Job.{
  Caller, Report, returned, ready, needs_reconnect, over_limits, image_of, add_band, combine,
  conclude_job, deliver, metadata_failed, metadata, next_band, band_bytes, decode_band, hand_over,
  one_band, bands_loop, start_scan, acquire, inquire, prepare_request, reserve, run_reserved,
  run_job, run_prepared_job,
}
use workcentre_3119_modern_d.Scan.Job.Totals.{IsTotal}
use workcentre_3119_modern_d.Scan.Job.Reserved.{Ends, run_job-Ends}
use workcentre_3119_modern_d.Scan.Job.Final.{IsFresh, conclude_job-sent, run_prepared_job-report}
use workcentre_3119_modern_d.Prelude.{◌+◌, ◌*◌}
use workcentre_3119_modern_d.Scan.Diagnostics.{second}
use workcentre_3119_modern_d.Scan.Job.Waits.{CallerLaws}
use workcentre_3119_modern_d.Scan.Job.Answering.{run_prepared_job-Returns}
use workcentre_3119_modern_d.Tests.World.{
  Scanner, machine, machine-buffers, machine-clock, fresh, reply, good_reply, capabilities,
}

abbrev busy_reply : List ℕ
busy_reply = reply 8 0 []

ready_with_attempt-Waited_example :
    Waited machine 0x16 true 1000
      (fresh (good_reply ∷ []))
      (ready_with_attempt machine 3 0x16 true 1000 (fresh (good_reply ∷ []))).0
      (ready_with_attempt machine 3 0x16 true 1000 (fresh (good_reply ∷ []))).1
ready_with_attempt-Waited_example =
    ready_with_attempt-Waited machine 0x16 true 1000 3 (fresh (good_reply ∷ []))

ready_with_attempt-NotStuck_example :
    NotStuck (ready_with_attempt machine 7 0x16 true 5 (fresh (busy_reply ∷ good_reply ∷ []))).0
ready_with_attempt-NotStuck_example =
    ready_with_attempt-NotStuck machine (λ w. w.clock) machine-clock 6 0x16 true 5
      (fresh (busy_reply ∷ good_reply ∷ [])) (omega arith) (omega arith)

exchange-IsReply_example :
    Transferred machine (plain_command 0x16) (fresh (good_reply ∷ [])) good_reply
    × IsReply machine (plain_command 0x16) (fresh (good_reply ∷ [])) good_reply
unfolding exchange unframed expected_message
exchange-IsReply_example =
    (exchange-IsReply machine (plain_command 0x16) (fresh (good_reply ∷ [])) good_reply
        machine-buffers).0
      refl

exchange-synchronized_example :
    (exchange machine (plain_command 0x16) (fresh [])).1.synchronized
    ≡ is_done (exchange machine (plain_command 0x16) (fresh [])).0
exchange-synchronized_example = exchange-synchronized machine (plain_command 0x16) (fresh [])

read_image_band-BandRead_example :
    let s = fresh ((1 ∷ 2 ∷ 3 ∷ []) ∷ (4 ∷ []) ∷ []) in
    BandRead machine machine-buffers 4 1000 s
      (read_image_band machine 4 1000 s).0
      (read_image_band machine 4 1000 s).1
read_image_band-BandRead_example =
    read_image_band-BandRead machine machine-buffers 4 1000
      (fresh ((1 ∷ 2 ∷ 3 ∷ []) ∷ (4 ∷ []) ∷ []))

abbrev request : ScanRequest
request = record {
  dpi = 150;
  mode = gray;
  x_units = 24;
  y_units = 1212;
  width_units = 64;
  height_units = 8;
}

abbrev caller : Caller Scanner
caller = record {
  prepare = λ w raw. (returned (ok request), w);
  sink = λ w image. (returned (ok tt), w);
}

conclude_job-sent_example :
    let s = fresh (good_reply ∷ []) in
    (s.synchronized ≡ true
      → CleanupSent machine true s (conclude_job machine caller 1 1000 (err (text other)) s).1)
    × (s.synchronized ≡ false
        → ((conclude_job machine caller 1 1000 (err (text other)) s).1.sent ≡ s.sent)
          × ((e : IoError) × ((conclude_job machine caller 1 1000 (err (text other)) s).0
                ≡ done (err e, needs_reconnect))))
conclude_job-sent_example =
    conclude_job-sent machine caller 1 1000 (err (text other)) (fresh (good_reply ∷ []))

-- One gray band of eight samples, and every reply of its job.
abbrev meta : List ℕ
meta = reply 0 0x81 (0 ∷ 0 ∷ 0 ∷ 8 ∷ 0 ∷ 1 ∷ 0 ∷ 8 ∷ [])

abbrev job_replies : List (List ℕ)
job_replies =
    frame capabilities
    ∷ good_reply
    ∷ good_reply
    ∷ good_reply
    ∷ meta
    ∷ (1 ∷ 2 ∷ 3 ∷ 4 ∷ 5 ∷ 6 ∷ 7 ∷ 8 ∷ [])
    ∷ good_reply
    ∷ []

fresh-IsFresh : IsFresh (fresh job_replies)
fresh-IsFresh = record { synchronized = refl; delivered = refl; deferred = refl }

caller-laws : CallerLaws caller (λ w. w.clock)
caller-laws = record { prepare_later = λ w raw. omega arith; sink_later = λ w image. omega arith }

run_prepared_job-Returns_example :
    let run = run_prepared_job machine caller (120 * second + 2) (fresh job_replies) in
    (report : Report) × (run.0 ≡ done report)
    × (report.1 ≡ ready → run.1.synchronized ≡ true)
    × ((summary : ScanSummary)
        → report.0 ≡ ok summary
        → ((mode : ColorMode) × IsTotal mode run.1.delivered summary) × (report.1 ≡ ready))
run_prepared_job-Returns_example =
    run_prepared_job-Returns machine caller (λ w. w.clock) machine-clock machine-buffers caller-laws
      (fresh job_replies) (120 * second + 2) fresh-IsFresh (omega arith) (omega arith)

run_job-Ends_example :
    Ends machine caller 2 1000
      (fresh job_replies)
      (run_job machine caller 2 1000 (fresh job_replies))
run_job-Ends_example = run_job-Ends machine caller 2 1000 (fresh job_replies) refl

abbrev summary : ScanSummary
summary = record { width = 8; height = 1; bands = 1; bytes = 8 }

whole_job : (run_prepared_job machine caller 2 (fresh job_replies)).0 ≡ done (ok summary, ready)
unfolding run_prepared_job run_job inquire checkpoint exchange frame unframed expected_message
    Protocol.parse lacks_capabilities fields prepare_request command resolution_code
    unsupported_format resolutions bad_region reserve chunks_exact bad_band Band.decode
    Band.interleave Band.parse Band.spread_row busy_poll_interval record_band record_busy_reply
    set_opcode set_stage Drain.capacity_for Drain.conclude Drain.drain_expired Drain.drain_loop
    Drain.drain_round Drain.note_failure read_image_band Drain.start_drain Drain.take_in
    checkpoint_deadline cleanup_all cleanup_command finish pause ready_loop ready_with_attempt
    try_command wait_check acquire add_band band_bytes bands_loop combine conclude_job decode_band
    deliver hand_over image_of metadata metadata_failed next_band one_band over_limits run_reserved
    start_scan check_busy response_status window_bytes
whole_job = refl

run_prepared_job-report_example :
    ((mode : ColorMode) × IsTotal mode
        (run_prepared_job machine caller 2 (fresh job_replies)).1.delivered
        summary)
    × (ready ≡ ready)
run_prepared_job-report_example =
    (run_prepared_job-report machine caller 2 (fresh job_replies) (ok summary, ready)
        machine-buffers fresh-IsFresh whole_job).1
      summary refl
