-- ===== src/Scan/Job.antt =====
-- src/scan.rs: `run_prepared_job_observed_with_health`, one scan job from INQUIRY to cleanup.
-- The caller's closures `prepare` and `sink` are parameters; a panic in them is caught.
pub mod Parts
pub mod Totals
pub mod Health
pub mod Reserved
pub mod Final
pub mod Waits
pub mod Bands
pub mod Answering
use workcentre_3119_modern_d.Prelude.{
  ℕ, zero, suc, ◌+◌, ◌-◌, ◌*◌, ◌^◌, Bool, true, false, not, ◌&&◌, ◌||◌, List, [], ◌∷◌, length, leb,
  ltb, ◌==◌, if◌then◌else◌,
}
use workcentre_3119_modern_d.Errors.{
  IoError, ScanStage, kind, text, reworded, Result, ok, err, is_ok, invalid_data, other,
}
use workcentre_3119_modern_d.Protocol
use workcentre_3119_modern_d.Protocol.{Capabilities}
use workcentre_3119_modern_d.Scan.Window.{ColorMode, ScanRequest, command}
use workcentre_3119_modern_d.Scan.Reply.{response_status}
use workcentre_3119_modern_d.Scan.Band
use workcentre_3119_modern_d.Scan.Band.{BandInfo}
use workcentre_3119_modern_d.Scan.Diagnostics.{second, set_stage, set_opcode, record_band, error}
use workcentre_3119_modern_d.Scan.Machine.{
  Machine, ImageBand, ScanSummary, Session, Answer, done, failed, stuck, M, and_then, ◌>>=◌, ◌>>◌,
  pure, fail, lift, attempt, map_error, get, set_synchronized, diagnose, refuse, write, now,
  cancelled,
}
use workcentre_3119_modern_d.Scan.Exchange.{
  plain_command, exchange, checkpoint, ready_with_attempt, ready_checked, finish,
}
use workcentre_3119_modern_d.Scan.Drain.{read_image_band}

-- `catch_unwind`.
pub data Outcome (A : Type 0) : Type 0 where
  returned : A → Outcome A
  panicked : Outcome A

pub data SessionHealth : Type 0 where
  ready needs_reconnect : SessionHealth

pub record Caller (W : Type 0) : Type 0 where
  pub prepare : W → List ℕ → Outcome (Result ScanRequest) × W
  pub sink : W → ImageBand → Outcome (Result (Unit {0})) × W

-- A part of the job goes on with a value, or the job returns here.
pub data Part (A : Type 0) : Type 0 where
  go : A → Part A
  stop : IoError → SessionHealth → Part A

abbrev pub Report : Type 0
Report = Result ScanSummary × SessionHealth

abbrev pub max_bands : ℕ
max_bands = 4096

abbrev pub max_job_bytes : ℕ
max_job_bytes = 256 * 1024 * 1024

unfoldable pub over_limits : ScanSummary → BandInfo → Bool
over_limits summary band =
    leb max_bands summary.bands
    || ltb max_job_bytes (summary.bytes + band.length)
    || (not (summary.width == 0) && not (summary.width == band.width))

unfoldable pub image_of : BandInfo → ColorMode → List ℕ → List ℕ → ImageBand
image_of band mode pixels raw = record {
  width = band.width;
  rows = band.rows;
  mode = mode;
  pixels = pixels;
  wire_data = raw;
}

unfoldable pub add_band : ScanSummary → ImageBand → ScanSummary
add_band summary image = record {
  width = image.width;
  height = summary.height + image.rows;
  bands = summary.bands + 1;
  bytes = summary.bytes + length image.pixels;
}

abbrev pub empty_summary : ScanSummary
empty_summary = record { width = 0; height = 0; bands = 0; bytes = 0 }

module _ {W : Type 0} where
  -- `.map_err(|error| diagnostics.error(error, …))`
  abbrev pub explain : {A : Type 0} → M W A → M W A
  explain m = map_error (λ s e. error s.diagnostics e) m

  abbrev pub at_stage : ScanStage → M W (Unit {0})
  at_stage stage = diagnose (λ d. set_stage d stage)

  abbrev pub sink_result :
      Outcome (Result (Unit {0})) × W → ImageBand → Session W → Answer (Unit {0}) × Session W
  sink_result (returned (ok _), w) image s =
      (done tt, record s { world = w; delivered = image ∷ s.delivered })
  sink_result (returned (err e), w) image s =
      (failed (error s.diagnostics e), record s { world = w })
  sink_result (panicked, w) image s =
      (failed (error s.diagnostics (text other)), record s { world = w })

  abbrev pub prepare_result :
      Outcome (Result ScanRequest) × W → Session W → Answer (Part ScanRequest) × Session W
  prepare_result (returned (ok request), w) s = (done (go request), record s { world = w })
  prepare_result (returned (err e), w) s =
      (done (stop (error s.diagnostics e) ready), record s { world = w })
  prepare_result (panicked, w) s =
      (done (stop (error s.diagnostics (text other)) needs_reconnect), record s { world = w })

  abbrev pub stop_with : {A : Type 0} → IoError → SessionHealth → M W (Part A)
  stop_with e health s = (done (stop (error s.diagnostics e) health), s)

  abbrev pub mark_deferred : M W (Unit {0})
  mark_deferred s = (done tt, record s { deferred_failed = true })

module _ {W : Type 0} (m : Machine W) (c : Caller W) (fuel deadline : ℕ) where
  unfoldable pub deliver : ImageBand → M W (Unit {0})
  deliver image s = sink_result (c.sink s.world image) image s

  -- An error of the first metadata is marked if the host has cancelled meanwhile.
  unfoldable pub metadata_failed : ℕ → IoError → M W (List ℕ)
  metadata_failed bands e = do
    cancel ← if bands == 0 then cancelled m else pure false
    if cancel then mark_deferred else pure tt
    s ← get
    fail (error s.diagnostics e)

  -- Before the first band only the deadline is checked, not the cancellation.
  unfoldable pub metadata : ℕ → M W (List ℕ)
  metadata bands = do
    r ← attempt (ready_with_attempt m fuel 0x28 (not (bands == 0)) deadline)
    elim r [ ok b ↦ pure b | err e ↦ metadata_failed bands e ]

  -- READ metadata, checked against the job's limits.
  unfoldable pub next_band : ColorMode → ScanSummary → M W BandInfo
  unfolding metadata
  next_band mode summary = do
    at_stage ScanStage.read_metadata
    b ← metadata summary.bands
    band ← explain (lift (Band.parse b mode))
    explain (refuse (over_limits summary band) invalid_data)
    pure band

  -- READ image: the bytes of a band.
  unfoldable pub band_bytes : BandInfo → M W (List ℕ)
  band_bytes band = do
    set_synchronized false
    at_stage ScanStage.read_image
    diagnose (λ d. set_opcode d 0x29)
    explain (write m (plain_command 0x29))
    read_image_band m band.length deadline

  -- Decoding, with the checked additions of the counters.
  unfoldable pub decode_band : ColorMode → ℕ → ScanSummary → BandInfo → List ℕ → M W (List ℕ)
  decode_band mode order summary band raw = do
    at_stage ScanStage.decode
    pixels ← explain (lift (Band.decode band raw mode order))
    explain (refuse (leb (2 ^ 32) (summary.height + band.rows)) invalid_data)
    explain (refuse (leb (2 ^ 64) (summary.bytes + length pixels)) invalid_data)
    pure pixels

  -- Delivery and the new summary.
  unfoldable pub hand_over : ScanSummary → ImageBand → M W ScanSummary
  hand_over summary image = do
    at_stage ScanStage.consumer
    deliver image
    diagnose (λ d. record_band d (add_band summary image).bands (add_band summary image).bytes)
    explain (checkpoint m deadline)
    pure (add_band summary image)

  unfoldable pub one_band : ColorMode → ℕ → ScanSummary → M W (ScanSummary × Bool)
  one_band mode order summary = do
    band ← next_band mode summary
    raw ← band_bytes band
    pixels ← decode_band mode order summary band raw
    summary' ← hand_over summary (image_of band mode pixels raw)
    pure (summary', band.final_band)

  unfoldable pub bands_loop : ℕ → ColorMode → ℕ → ScanSummary → M W ScanSummary
  bands_loop zero mode order summary s = (stuck, s)
  bands_loop (suc rounds) mode order summary s =
      and_then (one_band mode order summary s) λ (summary', last) s'.
        let rest = bands_loop rounds mode order summary' s' in
        if last then (done summary', s') else rest

  -- SET_WINDOW and START, on a reserved scanner.
  unfoldable pub start_scan : List ℕ → M W (Unit {0})
  start_scan window = do
    at_stage ScanStage.set_window
    diagnose (λ d. set_opcode d 0x24)
    explain (checkpoint m deadline)
    reply ← explain (exchange m window)
    status ← explain (lift (response_status reply false))
    at_stage ScanStage.start
    started ← explain (ready_checked m fuel 0x31 deadline)
    pure tt

  -- The closure that runs under the reservation. A band past the 4096th is refused, so 4097 rounds
  -- are enough.
  unfoldable pub acquire : ScanRequest → List ℕ → Capabilities → M W ScanSummary
  acquire request window caps = do
    start_scan window
    bands_loop (max_bands + 1) request.mode caps.line_order empty_summary

  unfoldable pub combine : Result ScanSummary → Result (Unit {0}) → Result ScanSummary
  combine (ok summary) (ok _) = ok summary
  combine (err e) (ok _) = err e
  combine (ok _) (err e) = err e
  combine (err e) (err cleanup) = err (reworded e)

  unfoldable pub conclude_job : Result ScanSummary → M W Report
  unfolding combine
  conclude_job result = do
    at_stage ScanStage.cleanup
    cleanup ← attempt (explain (finish m (not (is_ok result))))
    s ← get
    pure (
      combine result cleanup,
      if is_ok cleanup && not s.deferred_failed then ready else needs_reconnect,
    )

  unfoldable pub inquire : M W (Part (List ℕ × Capabilities))
  inquire = do
    at_stage ScanStage.inquiry
    diagnose (λ d. set_opcode d 0x12)
    r ← attempt (checkpoint m deadline)
    elim r [
      | err e ↦ stop_with e ready
      | ok _ ↦ do
        set_synchronized true
        q ← attempt (exchange m (plain_command 0x12))
        elim q [
          | err e ↦ stop_with e needs_reconnect
          | ok raw ↦ elim (Protocol.parse raw) [
            | err e ↦ stop_with e needs_reconnect
            | ok caps ↦ pure (go (raw, caps))
          ]
        ]
    ]

  abbrev pub window_for : Capabilities → Part ScanRequest → M W (Part (ScanRequest × List ℕ))
  window_for caps (stop e health) = pure (stop e health)
  window_for caps (go request) = elim (command request caps) [
    | err e ↦ stop_with e ready
    | ok window ↦ pure (go (request, window))
  ]

  unfoldable pub prepare_request : List ℕ → Capabilities → M W (Part (ScanRequest × List ℕ))
  prepare_request raw caps = do
    at_stage ScanStage.prepare
    diagnose (λ d. set_opcode d 0x24)
    p ← λ s. prepare_result (c.prepare s.world raw) s
    window_for caps p

  unfoldable pub reserve : M W (Part (Unit {0}))
  reserve = do
    at_stage ScanStage.reserve
    r ← attempt (ready_with_attempt m fuel 0x16 true deadline)
    s ← get
    elim r [
      | ok _ ↦ pure (go tt)
      | err e ↦
          stop_with (if s.synchronized then e else reworded e)
            (if s.attempted then needs_reconnect else ready)
    ]

  abbrev pub then_part : {A : Type 0} → Part A → (A → M W Report) → M W Report
  then_part (stop e health) f = pure (err e, health)
  then_part (go a) f = f a

  unfoldable pub run_reserved : ScanRequest → List ℕ → Capabilities → M W Report
  run_reserved request window caps = do
    result ← attempt (acquire request window caps)
    conclude_job result

  unfoldable pub run_job : M W Report
  run_job = do
    i ← inquire
    then_part i λ (raw, caps). do
      p ← prepare_request raw caps
      then_part p
          λ (request, window). do r ← reserve; then_part r λ _. run_reserved request window caps

-- The whole function: the deadline is 120 seconds from now.
module _ {W : Type 0} (m : Machine W) (c : Caller W) (fuel : ℕ) where
  unfoldable pub run_prepared_job : M W Report
  run_prepared_job = do t ← now m; run_job m c fuel (t + 120 * second)
