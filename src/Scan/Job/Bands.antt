-- ===== src/Scan/Job/Bands.antt =====
-- Acquiring the bands of a job answers.
use workcentre_3119_modern_d.Prelude.{
  ℕ, zero, suc, ◌+◌, ◌≤◌, ◌<◌, ◌≡◌, ap, Bool, true, false, not, ◌==◌, List, arith, if◌then◌else◌,
}
use workcentre_3119_modern_d.Errors.{ScanStage}
use workcentre_3119_modern_d.Protocol.{Capabilities}
use workcentre_3119_modern_d.Scan.Window.{ColorMode, ScanRequest}
use workcentre_3119_modern_d.Scan.Band.{BandInfo}
use workcentre_3119_modern_d.Scan.Diagnostics.{set_stage, set_opcode, record_band}
use workcentre_3119_modern_d.Scan.Machine.{
  Machine, ImageBand, ScanSummary, Session, Answer, done, ClockLaws, and_then_done,
}
use workcentre_3119_modern_d.Scan.Lives.{
  Lives-refl, Answers, and_then-Answers, caught-Answers, on_error-Answers,
}
use workcentre_3119_modern_d.Scan.Exchange.{plain_command}
use workcentre_3119_modern_d.Scan.Drain.Length.{read_image_band-BandRead}
use workcentre_3119_modern_d.Scan.Drain.Later.{read_image_band-Lives}
use workcentre_3119_modern_d.Scan.Machine.{BufferLaws}
use workcentre_3119_modern_d.Scan.Job.{
  Caller, max_bands, over_limits, image_of, add_band, empty_summary, deliver, metadata,
  metadata_failed, next_band, band_bytes, decode_band, hand_over, one_band, bands_loop, acquire,
}
use workcentre_3119_modern_d.Scan.Job.Parts.{next_band_done, hand_over_done}
use workcentre_3119_modern_d.Scan.Job.Waits.{
  CallerLaws, NotStuck-Answers, Enough, Enough-later, wait-Answers, checkpoint-Answers, at,
  start_scan-Answers,
}

module _ {W : Type 0} (m : Machine W) (c : Caller W) (time : W → ℕ) (laws : ClockLaws m time)
    (buffers : BufferLaws m) (calls : CallerLaws c time) (k deadline : ℕ) where
  pub metadata-Answers :
      (bands : ℕ) (s : Session W)
      → Enough m c time laws buffers calls k deadline s
      → Answers time s (metadata m c (suc k) deadline bands s)
  unfolding metadata metadata_failed
  metadata-Answers bands s h =
      and_then-Answers time s _ _
        (caught-Answers time s _
          (wait-Answers m c time laws buffers calls k deadline 0x28 (not (bands == 0)) s h))
        λ r t q l. ground (arith, laws.cancelled_later t.world)

  pub next_band-Answers :
      (mode : ColorMode) (summary : ScanSummary) (s : Session W)
      → Enough m c time laws buffers calls k deadline s
      → Answers time s (next_band m c (suc k) deadline mode summary s)
  unfolding next_band set_stage
  next_band-Answers mode summary s h =
      and_then-Answers time s _ _ (metadata-Answers summary.bands _ h) λ b t q l. ground arith

  pub band_bytes-Answers :
      (band : BandInfo) (s : Session W) → Answers time s (band_bytes m c (suc k) deadline band s)
  unfolding band_bytes set_stage set_opcode
  band_bytes-Answers band s =
      and_then-Answers time s _ _ (ground (arith, laws.write_later s.world (plain_command 0x29)))
        λ x t q l.
          NotStuck-Answers time t _
            (read_image_band-BandRead m buffers band.length deadline t).answers
            (read_image_band-Lives m time laws band.length deadline t)

  pub decode_band-Answers :
      (mode : ColorMode) (order : ℕ) (summary : ScanSummary) (band : BandInfo) (raw : List ℕ)
      (s : Session W)
      → Answers time s (decode_band m c (suc k) deadline mode order summary band raw s)
  unfolding decode_band set_stage
  decode_band-Answers mode order summary band raw s = ground arith

  pub deliver-Answers :
      (image : ImageBand) (s : Session W) → Answers time s (deliver m c (suc k) deadline image s)
  unfolding deliver
  deliver-Answers image s = ground (arith, calls.sink_later s.world image)

  pub hand_over-Answers :
      (summary : ScanSummary) (image : ImageBand) (s : Session W)
      → Answers time s (hand_over m c (suc k) deadline summary image s)
  unfolding hand_over set_stage record_band
  hand_over-Answers summary image s =
      and_then-Answers time s _ _
        (deliver-Answers image (at m c time laws buffers calls k deadline ScanStage.consumer s))
        λ x t q l.
          and_then-Answers time t _ _
            (on_error-Answers time t _ _
              (checkpoint-Answers m c time laws buffers calls k deadline _))
            λ y u q2 l2. Lives-refl time u

  pub one_band-Answers :
      (mode : ColorMode) (order : ℕ) (summary : ScanSummary) (s : Session W)
      → Enough m c time laws buffers calls k deadline s
      → Answers time s (one_band m c (suc k) deadline mode order summary s)
  unfolding one_band
  one_band-Answers mode order summary s h =
      and_then-Answers time s _ _ (next_band-Answers mode summary s h) λ band t q l.
        and_then-Answers time t _ _ (band_bytes-Answers band t) λ raw u q2 l2.
          and_then-Answers time u _ _ (decode_band-Answers mode order summary band raw u)
            λ pixels v q3 l3.
              and_then-Answers time v _ _
                (hand_over-Answers summary (image_of band mode pixels raw) v)
                λ summary' w q4 l4. Lives-refl time w

  -- A band counts once, up to the limit.
  pub one_band_counts :
      (mode : ColorMode) (order : ℕ) (summary summary' : ScanSummary) (last : Bool) (s : Session W)
      → (one_band m c (suc k) deadline mode order summary s).0 ≡ done (summary', last)
      → (summary'.bands ≡ suc summary.bands) × (summary'.bands ≤ max_bands)
  unfolding one_band over_limits add_band
  one_band_counts mode order summary summary' last s e =
      let (band, q, e1) = and_then_done (next_band m c (suc k) deadline mode summary s) _ _ e in
      let t = (next_band m c (suc k) deadline mode summary s).1 in
      let (raw, q2, e2) = and_then_done (band_bytes m c (suc k) deadline band t) _ _ e1 in
      let u = (band_bytes m c (suc k) deadline band t).1 in
      let (pixels, q3, e3) =
        and_then_done (decode_band m c (suc k) deadline mode order summary band raw u) _ _ e2 in
      let v = (decode_band m c (suc k) deadline mode order summary band raw u).1 in
      let image = image_of band mode pixels raw in
      let (next, q4, e4) = and_then_done (hand_over m c (suc k) deadline summary image v) _ _ e3 in
      ground (
        arith,
        next_band_done m c (suc k) deadline mode summary s band q,
        hand_over_done m c (suc k) deadline summary image v next q4,
      )

  pub bands_loop-Answers :
      (rounds : ℕ) (mode : ColorMode) (order : ℕ) (summary : ScanSummary) (s : Session W)
      → Enough m c time laws buffers calls k deadline s
      → summary.bands ≤ max_bands
      → max_bands < summary.bands + rounds
      → Answers time s (bands_loop m c (suc k) deadline rounds mode order summary s)
  unfolding bands_loop
  bands_loop-Answers zero mode order summary s h few lt = omega arith
  bands_loop-Answers (suc rounds) mode order summary s h few lt =
      and_then-Answers time s _ _ (one_band-Answers mode order summary s h) λ (next, last) t q l.
        let counts =
          one_band_counts mode order summary next last s
            (ap (λ (r : Answer (ScanSummary × Bool) × Session W). r.0) q) in
        elim last
          as (λ b. Answers time t (
            if b
            then (done next, t)
            else bands_loop m c (suc k) deadline rounds mode order next t)) [
              | true ↦ Lives-refl time t
              | false ↦
                  bands_loop-Answers rounds mode order next t
                    (Enough-later m c time laws buffers calls k deadline s t l h) counts.1
                    (omega arith)
            ]

  pub acquire-Answers :
      (request : ScanRequest) (window : List ℕ) (caps : Capabilities) (s : Session W)
      → Enough m c time laws buffers calls k deadline s
      → Answers time s (acquire m c (suc k) deadline request window caps s)
  unfolding acquire
  acquire-Answers request window caps s h =
      and_then-Answers time s _ _
        (start_scan-Answers m c time laws buffers calls k deadline window s h)
        λ x t q l.
          bands_loop-Answers (max_bands + 1) request.mode caps.line_order empty_summary t
            (Enough-later m c time laws buffers calls k deadline s t l h) (omega arith)
            (omega arith)
