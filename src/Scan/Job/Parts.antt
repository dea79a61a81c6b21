-- ===== src/Scan/Job/Parts.antt =====
-- What the parts of a job leave alone, and what their success says.
use workcentre_3119_modern_d.Prelude.{
  ℕ, ◌+◌, ◌^◌, ◌<◌, ◌≡◌, inl, inr, Bool, false, not, List, ◌∷◌, arith, ◌==◌, length,
}
use workcentre_3119_modern_d.Errors.{ScanStage, ok}
use workcentre_3119_modern_d.Scan.Window.{ColorMode}
use workcentre_3119_modern_d.Scan.Band
use workcentre_3119_modern_d.Scan.Band.{BandInfo}
use workcentre_3119_modern_d.Scan.Diagnostics.{set_stage, set_opcode}
use workcentre_3119_modern_d.Scan.Machine.{
  Machine, ImageBand, ScanSummary, Session, done, Answer-cases, BufferLaws,
}
use workcentre_3119_modern_d.Scan.Exchange.{ready_with_attempt, checkpoint, plain_command}
use workcentre_3119_modern_d.Scan.Exchange.Frame.{Waited, ready_with_attempt-Waited}
use workcentre_3119_modern_d.Scan.Drain.Length.{read_image_band-BandRead}
use workcentre_3119_modern_d.Scan.Job.{
  Caller, over_limits, add_band, deliver, metadata, metadata_failed, next_band, band_bytes,
  decode_band, hand_over,
}

module _ {W : Type 0} (m : Machine W) (c : Caller W) (fuel deadline : ℕ) where
  waited :
      (opcode : ℕ) (cancel : Bool) (s : Session W)
      → Waited m opcode cancel deadline s
          (ready_with_attempt m fuel opcode cancel deadline s).0
          (ready_with_attempt m fuel opcode cancel deadline s).1
  waited opcode cancel s = ready_with_attempt-Waited m opcode cancel deadline fuel s

  -- The job's own variables after a part that answered.
  abbrev pub Kept : Session W → Session W → Type 0
  Kept s s' = (s'.delivered ≡ s.delivered) × (s'.deferred_failed ≡ s.deferred_failed)

  metadata_done :
      (bands : ℕ) (s : Session W) (b : List ℕ)
      → (metadata m c fuel deadline bands s).0 ≡ done b
      → Kept s (metadata m c fuel deadline bands s).1
  unfolding metadata metadata_failed
  metadata_done bands s b e = ground (arith, (waited 0x28 (not (bands == 0)) s).leaves)

  abbrev at_metadata : Session W → Session W
  at_metadata s = record s { diagnostics = set_stage s.diagnostics ScanStage.read_metadata }

  pub next_band_done :
      (mode : ColorMode) (summary : ScanSummary) (s : Session W) (band : BandInfo)
      → (next_band m c fuel deadline mode summary s).0 ≡ done band
      → Kept s (next_band m c fuel deadline mode summary s).1
        × (over_limits summary band ≡ false)
        × ((b : List ℕ) × (Band.parse b mode ≡ ok band))
  unfolding next_band
  next_band_done mode summary s band e =
      elim (Answer-cases (metadata m c fuel deadline summary.bands (at_metadata s)).0) [
        | inl (b, q) ↦ (
          ground (arith, metadata_done summary.bands (at_metadata s) b q),
          ground arith,
          (b, ground arith),
        )
        | inr (inl (x, q)) ↦ ground arith
        | inr (inr q) ↦ ground arith
      ]

  -- The state in which the bytes of a band are read.
  abbrev pub asked : Session W → Session W
  asked s = record s {
    world = (m.write s.world (plain_command 0x29)).1;
    synchronized = false;
    diagnostics = set_opcode (set_stage s.diagnostics ScanStage.read_image) 0x29;
    sent = plain_command 0x29 ∷ s.sent;
  }

  pub band_bytes_done :
      (band : BandInfo) (s : Session W) (raw : List ℕ)
      → BufferLaws m
      → (band_bytes m c fuel deadline band s).0 ≡ done raw
      → Kept s (band_bytes m c fuel deadline band s).1 × (length raw ≡ band.length)
  unfolding band_bytes
  band_bytes_done band s raw laws e =
      let r = read_image_band-BandRead m laws band.length deadline (asked s) in
      (ground (arith, r), ground (arith, r.whole raw))

  pub decode_band_done :
      (mode : ColorMode) (order : ℕ) (summary : ScanSummary) (band : BandInfo) (raw : List ℕ)
      (s : Session W) (pixels : List ℕ)
      → (decode_band m c fuel deadline mode order summary band raw s).0 ≡ done pixels
      → Kept s (decode_band m c fuel deadline mode order summary band raw s).1
        × (Band.decode band raw mode order ≡ ok pixels)
        × (summary.height + band.rows < 2 ^ 32)
  unfolding decode_band
  decode_band_done mode order summary band raw s pixels e = ground arith

  pub hand_over_done :
      (summary : ScanSummary) (image : ImageBand) (s : Session W) (summary' : ScanSummary)
      → (hand_over m c fuel deadline summary image s).0 ≡ done summary'
      → (summary' ≡ add_band summary image)
        × ((hand_over m c fuel deadline summary image s).1.delivered ≡ image ∷ s.delivered)
        × ((hand_over m c fuel deadline summary image s).1.deferred_failed ≡ s.deferred_failed)
  unfolding hand_over deliver checkpoint
  hand_over_done summary image s summary' e = ground arith
