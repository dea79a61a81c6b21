-- ===== src/Scan/Job/Totals.antt =====
-- The summary of a job adds up exactly what its consumer was given.
use workcentre_3119_modern_d.Prelude.{
  ℕ, zero, suc, ◌+◌, ◌*◌, ◌^◌, ◌≤◌, ◌<◌, ◌≡◌, ◌⊎◌, inl, inr, refl, Bool, false, Bool-cases, List,
  [], ◌∷◌, arith, length, All,
}
use mathlib.Core.Path.{subst}
use workcentre_3119_modern_d.Errors.{ok}
use workcentre_3119_modern_d.Scan.Window.{ColorMode, gray, rgb, channels}
use workcentre_3119_modern_d.Scan.Band
use workcentre_3119_modern_d.Scan.Band.{BandInfo}
use workcentre_3119_modern_d.Scan.Band.Meta.{IsBand, parse-IsBand}
use workcentre_3119_modern_d.Scan.Band.Planar.{decode_planar, decode_plain, decode_order}
use workcentre_3119_modern_d.Scan.Machine.{
  Machine, ImageBand, ScanSummary, Session, done, Answer-cases, BufferLaws,
}
use workcentre_3119_modern_d.Scan.Job.{
  Caller, max_bands, max_job_bytes, over_limits, image_of, add_band, one_band, next_band,
  band_bytes, decode_band, hand_over, bands_loop,
}
use workcentre_3119_modern_d.Scan.Job.Parts.{
  next_band_done, band_bytes_done, decode_band_done, hand_over_done,
}

abbrev pub total_rows : List ImageBand → ℕ
total_rows [] = 0
total_rows (i ∷ is) = total_rows is + i.rows

abbrev pub total_bytes : List ImageBand → ℕ
total_bytes [] = 0
total_bytes (i ∷ is) = total_bytes is + length i.pixels

-- A delivered image: not empty, with as many samples as its size and mode say.
pub record IsImage (mode : ColorMode) (width : ℕ) (i : ImageBand) : Type 0 where
  pub same_mode : i.mode ≡ mode
  pub same_width : i.width ≡ width
  pub high : 0 < i.rows
  pub filled : length i.pixels ≡ i.width * i.rows * channels mode

-- The summary of the bands delivered so far, and the job's limits.
pub record IsTotal (mode : ColorMode) (is : List ImageBand) (summary : ScanSummary) : Type 0 where
  pub bands : summary.bands ≡ length is
  pub height : summary.height ≡ total_rows is
  pub bytes : summary.bytes ≡ total_bytes is
  pub images : All (IsImage mode summary.width) is
  pub few : summary.bands ≤ max_bands
  pub bounded : summary.bytes ≤ max_job_bytes
  pub fits : summary.height < 2 ^ 32
  pub wide : 0 < summary.bands → 0 < summary.width

decode-filled :
    (band : BandInfo) (raw pixels : List ℕ) (mode : ColorMode) (order : ℕ)
    → IsBand band mode
    → Band.decode band raw mode order ≡ ok pixels
    → length pixels ≡ band.width * band.rows * channels mode
decode-filled band raw pixels gray order v e =
    (decode_plain band raw gray order pixels (inl refl) v.holds e).0
decode-filled band raw pixels rgb zero v e =
    (decode_plain band raw rgb zero pixels (inr refl) v.holds e).0
decode-filled band raw pixels rgb (suc zero) v e =
    omega (arith, (decode_planar band raw pixels v.wide v.holds e).0)
decode-filled band raw pixels rgb (suc (suc n)) v e =
    absurd (omega (arith, decode_order band raw (suc (suc n)) pixels e))

within_limits :
    (summary : ScanSummary) (band : BandInfo)
    → over_limits summary band ≡ false
    → (0 < summary.bands → 0 < summary.width)
    → (summary.bands < max_bands)
      × (summary.bytes + band.length ≤ max_job_bytes)
      × ((summary.bands ≡ 0) ⊎ (summary.width ≡ band.width))
unfolding over_limits
within_limits summary band lim wide = ground arith

same_images :
    (mode : ColorMode) (is : List ImageBand) (w w' n : ℕ)
    → n ≡ length is
    → (n ≡ 0) ⊎ (w ≡ w')
    → All (IsImage mode w) is
    → All (IsImage mode w') is
same_images mode [] w w' n e h a = tt
same_images mode (i ∷ is) w w' n e (inl z) a = absurd (omega arith)
same_images mode (i ∷ is) w w' n e (inr p) a = subst (λ (t : ℕ). All (IsImage mode t) (i ∷ is)) p a

add_band-IsTotal :
    (mode : ColorMode) (is : List ImageBand) (summary : ScanSummary) (band : BandInfo)
    (pixels raw : List ℕ)
    → IsTotal mode is summary
    → IsBand band mode
    → over_limits summary band ≡ false
    → length pixels ≡ band.width * band.rows * channels mode
    → summary.height + band.rows < 2 ^ 32
    → IsTotal mode
        (image_of band mode pixels raw ∷ is)
        (add_band summary (image_of band mode pixels raw))
unfolding add_band image_of
add_band-IsTotal mode is summary band pixels raw t v lim e h =
    let (few, room, width) = within_limits summary band lim t.wide in
    record {
      bands = omega (arith, t.bands);
      height = omega (arith, t.height);
      bytes = omega (arith, t.bytes);
      images = (
        record { same_mode = refl; same_width = refl; high = v.high; filled = e },
        same_images mode is summary.width band.width summary.bands t.bands width t.images,
      );
      few = omega arith;
      bounded = omega (arith, e, v.holds);
      fits = h;
      wide = λ p. v.wide;
    }

pub IsTotal-along :
    (mode : ColorMode) (is is' : List ImageBand) (summary summary' : ScanSummary)
    → is' ≡ is
    → summary' ≡ summary
    → IsTotal mode is summary
    → IsTotal mode is' summary'
IsTotal-along mode is is' summary summary' p q t = rw (p, q) t

module _ {W : Type 0} (m : Machine W) (c : Caller W) (fuel deadline : ℕ) (laws : BufferLaws m) where
  -- A band that was handed over is in the summary, and nothing else changed hands.
  one_band-IsTotal :
      (mode : ColorMode) (order : ℕ) (summary summary' : ScanSummary) (last : Bool) (s : Session W)
      → IsTotal mode s.delivered summary
      → (one_band m c fuel deadline mode order summary s).0 ≡ done (summary', last)
      → IsTotal mode (one_band m c fuel deadline mode order summary s).1.delivered summary'
        × ((one_band m c fuel deadline mode order summary s).1.deferred_failed ≡ s.deferred_failed)
  unfolding one_band
  one_band-IsTotal mode order summary summary' last s t e =
      elim (Answer-cases (next_band m c fuel deadline mode summary s).0) [
        | inl (band, q) ↦
            let s1 = (next_band m c fuel deadline mode summary s).1 in
            let (kept1, lim, (b, parsed)) =
              next_band_done m c fuel deadline mode summary s band q in
            elim (Answer-cases (band_bytes m c fuel deadline band s1).0) [
              | inl (raw, q2) ↦
                  let s2 = (band_bytes m c fuel deadline band s1).1 in
                  let (kept2, len) = band_bytes_done m c fuel deadline band s1 raw laws q2 in
                  elim (Answer-cases
                    (decode_band m c fuel deadline mode order summary band raw s2).0) [
                      | inl (pixels, q3) ↦
                          let s3 =
                            (decode_band m c fuel deadline mode order summary band raw s2).1 in
                          let (kept3, decoded, h) =
                            decode_band_done m c fuel deadline mode order summary band raw s2 pixels
                              q3 in
                          let v = (parse-IsBand b mode band parsed).0 in
                          let total =
                            add_band-IsTotal mode s.delivered summary band pixels raw t v lim
                              (decode-filled band raw pixels mode order v decoded) h in
                          elim (Answer-cases
                            (hand_over m c fuel deadline summary (image_of band mode pixels raw)
                              s3).0) [
                                | inl (next, q4) ↦
                                    let handed =
                                      hand_over_done m c fuel deadline summary
                                        (image_of band mode pixels raw) s3 next q4 in
                                    (
                                      IsTotal-along mode _ _ _ _ (ground arith) (ground arith)
                                          total,
                                      ground arith,
                                    )
                                | inr (inl (x, q4)) ↦ ground arith
                                | inr (inr q4) ↦ ground arith
                              ]
                      | inr (inl (x, q3)) ↦ ground arith
                      | inr (inr q3) ↦ ground arith
                    ]
              | inr (inl (x, q2)) ↦ ground arith
              | inr (inr q2) ↦ ground arith
            ]
        | inr (inl (x, q)) ↦ ground arith
        | inr (inr q) ↦ ground arith
      ]

  pub bands_loop-IsTotal :
      (rounds : ℕ) (mode : ColorMode) (order : ℕ) (summary summary' : ScanSummary) (s : Session W)
      → IsTotal mode s.delivered summary
      → (bands_loop m c fuel deadline rounds mode order summary s).0 ≡ done summary'
      → IsTotal mode (bands_loop m c fuel deadline rounds mode order summary s).1.delivered summary'
        × ((bands_loop m c fuel deadline rounds mode order summary s).1.deferred_failed
            ≡ s.deferred_failed)
  unfolding bands_loop
  bands_loop-IsTotal zero mode order summary summary' s t e = ground arith
  bands_loop-IsTotal (suc rounds) mode order summary summary' s t e =
      elim (Answer-cases (one_band m c fuel deadline mode order summary s).0) [
        | inl ((next, last), q) ↦
            let s1 = (one_band m c fuel deadline mode order summary s).1 in
            let (t1, kept) = one_band-IsTotal mode order summary next last s t q in
            elim (Bool-cases last) [
              | inl l ↦ (IsTotal-along mode _ _ _ _ (ground arith) (ground arith) t1, ground arith)
              | inr l ↦
                  let (t2, kept2) =
                    bands_loop-IsTotal rounds mode order next summary' s1 t1 (ground arith) in
                  (IsTotal-along mode _ _ _ _ (ground arith) refl t2, ground arith)
            ]
        | inr (inl (x, q)) ↦ ground arith
        | inr (inr q) ↦ ground arith
      ]
