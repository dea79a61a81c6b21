-- ===== src/Scan/Drain/Round.antt =====
-- One round of `read_image_band`: what it keeps, and that it comes nearer to the end.
use workcentre_3119_modern_d.Prelude.{
  ℕ, ◌+◌, ◌-◌, ◌≤◌, ◌<◌, ◌≡◌, ◌⊎◌, inl, inr, refl, true, false, List, arith, length, take,
  length-take, length-append, Option, none, some,
}
use workcentre_3119_modern_d.Errors.{IoError, Result, text, timed_out, Result-cases}
use workcentre_3119_modern_d.Scan.Diagnostics.{error}
use workcentre_3119_modern_d.Scan.Machine.{Machine, Session, done, failed, Answer-cases, BufferLaws}
use workcentre_3119_modern_d.Scan.Exchange.{checkpoint}
use workcentre_3119_modern_d.Scan.Exchange.Sync.{NotStuck}
use workcentre_3119_modern_d.Scan.Drain.{
  Progress, capacity_for, drain_failed, note_failure, start_drain, drain_expired, take_in,
  drain_round,
}

module _ {W : Type 0} (m : Machine W) where
  -- What no step of the drain changes.
  pub record Drains (s s' : Session W) : Type 0 where
    pub sent : s'.sent ≡ s.sent
    pub synchronized : s'.synchronized ≡ s.synchronized
    pub delivered : s'.delivered ≡ s.delivered
    pub deferred : s'.deferred_failed ≡ s.deferred_failed
    pub diagnostics : s'.diagnostics ≡ s.diagnostics

  note_failure-Drains :
      (deadline : ℕ) (f : Option IoError) (s : Session W) → Drains s (note_failure m deadline f s).1
  unfolding note_failure checkpoint
  note_failure-Drains deadline none s = ground arith
  note_failure-Drains deadline (some e) s = ground arith

  note_failure-NotStuck :
      (deadline : ℕ) (f : Option IoError) (s : Session W) → NotStuck (note_failure m deadline f s).0
  unfolding note_failure checkpoint
  note_failure-NotStuck deadline none s = ground arith
  note_failure-NotStuck deadline (some e) s = ground arith

  start_drain-Drains :
      (f : Option IoError) (d : Option ℕ) (s : Session W)
      → Drains s (start_drain m f d s).1 × NotStuck (start_drain m f d s).0
  unfolding start_drain
  start_drain-Drains none none s = ground arith
  start_drain-Drains none (some t) s = ground arith
  start_drain-Drains (some e) none s = ground arith
  start_drain-Drains (some e) (some t) s = ground arith

  drain_expired-Drains :
      (d : Option ℕ) (s : Session W)
      → Drains s (drain_expired m d s).1 × NotStuck (drain_expired m d s).0
  unfolding drain_expired
  drain_expired-Drains none s = ground arith
  drain_expired-Drains (some t) s = ground arith

  -- How much a round may still take, and how many empty reads.
  abbrev pub left : ℕ → Progress → ℕ
  left len p = (len - length p.raw) + (1 - p.empty_reads)

  abbrev pub Within : ℕ → Progress → Type 0
  Within len p = (length p.raw ≤ len) × (p.empty_reads ≤ 1)

  take_in_progress :
      (len capacity : ℕ) (p p' : Progress) (count : ℕ) (buffer : List ℕ) (s : Session W)
      → Within len p
      → length buffer ≡ capacity
      → (take_in m len capacity p count buffer s).0 ≡ done p'
      → Within len p' × (left len p' < left len p)
  unfolding take_in
  take_in_progress len capacity p p' count buffer s v e h =
      ground (arith, length-take count buffer, length-append p.raw (take count buffer))

  take_in-Drains :
      (len capacity : ℕ) (p : Progress) (count : ℕ) (buffer : List ℕ) (s : Session W)
      → Drains s (take_in m len capacity p count buffer s).1
        × NotStuck (take_in m len capacity p count buffer s).0
  unfolding take_in
  take_in-Drains len capacity p count buffer s = ground arith

  module _ (laws : BufferLaws m) (len deadline : ℕ) (p : Progress) (s : Session W) where
    -- A round fails, or takes in what a read brought.
    abbrev Reads : Option IoError → Option ℕ → ℕ → List ℕ → Session W → Type 0
    Reads f d count buffer s' =
        (drain_round m len deadline p s
          ≡ take_in m len (length buffer) (record p { failure = f; drain_deadline = d }) count
              buffer s')
        × Drains s s'

    abbrev RoundCases : Type 0
    RoundCases =
        ((e : IoError) × ((drain_round m len deadline p s).0 ≡ failed e)
          × Drains s (drain_round m len deadline p s).1)
        ⊎ ((f : Option IoError) × (d : Option ℕ) × (count : ℕ) × (buffer : List ℕ) × (s' : Session
              W)
            × Reads f d count buffer s')

    abbrev noted : Session W
    noted = (note_failure m deadline p.failure s).1

    abbrev timed : Option IoError → Session W
    timed f = (start_drain m f p.drain_deadline noted).1

    abbrev checked : Option IoError → Option ℕ → Session W
    checked f d = (drain_expired m d (timed f)).1

    abbrev capacity : Option IoError → Option ℕ → ℕ
    capacity f d = capacity_for (len - length p.raw) (checked f d).diagnostics.read_buffer_bytes

    abbrev reading : Option IoError → Option ℕ → Result (ℕ × List ℕ) × W
    reading f d = m.read (checked f d).world (capacity f d)

    abbrev after_read : Option IoError → Option ℕ → Session W
    after_read f d = record (checked f d) { world = (reading f d).1 }

    before_read : (f : Option IoError) (d : Option ℕ) → Drains s (checked f d)
    before_read f d = ground (
      arith,
      note_failure-Drains deadline p.failure s,
      start_drain-Drains f p.drain_deadline noted,
      drain_expired-Drains d (timed f),
    )

    read_cases :
        (f : Option IoError) (d : Option ℕ)
        → (note_failure m deadline p.failure s).0 ≡ done f
        → (start_drain m f p.drain_deadline noted).0 ≡ done d
        → (drain_expired m d (timed f)).0 ≡ done false
        → RoundCases
    unfolding drain_round
    read_cases f d q1 q2 q3 = elim (Result-cases (reading f d).0) [
      | inl ((count, buffer), q4) ↦ inr (
        f,
        d,
        count,
        buffer,
        after_read f d,
        (
          ground (arith, laws.keeps_length (checked f d).world (capacity f d) count buffer q4),
          ground (arith, before_read f d),
        ),
      )
      | inr (e, q4) ↦ inl (
        error (checked f d).diagnostics (drain_failed f e),
        ground arith,
        ground (arith, before_read f d),
      )
    ]

    expired_cases :
        (f : Option IoError) (d : Option ℕ)
        → (note_failure m deadline p.failure s).0 ≡ done f
        → (start_drain m f p.drain_deadline noted).0 ≡ done d
        → RoundCases
    unfolding drain_round
    expired_cases f d q1 q2 = elim (Answer-cases (drain_expired m d (timed f)).0) [
      | inl (true, q3) ↦ inl (
        error (checked f d).diagnostics (drain_failed f (text timed_out)),
        ground arith,
        ground (arith, before_read f d),
      )
      | inl (false, q3) ↦ read_cases f d q1 q2 q3
      | inr (inl (e, q3)) ↦ inl (e, ground arith, ground (arith, before_read f d))
      | inr (inr q3) ↦ ground (arith, drain_expired-Drains d (timed f))
    ]

    round_cases : RoundCases
    unfolding drain_round
    round_cases = elim (Answer-cases (note_failure m deadline p.failure s).0) [
      | inl (f, q1) ↦ elim (Answer-cases (start_drain m f p.drain_deadline noted).0) [
        | inl (d, q2) ↦ expired_cases f d q1 q2
        | inr (inl (e, q2)) ↦ inl (
          e,
          ground arith,
          ground (
            arith,
            note_failure-Drains deadline p.failure s,
            start_drain-Drains f p.drain_deadline noted,
          ),
        )
        | inr (inr q2) ↦ ground (arith, start_drain-Drains f p.drain_deadline noted)
      ]
      | inr (inl (e, q1)) ↦
          inl (e, ground arith, ground (arith, note_failure-Drains deadline p.failure s))
      | inr (inr q1) ↦ ground (arith, note_failure-NotStuck deadline p.failure s)
    ]

    -- A round that goes on makes progress and stays within the band.
    abbrev pub RoundLem : Type 0
    RoundLem =
        NotStuck (drain_round m len deadline p s).0
        × Drains s (drain_round m len deadline p s).1
        × ((p' : Progress)
            → Within len p
            → (drain_round m len deadline p s).0 ≡ done p'
            → Within len p' × (left len p' < left len p))

    pub round_lem : RoundLem
    round_lem = elim round_cases [
      | inl (e, q, d) ↦ (ground arith, d, λ p' v h. ground arith)
      | inr (f, d, count, buffer, s', (q, dr)) ↦ rw q (
        ground (
          arith,
          take_in-Drains len (length buffer) (record p { failure = f; drain_deadline = d }) count
              buffer s',
        ),
        ground (
          arith,
          take_in-Drains len (length buffer) (record p { failure = f; drain_deadline = d }) count
              buffer s',
          dr,
        ),
        λ p' v h.
            take_in_progress len (length buffer) (record p { failure = f; drain_deadline = d }) p'
              count buffer s' v refl h,
      )
    ]
