-- ===== src/Scan/Drain/Later.antt =====
-- Reading a band lets the clock run on.
use workcentre_3119_modern_d.Prelude.{
  ℕ, zero, suc, ◌+◌, ◌-◌, inl, inr, Bool, true, false, List, Option, none, some, arith, length,
  Bool-cases, ltb, if◌then◌else◌,
}
use workcentre_3119_modern_d.Errors.{IoError, Result, ok, err, text, timed_out}
use workcentre_3119_modern_d.Scan.Diagnostics.{set_stage}
use workcentre_3119_modern_d.Scan.Machine.{
  Machine, Session, ClockLaws, read, and_then, caught, pure,
}
use workcentre_3119_modern_d.Scan.Lives.{Lives, Lives-refl, and_then-Lives}
use workcentre_3119_modern_d.Scan.Exchange.{checkpoint}
use workcentre_3119_modern_d.Scan.Drain.{
  Progress, give_up, capacity_for, note_failure, start_drain, drain_expired, take_in, read_outcome,
  drain_round, drain_loop, conclude, read_image_band,
}

module _ {W : Type 0} (m : Machine W) (time : W → ℕ) (laws : ClockLaws m time) where
  pub checkpoint-Lives : (deadline : ℕ) (s : Session W) → Lives time s (checkpoint m deadline s).1
  unfolding checkpoint
  checkpoint-Lives deadline s =
      ground (arith, laws.cancelled_later s.world, laws.now_reads (m.cancelled s.world).1)

  note_failure-Lives :
      (deadline : ℕ) (f : Option IoError) (s : Session W)
      → Lives time s (note_failure m deadline f s).1
  unfolding note_failure
  note_failure-Lives deadline none s = ground (arith, checkpoint-Lives deadline s)
  note_failure-Lives deadline (some e) s = Lives-refl time s

  start_drain-Lives :
      (f : Option IoError) (d : Option ℕ) (s : Session W) → Lives time s (start_drain m f d s).1
  unfolding start_drain
  start_drain-Lives none d s = Lives-refl time s
  start_drain-Lives (some e) none s = ground (arith, laws.now_reads s.world)
  start_drain-Lives (some e) (some d) s = Lives-refl time s

  drain_expired-Lives : (d : Option ℕ) (s : Session W) → Lives time s (drain_expired m d s).1
  unfolding drain_expired
  drain_expired-Lives none s = Lives-refl time s
  drain_expired-Lives (some d) s = ground (arith, laws.now_reads s.world)

  take_in-Lives :
      (len capacity : ℕ) (p : Progress) (count : ℕ) (buffer : List ℕ) (s : Session W)
      → Lives time s (take_in m len capacity p count buffer s).1
  unfolding take_in
  take_in-Lives len capacity p count buffer s = ground arith

  read-Lives : (capacity : ℕ) (s : Session W) → Lives time s (read m capacity s).1
  read-Lives capacity s = ground (arith, laws.read_later s.world capacity)

  read_outcome-Lives :
      (len capacity : ℕ) (p : Progress) (r : Result (ℕ × List ℕ)) (s : Session W)
      → Lives time s (read_outcome m len capacity p r s).1
  read_outcome-Lives len capacity p (ok (count, buffer)) s =
      take_in-Lives len capacity p count buffer s
  read_outcome-Lives len capacity p (err e) s = Lives-refl time s

  read_case :
      (len capacity : ℕ) (p : Progress) (s : Session W)
      → Lives time s (and_then (caught (read m capacity s)) (read_outcome m len capacity p)).1
  read_case len capacity p s =
      and_then-Lives time s (caught (read m capacity s)) _ (ground (arith, read-Lives capacity s))
        λ r t. read_outcome-Lives len capacity p r t

  read_unless_expired :
      (len : ℕ) (expired : Bool) (f : Option IoError) (p : Progress) (s : Session W)
      → Lives time s
          (and_then ((if expired then give_up m f (text timed_out) else pure tt) s) λ _ t.
            and_then
              (caught
                (read m (capacity_for (len - length p.raw) t.diagnostics.read_buffer_bytes) t))
              (read_outcome m len
                (capacity_for (len - length p.raw) t.diagnostics.read_buffer_bytes)
                p)).1
  read_unless_expired len true f p s = Lives-refl time s
  read_unless_expired len false f p s = read_case len _ p s

  drain_round-Lives :
      (len deadline : ℕ) (p : Progress) (s : Session W)
      → Lives time s (drain_round m len deadline p s).1
  unfolding drain_round
  drain_round-Lives len deadline p s =
      and_then-Lives time s (note_failure m deadline p.failure s) _
        (note_failure-Lives deadline p.failure s)
        λ f t.
          and_then-Lives time t (start_drain m f p.drain_deadline t) _
            (start_drain-Lives f p.drain_deadline t)
            λ d u.
              and_then-Lives time u (drain_expired m d u) _ (drain_expired-Lives d u) λ expired v.
                read_unless_expired len expired f (record p { failure = f; drain_deadline = d }) v

  drain_loop-Lives :
      (fuel len deadline : ℕ) (p : Progress) (s : Session W)
      → Lives time s (drain_loop m fuel len deadline p s).1
  unfolding drain_loop
  drain_loop-Lives zero len deadline p s = Lives-refl time s
  drain_loop-Lives (suc fuel) len deadline p s = elim (Bool-cases (ltb (length p.raw) len)) [
    | inl e ↦ rw e (
        and_then-Lives time s _ _ (drain_round-Lives len deadline p s)
          λ p' t. drain_loop-Lives fuel len deadline p' t)
    | inr e ↦ rw e (Lives-refl time s)
  ]

  conclude-Lives :
      (deadline : ℕ) (p : Progress) (s : Session W) → Lives time s (conclude m deadline p s).1
  unfolding conclude
  conclude-Lives deadline p s =
      ground (arith, checkpoint-Lives deadline (record s { synchronized = true }))

  pub read_image_band-Lives :
      (len deadline : ℕ) (s : Session W) → Lives time s (read_image_band m len deadline s).1
  unfolding read_image_band set_stage
  read_image_band-Lives len deadline s =
      and_then-Lives time s _ _ (drain_loop-Lives (len + 2) len deadline _ _)
        λ p t. conclude-Lives deadline p t
