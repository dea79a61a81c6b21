-- ===== src/Scan/Drain/Length.antt =====
-- Reading a band ends, and leaves the stream synchronized exactly when all its bytes were read.
use workcentre_3119_modern_d.Prelude.{
  ℕ, zero, suc, ◌+◌, ◌<◌, ◌≡◌, inl, inr, refl, ap, ◌∙◌, true, false, List, [], arith, ltb, length,
  none, Bool-cases,
}
use workcentre_3119_modern_d.Errors.{ScanStage}
use workcentre_3119_modern_d.Scan.Diagnostics.{set_stage}
use workcentre_3119_modern_d.Scan.Machine.{
  Machine, Session, Answer, done, failed, stuck, Answer-cases, and_then, BufferLaws,
}
use workcentre_3119_modern_d.Scan.Exchange.{checkpoint}
use workcentre_3119_modern_d.Scan.Exchange.Sync.{NotStuck}
use workcentre_3119_modern_d.Scan.Drain.{
  Progress, drain_round, drain_loop, conclude, read_image_band,
}
use workcentre_3119_modern_d.Scan.Drain.Round.{Drains, left, Within, RoundLem, round_lem}

module _ {W : Type 0} (m : Machine W) where
  module _ (laws : BufferLaws m) (len deadline : ℕ) where
    abbrev Looped : Session W → Answer Progress × Session W → Type 0
    Looped s (done p, s') = (length p.raw ≡ len) × Drains m s s'
    Looped s (failed e, s') = Drains m s s'
    Looped s (stuck, s') = ⊥

    Drains-trans : (s t u : Session W) → Drains m s t → Drains m t u → Drains m s u
    Drains-trans s t u a b = ground (arith, a, b)

    Looped-trans :
        (s t : Session W) (r : Answer Progress × Session W) → Drains m s t → Looped t r → Looped s r
    Looped-trans s t (done p, u) d l = (l.0, Drains-trans s t u d l.1)
    Looped-trans s t (failed e, u) d l = Drains-trans s t u d l
    Looped-trans s t (stuck, u) d l = l

    round_at : (p : Progress) (s : Session W) → RoundLem m laws len deadline p s
    round_at p s = round_lem m laws len deadline p s

    drain_loop-Looped :
        (fuel : ℕ) (p : Progress) (s : Session W)
        → Within m len p
        → left m len p < fuel
        → Looped s (drain_loop m fuel len deadline p s)
    unfolding drain_loop
    drain_loop-Looped zero p s v h = absurd (omega arith)
    drain_loop-Looped (suc fuel) p s v h = elim (Bool-cases (ltb (length p.raw) len)) [
      | inr full ↦ ground arith
      | inl more ↦ elim (Answer-cases (drain_round m len deadline p s).0) [
        | inl (p', q) ↦
            let (ns, d, go) = round_at p s in
            let (v', lt) = go p' v q in
            rw (more, q, drain_loop)
              (Looped-trans s (drain_round m len deadline p s).1 _ d
                (drain_loop-Looped fuel p' (drain_round m len deadline p s).1 v' (omega arith)))
        | inr (inl (e, q)) ↦ ground (arith, round_at p s)
        | inr (inr q) ↦ ground (arith, round_at p s)
      ]
    ]

    abbrev entered : Session W → Session W
    entered s = record s {
      synchronized = false;
      diagnostics = set_stage s.diagnostics ScanStage.read_image;
    }

    abbrev start : Progress
    start = record { raw = []; failure = none; drain_deadline = none; empty_reads = 0 }

    -- How reading a band ends, between the state before and the state after it.
    pub record BandRead (s : Session W) (answer : Answer (List ℕ)) (s' : Session W) : Type 0 where
      pub answers : NotStuck answer
      pub sent : s'.sent ≡ s.sent
      pub delivered : s'.delivered ≡ s.delivered
      pub deferred : s'.deferred_failed ≡ s.deferred_failed
      pub interval : s'.diagnostics.read_poll_interval ≡ s.diagnostics.read_poll_interval
      pub drained :
          s'.synchronized ≡ true
          → (p : Progress) × ((drain_loop m (len + 2) len deadline start (entered s)).0 ≡ done p)
            × (length p.raw ≡ len)
      pub complete :
          (p : Progress)
          → (drain_loop m (len + 2) len deadline start (entered s)).0 ≡ done p
          → s'.synchronized ≡ true
      pub whole : (raw : List ℕ) → answer ≡ done raw → (length raw ≡ len) × (s'.synchronized ≡ true)

    looped :
        (s : Session W) → Looped (entered s) (drain_loop m (len + 2) len deadline start (entered s))
    looped s = drain_loop-Looped (len + 2) start (entered s) (omega arith) (omega arith)

    conclude-keeps :
        (p : Progress) (s : Session W)
        → NotStuck (conclude m deadline p s).0
          × ((conclude m deadline p s).1.synchronized ≡ true)
          × ((conclude m deadline p s).1.sent ≡ s.sent)
          × ((conclude m deadline p s).1.delivered ≡ s.delivered)
          × ((conclude m deadline p s).1.deferred_failed ≡ s.deferred_failed)
          × ((conclude m deadline p s).1.diagnostics ≡ s.diagnostics)
          × ((raw : List ℕ) → (conclude m deadline p s).0 ≡ done raw → raw ≡ p.raw)
    unfolding conclude checkpoint
    conclude-keeps p s = ground arith

    read_band_is :
        (s : Session W) (r : Answer Progress × Session W)
        → drain_loop m (len + 2) len deadline start (entered s) ≡ r
        → read_image_band m len deadline s ≡ and_then r (conclude m deadline)
    unfolding read_image_band
    read_band_is s r q =
        ap (λ (t : Answer Progress × Session W). and_then t (conclude m deadline)) q

    -- The band's outcome, from the loop's.
    band_read :
        (s : Session W) (r : Answer Progress × Session W)
        → drain_loop m (len + 2) len deadline start (entered s) ≡ r
        → Looped (entered s) r
        → BandRead s (read_image_band m len deadline s).0 (read_image_band m len deadline s).1
    unfolding set_stage
    band_read s (done p, t) q l =
        let k = conclude-keeps p t in
        rw (read_band_is s (done p, t) q) (record {
          answers = k.0;
          sent = k.2 ∙ l.1.sent;
          delivered = k.3 ∙ l.1.delivered;
          deferred = k.4 ∙ l.1.deferred;
          interval = ground (arith, k, l);
          drained = λ h. (p, ap (λ (x : Answer Progress × Session W). x.0) q, l.0);
          complete = λ p' h. k.1;
          whole = λ raw h. (ap length (k.6 raw h) ∙ l.0, k.1);
        })
    band_read s (failed e, t) q l = rw (read_band_is s (failed e, t) q) (record {
      answers = tt;
      sent = l.sent;
      delivered = l.delivered;
      deferred = l.deferred;
      interval = ground (arith, l);
      drained = λ h. cc (l.synchronized, h);
      complete = λ p' h. cc (ap (λ (x : Answer Progress × Session W). x.0) q, h);
      whole = λ raw h. cc h;
    })
    band_read s (stuck, t) q l = absurd l

    -- Where a buffer keeps its length, reading a band gives an answer within its fuel, and sends and
    -- delivers nothing. The stream is synchronized afterwards exactly when the loop read all `len`
    -- bytes, also where it then fails; bytes that are returned are `len` many.
    pub read_image_band-BandRead :
        (s : Session W)
        → BandRead s (read_image_band m len deadline s).0 (read_image_band m len deadline s).1
    read_image_band-BandRead s = band_read s _ refl (looped s)
