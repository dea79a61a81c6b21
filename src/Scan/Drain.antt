-- ===== src/Scan/Drain.antt =====
-- src/scan.rs: `read_image_band`, which reads one band of a known length, also after a failure.
pub mod Round
pub mod Length
pub mod Later
use workcentre_3119_modern_d.Prelude.{
  ℕ, zero, suc, ◌+◌, ◌-◌, ◌*◌, ◌/◌, Bool, true, false, not, ◌&&◌, ◌||◌, List, [], ◌∷◌, ◌++◌, Option,
  none, some, length, take, leb, ltb, ◌==◌, if◌then◌else◌, is_some, min,
}
use workcentre_3119_modern_d.Errors.{
  IoError, ScanStage, text, reworded, Result, ok, err, invalid_data, timed_out,
}
use workcentre_3119_modern_d.Scan.Diagnostics.{second, set_stage, error}
use workcentre_3119_modern_d.Scan.Machine.{
  Machine, Session, Answer, done, failed, stuck, M, and_then, ◌>>=◌, ◌>>◌, pure, fail, attempt,
  map_error, get, set_synchronized, diagnose, refuse, read, now,
}
use workcentre_3119_modern_d.Scan.Exchange.{checkpoint}

-- The variables of the loop.
pub record Progress : Type 0 where
  pub raw : List ℕ
  pub failure : Option IoError
  pub drain_deadline : Option ℕ
  pub empty_reads : ℕ

-- `remaining.div_ceil(1024) * 1024`, at most the buffer.
unfoldable pub capacity_for : ℕ → ℕ → ℕ
capacity_for remaining buffer = min ((remaining + 1023) / 1024 * 1024) buffer

-- The closure `failed`: the first failure gives the kind, and the last error is told in words.
abbrev pub drain_failed : Option IoError → IoError → IoError
drain_failed none e = e
drain_failed (some original) e = reworded original

-- `if failure.is_none() { failure = Some(…) }`
abbrev pub keep_first : Option IoError → Option IoError
keep_first none = some (text invalid_data)
keep_first (some e) = some e

module _ {W : Type 0} (m : Machine W) where
  abbrev pub give_up : {A : Type 0} → Option IoError → IoError → M W A
  give_up original e s = (failed (error s.diagnostics (drain_failed original e)), s)

  -- `if failure.is_none() { failure = checkpoint(…).err() }`
  unfoldable pub note_failure : ℕ → Option IoError → M W (Option IoError)
  note_failure deadline (some e) = pure (some e)
  note_failure deadline none = do
    r ← attempt (checkpoint m deadline)
    pure (elim r [ ok _ ↦ none | err e ↦ some e ])

  -- `if failure.is_some() && drain_deadline.is_none() { … now + 10 s }`
  unfoldable pub start_drain : Option IoError → Option ℕ → M W (Option ℕ)
  start_drain (some e) none = do t ← now m; pure (some (t + 10 * second))
  start_drain failure drain = pure drain

  unfoldable pub drain_expired : Option ℕ → M W Bool
  drain_expired none = pure false
  drain_expired (some end) = do t ← now m; pure (leb end t)

  -- A read of `count` bytes into `buffer`.
  unfoldable pub take_in : ℕ → ℕ → Progress → ℕ → List ℕ → M W Progress
  take_in len capacity p count buffer =
      if ltb capacity count || ltb (len - length p.raw) count
      then give_up p.failure (text invalid_data)
      else if count == 0
      then (if leb 2 (p.empty_reads + 1)
          then give_up (keep_first p.failure) (text invalid_data)
          else pure (record p { failure = keep_first p.failure; empty_reads = p.empty_reads + 1 }))
      else pure (record p { raw = p.raw ++ take count buffer })

  abbrev pub read_outcome : ℕ → ℕ → Progress → Result (ℕ × List ℕ) → M W Progress
  read_outcome len capacity p (ok (count, buffer)) = take_in len capacity p count buffer
  read_outcome len capacity p (err e) = give_up p.failure e

  -- One round of the loop.
  unfoldable pub drain_round : ℕ → ℕ → Progress → M W Progress
  drain_round len deadline p = do
    failure ← note_failure deadline p.failure
    drain ← start_drain failure p.drain_deadline
    expired ← drain_expired drain
    if expired then give_up failure (text timed_out) else pure tt
    s ← get
    let capacity = capacity_for (len - length p.raw) s.diagnostics.read_buffer_bytes
    r ← attempt (read m capacity)
    read_outcome len capacity (record p { failure = failure; drain_deadline = drain }) r

  unfoldable pub drain_loop : ℕ → ℕ → ℕ → Progress → M W Progress
  drain_loop zero len deadline p s = (stuck, s)
  drain_loop (suc fuel) len deadline p s =
      let rest =
        and_then (drain_round len deadline p s) λ p' s'. drain_loop fuel len deadline p' s' in
      if ltb (length p.raw) len then rest else (done p, s)

  -- After the loop: the stream is synchronized, and a noted failure or a new one is reported.
  unfoldable pub conclude : ℕ → Progress → M W (List ℕ)
  conclude deadline p = do
    set_synchronized true
    elim p.failure [
      | some e ↦ λ s. (failed (error s.diagnostics e), s)
      | none ↦ do map_error (λ s e. error s.diagnostics e) (checkpoint m deadline); pure p.raw
    ]

  -- Each round takes a byte or is one of at most two empty reads, so `length + 2` rounds are enough.
  unfoldable pub read_image_band : ℕ → ℕ → M W (List ℕ)
  read_image_band len deadline = do
    diagnose (λ d. set_stage d ScanStage.read_image)
    set_synchronized false
    p ←
        drain_loop (len + 2) len deadline
          (record { raw = []; failure = none; drain_deadline = none; empty_reads = 0 })
    conclude deadline p
