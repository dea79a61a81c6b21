-- ===== src/Scan/Machine.antt =====
-- The world of a scan job, and the state that the job's functions pass on.
-- `Machine` stands for the code that src/scan.rs calls and does not hold: the transport, the clock,
-- the cancel flag that other threads set, and `sleep`. Every call may change the world.
use workcentre_3119_modern_d.Prelude.{
  ◌⊎◌, inl, inr, refl, ℕ, ◌+◌, ◌≤◌, ◌≡◌, Bool, true, false, List, ◌∷◌, length,
}
use workcentre_3119_modern_d.Errors.{IoError, Result, ok, err, text, ErrorKind}
use workcentre_3119_modern_d.Scan.Window.{ColorMode}
use workcentre_3119_modern_d.Scan.Diagnostics.{Diagnostics}

pub record Machine (W : Type 0) : Type 0 where
  -- `Transport::write` of a command.
  pub write : W → List ℕ → Result (Unit {0}) × W
  -- `Transport::read` into a buffer of the given size: the count, and the buffer afterwards.
  pub read : W → ℕ → Result (ℕ × List ℕ) × W
  -- `Instant::now`, in nanoseconds.
  pub now : W → ℕ × W
  -- `cancel.load`.
  pub cancelled : W → Bool × W
  -- `thread::sleep`.
  pub sleep : W → ℕ → W

pub record ImageBand : Type 0 where
  pub width : ℕ
  pub rows : ℕ
  pub mode : ColorMode
  pub pixels : List ℕ
  pub wire_data : List ℕ

pub record ScanSummary : Type 0 where
  pub width : ℕ
  pub height : ℕ
  pub bands : ℕ
  pub bytes : ℕ

-- The variables of a job. `attempted` and `deferred_failed` are the job's flags
-- `reservation_attempted` and `first_metadata_failed_after_deferred_cancel`. `sent` and `delivered`
-- are a record for the proofs, latest first: the commands given to `write`, and the bands that the
-- consumer accepted. No code reads them.
pub record Session (W : Type 0) : Type 0 where
  pub world : W
  pub synchronized : Bool
  pub attempted : Bool
  pub deferred_failed : Bool
  pub diagnostics : Diagnostics
  pub sent : List (List ℕ)
  pub delivered : List ImageBand

-- What a step answers. `stuck` is no answer of the program: a loop of the model used up its fuel.
pub data Answer (A : Type 0) : Type 0 where
  done : A → Answer A
  failed : IoError → Answer A
  stuck : Answer A

abbrev pub answer_of : {A : Type 0} → Result A → Answer A
answer_of (ok a) = done a
answer_of (err e) = failed e

pub Answer-cases :
    {A : Type 0} (r : Answer A)
    → ((a : A) × (r ≡ done a)) ⊎ ((e : IoError) × (r ≡ failed e)) ⊎ (r ≡ stuck)
Answer-cases (done a) = inl (a, refl)
Answer-cases (failed e) = inr (inl (e, refl))
Answer-cases stuck = inr (inr refl)

abbrev pub M : Type 0 → Type 0 → Type 0
M W A = Session W → Answer A × Session W

module _ {W A B : Type 0} where
  abbrev pub and_then : Answer A × Session W → (A → M W B) → Answer B × Session W
  and_then (done a, s) f = f a s
  and_then (failed e, s) f = (failed e, s)
  and_then (stuck, s) f = (stuck, s)

  pub and_then_done :
      (r : Answer A × Session W) (f : A → M W B) (b : B)
      → (and_then r f).0 ≡ done b
      → (a : A) × (r.0 ≡ done a) × ((f a r.1).0 ≡ done b)
  and_then_done (done a, s) f b e = (a, refl, e)
  and_then_done (failed x, s) f b e = cc e
  and_then_done (stuck, s) f b e = cc e

  infixl 5 ◌>>=◌
  abbrev pub ◌>>=◌ : M W A → (A → M W B) → M W B
  ◌>>=◌ m f s = and_then (m s) f

module _ {W B : Type 0} where
  infixl 5 ◌>>◌
  abbrev pub ◌>>◌ : M W (Unit {0}) → M W B → M W B
  m >> k = m >>= λ _. k

module _ {W A : Type 0} where
  abbrev pub pure : A → M W A
  pure a s = (done a, s)

  abbrev pub fail : IoError → M W A
  fail e s = (failed e, s)

  abbrev pub lift : Result A → M W A
  lift (ok a) s = (done a, s)
  lift (err e) s = (failed e, s)

  abbrev pub caught : Answer A × Session W → Answer (Result A) × Session W
  caught (done a, s) = (done (ok a), s)
  caught (failed e, s) = (done (err e), s)
  caught (stuck, s) = (stuck, s)

  -- A call whose error the code looks at.
  abbrev pub attempt : M W A → M W (Result A)
  attempt m s = caught (m s)

  abbrev pub on_error :
      Answer A × Session W → (Session W → IoError → IoError) → Answer A × Session W
  on_error (done a, s) f = (done a, s)
  on_error (failed e, s) f = (failed (f s e), s)
  on_error (stuck, s) f = (stuck, s)

  -- `map_err`, where the new error may print the diagnostics of the moment.
  abbrev pub map_error : (Session W → IoError → IoError) → M W A → M W A
  map_error f m s = on_error (m s) f

module _ {W : Type 0} where
  abbrev pub get : M W (Session W)
  get s = (done s, s)

  abbrev pub set_synchronized : Bool → M W (Unit {0})
  set_synchronized b s = (done tt, record s { synchronized = b })

  abbrev pub set_attempted : Bool → M W (Unit {0})
  set_attempted b s = (done tt, record s { attempted = b })

  abbrev pub diagnose : (Diagnostics → Diagnostics) → M W (Unit {0})
  diagnose f s = (done tt, record s { diagnostics = f s.diagnostics })

  abbrev pub refuse : Bool → ErrorKind → M W (Unit {0})
  refuse true k s = (failed (text k), s)
  refuse false k s = (done tt, s)

module _ {W : Type 0} where
  abbrev pub write_result :
      Result (Unit {0}) × W → List ℕ → Session W → Answer (Unit {0}) × Session W
  write_result (r, w) command s = (answer_of r, record s { world = w; sent = command ∷ s.sent })

  abbrev pub read_result : Result (ℕ × List ℕ) × W → Session W → Answer (ℕ × List ℕ) × Session W
  read_result (r, w) s = (answer_of r, record s { world = w })

module _ {W : Type 0} (m : Machine W) where
  abbrev pub write : List ℕ → M W (Unit {0})
  write command s = write_result (m.write s.world command) command s

  abbrev pub read : ℕ → M W (ℕ × List ℕ)
  read capacity s = read_result (m.read s.world capacity) s

  abbrev pub now : M W ℕ
  now s = (done (m.now s.world).0, record s { world = (m.now s.world).1 })

  abbrev pub cancelled : M W Bool
  cancelled s = (done (m.cancelled s.world).0, record s { world = (m.cancelled s.world).1 })

  abbrev pub sleep : ℕ → M W (Unit {0})
  sleep d s = (done tt, record s { world = m.sleep s.world d })

-- What the standard library documents, over a reading `time` of the clock: it never goes back,
-- `now` reads it, and `sleep` lasts at least as long as asked.
pub record ClockLaws {W : Type 0} (m : Machine W) (time : W → ℕ) : Type 0 where
  pub write_later : (w : W) (c : List ℕ) → time w ≤ time (m.write w c).1
  pub read_later : (w : W) (n : ℕ) → time w ≤ time (m.read w n).1
  pub now_reads : (w : W) → (time w ≤ (m.now w).0) × ((m.now w).0 ≤ time (m.now w).1)
  pub cancelled_later : (w : W) → time w ≤ time (m.cancelled w).1
  pub sleep_lasts : (w : W) (d : ℕ) → time w + d ≤ time (m.sleep w d)

-- A buffer keeps its length.
pub record BufferLaws {W : Type 0} (m : Machine W) : Type 0 where
  pub keeps_length :
      (w : W) (n count : ℕ) (buffer : List ℕ)
      → (m.read w n).0 ≡ ok (count, buffer)
      → length buffer ≡ n
