-- ===== src/Scan/Lives.antt =====
-- A job goes on in time, and never changes its poll interval: the relation between two states, and
-- its rules for the operations of the monad.
use workcentre_3119_modern_d.Prelude.{ℕ, ◌≤◌, ◌≡◌, refl, ◌∙◌, arith}
use workcentre_3119_modern_d.Errors.{IoError}
use workcentre_3119_modern_d.Scan.Machine.{
  Session, Answer, done, failed, stuck, M, and_then, caught, on_error,
}

module _ {W : Type 0} (time : W → ℕ) where
  abbrev pub Lives : Session W → Session W → Type 0
  Lives s t =
      (time s.world ≤ time t.world)
      × (t.diagnostics.read_poll_interval ≡ s.diagnostics.read_poll_interval)

  pub Lives-refl : (s : Session W) → Lives s s
  Lives-refl s = (omega arith, refl)

  pub Lives-trans : (s t u : Session W) → Lives s t → Lives t u → Lives s u
  Lives-trans s t u (a, p) (b, q) = (omega arith, q ∙ p)

  -- The step from `s` with outcome `r` goes on in time and does not use up fuel.
  abbrev pub Answers : {A : Type 0} → Session W → Answer A × Session W → Type 0
  Answers s (done a, t) = Lives s t
  Answers s (failed e, t) = Lives s t
  Answers s (stuck, t) = ⊥

  pub and_then-Lives :
      {A B : Type 0} (s : Session W) (r : Answer A × Session W) (f : A → M W B)
      → Lives s r.1
      → ((a : A) (t : Session W) → Lives t (f a t).1)
      → Lives s (and_then r f).1
  and_then-Lives s (done a, t) f h k = Lives-trans s t (f a t).1 h (k a t)
  and_then-Lives s (failed e, t) f h k = h
  and_then-Lives s (stuck, t) f h k = h

  pub Answers-from :
      {A : Type 0} (s t : Session W) (r : Answer A × Session W)
      → Lives s t
      → Answers t r
      → Answers s r
  Answers-from s t (done a, u) h k = Lives-trans s t u h k
  Answers-from s t (failed e, u) h k = Lives-trans s t u h k
  Answers-from s t (stuck, u) h k = k

  pub and_then-Answers :
      {A B : Type 0} (s : Session W) (r : Answer A × Session W) (f : A → M W B)
      → Answers s r
      → ((a : A) (t : Session W) → r ≡ (done a, t) → Lives s t → Answers t (f a t))
      → Answers s (and_then r f)
  and_then-Answers s (done a, t) f h k = Answers-from s t (f a t) h (k a t refl h)
  and_then-Answers s (failed e, t) f h k = h
  and_then-Answers s (stuck, t) f h k = absurd h

  pub caught-Answers :
      {A : Type 0} (s : Session W) (r : Answer A × Session W) → Answers s r → Answers s (caught r)
  caught-Answers s (done a, t) h = h
  caught-Answers s (failed e, t) h = h
  caught-Answers s (stuck, t) h = h

  pub on_error-Answers :
      {A : Type 0} (s : Session W) (r : Answer A × Session W) (f : Session W → IoError → IoError)
      → Answers s r
      → Answers s (on_error r f)
  on_error-Answers s (done a, t) f h = h
  on_error-Answers s (failed e, t) f h = h
  on_error-Answers s (stuck, t) f h = h
