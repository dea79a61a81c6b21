-- ===== src/Stateful.antt =====
-- Steps on a state that may fail and keep what they changed: a method with `&mut self` that returns
-- an `io::Result`.
use workcentre_3119_modern_d.Prelude.{◌≡◌, refl, Bool, true, false}
use workcentre_3119_modern_d.Errors.{IoError, ErrorKind, Result, ok, err, text}

abbrev pub St : Type 0 → Type 0 → Type 0
St S A = S → Result A × S

module _ {S A B : Type 0} where
  abbrev pub then_do : Result A × S → (A → St S B) → Result B × S
  then_do (ok a, s) f = f a s
  then_do (err e, s) f = (err e, s)

  infixl 5 ◌>>=◌
  abbrev pub ◌>>=◌ : St S A → (A → St S B) → St S B
  ◌>>=◌ m f s = then_do (m s) f

  -- What a successful sequence went through.
  pub then_do_ok :
      (r : Result A × S) (f : A → St S B) (b : B)
      → (then_do r f).0 ≡ ok b
      → (a : A) × (r ≡ (ok a, r.1)) × ((f a r.1).0 ≡ ok b) × (then_do r f ≡ f a r.1)
  then_do_ok (ok a, s) f b e = (a, refl, e, refl)
  then_do_ok (err x, s) f b e = cc e

module _ {S B : Type 0} where
  infixl 5 ◌>>◌
  abbrev pub ◌>>◌ : St S (Unit {0}) → St S B → St S B
  m >> next = m >>= λ _. next

module _ {S A : Type 0} where
  abbrev pub pure : A → St S A
  pure a s = (ok a, s)

  abbrev pub fail : IoError → St S A
  fail e s = (err e, s)

  abbrev pub lift : Result A → St S A
  lift r s = (r, s)

module _ {S : Type 0} where
  abbrev pub get : St S S
  get s = (ok s, s)

  abbrev pub change : (S → S) → St S (Unit {0})
  change f s = (ok tt, f s)

  abbrev pub refuse : Bool → ErrorKind → St S (Unit {0})
  refuse true k s = (err (text k), s)
  refuse false k s = (ok tt, s)
