-- ===== src/Writer/Overwrite.antt =====
-- `write_bounded` writes all its bytes, at the position of the writer, or fails.
use workcentre_3119_modern_d.Prelude.{
  ℕ, zero, suc, ◌+◌, ◌≤◌, ◌≡◌, inl, inr, refl, sym, ap, ap₂, ◌∙◌, List, [], ◌∷◌, ◌++◌, arith,
  length, take, drop, append-nil, ltb, Bool-cases, length-append, length-take, take-append-drop,
}
use mathlib.Core.Path.{subst}
use workcentre_3119_modern_d.Errors.{Result, ok, Result-cases}
use workcentre_3119_modern_d.Stateful.{St, then_do, then_do_ok, ◌>>◌, pure}
use workcentre_3119_modern_d.Writer.{
  Writer, FileLaws, paste, overwrite, skip_written, write_bounded,
}

pub overwrite_end : (xs ys : List ℕ) → overwrite xs (length xs) ys ≡ xs ++ ys
overwrite_end xs [] = sym (append-nil xs)
overwrite_end [] (y ∷ ys) = refl
overwrite_end (x ∷ xs) (y ∷ ys) = ap (◌∷◌ x) (overwrite_end xs (y ∷ ys))

overwrite-paste : (c xs ys : List ℕ) → overwrite (paste c xs) (length xs) ys ≡ paste c (xs ++ ys)
overwrite-paste c [] [] = refl
overwrite-paste c [] (y ∷ ys) = refl
overwrite-paste [] (x ∷ xs) ys = overwrite_end (x ∷ xs) ys
overwrite-paste (z ∷ c) (x ∷ xs) [] = ap (λ (t : List ℕ). x ∷ paste c t) (sym (append-nil xs))
overwrite-paste (z ∷ c) (x ∷ xs) (y ∷ ys) = ap (◌∷◌ x) (overwrite-paste c xs (y ∷ ys))

-- Two writes in a row are one write.
pub overwrite-overwrite :
    (c : List ℕ) (p : ℕ) (xs ys : List ℕ)
    → overwrite (overwrite c p xs) (p + length xs) ys ≡ overwrite c p (xs ++ ys)
overwrite-overwrite c p [] ys = ap (λ (t : ℕ). overwrite c t ys) (omega arith)
overwrite-overwrite c zero (x ∷ xs) ys =
    let e : 0 + length (x ∷ xs) ≡ length (x ∷ xs) = omega arith in
    ap (λ (t : ℕ). overwrite (paste c (x ∷ xs)) t ys) e ∙ overwrite-paste c (x ∷ xs) ys
overwrite-overwrite c p (x ∷ xs) [] =
    ap (λ (t : List ℕ). overwrite c p (x ∷ t)) (sym (append-nil xs))
overwrite-overwrite [] (suc p) (x ∷ xs) (y ∷ ys) =
    let e : suc p + length (x ∷ xs) ≡ suc (p + length (x ∷ xs)) = omega arith in
    ap (λ (t : ℕ). overwrite (0 ∷ overwrite [] p (x ∷ xs)) t (y ∷ ys)) e
    ∙ ap (◌∷◌ 0) (overwrite-overwrite [] p (x ∷ xs) (y ∷ ys))
overwrite-overwrite (z ∷ c) (suc p) (x ∷ xs) (y ∷ ys) =
    let e : suc p + length (x ∷ xs) ≡ suc (p + length (x ∷ xs)) = omega arith in
    ap (λ (t : ℕ). overwrite (z ∷ overwrite c p (x ∷ xs)) t (y ∷ ys)) e
    ∙ ap (◌∷◌ z) (overwrite-overwrite c p (x ∷ xs) (y ∷ ys))

module _ {W : Type 0} (out : Writer W) (contents : W → List ℕ) (position : W → ℕ)
    (laws : FileLaws out contents position) where
  -- What a write of `bs` does to the bytes.
  pub record Wrote (bs : List ℕ) (w w' : W) : Type 0 where
    pub now_holds : contents w' ≡ overwrite (contents w) (position w) bs
    pub now_at : position w' ≡ position w + length bs

  pub Wrote-trans :
      (xs ys : List ℕ) (w u v : W) → Wrote xs w u → Wrote ys u v → Wrote (xs ++ ys) w v
  Wrote-trans xs ys w u v a b = record {
    now_holds =
        b.now_holds
        ∙ ap (λ (t : List ℕ). overwrite t (position u) ys) a.now_holds
        ∙ ap (λ (t : ℕ). overwrite (overwrite (contents w) (position w) xs) t ys) a.now_at
        ∙ overwrite-overwrite (contents w) (position w) xs ys;
    now_at = omega (arith, a.now_at, b.now_at, length-append xs ys);
  }

  Wrote-along : (bs bs' : List ℕ) (w u u' : W) → bs ≡ bs' → u' ≡ u → Wrote bs w u → Wrote bs' w u'
  Wrote-along bs bs' w u u' p q h =
      subst (λ (t : W). Wrote bs' w t) (sym q) (subst (λ (t : List ℕ). Wrote t w u) p h)

  Wrote-write :
      (b : ℕ) (bs : List ℕ) (n : ℕ) (w : W)
      → (out.write (b ∷ bs) w).0 ≡ ok (suc n)
      → n ≤ length bs
      → Wrote (b ∷ take n bs) w (out.write (b ∷ bs) w).1
  Wrote-write b bs n w e h =
      let l = laws.write_ok w (b ∷ bs) (suc n) e (omega arith) in
      record { now_holds = l.0; now_at = omega (arith, l.1, length-take n bs) }

  skip_written-Wrote :
      (skip : ℕ) (bs : List ℕ) (w : W)
      → (skip_written out skip bs w).0 ≡ ok tt
      → Wrote (drop skip bs) w (skip_written out skip bs w).1
  unfolding skip_written
  skip_written-Wrote zero [] w e = record { now_holds = refl; now_at = omega arith }
  skip_written-Wrote (suc skip) [] w e = record { now_holds = refl; now_at = omega arith }
  skip_written-Wrote (suc skip) (b ∷ bs) w e = skip_written-Wrote skip bs w e
  skip_written-Wrote zero (b ∷ bs) w e = elim (Result-cases (out.write (b ∷ bs) w).0) [
    | inl (zero, q) ↦ ground arith
    | inl (suc n, q) ↦ elim (Bool-cases (ltb (length bs) n)) [
      | inl h ↦ ground arith
      | inr h ↦
          let w' = (out.write (b ∷ bs) w).1 in
          let first = Wrote-write b bs n w q (ground arith) in
          let rest = skip_written-Wrote n bs w' (ground arith) in
          Wrote-along (b ∷ take n bs ++ drop n bs) (b ∷ bs) w (skip_written out n bs w').1 _
            (ap (◌∷◌ b) (take-append-drop n bs)) (ground arith)
            (Wrote-trans (b ∷ take n bs) (drop n bs) w w' _ first rest)
    ]
    | inr (x, q) ↦ ground arith
  ]

  -- A step that, when it succeeds, has written `bs` at the position.
  abbrev pub Writes : List ℕ → St W (Unit {0}) → Type 0
  Writes bs f = (w : W) → (f w).0 ≡ ok tt → Wrote bs w (f w).1

  -- A step that, when it succeeds, has written `bs` from `p` on.
  abbrev pub Places : ℕ → List ℕ → St W (Unit {0}) → Type 0
  Places p bs f =
      (w : W)
      → (f w).0 ≡ ok tt
      → (contents (f w).1 ≡ overwrite (contents w) p bs) × (position (f w).1 ≡ p + length bs)

  pub write_bounded-Writes : (bs : List ℕ) → Writes bs (write_bounded out bs)
  unfolding write_bounded
  write_bounded-Writes bs w e = skip_written-Wrote 0 bs w e

  pub pure-Writes : Writes [] (pure tt)
  pure-Writes w e = record { now_holds = refl; now_at = omega arith }

  pub then-Writes :
      (xs ys : List ℕ) (f g : St W (Unit {0}))
      → Writes xs f
      → Writes ys g
      → Writes (xs ++ ys) (f >> g)
  then-Writes xs ys f g hf hg w e =
      let s = then_do_ok (f w) (λ _. g) tt e in
      let first : (f w).0 ≡ ok tt = ap (λ (r : Result (Unit {0}) × W). r.0) s.1 in
      Wrote-along (xs ++ ys) (xs ++ ys) w (g (f w).1).1 _ refl
        (ap (λ (r : Result (Unit {0}) × W). r.1) s.3)
        (Wrote-trans xs ys w (f w).1 _ (hf w first) (hg (f w).1 s.2))

  pub then-Places :
      (p : ℕ) (xs ys : List ℕ) (f g : St W (Unit {0}))
      → Places p xs f
      → Writes ys g
      → Places p (xs ++ ys) (f >> g)
  then-Places p xs ys f g hf hg w e =
      let s = then_do_ok (f w) (λ _. g) tt e in
      let first : (f w).0 ≡ ok tt = ap (λ (r : Result (Unit {0}) × W). r.0) s.1 in
      let at = hf w first in
      let next = hg (f w).1 s.2 in
      let last : (then_do (f w) (λ _. g)).1 ≡ (g (f w).1).1 =
        ap (λ (r : Result (Unit {0}) × W). r.1) s.3 in
      (
        ap contents last
            ∙ next.now_holds
            ∙ ap₂ (λ (t : List ℕ) (q : ℕ). overwrite t q ys) at.0 at.1
            ∙ overwrite-overwrite (contents w) p xs ys,
        ap position last ∙ omega (arith, next.now_at, at.1, length-append xs ys),
      )
