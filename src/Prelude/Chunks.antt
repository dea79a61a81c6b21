-- ===== src/Prelude/Chunks.antt =====
-- `chunks_exact(n)` of a slice, for 0 < n: the whole chunks, without a shorter rest.
use Prim.Native.Nat.{ℕ, zero, suc, ◌+◌, ◌*◌, ◌<◌, ◌≤◌}
use mathlib.Core.Path.{◌≡◌, refl, sym, ap, ◌∙◌}
use mathlib.Core.List.{List, [], ◌∷◌, ◌++◌, map}
use native.Mathlib.Omega.{arith}
use workcentre_3119_modern_d.Prelude.Tests.{ltb, if◌then◌else◌}
use workcentre_3119_modern_d.Prelude.Lists.{
  length, take, drop, get_or, length-take, length-drop, length-append, get_or-append,
  get_or-append_left, get_or-take, get_or-drop, drop-drop,
}

module _ {ℓ} {A : Type ℓ} where
  -- `fuel` bounds the chunks; the length of the slice is enough.
  chunks_upto : ℕ → ℕ → List A → List (List A)
  chunks_upto zero n xs = []
  chunks_upto (suc fuel) n xs =
      let rest = chunks_upto fuel n (drop n xs) in
      if ltb (length xs) n then [] else (take n xs ∷ rest)

  unfoldable pub chunks_exact : ℕ → List A → List (List A)
  unfolding chunks_upto
  chunks_exact n xs = chunks_upto (length xs) n xs

  abbrev pub join : List (List A) → List A
  join [] = []
  join (x ∷ xs) = x ++ join xs

  -- A whole number of chunks: one step, whatever fuel is left.
  chunks_upto_fuel :
      (k fuel n : ℕ) (xs : List A)
      → 0 < n
      → length xs ≡ k * n
      → k ≤ fuel
      → chunks_upto fuel n xs ≡ chunks_upto k n xs
  unfolding chunks_upto
  chunks_upto_fuel zero zero n xs pos e h = refl
  chunks_upto_fuel zero (suc fuel) n xs pos e h = ground arith
  chunks_upto_fuel (suc k) zero n xs pos e h = absurd (omega arith)
  chunks_upto_fuel (suc k) (suc fuel) n xs pos e h =
      ground (arith, chunks_upto_fuel k fuel n (drop n xs) pos (omega (arith, length-drop n xs)))

  chunks_upto_step :
      (k n : ℕ) (xs : List A)
      → n ≤ length xs
      → chunks_upto (suc k) n xs ≡ take n xs ∷ chunks_upto k n (drop n xs)
  unfolding chunks_upto
  chunks_upto_step k n xs h = ground arith

  -- A slice of `suc k` whole chunks splits into the first and the rest.
  pub chunks-suc :
      (k n : ℕ) (xs : List A)
      → 0 < n
      → length xs ≡ suc k * n
      → chunks_exact n xs ≡ take n xs ∷ chunks_exact n (drop n xs)
  unfolding chunks_exact
  chunks-suc k n xs pos e =
      chunks_upto_fuel (suc k) (length xs) n xs pos e (grind arith)
      ∙ chunks_upto_step k n xs (omega arith)
      ∙ ap (◌∷◌ (take n xs)) (
          sym (
            chunks_upto_fuel k (length (drop n xs)) n (drop n xs) pos
              (omega (arith, length-drop n xs)) (grind (arith, length-drop n xs))))

  pub chunks-zero : (n : ℕ) (xs : List A) → length xs ≡ 0 → chunks_exact n xs ≡ []
  unfolding chunks_exact chunks_upto
  chunks-zero n [] e = refl
  chunks-zero n (x ∷ xs) e = absurd (omega arith)

  pub chunk_at :
      (m n j : ℕ) (xs : List A) (d : A)
      → j < n
      → get_or (take n (drop m xs)) j d ≡ get_or xs (m + j) d
  chunk_at m n j xs d h = get_or-take n j (drop m xs) d h ∙ get_or-drop m j xs d

  -- A map that makes `m` elements of each chunk has at `r * m + i` the element `i` of chunk `r`.
  pub join_at :
      (f : List A → List A) (k n m : ℕ) (xs : List A) (r i : ℕ) (d : A)
      → ((ys : List A) → length ys ≡ n → length (f ys) ≡ m)
      → 0 < n
      → length xs ≡ k * n
      → r < k
      → i < m
      → get_or (join (map f (chunks_exact n xs))) (r * m + i) d
        ≡ get_or (f (take n (drop (r * n) xs))) i d
  join_at f zero n m xs r i d keep pos e hr hi = absurd (omega arith)
  join_at f (suc k) n m xs zero i d keep pos e hr hi =
      let first : length (f (take n xs)) ≡ m = keep (take n xs) (omega (arith, length-take n xs)) in
      rw (chunks-suc k n xs pos e) (
        ap (λ (t : ℕ). get_or (f (take n xs) ++ join (map f (chunks_exact n (drop n xs)))) t d)
          (let e0 : zero * m + i ≡ i = omega arith in e0)
        ∙ get_or-append_left (f (take n xs)) _ i d (omega (arith, first))
        ∙ ap (λ (t : ℕ). get_or (f (take n (drop t xs))) i d)
            (let e3 : zero ≡ zero * n = omega arith in e3))
  join_at f (suc k) n m xs (suc r) i d keep pos e hr hi =
      let first : length (f (take n xs)) ≡ m = keep (take n xs) (omega (arith, length-take n xs)) in
      rw (chunks-suc k n xs pos e) (
        ap (λ (t : ℕ). get_or (f (take n xs) ++ join (map f (chunks_exact n (drop n xs)))) t d)
          (let e1 : suc r * m + i ≡ m + (r * m + i) = omega arith in e1)
        ∙ get_or-append (f (take n xs)) _ m (r * m + i) d first
        ∙ join_at f k n m (drop n xs) r i d keep pos (omega (arith, length-drop n xs)) (omega arith)
            hi
        ∙ ap (λ (t : List A). get_or (f (take n t)) i d)
            (drop-drop (r * n) n xs
              ∙ ap (λ (t : ℕ). drop t xs) (let e2 : n + r * n ≡ suc r * n = omega arith in e2)))

  pub length-join :
      (f : List A → List A) (k n m : ℕ) (xs : List A)
      → ((ys : List A) → length ys ≡ n → length (f ys) ≡ m)
      → 0 < n
      → length xs ≡ k * n
      → length (join (map f (chunks_exact n xs))) ≡ k * m
  length-join f zero n m xs keep pos e = rw (chunks-zero n xs (omega arith)) (omega arith)
  length-join f (suc k) n m xs keep pos e = rw (chunks-suc k n xs pos e) (
      omega (
        arith,
        length-append (f (take n xs)) (join (map f (chunks_exact n (drop n xs)))),
        keep (take n xs) (omega (arith, length-take n xs)),
        length-join f k n m (drop n xs) keep pos (omega (arith, length-drop n xs)),
      ))
