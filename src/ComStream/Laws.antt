-- ===== src/ComStream/Laws.antt =====
-- src/com_stream.rs: the stream keeps the laws of a file that the encoder relies on.
use workcentre_3119_modern_d.Prelude.{
  ℕ, zero, suc, ◌+◌, ◌-◌, ◌^◌, ◌≤◌, ◌≡◌, refl, ap, ap₂, ◌∙◌, length-take, inl, inr, Bool-cases,
  List, [], ◌∷◌, length, take, min, arith, ◌==◌,
}
use workcentre_3119_modern_d.Errors.{ok, ◌>>◌}
use workcentre_3119_modern_d.Writer.{FileLaws, overwrite}
use workcentre_3119_modern_d.ComStream.{
  ComInterface, check_result, written_of, write, seek, com_output,
}

-- What the SDK documents of IStream: S_OK is 0, `write` writes `pcbWritten` bytes at the position,
-- `seek` counts from the beginning, from the position or from the end.
pub record StreamLaws {W : Type 0} (c : ComInterface W) (contents : W → List ℕ) (position : W → ℕ)
    : Type 0 where
  pub write_done :
      (w : W) (bs : List ℕ) (n : ℕ)
      → (c.write bs w).0 ≡ (0, n)
      → n ≤ length bs
      → (contents (c.write bs w).1 ≡ overwrite (contents w) (position w) (take n bs))
        × (position (c.write bs w).1 ≡ position w + n)
  pub seek_set :
      (w : W) (p n : ℕ)
      → (c.seek p 0 w).0 ≡ (0, n)
      → (contents (c.seek p 0 w).1 ≡ contents w) × (position (c.seek p 0 w).1 ≡ p)
  pub seek_current :
      (w : W) (n : ℕ) → (c.seek 0 1 w).0 ≡ (0, n) → contents (c.seek 0 1 w).1 ≡ contents w
  pub seek_last :
      (w : W) (n : ℕ)
      → (c.seek 0 2 w).0 ≡ (0, n)
      → (n ≡ length (contents w))
        × (contents (c.seek 0 2 w).1 ≡ contents w)
        × (position (c.seek 0 2 w).1 ≡ n)

take-take : (n m : ℕ) (xs : List ℕ) → n ≤ m → take n (take m xs) ≡ take n xs
take-take zero m xs h = refl
take-take (suc n) zero xs h = absurd (omega arith)
take-take (suc n) (suc m) [] h = refl
take-take (suc n) (suc m) (x ∷ xs) h = ap (◌∷◌ x) (take-take n m xs (omega arith))

module _ {W : Type 0} (c : ComInterface W) (contents : W → List ℕ) (position : W → ℕ)
    (laws : StreamLaws c contents position) where
  written_ok :
      (count n : ℕ) (answer : ℕ × ℕ)
      → written_of c count answer ≡ ok n
      → (answer ≡ (0, n)) × (n ≤ count)
  unfolding written_of check_result
  written_ok count n (hr, written) e = elim (Bool-cases (hr == 0)) [
    | inl h ↦
        let zero_hr : hr ≡ 0 = ground (arith, h) in
        let same : written ≡ n = ground (arith, h, e) in
        (ap₂ (λ (x y : ℕ). (x, y)) zero_hr same, ground (arith, h, e))
    | inr h ↦ ground arith
  ]

  answered :
      (n : ℕ) (answer : ℕ × ℕ) → (check_result c answer.0 >> ok answer.1) ≡ ok n → answer ≡ (0, n)
  unfolding check_result
  answered n (hr, at) e = elim (Bool-cases (hr == 0)) [
    | inl h ↦
        let zero_hr : hr ≡ 0 = ground (arith, h) in
        let same : at ≡ n = ground (arith, h, e) in ap₂ (λ (x y : ℕ). (x, y)) zero_hr same
    | inr h ↦ ground arith
  ]

  seek_ok :
      (offset origin n : ℕ) (w : W)
      → (seek c offset origin w).0 ≡ ok n
      → (c.seek offset origin w).0 ≡ (0, n)
  unfolding seek
  seek_ok offset origin n w e = answered n (c.seek offset origin w).0 e

  write_ok :
      (w : W) (bs : List ℕ) (n : ℕ)
      → (write c bs w).0 ≡ ok n
      → n ≤ length bs
      → (contents (write c bs w).1 ≡ overwrite (contents w) (position w) (take n bs))
        × (position (write c bs w).1 ≡ position w + n)
  unfolding write
  write_ok w [] zero e h = (refl, omega arith)
  write_ok w [] (suc n) e h = absurd (omega arith)
  write_ok w (b ∷ bs) n e h =
      let count = min (length (b ∷ bs)) (2 ^ 32 - 1) in
      let got = written_ok count n (c.write (take count (b ∷ bs)) w).0 e in
      let done =
        laws.write_done w (take count (b ∷ bs)) n got.0
          (omega (arith, got.1, h, length-take count (b ∷ bs))) in
      (done.0 ∙ ap (overwrite (contents w) (position w)) (take-take n count (b ∷ bs) got.1), done.1)

  -- Over an IStream that does what its documentation says, `ComOutputStream` does to its bytes what
  -- the encoder relies on.
  pub com_output-FileLaws : FileLaws (com_output c) contents position
  unfolding com_output seek
  com_output-FileLaws = record {
    write_ok = write_ok;
    seek_ok = λ w p n e. laws.seek_set w p n (seek_ok p 0 n w e);
    end_ok = λ w n e. laws.seek_last w n (seek_ok 0 2 n w e);
    position_ok = λ w n e. laws.seek_current w n (seek_ok 0 1 n w e);
  }
