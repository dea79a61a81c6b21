-- ===== src/Writer.antt =====
-- `std::io::Write + Seek` as a parameter over a world, with what the standard library documents of it,
-- and `write_bounded` of src/bitmap.rs.
pub mod Overwrite
pub mod Reliable
use workcentre_3119_modern_d.Prelude.{
  ℕ, zero, suc, ◌+◌, ◌-◌, ◌≤◌, ◌≡◌, refl, Bool, true, false, List, [], ◌∷◌, length, take, ltb, ◌==◌,
  if◌then◌else◌,
}
use workcentre_3119_modern_d.Errors.{Result, ok, err, text, write_zero, invalid_data}
use workcentre_3119_modern_d.Stateful.{St, then_do}

pub record Writer (W : Type 0) : Type 0 where
  pub write : List ℕ → St W ℕ
  -- `seek(SeekFrom::Start(n))` and `seek(SeekFrom::End(0))`.
  pub seek_start : ℕ → St W ℕ
  pub seek_end : St W ℕ
  pub stream_position : St W ℕ

-- The bytes `bs` written over the bytes `c` from position `p` on; a gap is filled with zeros.
abbrev pub paste : List ℕ → List ℕ → List ℕ
paste c [] = c
paste [] (b ∷ bs) = b ∷ bs
paste (x ∷ c) (b ∷ bs) = b ∷ paste c bs

abbrev pub overwrite : List ℕ → ℕ → List ℕ → List ℕ
overwrite c p [] = c
overwrite c zero (b ∷ bs) = paste c (b ∷ bs)
overwrite [] (suc p) (b ∷ bs) = 0 ∷ overwrite [] p (b ∷ bs)
overwrite (x ∷ c) (suc p) (b ∷ bs) = x ∷ overwrite c p (b ∷ bs)

-- A writer onto bytes: `contents` and `position` say what a successful call did to them.
pub record FileLaws {W : Type 0} (out : Writer W) (contents : W → List ℕ) (position : W → ℕ)
    : Type 0 where
  pub write_ok :
      (w : W) (bs : List ℕ) (n : ℕ)
      → (out.write bs w).0 ≡ ok n
      → n ≤ length bs
      → (contents (out.write bs w).1 ≡ overwrite (contents w) (position w) (take n bs))
        × (position (out.write bs w).1 ≡ position w + n)
  pub seek_ok :
      (w : W) (p n : ℕ)
      → (out.seek_start p w).0 ≡ ok n
      → (contents (out.seek_start p w).1 ≡ contents w) × (position (out.seek_start p w).1 ≡ p)
  pub end_ok :
      (w : W) (n : ℕ)
      → (out.seek_end w).0 ≡ ok n
      → (n ≡ length (contents w))
        × (contents (out.seek_end w).1 ≡ contents w)
        × (position (out.seek_end w).1 ≡ n)
  pub position_ok :
      (w : W) (n : ℕ)
      → (out.stream_position w).0 ≡ ok n
      → contents (out.stream_position w).1 ≡ contents w

module _ {W : Type 0} (out : Writer W) where
  -- The loop of `write_bounded`: the first `skip` bytes of the rest are written already.
  pub skip_written : ℕ → List ℕ → St W (Unit {0})
  skip_written skip [] w = (ok tt, w)
  skip_written (suc skip) (b ∷ bs) w = skip_written skip bs w
  skip_written zero (b ∷ bs) w = then_do (out.write (b ∷ bs) w) λ written w'. elim written [
    | zero ↦ (err (text write_zero), w')
    | suc n ↦
        let rest = skip_written n bs w' in
        if ltb (length bs) n then (err (text invalid_data), w') else rest
  ]

  unfoldable pub write_bounded : List ℕ → St W (Unit {0})
  unfolding skip_written
  write_bounded bs = skip_written 0 bs
