-- ===== src/Writer/Reliable.antt =====
-- `write_bounded` of src/bitmap.rs over a writer that never fails.
use workcentre_3119_modern_d.Prelude.{ℕ, zero, suc, ◌≤◌, ◌≡◌, List, [], ◌∷◌, length, arith}
use workcentre_3119_modern_d.Errors.{ok}
use workcentre_3119_modern_d.Stateful.{St, ◌>>◌}
use workcentre_3119_modern_d.Writer.{Writer, skip_written, write_bounded}

-- The standard library's writers onto memory and, but for the failures of the system, onto files.
pub record AlwaysWrites {W : Type 0} (out : Writer W) : Type 0 where
  pub writes :
      (w : W) (b : ℕ) (bs : List ℕ)
      → (n : ℕ) × ((out.write (b ∷ bs) w).0 ≡ ok (suc n)) × (n ≤ length bs)
  pub seeks : (w : W) (p : ℕ) → (out.seek_start p w).0 ≡ ok p
  pub ends : (w : W) → (n : ℕ) × ((out.seek_end w).0 ≡ ok n)
  pub tells : (w : W) → (n : ℕ) × ((out.stream_position w).0 ≡ ok n)

module _ where
  abbrev pub Succeeds : {S : Type 0} → St S (Unit {0}) → Type 0
  Succeeds {S} f = (s : S) → (f s).0 ≡ ok tt

  pub then-Succeeds :
      {S : Type 0} (f g : St S (Unit {0})) → Succeeds f → Succeeds g → Succeeds (f >> g)
  then-Succeeds f g hf hg s = ground (arith, hf s, hg (f s).1)

module _ {W : Type 0} (out : Writer W) (reliable : AlwaysWrites out) where
  skip_written-Succeeds : (skip : ℕ) (bs : List ℕ) → Succeeds (skip_written out skip bs)
  unfolding skip_written
  skip_written-Succeeds skip [] w = ground arith
  skip_written-Succeeds (suc skip) (b ∷ bs) w = skip_written-Succeeds skip bs w
  skip_written-Succeeds zero (b ∷ bs) w =
      let wrote = reliable.writes w b bs in
      ground (arith, wrote.1, wrote.2, skip_written-Succeeds wrote.0 bs (out.write (b ∷ bs) w).1)

  pub write_bounded-Succeeds : (bs : List ℕ) → Succeeds (write_bounded out bs)
  unfolding write_bounded
  write_bounded-Succeeds bs = skip_written-Succeeds 0 bs
