-- ===== src/Bitmap/Poison.antt =====
-- src/bitmap.rs: what an error leaves of `BmpEncoder`.
use workcentre_3119_modern_d.Prelude.{◌≡◌, inl, inr, refl, arith, Option-cases, some}
use workcentre_3119_modern_d.Errors.{ErrorKind, IoError, err, text, kind}
use workcentre_3119_modern_d.Writer.{Writer}
use workcentre_3119_modern_d.Scan.Machine.{ImageBand, ScanSummary}
use workcentre_3119_modern_d.Bitmap.Encoder.{BmpEncoder, push, finish}

module _ {W : Type 0} (out : Writer W) where
  poisoned_push :
      (e : BmpEncoder W) (band : ImageBand) (x : IoError)
      → (push out band e).0 ≡ err x
      → (push out band e).1.poisoned ≡ some (kind x)
  unfolding push
  poisoned_push e band x q = elim (Option-cases e.poisoned) [
    | inl p ↦ ground arith
    | inr (k, p) ↦ ground arith
  ]

  poisoned_refuses :
      (e : BmpEncoder W) (band : ImageBand) (summary : ScanSummary) (k : ErrorKind)
      → e.poisoned ≡ some k
      → (push out band e ≡ (err (text k), e)) × (finish out summary e ≡ (err (text k), e.world))
  unfolding push finish
  poisoned_refuses e band summary k p = (rw p refl, rw p refl)

  -- After a `push` that failed, `push` and `finish` refuse with the error's kind, and neither
  -- touches the encoder or its writer.
  pub push_failed-refuses :
      (e : BmpEncoder W) (band later : ImageBand) (summary : ScanSummary) (x : IoError)
      → (push out band e).0 ≡ err x
      → (push out later (push out band e).1 ≡ (err (text (kind x)), (push out band e).1))
        × (finish out summary (push out band e).1
            ≡ (err (text (kind x)), (push out band e).1.world))
  push_failed-refuses e band later summary x q =
      poisoned_refuses (push out band e).1 later summary (kind x) (poisoned_push e band x q)
