-- ===== src/Bitmap/Accepting.antt =====
-- src/bitmap.rs: with a writer that does its work, every image within the limits becomes a file.
use workcentre_3119_modern_d.Prelude.{
  ℕ, ◌-◌, ◌^◌, inl, inr, refl, List, [], ◌∷◌, arith, Option-cases, replicate,
}
use workcentre_3119_modern_d.Prelude.Bytes.{le32}
use workcentre_3119_modern_d.Stateful.{◌>>◌}
use workcentre_3119_modern_d.Writer.{Writer, write_bounded}
use workcentre_3119_modern_d.Writer.Reliable.{
  AlwaysWrites, Succeeds, then-Succeeds, write_bounded-Succeeds,
}
use workcentre_3119_modern_d.Scan.Window.{ColorMode, gray, rgb}
use workcentre_3119_modern_d.Scan.Machine.{ImageBand}
use workcentre_3119_modern_d.Bitmap.{BandGeometry}
use workcentre_3119_modern_d.Bitmap.Encoder.{
  begin_image, write_band, write_initial_header, write_headers, write_palette, write_at, write_rows,
  write_final, stored_row, file_header, info_header, palette_from,
}

module _ {W : Type 0} (out : Writer W) (reliable : AlwaysWrites out) where
  write_at-Succeeds : (p : ℕ) (bs : List ℕ) → Succeeds (write_at out p bs)
  unfolding write_at
  write_at-Succeeds p bs w =
      ground
        (arith, reliable.seeks w p, write_bounded-Succeeds out reliable bs (out.seek_start p w).1)

  write_palette-Succeeds : (mode : ColorMode) → Succeeds (write_palette out mode)
  unfolding write_palette
  write_palette-Succeeds gray w = write_bounded-Succeeds out reliable (palette_from 0 256) w
  write_palette-Succeeds rgb w = refl

  write_headers-Succeeds :
      (mode : ColorMode) (ppm offset width : ℕ) → Succeeds (write_headers out mode ppm offset width)
  unfolding write_headers
  write_headers-Succeeds mode ppm offset width =
      then-Succeeds (write_at out 0 (file_header offset))
        (write_bounded out (info_header mode ppm width) >> write_palette out mode)
        (write_at-Succeeds 0 (file_header offset))
        (then-Succeeds (write_bounded out (info_header mode ppm width)) (write_palette out mode)
          (write_bounded-Succeeds out reliable (info_header mode ppm width))
          (write_palette-Succeeds mode))

  write_rows-Succeeds :
      (mode : ColorMode) (padding : ℕ) (rows : List (List ℕ))
      → Succeeds (write_rows out mode padding rows)
  unfolding write_rows
  write_rows-Succeeds mode padding [] w = refl
  write_rows-Succeeds mode padding (row ∷ rows) w =
      then-Succeeds (write_bounded out (stored_row mode row))
        (write_bounded out (replicate padding 0) >> write_rows out mode padding rows)
        (write_bounded-Succeeds out reliable (stored_row mode row))
        (then-Succeeds (write_bounded out (replicate padding 0)) (write_rows out mode padding rows)
          (write_bounded-Succeeds out reliable (replicate padding 0))
          (write_rows-Succeeds mode padding rows))
        w

  pub write_final-Succeeds : (size height image : ℕ) → Succeeds (write_final out size height image)
  unfolding write_final
  write_final-Succeeds size height image =
      let f22 = write_at out 22 (le32 (2 ^ 32 - height)) in
      let f34 = write_at out 34 (le32 image) in
      let f0 = write_at out 0 (66 ∷ 77 ∷ []) in
      then-Succeeds (write_at out 2 (le32 size)) (f22 >> (f34 >> f0))
        (write_at-Succeeds 2 (le32 size))
        (then-Succeeds f22 (f34 >> f0) (write_at-Succeeds 22 (le32 (2 ^ 32 - height))) (
          then-Succeeds f34 f0 (write_at-Succeeds 34 (le32 image))
            (write_at-Succeeds 0 (66 ∷ 77 ∷ []))))

  pub begin_image-Succeeds :
      (band : ImageBand) (g : BandGeometry) → Succeeds (begin_image out band g)
  unfolding write_initial_header
  begin_image-Succeeds band g e = elim (Option-cases e.width) [
    | inl n ↦
        ground (
          arith,
          write_headers-Succeeds e.mode e.pixels_per_metre e.pixel_offset band.width e.world,
        )
    | inr (w, p) ↦ ground arith
  ]

  pub write_band-Succeeds : (band : ImageBand) (g : BandGeometry) → Succeeds (write_band out band g)
  unfolding write_band
  write_band-Succeeds band g e = write_rows-Succeeds e.mode (g.row_stride - g.row_bytes) _ e.world
