-- ===== src/Bitmap/Encoder.antt =====
-- src/bitmap.rs: `BmpEncoder` over a writer. Error messages are not modelled, so a poisoned encoder
-- keeps the kind of its error.
use workcentre_3119_modern_d.Prelude.{
  ℕ, zero, suc, ◌+◌, ◌-◌, ◌*◌, ◌^◌, Bool, true, false, not, ◌||◌, List, [], ◌∷◌, ◌++◌, Option, none,
  some, map, replicate, leb, ◌==◌, if◌then◌else◌,
}
use workcentre_3119_modern_d.Prelude.Bytes.{le16, le32}
use workcentre_3119_modern_d.Prelude.Chunks.{chunks_exact, join}
use workcentre_3119_modern_d.Errors.{
  ErrorKind, Result, ok, err, text, kind, invalid_data, invalid_input,
}
use workcentre_3119_modern_d.Stateful.{St, then_do, ◌>>=◌, ◌>>◌, pure, lift, get, change, refuse}
use workcentre_3119_modern_d.Writer.{Writer, write_bounded}
use workcentre_3119_modern_d.Scan.Window.{ColorMode, gray, rgb}
use workcentre_3119_modern_d.Scan.Machine.{ImageBand, ScanSummary}
use workcentre_3119_modern_d.Bitmap.{
  BandGeometry, Totals, dpi_to_ppm, validate_band_geometry, validate_accumulation,
}

-- `totals` are the fields `height`, `bands` and `bytes`; `world` is the writer's.
pub record BmpEncoder (W : Type 0) : Type 0 where
  pub world : W
  pub mode : ColorMode
  pub pixels_per_metre : ℕ
  pub width : Option ℕ
  pub totals : Totals
  pub row_stride : ℕ
  pub pixel_offset : ℕ
  pub header_written : Bool
  pub poisoned : Option ErrorKind

abbrev pub palette_size : ColorMode → ℕ
palette_size gray = 256
palette_size rgb = 0

-- The entries `(v, v, v, 0)` of the values from `v` on.
unfoldable pub palette_from : ℕ → ℕ → List ℕ
palette_from v zero = []
palette_from v (suc n) = v ∷ v ∷ v ∷ 0 ∷ palette_from (suc v) n

abbrev pub bits_per_pixel : ColorMode → ℕ
bits_per_pixel gray = 8
bits_per_pixel rgb = 24

abbrev pub file_header : ℕ → List ℕ
file_header offset = 0 ∷ 0 ∷ 0 ∷ 0 ∷ 0 ∷ 0 ∷ 0 ∷ 0 ∷ 0 ∷ 0 ∷ le32 offset

-- Height and image size are zero until `finish`.
abbrev pub info_header : ColorMode → ℕ → ℕ → List ℕ
info_header mode ppm width =
    le32 40
    ++ (le32 width
        ++ (le32 0
            ++ (le16 1
                ++ (le16 (bits_per_pixel mode)
                    ++ (le32 0
                        ++ (le32 0
                            ++ (le32 ppm
                                ++ (le32 ppm ++ (le32 (palette_size mode) ++ le32 0)))))))))

-- Red, green, blue become blue, green, red.
abbrev pub swap_pixel : List ℕ → List ℕ
swap_pixel (r ∷ g ∷ b ∷ []) = b ∷ g ∷ r ∷ []
swap_pixel other = other

-- The rows of the code have whole pixels, so that `converted` is overwritten as a whole.
abbrev pub stored_row : ColorMode → List ℕ → List ℕ
stored_row gray row = row
stored_row rgb row = join (map swap_pixel (chunks_exact 3 row))

module _ {W : Type 0} where
  -- A step of the writer in a step of the encoder.
  abbrev pub io : {A : Type 0} → St W A → St (BmpEncoder W) A
  io f e = ((f e.world).0, record e { world = (f e.world).1 })

  abbrev pub poisoning : Result (Unit {0}) × BmpEncoder W → Result (Unit {0}) × BmpEncoder W
  poisoning (ok a, e) = (ok a, e)
  poisoning (err x, e) = (err x, record e { poisoned = some (kind x) })

  abbrev pub width_changed : BmpEncoder W → ℕ → Bool
  width_changed e w = elim e.width [ none ↦ false | some before ↦ not (before == w) ]

  abbrev pub summary_differs : BmpEncoder W → ℕ → ScanSummary → Bool
  summary_differs e width summary =
      not e.header_written
      || not (summary.width == width)
      || not (summary.height == e.totals.height)
      || not (summary.bands == e.totals.bands)
      || not (summary.bytes == e.totals.bytes)

  unfoldable pub progress : BmpEncoder W → ℕ × ℕ
  progress e = (
    e.totals.height,
    if e.totals.height == 0 then 0 else e.pixel_offset + e.totals.height * e.row_stride,
  )

module _ {W : Type 0} (out : Writer W) where
  -- The first refusal of `new` puts the position back, whatever that answers.
  unfoldable pub new : ℕ → ColorMode → W → Result (BmpEncoder W) × W
  new dpi mode = lift (dpi_to_ppm dpi) >>= λ ppm. out.stream_position >>= λ original_position.
      out.seek_end >>= λ end.
      if end == 0
      then (λ w. (
        ok (record {
          world = w;
          mode = mode;
          pixels_per_metre = ppm;
          width = none;
          totals = record { height = 0; bands = 0; bytes = 0 };
          row_stride = 0;
          pixel_offset = 14 + 40 + palette_size mode * 4;
          header_written = false;
          poisoned = none;
        }),
        w,
      ))
      else λ w. (err (text invalid_input), (out.seek_start original_position w).1)

  unfoldable pub write_palette : ColorMode → St W (Unit {0})
  write_palette gray = write_bounded out (palette_from 0 256)
  write_palette rgb = pure tt

  unfoldable pub write_at : ℕ → List ℕ → St W (Unit {0})
  write_at offset bytes = out.seek_start offset >>= λ at. write_bounded out bytes

  unfoldable pub write_headers : ColorMode → ℕ → ℕ → ℕ → St W (Unit {0})
  write_headers mode ppm offset width = do
    write_at 0 (file_header offset)
    write_bounded out (info_header mode ppm width)
    write_palette mode

  unfoldable pub write_initial_header : ℕ → St (BmpEncoder W) (Unit {0})
  write_initial_header width = get >>= λ e.
      io (write_headers e.mode e.pixels_per_metre e.pixel_offset width)
      >> change (λ e. record e { header_written = true })

  unfoldable pub write_rows : ColorMode → ℕ → List (List ℕ) → St W (Unit {0})
  write_rows mode padding [] = pure tt
  write_rows mode padding (row ∷ rows) = do
    write_bounded out (stored_row mode row)
    write_bounded out (replicate padding 0)
    write_rows mode padding rows

  unfoldable pub write_band : ImageBand → BandGeometry → St (BmpEncoder W) (Unit {0})
  unfolding write_rows
  write_band band g = get >>= λ e.
      io (write_rows e.mode (g.row_stride - g.row_bytes) (chunks_exact g.row_bytes band.pixels))

  abbrev pub begin_image : ImageBand → BandGeometry → St (BmpEncoder W) (Unit {0})
  begin_image band g e = elim e.width [
    | none ↦
        then_do (write_initial_header band.width e)
          λ _ e'. (ok tt, record e' { width = some band.width; row_stride = g.row_stride })
    | some w ↦ (ok tt, e)
  ]

  -- `push` behind its check of the poison, before an error poisons.
  unfoldable pub push_band : ImageBand → St (BmpEncoder W) (Unit {0})
  push_band band = get >>= λ e. lift (validate_band_geometry band e.mode) >>= λ g.
      refuse (width_changed e band.width) invalid_data
      >> (lift (validate_accumulation e.totals band.width band.rows g.pixel_bytes g.row_stride)
          >>= λ next.
              begin_image band g >> (write_band band g >> change (λ e. record e { totals = next })))

  unfoldable pub push : ImageBand → St (BmpEncoder W) (Unit {0})
  push band e = elim e.poisoned [ some k ↦ (err (text k), e) | none ↦ poisoning (push_band band e) ]

  unfoldable pub write_final : ℕ → ℕ → ℕ → St W (Unit {0})
  write_final file_size height image_size = do
    write_at 2 (le32 file_size)
    write_at 22 (le32 (2 ^ 32 - height))
    write_at 34 (le32 image_size)
    write_at 0 (66 ∷ 77 ∷ [])

  -- `finish` takes the encoder: what is left of it is its writer.
  unfoldable pub finish : ScanSummary → BmpEncoder W → Result (Unit {0}) × W
  finish summary e =
      let image_size = e.row_stride * e.totals.height in
      let file_size = e.pixel_offset + image_size in
      elim e.poisoned [
        | some k ↦ (err (text k), e.world)
        | none ↦ elim e.width [
          | none ↦ (err (text invalid_data), e.world)
          | some width ↦
              (refuse (summary_differs e width summary) invalid_data
                  >> refuse (leb (2 ^ 32) file_size) invalid_data
                  >> refuse (leb (2 ^ 31) e.totals.height) invalid_data
                  >> refuse (leb (2 ^ 32) image_size) invalid_data
                  >> write_final file_size e.totals.height image_size)
                e.world
        ]
      ]
