-- ===== src/Bitmap/Contents.antt =====
-- src/bitmap.rs: the file that a sequence of `push` and a `finish` leave in the stream.
use workcentre_3119_modern_d.Prelude.{
  ℕ, zero, suc, ◌+◌, ◌-◌, ◌*◌, ◌^◌, ◌<◌, ◌≡◌, refl, ◌∙◌, List, [], ◌∷◌, ◌++◌, map, length,
  replicate, arith,
}
use workcentre_3119_modern_d.Prelude.Bytes.{le16, le32}
use workcentre_3119_modern_d.Prelude.Chunks.{chunks_exact, join, length-join}
use workcentre_3119_modern_d.Prelude.{length-append, length-replicate}
use workcentre_3119_modern_d.Errors.{ok}
use workcentre_3119_modern_d.Scan.Window.{ColorMode, gray, rgb, channels}
use workcentre_3119_modern_d.Scan.Machine.{ImageBand}
use workcentre_3119_modern_d.Bitmap.{BandGeometry, stride_of, validate_band_geometry}
use workcentre_3119_modern_d.Bitmap.Encoder.{
  palette_from, palette_size, bits_per_pixel, stored_row, swap_pixel,
}
use workcentre_3119_modern_d.Bitmap.Stream.{stored_rows, palette, headers, final_fields}

-- An uncompressed top-down BMP with the pixel bytes `pixels`, field by field: BITMAPFILEHEADER,
-- BITMAPINFOHEADER, palette, pixels.
unfoldable pub bmp_file : ColorMode → ℕ → ℕ → ℕ → List ℕ → List ℕ
bmp_file mode ppm width height pixels =
    let offset = 54 + palette_size mode * 4 in
    66
    ∷ 77
    ∷ (le32 (offset + length pixels)
        ++ (le16 0
            ++ (le16 0
                ++ (le32 offset
                    ++ (le32 40
                        ++ (le32 width
                            ++ (le32 (2 ^ 32 - height)
                                ++ (le16 1
                                    ++ (le16 (bits_per_pixel mode)
                                        ++ (le32 0
                                            ++ (le32 (length pixels)
                                                ++ (le32 ppm
                                                    ++ (le32 ppm
                                                        ++ (le32 (palette_size mode)
                                                            ++ (le32 0
                                                            ++ (palette mode
                                                            ++ pixels))))))))))))))))

-- The rows of a band as the file stores them.
abbrev pub band_data : ColorMode → ImageBand → List ℕ
band_data mode band =
    let row_bytes = band.width * channels mode in
    stored_rows mode (stride_of row_bytes - row_bytes) (chunks_exact row_bytes band.pixels)

abbrev pub image_data : ColorMode → List ImageBand → List ℕ
image_data mode bands = join (map (band_data mode) bands)

abbrev pub final_offset : ColorMode → ℕ
final_offset mode = 14 + 40 + palette_size mode * 4

pub final_fields-headers :
    (mode : ColorMode) (ppm width height : ℕ) (pixels : List ℕ)
    → final_fields
        (final_offset mode + length pixels)
        height
        (length pixels)
        (headers mode ppm (final_offset mode) width ++ pixels)
      ≡ bmp_file mode ppm width height pixels
unfolding final_fields bmp_file
final_fields-headers mode ppm width height pixels = refl

pub length-palette_from : (v n : ℕ) → length (palette_from v n) ≡ 4 * n
unfolding palette_from
length-palette_from v zero = omega arith
length-palette_from v (suc n) = omega (arith, length-palette_from (suc v) n)

-- The headers take the announced offset.
pub length-bmp_file :
    (mode : ColorMode) (ppm width height : ℕ) (pixels : List ℕ)
    → length (bmp_file mode ppm width height pixels) ≡ final_offset mode + length pixels
unfolding bmp_file
length-bmp_file mode ppm width height pixels =
    omega (arith, length-append (palette mode) pixels, length-palette_from 0 (palette_size mode))

pub length-swap_pixel : (p : List ℕ) → length p ≡ 3 → length (swap_pixel p) ≡ 3
length-swap_pixel [] e = absurd (omega arith)
length-swap_pixel (a ∷ []) e = absurd (omega arith)
length-swap_pixel (a ∷ b ∷ []) e = absurd (omega arith)
length-swap_pixel (a ∷ b ∷ c ∷ []) e = refl
length-swap_pixel (a ∷ b ∷ c ∷ d ∷ rest) e = absurd (omega arith)

pub length-stored_row :
    (mode : ColorMode) (width : ℕ) (row : List ℕ)
    → length row ≡ width * channels mode
    → length (stored_row mode row) ≡ width * channels mode
length-stored_row gray width row e = e
length-stored_row rgb width row e =
    length-join swap_pixel width 3 3 row length-swap_pixel (omega arith) e

-- A band of whole rows takes a stride for each of its rows.
pub length-band_data :
    (mode : ColorMode) (band : ImageBand)
    → 0 < band.width * channels mode
    → length band.pixels ≡ band.width * channels mode * band.rows
    → length (band_data mode band) ≡ stride_of (band.width * channels mode) * band.rows
length-band_data mode band pos e =
    let n = band.width * channels mode in
    let padding = stride_of n - n in
    let m = stride_of n in
    let row_kept : (row : List ℕ)
        → length row ≡ n
        → length (stored_row mode row ++ replicate padding 0) ≡ m =
      λ row h. omega (
        arith,
        length-append (stored_row mode row) (replicate padding 0),
        length-replicate {A = ℕ} padding 0,
        length-stored_row mode band.width row h,
      ) in
    length-join (λ (row : List ℕ). stored_row mode row ++ replicate padding 0) band.rows n m
      band.pixels row_kept pos (omega (arith, e))
    ∙ omega arith

-- What a band that `push` accepts is.
pub record Fits (mode : ColorMode) (band : ImageBand) (g : BandGeometry) : Type 0 where
  pub row_bytes : g.row_bytes ≡ band.width * channels mode
  pub row_stride : g.row_stride ≡ stride_of (band.width * channels mode)
  pub pixel_bytes : g.pixel_bytes ≡ length band.pixels
  pub whole_rows : length band.pixels ≡ band.width * channels mode * band.rows
  pub wide : 0 < band.width * channels mode

pub validate_band_geometry-Fits :
    (mode : ColorMode) (band : ImageBand) (g : BandGeometry)
    → validate_band_geometry band mode ≡ ok g
    → Fits mode band g
unfolding validate_band_geometry
validate_band_geometry-Fits mode band g e = record {
  row_bytes = ground arith;
  row_stride = ground arith;
  pixel_bytes = ground arith;
  whole_rows = ground arith;
  wide = ground arith;
}
