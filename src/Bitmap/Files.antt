-- ===== src/Bitmap/Files.antt =====
-- src/bitmap.rs: the file of an encoded image is a BMP to its reader.
use workcentre_3119_modern_d.Prelude.{
  ℕ, zero, suc, ◌+◌, ◌*◌, ◌/◌, ◌^◌, ◌<◌, ◌≤◌, ◌≡◌, refl, sym, ap, ◌∙◌, List, ◌++◌, length, drop,
  arith, All, get_or-append_left, drop_append, drop-drop,
}
use mathlib.Core.Path.{subst}
use workcentre_3119_modern_d.Prelude.Bytes.{byte_at}
use workcentre_3119_modern_d.Errors.{ok}
use workcentre_3119_modern_d.Scan.Window.{ColorMode, gray, rgb, channels}
use workcentre_3119_modern_d.Scan.Machine.{ImageBand, ScanSummary}
use workcentre_3119_modern_d.Writer.{Writer, FileLaws}
use workcentre_3119_modern_d.Bitmap.{stride_of, dpi_to_ppm}
use workcentre_3119_modern_d.Bitmap.Encoder.{palette_size, bits_per_pixel}
use workcentre_3119_modern_d.Bitmap.Stream.{palette}
use workcentre_3119_modern_d.Bitmap.Contents.{
  image_data, bmp_file, final_offset, length-bmp_file, length-palette_from,
}
use workcentre_3119_modern_d.Bitmap.Readable.{
  image-Stored, length-samples_of, palette_gray, palette_unused,
}
use workcentre_3119_modern_d.Bitmap.Reading.{samples_of, Stored, IsBmp, IsImageFile, IsPpm}
use workcentre_3119_modern_d.Bitmap.Encoding.{rows_of, bytes_of, encode, encode-Encoded}

mode_sizes :
    (mode : ColorMode)
    → (bits_per_pixel mode < 256) × (palette_size mode ≤ 256) × (0 < channels mode)
mode_sizes gray = (omega arith, omega arith, omega arith)
mode_sizes rgb = (omega arith, omega arith, omega arith)

-- The numbers that the headers have to hold.
record Room (mode : ColorMode) (ppm width height : ℕ) (pixels : List ℕ) : Type 0 where
  of_ppm : ppm < 2 ^ 32
  of_width : width < 2 ^ 32
  some_rows : 0 < height
  few_rows : height < 2 ^ 31
  small : final_offset mode + length pixels < 2 ^ 32
  sized : length pixels ≡ stride_of (width * channels mode) * height

module _ (mode : ColorMode) (ppm width height : ℕ) (pixels samples : List ℕ) where
  abbrev file : List ℕ
  file = bmp_file mode ppm width height pixels

  after_headers : drop 54 file ≡ palette mode ++ pixels
  unfolding bmp_file
  after_headers = refl

  after_palette : drop (final_offset mode) file ≡ pixels
  after_palette =
      let size : palette_size mode * 4 ≡ length (palette mode) =
        omega (arith, length-palette_from 0 (palette_size mode)) in
      sym (drop-drop (palette_size mode * 4) 54 file)
      ∙ ap (drop (palette_size mode * 4)) after_headers
      ∙ ap (λ (k : ℕ). drop k (palette mode ++ pixels)) size
      ∙ drop_append (palette mode) pixels

  in_palette :
      (i v : ℕ)
      → i < palette_size mode * 4
      → byte_at (palette mode) i ≡ v
      → byte_at (drop 54 file) i ≡ v
  in_palette i v h e =
      ap (λ (t : List ℕ). byte_at t i) after_headers
      ∙ get_or-append_left (palette mode) pixels i 0
          (omega (arith, length-palette_from 0 (palette_size mode)))
      ∙ e

  file-IsBmp :
      Room mode ppm width height pixels
      → length samples ≡ width * channels mode * height
      → ((r : ℕ) → r < height → Stored (channels mode) width pixels samples r)
      → IsBmp
          (channels mode)
          (bits_per_pixel mode)
          (final_offset mode)
          (palette_size mode)
          ppm
          width
          height
          samples
          file
  unfolding bmp_file
  file-IsBmp room sampled rows =
      let total = length-bmp_file mode ppm width height pixels in
      let sizes = mode_sizes mode in
      record {
        signature = (refl, refl);
        file_size = omega (arith, total, room.small, sizes.1);
        reserved = refl;
        pixel_offset = omega (arith, room.small);
        header_size = refl;
        of_width = omega (arith, room.of_width);
        top_down = omega (arith, room.some_rows, room.few_rows);
        planes = refl;
        of_depth = omega (arith, sizes.0);
        uncompressed = refl;
        image_size = omega (arith, total, room.small);
        resolution = (omega (arith, room.of_ppm), omega (arith, room.of_ppm));
        of_colours = (omega (arith, sizes.1), refl);
        length_of_file = omega (arith, total, room.sized);
        length_of_samples = sampled;
        grays = λ v k h hk.
            in_palette (v * 4 + k) v (omega arith) (
              palette_gray 0 (palette_size mode) v k h hk ∙ (let q : 0 + v ≡ v = omega arith in q));
        unused = λ v h.
            in_palette (v * 4 + 3) 0 (omega arith) (palette_unused 0 (palette_size mode) v h);
        rows = λ r hr.
            subst (λ (t : List ℕ). Stored (channels mode) width t samples r) (sym after_palette)
              (rows r hr);
      }

bmp_file-IsImageFile :
    (mode : ColorMode) (ppm width height : ℕ) (pixels samples : List ℕ)
    → Room mode ppm width height pixels
    → length samples ≡ width * channels mode * height
    → ((r : ℕ) → r < height → Stored (channels mode) width pixels samples r)
    → IsImageFile mode ppm width height samples (bmp_file mode ppm width height pixels)
bmp_file-IsImageFile gray ppm width height pixels samples =
    file-IsBmp gray ppm width height pixels samples
bmp_file-IsImageFile rgb ppm width height pixels samples =
    file-IsBmp rgb ppm width height pixels samples

dpi_to_ppm-IsPpm : (dpi ppm : ℕ) → dpi_to_ppm dpi ≡ ok ppm → IsPpm dpi ppm × (ppm < 2 ^ 31)
unfolding dpi_to_ppm
dpi_to_ppm-IsPpm dpi ppm e =
    let q : ppm ≡ (dpi * 10000 + 127) / 254 = ground arith in
    ((omega (arith, q), omega (arith, q)), ground arith)

width_le :
    (mode : ColorMode) (width height : ℕ)
    → 0 < height
    → width ≤ stride_of (width * channels mode) * height
width_le mode width zero h = absurd (omega arith)
width_le gray width (suc k) h = omega arith
width_le rgb width (suc k) h = omega arith

-- What a stream and the summary say of the bands.
pub record Published {W : Type 0} (contents : W → List ℕ) (dpi : ℕ) (mode : ColorMode)
    (bands : List ImageBand) (summary : ScanSummary) (w : W) : Type 0 where
  pub ppm : ℕ
  pub of_dpi : IsPpm dpi ppm
  pub image : IsImageFile mode ppm summary.width summary.height (samples_of bands) (contents w)
  pub one_width : All (λ (band : ImageBand). band.width ≡ summary.width) bands
  pub all_rows : summary.height ≡ rows_of bands
  pub all_bands : summary.bands ≡ length bands
  pub all_bytes : summary.bytes ≡ bytes_of bands

-- When an image is encoded without an error, the stream holds a BMP file of the summary's size and of
-- the resolution, to the nearest pixel per metre: its header fields, its palette, and for every pixel
-- of every row the samples of all the bands, blue first, with zeros up to the stride. Every band has
-- the summary's width, and the summary's height, bands and bytes are the sums over the bands.
pub encode-IsImageFile :
    {W : Type 0} (out : Writer W) (contents : W → List ℕ) (position : W → ℕ)
    (laws : FileLaws out contents position) (dpi : ℕ) (mode : ColorMode) (bands : List ImageBand)
    (summary : ScanSummary) (w : W)
    → (encode out dpi mode bands summary w).0 ≡ ok tt
    → Published contents dpi mode bands summary (encode out dpi mode bands summary w).1
encode-IsImageFile out contents position laws dpi mode bands summary w e =
    let (ppm, known, h) = encode-Encoded out contents position laws dpi mode bands summary w e in
    let of_dpi = dpi_to_ppm-IsPpm dpi ppm known in
    let room : Room mode ppm summary.width summary.height (image_data mode bands) = record {
      of_ppm = omega (arith, of_dpi.1);
      of_width =
          omega (arith, width_le mode summary.width summary.height h.some_rows, h.sized, h.small);
      some_rows = h.some_rows;
      few_rows = h.few_rows;
      small = h.small;
      sized = h.sized;
    } in
    record {
      ppm = ppm;
      of_dpi = of_dpi.0;
      image =
          subst
            (λ (t : List ℕ). IsImageFile mode ppm summary.width summary.height (samples_of bands) t)
            (sym h.file)
            (bmp_file-IsImageFile mode ppm summary.width summary.height (image_data mode bands)
              (samples_of bands) room
              (length-samples_of mode summary.width bands h.one_width h.whole
                ∙ ap (λ (k : ℕ). summary.width * channels mode * k) (sym h.all_rows))
              (λ r hr.
                image-Stored mode summary.width bands r h.one_width h.whole
                  (omega (arith, h.all_rows))));
      one_width = h.one_width;
      all_rows = h.all_rows;
      all_bands = h.all_bands;
      all_bytes = h.all_bytes;
    }
