-- ===== src/Tests/Images.antt =====
-- An image of two rows through the encoder, into a file in memory that takes a few bytes at a time.
use workcentre_3119_modern_d.Prelude.{
  ℕ, suc, ◌+◌, ◌≤◌, ◌≡◌, refl, sym, ap, List, [], ◌∷◌, length, take, arith, min, none, false,
}
use workcentre_3119_modern_d.Errors.{ok, err, text, invalid_data}
use workcentre_3119_modern_d.Writer.{Writer, FileLaws, overwrite}
use workcentre_3119_modern_d.Writer.Reliable.{AlwaysWrites}
use workcentre_3119_modern_d.Scan.Window.{gray, rgb}
use workcentre_3119_modern_d.Scan.Machine.{ImageBand}
use workcentre_3119_modern_d.Bitmap.{dpi_to_ppm, validate_band_geometry}
use workcentre_3119_modern_d.Bitmap.Encoder.{BmpEncoder, push, push_band, finish}
use workcentre_3119_modern_d.Bitmap.Pushed.{no_totals}
use workcentre_3119_modern_d.Bitmap.Files.{Published, encode-IsImageFile}
use workcentre_3119_modern_d.Bitmap.Encoding.{encode}
use workcentre_3119_modern_d.Bitmap.Limits.{WithinLimits}
use workcentre_3119_modern_d.Bitmap.Images.{summary_of, encode-Succeeds}
use workcentre_3119_modern_d.Minidrv.{success}
use workcentre_3119_modern_d.Minidrv.Geometry.{bmp_size, depth_of}
use workcentre_3119_modern_d.Minidrv.ItemSize.{encode-bmp_size}
use workcentre_3119_modern_d.Prelude.{◌-◌, ◌^◌, ◌<◌, zero, length-take}
use workcentre_3119_modern_d.Errors.{other}
use workcentre_3119_modern_d.ComStream
use workcentre_3119_modern_d.ComStream.{ComInterface, com_output, written_of, check_result}
use workcentre_3119_modern_d.ComStream.Laws.{StreamLaws, com_output-FileLaws}
use workcentre_3119_modern_d.ComStream.Image.{encode-com_output}
use workcentre_3119_modern_d.Bitmap.Poison.{push_failed-refuses}

record Memory : Type 0 where
  contents : List ℕ
  position : ℕ

abbrev memory : Writer Memory
memory = record {
  write = λ bs w. (
    ok (min 5 (length bs)),
    record {
      contents = overwrite w.contents w.position (take (min 5 (length bs)) bs);
      position = w.position + min 5 (length bs);
    },
  );
  seek_start = λ p w. (ok p, record w { position = p });
  seek_end = λ w. (ok (length w.contents), record w { position = length w.contents });
  stream_position = λ w. (ok w.position, w);
}

ok_injective : {a b : ℕ} → ok a ≡ ok b → a ≡ b
ok_injective e = cc e

memory-laws : FileLaws memory (λ w. w.contents) (λ w. w.position)
memory-laws = record {
  write_ok = λ w bs n e h. (
    ap (λ (t : ℕ). overwrite w.contents w.position (take t bs)) (ok_injective e),
    ap (λ (t : ℕ). w.position + t) (ok_injective e),
  );
  seek_ok = λ w p n e. (refl, refl);
  end_ok = λ w n e. (sym (ok_injective e), refl, ok_injective e);
  position_ok = λ w n e. refl;
}

memory_writes :
    (w : Memory) (b : ℕ) (bs : List ℕ)
    → (n : ℕ) × ((memory.write (b ∷ bs) w).0 ≡ ok (suc n)) × (n ≤ length bs)
memory_writes w b bs =
    let e : min 5 (length (b ∷ bs)) ≡ suc (min 4 (length bs)) = omega arith in
    (min 4 (length bs), ap ok e, omega arith)

memory-AlwaysWrites : AlwaysWrites memory
memory-AlwaysWrites = record {
  writes = memory_writes;
  seeks = λ w p. refl;
  ends = λ w. (length w.contents, refl);
  tells = λ w. (w.position, refl);
}

abbrev empty_file : Memory
empty_file = record { contents = []; position = 0 }

abbrev one_row : List ℕ → ImageBand
one_row samples = record { width = 2; rows = 1; mode = rgb; pixels = samples; wire_data = samples }

abbrev image : List ImageBand
image = one_row (1 ∷ 2 ∷ 3 ∷ 4 ∷ 5 ∷ 6 ∷ []) ∷ one_row (7 ∷ 8 ∷ 9 ∷ 10 ∷ 11 ∷ 12 ∷ []) ∷ []

image-WithinLimits : WithinLimits rgb 2 image
image-WithinLimits = record {
  wide = omega arith;
  narrow = omega arith;
  proper = (
    record { in_mode = refl; of_width = refl; some_row = omega arith; whole_rows = refl },
    (record { in_mode = refl; of_width = refl; some_row = omega arith; whole_rows = refl }, tt),
  );
  few = omega arith;
  small = omega arith;
}

ppm_150 : dpi_to_ppm 150 ≡ ok 5906
unfolding dpi_to_ppm
ppm_150 = refl

encode-Succeeds_example : (encode memory 150 rgb image (summary_of 2 image) empty_file).0 ≡ ok tt
encode-Succeeds_example =
    encode-Succeeds memory (λ w. w.contents) (λ w. w.position) memory-laws memory-AlwaysWrites 150
      5906 rgb 2 image empty_file ppm_150 refl (omega arith) image-WithinLimits

image_encodes : (encode memory 150 rgb image (summary_of 2 image) empty_file).0 ≡ ok tt
image_encodes =
    encode-Succeeds memory (λ w. w.contents) (λ w. w.position) memory-laws memory-AlwaysWrites 150
      5906 rgb 2 image empty_file ppm_150 refl (omega arith) image-WithinLimits

encode-IsImageFile_example :
    Published
      (λ (w : Memory). w.contents)
      150
      rgb
      image
      (summary_of 2 image)
      (encode memory 150 rgb image (summary_of 2 image) empty_file).1
encode-IsImageFile_example =
    encode-IsImageFile memory (λ w. w.contents) (λ w. w.position) memory-laws 150 rgb image
      (summary_of 2 image) empty_file image_encodes

size_150 : bmp_size 2 2 (depth_of rgb) ≡ success 70
unfolding bmp_size
size_150 = refl

encode-bmp_size_example :
    length (encode memory 150 rgb image (summary_of 2 image) empty_file).1.contents ≡ 70
encode-bmp_size_example =
    encode-bmp_size memory (λ w. w.contents) (λ w. w.position) memory-laws 150 rgb image
      (summary_of 2 image) empty_file 70 image_encodes size_150

abbrev target : Memory → ℕ → ℕ → ℕ
target w offset zero = offset
target w offset (suc zero) = w.position + offset
target w offset (suc (suc origin)) = length w.contents + offset

-- The same file behind an IStream.
abbrev stream : ComInterface Memory
stream = record {
  write = λ bs w. (
    (0, min 5 (length bs)),
    record {
      contents = overwrite w.contents w.position (take (min 5 (length bs)) bs);
      position = w.position + min 5 (length bs);
    },
  );
  seek = λ offset origin w.
      ((0, target w offset origin), record w { position = target w offset origin });
  os_kind = λ code. other;
}

same_second : (a b : ℕ) → Path (ℕ × ℕ) (0, a) (0, b) → a ≡ b
same_second a b e = ap (λ (x : ℕ × ℕ). x.1) e

stream-laws : StreamLaws stream (λ w. w.contents) (λ w. w.position)
stream-laws = record {
  write_done = λ w bs n e h. (
    ap (λ (t : ℕ). overwrite w.contents w.position (take t bs)) (same_second _ n e),
    ap (λ (t : ℕ). w.position + t) (same_second _ n e),
  );
  seek_set = λ w p n e. (refl, refl);
  seek_current = λ w n e. refl;
  seek_last = λ w n e. (omega (arith, same_second _ n e), refl, same_second _ n e);
}

writing : (count : ℕ) (n : ℕ) → 0 < n → n ≤ count → written_of stream count (0, n) ≡ ok n
unfolding written_of check_result
writing count n positive small = ground arith

stream_writes :
    (w : Memory) (b : ℕ) (bs : List ℕ)
    → (n : ℕ) × (((com_output stream).write (b ∷ bs) w).0 ≡ ok (suc n)) × (n ≤ length bs)
unfolding com_output ComStream.write
stream_writes w b bs =
    let count = min (length (b ∷ bs)) (2 ^ 32 - 1) in
    let size = length-take count (b ∷ bs) in
    let n = min 4 (length bs) in
    let e : min 5 (length (take count (b ∷ bs))) ≡ suc n = omega (arith, size) in
    (n, rw e (writing count (suc n) (omega arith) (omega arith)), omega arith)

stream-AlwaysWrites : AlwaysWrites (com_output stream)
unfolding com_output ComStream.seek check_result
stream-AlwaysWrites = record {
  writes = stream_writes;
  seeks = λ w p. refl;
  ends = λ w. (length w.contents + 0, refl);
  tells = λ w. (w.position + 0, refl);
}

stream_encodes :
    (encode (com_output stream) 150 rgb image (summary_of 2 image) empty_file).0 ≡ ok tt
stream_encodes =
    encode-Succeeds (com_output stream) (λ w. w.contents) (λ w. w.position)
      (com_output-FileLaws stream (λ w. w.contents) (λ w. w.position) stream-laws)
      stream-AlwaysWrites 150 5906 rgb 2 image empty_file ppm_150 refl (omega arith)
      image-WithinLimits

encode-com_output_example :
    Published
      (λ (w : Memory). w.contents)
      150
      rgb
      image
      (summary_of 2 image)
      (encode (com_output stream) 150 rgb image (summary_of 2 image) empty_file).1
encode-com_output_example =
    encode-com_output stream (λ w. w.contents) (λ w. w.position) stream-laws 150 rgb image
      (summary_of 2 image) empty_file stream_encodes

abbrev gray_encoder : BmpEncoder Memory
gray_encoder = record {
  world = empty_file;
  mode = gray;
  pixels_per_metre = 5906;
  width = none;
  totals = no_totals;
  row_stride = 0;
  pixel_offset = 1078;
  header_written = false;
  poisoned = none;
}

abbrev color_row : ImageBand
color_row = one_row (1 ∷ 2 ∷ 3 ∷ 4 ∷ 5 ∷ 6 ∷ [])

color_refused : (push memory color_row gray_encoder).0 ≡ err (text invalid_data)
unfolding push push_band validate_band_geometry
color_refused = refl

push_failed-refuses_example :
    let e = (push memory color_row gray_encoder).1 in
    (push memory color_row e ≡ (err (text invalid_data), e))
    × (finish memory (summary_of 2 image) e ≡ (err (text invalid_data), e.world))
push_failed-refuses_example =
    push_failed-refuses memory gray_encoder color_row color_row (summary_of 2 image)
      (text invalid_data) color_refused
