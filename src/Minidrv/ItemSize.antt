-- ===== src/Minidrv/ItemSize.antt =====
-- catalog.rs and bitmap.rs: the published item size, and the file that the encoder writes.
use workcentre_3119_modern_d.Prelude.{ℕ, ◌+◌, ◌*◌, ◌/◌, ◌≡◌, ap, List, length, arith}
use workcentre_3119_modern_d.Errors.{ok}
use workcentre_3119_modern_d.Writer.{Writer, FileLaws}
use workcentre_3119_modern_d.Scan.Window.{ColorMode, gray, rgb, channels}
use workcentre_3119_modern_d.Scan.Machine.{ImageBand, ScanSummary}
use workcentre_3119_modern_d.Bitmap.{stride_of}
use workcentre_3119_modern_d.Bitmap.Contents.{final_offset, image_data, length-bmp_file}
use workcentre_3119_modern_d.Bitmap.Encoding.{encode, encode-Encoded}
use workcentre_3119_modern_d.Minidrv.{success}
use workcentre_3119_modern_d.Minidrv.Geometry.{bmp_size, depth_of}

pub bmp_size_ok :
    (mode : ColorMode) (width height size : ℕ)
    → bmp_size width height (depth_of mode) ≡ success size
    → size ≡ final_offset mode + stride_of (width * channels mode) * height
unfolding bmp_size
bmp_size_ok gray width height size e =
    let stride : (width * 8 + 31) / 32 * 4 ≡ stride_of (width * 1) = omega arith in
    let total : size ≡ (width * 8 + 31) / 32 * 4 * height + 1078 = ground arith in
    omega (arith, total, ap (λ (x : ℕ). x * height) stride)
bmp_size_ok rgb width height size e =
    let stride : (width * 24 + 31) / 32 * 4 ≡ stride_of (width * 3) = omega arith in
    let total : size ≡ (width * 24 + 31) / 32 * 4 * height + 54 = ground arith in
    omega (arith, total, ap (λ (x : ℕ). x * height) stride)

-- When an image is encoded without an error, and the catalogue has an item size for the mode and the
-- size of its summary, the file has exactly this many bytes.
pub encode-bmp_size :
    {W : Type 0} (out : Writer W) (contents : W → List ℕ) (position : W → ℕ)
    (laws : FileLaws out contents position) (dpi : ℕ) (mode : ColorMode) (bands : List ImageBand)
    (summary : ScanSummary) (w : W) (size : ℕ)
    → (encode out dpi mode bands summary w).0 ≡ ok tt
    → bmp_size summary.width summary.height (depth_of mode) ≡ success size
    → length (contents (encode out dpi mode bands summary w).1) ≡ size
encode-bmp_size out contents position laws dpi mode bands summary w size e s =
    let (ppm, known, h) = encode-Encoded out contents position laws dpi mode bands summary w e in
    omega (
      arith,
      ap length h.file,
      length-bmp_file mode ppm summary.width summary.height (image_data mode bands),
      h.sized,
      bmp_size_ok mode summary.width summary.height size s,
    )
