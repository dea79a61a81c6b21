-- ===== src/ComStream/Image.antt =====
-- src/com_stream.rs and src/bitmap.rs: an image through the COM stream.
use workcentre_3119_modern_d.Prelude.{ℕ, ◌≡◌, List}
use workcentre_3119_modern_d.Errors.{ok}
use workcentre_3119_modern_d.Scan.Window.{ColorMode}
use workcentre_3119_modern_d.Scan.Machine.{ImageBand, ScanSummary}
use workcentre_3119_modern_d.Bitmap.Encoding.{encode}
use workcentre_3119_modern_d.Bitmap.Files.{Published, encode-IsImageFile}
use workcentre_3119_modern_d.ComStream.{ComInterface, com_output}
use workcentre_3119_modern_d.ComStream.Laws.{StreamLaws, com_output-FileLaws}

-- When the encoder writes an image without an error over a `ComOutputStream`, whose IStream does what
-- its documentation says, the stream holds a BMP file of the summary's size and of the resolution,
-- byte by byte with the samples of all the bands, and the summary agrees with the bands.
pub encode-com_output :
    {W : Type 0} (c : ComInterface W) (contents : W → List ℕ) (position : W → ℕ)
    (laws : StreamLaws c contents position) (dpi : ℕ) (mode : ColorMode) (bands : List ImageBand)
    (summary : ScanSummary) (w : W)
    → (encode (com_output c) dpi mode bands summary w).0 ≡ ok tt
    → Published contents dpi mode bands summary (encode (com_output c) dpi mode bands summary w).1
encode-com_output c contents position laws dpi mode bands summary w e =
    encode-IsImageFile (com_output c) contents position
      (com_output-FileLaws c contents position laws) dpi mode bands summary w e
