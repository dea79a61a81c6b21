-- ===== src/Bitmap/Stream.antt =====
-- src/bitmap.rs: what the writes of `BmpEncoder` put into the stream.
use workcentre_3119_modern_d.Prelude.{
  ℕ, ◌-◌, ◌^◌, ◌≡◌, sym, ap, ap₂, ◌∙◌, List, [], ◌∷◌, ◌++◌, map, replicate, arith, append_assoc,
}
use workcentre_3119_modern_d.Prelude.Bytes.{le32}
use workcentre_3119_modern_d.Prelude.Chunks.{join}
use mathlib.Core.Path.{subst}
use workcentre_3119_modern_d.Errors.{Result, ok}
use workcentre_3119_modern_d.Stateful.{St, then_do, then_do_ok, ◌>>◌}
use workcentre_3119_modern_d.Writer.{Writer, FileLaws, overwrite, write_bounded}
use workcentre_3119_modern_d.Writer.Overwrite.{
  Writes, Places, write_bounded-Writes, pure-Writes, then-Writes, then-Places,
}
use workcentre_3119_modern_d.Scan.Window.{ColorMode, gray, rgb}
use workcentre_3119_modern_d.Bitmap.Encoder.{
  palette_from, palette_size, file_header, info_header, stored_row, write_palette, write_at,
  write_headers, write_rows, write_final,
}

abbrev pub stored_rows : ColorMode → ℕ → List (List ℕ) → List ℕ
stored_rows mode padding rows =
    join (map (λ (row : List ℕ). stored_row mode row ++ replicate padding 0) rows)

abbrev pub palette : ColorMode → List ℕ
palette mode = palette_from 0 (palette_size mode)

abbrev pub headers : ColorMode → ℕ → ℕ → ℕ → List ℕ
headers mode ppm offset width = file_header offset ++ (info_header mode ppm width ++ palette mode)

-- Where `finish` puts the three fields and the signature.
unfoldable pub final_fields : ℕ → ℕ → ℕ → List ℕ → List ℕ
final_fields size height image c =
    overwrite
      (overwrite (overwrite (overwrite c 2 (le32 size)) 22 (le32 (2 ^ 32 - height))) 34
        (le32 image))
      0 (66 ∷ 77 ∷ [])

module _ {W : Type 0} (out : Writer W) (contents : W → List ℕ) (position : W → ℕ)
    (laws : FileLaws out contents position) where
  write_at-Places :
      (p : ℕ) (bs : List ℕ) → Places out contents position laws p bs (write_at out p bs)
  unfolding write_at
  write_at-Places p bs w e =
      let s = then_do_ok (out.seek_start p w) (λ at. write_bounded out bs) tt e in
      let w' = (out.seek_start p w).1 in
      let moved = laws.seek_ok w p s.0 (ap (λ (r : Result ℕ × W). r.0) s.1) in
      let wrote = write_bounded-Writes out contents position laws bs w' s.2 in
      let last : (then_do (out.seek_start p w) (λ at. write_bounded out bs)).1
          ≡ (write_bounded out bs w').1 =
        ap (λ (r : Result (Unit {0}) × W). r.1) s.3 in
      (
        ap contents last
            ∙ wrote.now_holds
            ∙ ap₂ (λ (t : List ℕ) (q : ℕ). overwrite t q bs) moved.0 moved.1,
        ap position last ∙ omega (arith, wrote.now_at, moved.1),
      )

  pub write_palette-Writes :
      (mode : ColorMode) → Writes out contents position laws (palette mode) (write_palette out mode)
  unfolding write_palette palette_from
  write_palette-Writes gray = write_bounded-Writes out contents position laws (palette_from 0 256)
  write_palette-Writes rgb = pure-Writes out contents position laws

  pub write_headers-Places :
      (mode : ColorMode) (ppm offset width : ℕ)
      → Places out contents position laws 0
          (headers mode ppm offset width)
          (write_headers out mode ppm offset width)
  unfolding write_headers
  write_headers-Places mode ppm offset width =
      then-Places out contents position laws 0 (file_header offset)
        (info_header mode ppm width ++ palette mode) (write_at out 0 (file_header offset))
        (write_bounded out (info_header mode ppm width) >> write_palette out mode)
        (write_at-Places 0 (file_header offset))
        (then-Writes out contents position laws (info_header mode ppm width) (palette mode)
          (write_bounded out (info_header mode ppm width)) (write_palette out mode)
          (write_bounded-Writes out contents position laws (info_header mode ppm width))
          (write_palette-Writes mode))

  -- A step that, when it succeeds, has changed the bytes by `h`.
  abbrev Changes : (List ℕ → List ℕ) → St W (Unit {0}) → Type 0
  Changes h f = (w : W) → (f w).0 ≡ ok tt → contents (f w).1 ≡ h (contents w)

  then-Changes :
      (h k : List ℕ → List ℕ) (f g : St W (Unit {0}))
      → Changes h f
      → Changes k g
      → Changes (λ c. k (h c)) (f >> g)
  then-Changes h k f g hf hg w e =
      let s = then_do_ok (f w) (λ _. g) tt e in
      ap (λ (r : Result (Unit {0}) × W). contents r.1) s.3
      ∙ hg (f w).1 s.2
      ∙ ap k (hf w (ap (λ (r : Result (Unit {0}) × W). r.0) s.1))

  write_at-Changes : (p : ℕ) (bs : List ℕ) → Changes (λ c. overwrite c p bs) (write_at out p bs)
  write_at-Changes p bs w e = (write_at-Places p bs w e).0

  pub write_final-Changes :
      (size height image : ℕ)
      → (w : W) → (write_final out size height image w).0 ≡ ok tt
      → contents (write_final out size height image w).1
        ≡ final_fields size height image (contents w)
  unfolding write_final final_fields
  write_final-Changes size height image =
      let at2 : List ℕ → List ℕ = λ c. overwrite c 2 (le32 size) in
      let at22 : List ℕ → List ℕ = λ c. overwrite c 22 (le32 (2 ^ 32 - height)) in
      let at34 : List ℕ → List ℕ = λ c. overwrite c 34 (le32 image) in
      let at0 : List ℕ → List ℕ = λ c. overwrite c 0 (66 ∷ 77 ∷ []) in
      let f2 = write_at out 2 (le32 size) in
      let f22 = write_at out 22 (le32 (2 ^ 32 - height)) in
      let f34 = write_at out 34 (le32 image) in
      let f0 = write_at out 0 (66 ∷ 77 ∷ []) in
      then-Changes at2 (λ c. at0 (at34 (at22 c))) f2 (f22 >> (f34 >> f0))
        (write_at-Changes 2 (le32 size))
        (then-Changes at22 (λ c. at0 (at34 c)) f22 (f34 >> f0)
          (write_at-Changes 22 (le32 (2 ^ 32 - height)))
          (then-Changes at34 at0 f34 f0 (write_at-Changes 34 (le32 image))
            (write_at-Changes 0 (66 ∷ 77 ∷ []))))

  pub write_rows-Writes :
      (mode : ColorMode) (padding : ℕ) (rows : List (List ℕ))
      → Writes out contents position laws
          (stored_rows mode padding rows)
          (write_rows out mode padding rows)
  unfolding write_rows
  write_rows-Writes mode padding [] = pure-Writes out contents position laws
  write_rows-Writes mode padding (row ∷ rows) =
      let rest = stored_rows mode padding rows in
      let first = stored_row mode row in
      let zeros = replicate padding 0 in
      subst
        (λ (t : List ℕ).
          Writes out contents position laws t (write_rows out mode padding (row ∷ rows)))
        (sym (append_assoc first zeros rest))
        (then-Writes out contents position laws first (zeros ++ rest) (write_bounded out first)
          (write_bounded out zeros >> write_rows out mode padding rows)
          (write_bounded-Writes out contents position laws first)
          (then-Writes out contents position laws zeros rest (write_bounded out zeros)
            (write_rows out mode padding rows)
            (write_bounded-Writes out contents position laws zeros)
            (write_rows-Writes mode padding rows)))
