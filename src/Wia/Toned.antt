-- ===== src/Wia/Toned.antt =====
-- The tone of `toned_sink`: the documented formula, sample by sample.
use workcentre_3119_modern_d.Prelude.{
  ℕ, zero, suc, ◌+◌, ◌*◌, ◌<◌, ◌≡◌, inl, inr, refl, ap, ap₂, ◌∙◌, true, false, List, [], ◌∷◌, map,
  arith, get_or, All, Bool-cases, ◌&&◌, sym, leb,
}
use mathlib.Core.Path.{subst}
use workcentre_3119_modern_d.Prelude.Bytes.{IsByte}
use workcentre_3119_modern_d.Prelude.Int.{ℤ, pos, negsuc, eq_ℤ, ◌+ℤ◌, ◌-ℤ◌, ◌*ℤ◌, ◌≤ℤ◌, div_euclid}
use workcentre_3119_modern_d.Scan.Machine.{ImageBand}
use workcentre_3119_modern_d.Wia.{
  Tone, lut, lut_entry, lut_from, adjust, toned, clamp_byte, neutral,
}
use workcentre_3119_modern_d.Wia.Request.{same_resolution}

get_or-lut_from :
    (t : Tone) (n input i : ℕ) → i < n → get_or (lut_from t n input) i 0 ≡ lut_entry t (input + i)
get_or-lut_from t zero input i h = absurd (omega arith)
get_or-lut_from t (suc n) input zero h =
    let e : input ≡ input + 0 = omega arith in ap (λ (x : ℕ). lut_entry t x) e
get_or-lut_from t (suc n) input (suc i) h =
    let e : suc input + i ≡ input + suc i = omega arith in
    get_or-lut_from t n (suc input) i (omega arith) ∙ ap (λ (x : ℕ). lut_entry t x) e

-- `q` is the byte nearest to `level / 1000`, halves up: `scaled` is `level + 500`.
abbrev pub Nearest : ℤ → ℕ → Type 0
Nearest scaled q =
    (q < 256)
    × (0 < q → pos (1000 * q) ≤ℤ scaled)
    × (q < 255 → scaled +ℤ pos 1 ≤ℤ pos (1000 * (q + 1)))

-- What the documentation of `Tone` says of an output: `out` is the byte that is nearest to
-- (in - 128) * (contrast + 1000) / 1000 + 128 + brightness * 255 / 1000.
abbrev pub IsToned : Tone → ℕ → ℕ → Type 0
IsToned t input out =
    Nearest
      ((pos input -ℤ pos 128) *ℤ (t.contrast +ℤ pos 1000)
        +ℤ pos 128000
        +ℤ t.brightness *ℤ pos 255
        +ℤ pos 500)
      out

abbrev pub AllToned : Tone → List ℕ → List ℕ → Type 0
AllToned t [] [] = Unit {0}
AllToned t [] (q ∷ qs) = ⊥
AllToned t (p ∷ ps) [] = ⊥
AllToned t (p ∷ ps) (q ∷ qs) = IsToned t p q × AllToned t ps qs

clamp_byte-Nearest : (scaled : ℤ) → Nearest scaled (clamp_byte (div_euclid scaled 1000))
clamp_byte-Nearest (negsuc n) = (omega arith, λ h. absurd (omega arith), λ h. ground arith)
clamp_byte-Nearest (pos n) = (ground arith, λ h. ground arith, λ h. ground arith)

lut_entry-IsToned : (t : Tone) (input : ℕ) → IsToned t input (lut_entry t input)
unfolding lut_entry
lut_entry-IsToned t input = clamp_byte-Nearest (
    (pos input -ℤ pos 128) *ℤ (t.contrast +ℤ pos 1000)
    +ℤ pos 128000
    +ℤ t.brightness *ℤ pos 255
    +ℤ pos 500)

neutral-IsToned : (p : ℕ) → p < 256 → IsToned neutral p p
neutral-IsToned p h = elim (Bool-cases (leb 128 p)) [
  | inl e ↦ (h, λ k. ground arith, λ k. ground arith)
  | inr e ↦ (h, λ k. ground arith, λ k. ground arith)
]

neutral-AllToned : (ps : List ℕ) → All IsByte ps → AllToned neutral ps ps
neutral-AllToned [] h = tt
neutral-AllToned (p ∷ ps) (hp, hs) = (neutral-IsToned p hp, neutral-AllToned ps hs)

first_entry : (t : Tone) (p : ℕ) → p < 256 → get_or (lut_from t 256 0) p 0 ≡ lut_entry t p
first_entry t p h =
    let e : 0 + p ≡ p = omega arith in get_or-lut_from t 256 0 p h ∙ ap (λ (x : ℕ). lut_entry t x) e

mapped :
    (t : Tone) (ps : List ℕ)
    → All IsByte ps
    → map (λ (value : ℕ). get_or (lut_from t 256 0) value 0) ps ≡ map (lut_entry t) ps
mapped t [] h = refl
mapped t (p ∷ ps) (hp, hs) =
    ap₂ (λ (x : ℕ) (y : List ℕ). x ∷ y) (first_entry t p hp) (mapped t ps hs)

entries-AllToned : (t : Tone) (ps : List ℕ) → AllToned t ps (map (lut_entry t) ps)
entries-AllToned t [] = tt
entries-AllToned t (p ∷ ps) = (lut_entry-IsToned t p, entries-AllToned t ps)

toned_by :
    (t : Tone) (band : ImageBand)
    → (eq_ℤ t.brightness (pos 0) && eq_ℤ t.contrast (pos 0)) ≡ false
    → toned t band
      ≡ record band { pixels = map (λ (value : ℕ). get_or (lut_from t 256 0) value 0) band.pixels }
unfolding toned adjust lut
toned_by t band e = rw (e, toned, adjust, lut) refl

is_neutral :
    (t : Tone) → (eq_ℤ t.brightness (pos 0) && eq_ℤ t.contrast (pos 0)) ≡ true → neutral ≡ t
is_neutral t e =
    ap₂ (λ (x y : ℤ). record neutral { brightness = x; contrast = y })
      (sym (same_resolution t.brightness (pos 0) (ground arith)))
      (sym (same_resolution t.contrast (pos 0) (ground arith)))

-- A band of byte samples keeps everything but its samples, and each sample becomes the byte that the
-- documented formula of the tone gives, rounded to the nearest; neutral settings change nothing.
pub toned_lem :
    (t : Tone) (band : ImageBand)
    → All IsByte band.pixels
    → (toned t band ≡ record band { pixels = (toned t band).pixels })
      × AllToned t band.pixels (toned t band).pixels
      × (t.brightness ≡ pos 0 → t.contrast ≡ pos 0 → toned t band ≡ band)
unfolding toned adjust lut
toned_lem t band h = elim (Bool-cases (eq_ℤ t.brightness (pos 0) && eq_ℤ t.contrast (pos 0))) [
  | inl e ↦
      let same : toned t band ≡ band = ground arith in
      (
        same
            ∙ ap (λ (l : List ℕ). record band { pixels = l })
                (ap (λ (b : ImageBand). b.pixels) (sym same)),
        subst (λ (b : ImageBand). AllToned t band.pixels b.pixels) (sym same)
            (subst (λ (u : Tone). AllToned u band.pixels band.pixels) (is_neutral t e)
              (neutral-AllToned band.pixels h)),
        λ p q. same,
      )
  | inr e ↦
      let same =
        toned_by t band e
        ∙ ap (λ (l : List ℕ). record band { pixels = l }) (mapped t band.pixels h) in
      let pixels = ap (λ (b : ImageBand). b.pixels) same in
      (
        same ∙ ap (λ (l : List ℕ). record band { pixels = l }) (sym pixels),
        subst (λ (l : List ℕ). AllToned t band.pixels l) (sym pixels)
            (entries-AllToned t band.pixels),
        λ p q. absurd (ground (arith, p, q)),
      )
]
