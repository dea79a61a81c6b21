-- ===== src/Protocol/Frame.antt =====
-- The frame of a product-info reply, which `parse` reads back.
use workcentre_3119_modern_d.Prelude.{
  ℕ, zero, suc, ◌+◌, ◌-◌, ◌/◌, ◌%◌, ◌^◌, ◌≤◌, ◌<◌, ◌≡◌, ◌≢◌, refl, sym, ap, ◌∙◌, false, List, [],
  ◌∷◌, ◌++◌, map, arith, length, take, drop, replicate, All, get_or-append, length-append,
  length-replicate, take_append,
}
use mathlib.Core.List.{reverse, reverse-append, reverse-reverse, reverse-cons}
use workcentre_3119_modern_d.Prelude.Bytes.{byte_at, be32}
use workcentre_3119_modern_d.Errors.{ok}
use workcentre_3119_modern_d.Protocol.{
  Capabilities, fields, lacks_capabilities, parse, any, invalid_text_byte, text_char, trim,
  skip_spaces,
}
use workcentre_3119_modern_d.Protocol.Parse.{mask_as_sum, IsValid}

-- A product-info frame of the smallest size, written from the capabilities.
abbrev padding : List ℕ → List ℕ
padding name = replicate (32 - length name) 0

abbrev frame_tail : Capabilities → List ℕ
frame_tail c =
    (c.resolution_mask / 2 ^ 8 % 256)
    ∷ (c.resolution_mask % 256)
    ∷ 0
    ∷ c.mode_mask
    ∷ (be32 c.width_units
        ++ be32 c.length_units
        ++ (0
              ∷ c.line_order
              ∷ c.compression_mask
              ∷ 0
              ∷ 0
              ∷ 0
              ∷ 0
              ∷ (c.resolution_mask / 2 ^ 16)
              ∷ 0
              ∷ 0
              ∷ 0
              ∷ 0
              ∷ be32 c.flatbed_length_units
            ++ replicate 6 0))

unfoldable pub frame : Capabilities → List ℕ
frame c = 0xa8 ∷ 0 ∷ 67 ∷ 0x10 ∷ ((c.identity ++ padding c.identity) ++ frame_tail c)

-- A name that the frame can carry: at most 32 printable codes, with no blank at its ends.
abbrev pub Printable : ℕ → Type 0
Printable b = (0x20 ≤ b) × (b ≤ 0x7e)

abbrev StartsDark : List ℕ → Type 0
StartsDark [] = ⊥
StartsDark (b ∷ bs) = b ≢ 0x20

pub record IsName (name : List ℕ) : Type 0 where
  pub short : length name ≤ 32
  pub printable : All Printable name
  pub head_dark : StartsDark name
  pub last_dark : StartsDark (reverse name)

length-name : (name : List ℕ) → length name ≤ 32 → length (name ++ padding name) ≡ 32
length-name name h =
    omega (arith, length-append name (padding name), length-replicate {A = ℕ} (32 - length name) 0)

skip-dark : (cs : List ℕ) → StartsDark cs → skip_spaces cs ≡ cs
skip-dark [] h = refl
skip-dark (c ∷ cs) h = ground arith

dark-append : (cs ds : List ℕ) → StartsDark cs → StartsDark (cs ++ ds)
dark-append [] ds h = absurd h
dark-append (c ∷ cs) ds h = h

skip-blanks : (n : ℕ) (cs : List ℕ) → skip_spaces (replicate n 0x20 ++ cs) ≡ skip_spaces cs
skip-blanks zero cs = refl
skip-blanks (suc n) cs = skip-blanks n cs

abbrev blanks : ℕ → List ℕ
blanks n = replicate n 0x20

blanks_end : (n : ℕ) → blanks n ++ (0x20 ∷ []) ≡ 0x20 ∷ blanks n
blanks_end zero = refl
blanks_end (suc n) = ap (◌∷◌ 0x20) (blanks_end n)

reverse-blanks : (n : ℕ) → reverse (blanks n) ≡ blanks n
reverse-blanks zero = refl
reverse-blanks (suc n) =
    reverse-cons 0x20 (blanks n)
    ∙ ap (λ (t : List ℕ). t ++ (0x20 ∷ [])) (reverse-blanks n)
    ∙ blanks_end n

trim-blanks :
    (name : List ℕ) (n : ℕ)
    → StartsDark name
    → StartsDark (reverse name)
    → trim (name ++ replicate n 0x20) ≡ name
trim-blanks name n h l =
    ap (λ (t : List ℕ). reverse (skip_spaces (reverse t)))
      (skip-dark (name ++ replicate n 0x20) (dark-append name _ h))
    ∙ ap (λ (t : List ℕ). reverse (skip_spaces t))
        (reverse-append name (replicate n 0x20)
          ∙ ap (λ (t : List ℕ). t ++ reverse name) (reverse-blanks n))
    ∙ ap reverse (skip-blanks n (reverse name) ∙ skip-dark (reverse name) l)
    ∙ reverse-reverse name

map-text :
    (name : List ℕ) (n : ℕ)
    → All Printable name
    → map text_char (name ++ replicate n 0) ≡ name ++ replicate n 0x20
map-text [] zero h = refl
map-text [] (suc n) h = ap (◌∷◌ 0x20) (map-text [] n h)
map-text (b ∷ bs) n h = ground (arith, map-text bs n h.1)

any-text :
    (name : List ℕ) (n : ℕ)
    → All Printable name
    → any invalid_text_byte (name ++ replicate n 0) ≡ false
any-text [] zero h = refl
any-text [] (suc n) h = any-text [] n h
any-text (b ∷ bs) n h = ground (arith, any-text bs n h.1)

-- What a frame can carry: valid capabilities, a name, and bytes for the two other fields.
pub record IsReport (c : Capabilities) : Type 0 where
  pub valid : IsValid c
  pub name : IsName c.identity
  pub order_fits : c.line_order < 256
  pub compression_fits : c.compression_mask < 256

module _ (c : Capabilities) (r : IsReport c) where
  name32 : List ℕ
  name32 = c.identity ++ padding c.identity

  region : take 32 (drop 4 (frame c)) ≡ c.identity ++ padding c.identity
  unfolding frame
  region =
      let e = length-name c.identity r.name.short in
      ap (λ (t : ℕ). take t ((c.identity ++ padding c.identity) ++ frame_tail c)) (sym e)
      ∙ take_append (c.identity ++ padding c.identity) (frame_tail c)

  tail_at : (k : ℕ) → byte_at (frame c) (36 + k) ≡ byte_at (frame_tail c) k
  unfolding frame name32
  tail_at k =
      get_or-append (0xa8 ∷ 0 ∷ 67 ∷ 0x10 ∷ name32) (frame_tail c) 36 k 0
        (omega (arith, length-name c.identity r.name.short))

  length-frame : length (frame c) ≡ 70
  unfolding frame
  length-frame = omega (
    arith,
    length-append (c.identity ++ padding c.identity) (frame_tail c),
    length-name c.identity r.name.short,
  )

  frame_mask : (fields (frame c)).resolution_mask ≡ c.resolution_mask
  unfolding fields
  frame_mask =
      rw (tail_at 19, tail_at 0, tail_at 1)
        (mask_as_sum (c.resolution_mask / 2 ^ 16) _ _ (omega arith) (omega arith)
          ∙ omega (arith, r.valid.mask_fits))

  fields-frame : fields (frame c) ≡ c
  unfolding fields
  fields-frame = λ i. record {
    identity = name_path i;
    resolution_mask = frame_mask i;
    mode_mask = mode_path i;
    width_units = width_path i;
    length_units = length_path i;
    flatbed_length_units = flatbed_path i;
    line_order = order_path i;
    compression_mask = compression_path i;
  }
    where
      name_path : (fields (frame c)).identity ≡ c.identity
      name_path =
          ap (λ (t : List ℕ). trim (map text_char t)) region
          ∙ ap trim (map-text c.identity _ r.name.printable)
          ∙ trim-blanks c.identity _ r.name.head_dark r.name.last_dark

      mode_path : (fields (frame c)).mode_mask ≡ c.mode_mask
      mode_path = tail_at 3

      width_path : (fields (frame c)).width_units ≡ c.width_units
      width_path = omega (arith, tail_at 4, tail_at 5, tail_at 6, tail_at 7, r.valid.width_fits)

      length_path : (fields (frame c)).length_units ≡ c.length_units
      length_path = omega (arith, tail_at 8, tail_at 9, tail_at 10, tail_at 11, r.valid.length_fits)

      flatbed_path : (fields (frame c)).flatbed_length_units ≡ c.flatbed_length_units
      flatbed_path =
          omega (arith, tail_at 24, tail_at 25, tail_at 26, tail_at 27, r.valid.flatbed_fits)

      order_path : (fields (frame c)).line_order ≡ c.line_order
      order_path = tail_at 13

      compression_path : (fields (frame c)).compression_mask ≡ c.compression_mask
      compression_path = tail_at 14

  no_lack_back : lacks_capabilities c ≡ false
  unfolding lacks_capabilities
  no_lack_back = ground (
    arith, r.valid.named, r.valid.mask_set, r.valid.modes_set, r.valid.width_set,
    r.valid.length_set, r.valid.flatbed_set,
  )

  byte0 : byte_at (frame c) 0 ≡ 0xa8
  unfolding frame
  byte0 = refl

  byte1 : byte_at (frame c) 1 ≡ 0
  unfolding frame
  byte1 = refl

  byte2 : byte_at (frame c) 2 ≡ 67
  unfolding frame
  byte2 = refl

  byte3 : byte_at (frame c) 3 ≡ 0x10
  unfolding frame
  byte3 = refl

  text_ok : any invalid_text_byte (take 32 (drop 4 (frame c))) ≡ false
  text_ok = ap (any invalid_text_byte) region ∙ any-text c.identity _ r.name.printable

  -- `parse` reads back the capabilities that a product-info frame was written from, if they fit the
  -- frame's fields and their name is printable text without blanks at its ends.
  pub parse-frame : parse (frame c) ≡ ok c
  unfolding parse
  parse-frame = rw (length-frame, byte0, byte2, byte1, byte3, text_ok, fields-frame, no_lack_back)
