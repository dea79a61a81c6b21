-- ===== src/Scan/Window/Formats.antt =====
-- The image formats that the scanner reports, and what `ScanRequest::command` checks of them.
use workcentre_3119_modern_d.Prelude.{
  ℕ, ◌/◌, ◌%◌, ◌≤◌, ◌≡◌, ◌⊎◌, inl, inr, refl, false, true, some, arith, one_of, bit_and, ltb, ◌&&◌,
  ◌^◌, ◌==◌,
}
use workcentre_3119_modern_d.Protocol.{Capabilities, resolutions}
use workcentre_3119_modern_d.Protocol.Resolutions.{Reports, resolutions_lem, bit_test}
use workcentre_3119_modern_d.Scan.Window.{
  ColorMode, gray, rgb, ScanRequest, resolution_code, unsupported_format, code, is_rgb,
}

-- A resolution that a scan can have, its byte on the wire, and its bit in the reported mask.
abbrev pub OfResolution : ℕ → ℕ → ℕ → Type 0
OfResolution mask dpi byte =
    ((dpi ≡ 75) × (byte ≡ 0) × (mask % 2 ≡ 1))
    ⊎ ((dpi ≡ 100) × (byte ≡ 10) × (mask / 4096 % 2 ≡ 1))
    ⊎ ((dpi ≡ 150) × (byte ≡ 2) × (mask / 2 % 2 ≡ 1))
    ⊎ ((dpi ≡ 200) × (byte ≡ 9) × (mask / 16 % 2 ≡ 1))
    ⊎ ((dpi ≡ 300) × (byte ≡ 5) × (mask / 32 % 2 ≡ 1))
    ⊎ ((dpi ≡ 600) × (byte ≡ 7) × (mask / 256 % 2 ≡ 1))

-- A mode, its byte on the wire, and its bit in the reported mask; colour needs a known line order.
abbrev pub OfMode : Capabilities → ColorMode → ℕ → Type 0
OfMode caps gray byte = (byte ≡ 3) × (caps.mode_mask / 8 % 2 ≡ 1)
OfMode caps rgb byte = (byte ≡ 5) × (caps.mode_mask / 32 % 2 ≡ 1) × (caps.line_order ≤ 1)

-- A format that the scanner reports, with its two bytes on the wire.
pub record Reported (r : ScanRequest) (caps : Capabilities) (resolution mode : ℕ) : Type 0 where
  pub of_resolution : OfResolution caps.resolution_mask r.dpi resolution
  pub of_mode : OfMode caps r.mode mode
  pub uncompressed : caps.compression_mask % 2 ≡ 1

abbrev Coded : ℕ → ℕ → Type 0
Coded dpi byte =
    ((dpi ≡ 75) × (byte ≡ 0))
    ⊎ ((dpi ≡ 100) × (byte ≡ 10))
    ⊎ ((dpi ≡ 150) × (byte ≡ 2))
    ⊎ ((dpi ≡ 200) × (byte ≡ 9))
    ⊎ ((dpi ≡ 300) × (byte ≡ 5))
    ⊎ ((dpi ≡ 600) × (byte ≡ 7))

resolution_code-Coded : (dpi k : ℕ) → resolution_code dpi ≡ some k → Coded dpi k
unfolding resolution_code
resolution_code-Coded dpi k e = ground arith

Coded-Reports : (mask dpi k : ℕ) → Coded dpi k → Reports mask dpi → OfResolution mask dpi k
Coded-Reports mask dpi k (inl c) h = inl (ground arith)
Coded-Reports mask dpi k (inr (inl c)) h = inr (inl (ground arith))
Coded-Reports mask dpi k (inr (inr (inl c))) h = inr (inr (inl (ground arith)))
Coded-Reports mask dpi k (inr (inr (inr (inl c)))) h = inr (inr (inr (inl (ground arith))))
Coded-Reports mask dpi k (inr (inr (inr (inr (inl c))))) h =
    inr (inr (inr (inr (inl (ground arith)))))
Coded-Reports mask dpi k (inr (inr (inr (inr (inr c))))) h =
    inr (inr (inr (inr (inr (ground arith)))))

OfResolution-Reports : (mask dpi k : ℕ) → OfResolution mask dpi k → Reports mask dpi
OfResolution-Reports mask dpi k (inl (d, b, h)) = inl (d, h)
OfResolution-Reports mask dpi k (inr (inl (d, b, h))) = inr (inl (d, h))
OfResolution-Reports mask dpi k (inr (inr (inl (d, b, h)))) = inr (inr (inl (d, h)))
OfResolution-Reports mask dpi k (inr (inr (inr (inl (d, b, h))))) = inr (inr (inr (inl (d, h))))
OfResolution-Reports mask dpi k (inr (inr (inr (inr (inl (d, b, h)))))) =
    inr (inr (inr (inr (inl (d, h)))))
OfResolution-Reports mask dpi k (inr (inr (inr (inr (inr (d, b, h)))))) =
    inr (inr (inr (inr (inr (inl (d, h))))))

pub resolution_code_ok : (mask dpi k : ℕ) → OfResolution mask dpi k → resolution_code dpi ≡ some k
unfolding resolution_code
resolution_code_ok mask dpi k h = ground arith

OfMode-code :
    (caps : Capabilities) (mode : ColorMode)
    → (bit_and caps.mode_mask (2 ^ code mode) == 0) ≡ false
    → (is_rgb mode && ltb 1 caps.line_order) ≡ false
    → OfMode caps mode (code mode)
OfMode-code caps gray h k = ground (arith, bit_test caps.mode_mask 3)
OfMode-code caps rgb h k = (refl, ground (arith, bit_test caps.mode_mask 5), ground arith)

code-OfMode :
    (caps : Capabilities) (mode : ColorMode) (byte : ℕ)
    → OfMode caps mode byte
    → (byte ≡ code mode)
      × ((bit_and caps.mode_mask (2 ^ code mode) == 0) ≡ false)
      × ((is_rgb mode && ltb 1 caps.line_order) ≡ false)
code-OfMode caps gray byte h = (h.0, ground (arith, bit_test caps.mode_mask 3), refl)
code-OfMode caps rgb byte h = (h.0, ground (arith, bit_test caps.mode_mask 5), ground arith)

pub supported-Reported :
    (r : ScanRequest) (caps : Capabilities) (k : ℕ)
    → resolution_code r.dpi ≡ some k
    → unsupported_format r caps ≡ false
    → Reported r caps k (code r.mode)
unfolding unsupported_format
supported-Reported r caps k e h =
    let listed : one_of r.dpi (resolutions caps) ≡ true = ground arith in
    record {
      of_resolution =
          Coded-Reports caps.resolution_mask r.dpi k (resolution_code-Coded r.dpi k e)
            ((resolutions_lem caps r.dpi).0 listed);
      of_mode = OfMode-code caps r.mode (ground arith) (ground arith);
      uncompressed = ground (arith, bit_test caps.compression_mask 0);
    }

pub Reported-supported :
    (r : ScanRequest) (caps : Capabilities) (k mode : ℕ)
    → Reported r caps k mode
    → (unsupported_format r caps ≡ false) × (mode ≡ code r.mode)
unfolding unsupported_format
Reported-supported r caps k mode h =
    let listed =
      (resolutions_lem caps r.dpi).1
        (OfResolution-Reports caps.resolution_mask r.dpi k h.of_resolution) in
    let of_mode = code-OfMode caps r.mode mode h.of_mode in
    (
      ground
          (arith, listed, of_mode.1, of_mode.2, h.uncompressed, bit_test caps.compression_mask 0),
      of_mode.0,
    )
