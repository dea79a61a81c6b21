-- ===== src/Device/Identity.antt =====
-- Exactly the scanner's own hardware id is taken for the scanner.
use workcentre_3119_modern_d.Prelude.{
  ℕ, ◌≡◌, ◌↔◌, inl, inr, refl, sym, ap, ap₂, ==_iff, ◌∙◌, true, List, [], ◌∷◌, ◌++◌, some, ◌==◌,
  Bool-cases, Option-cases, arith, false, All, ◌≢◌,
}
use workcentre_3119_modern_d.Device.{
  scanner, backslash, split, eq_ignore_ascii_case, usb_text, scanner_text, by_hardware,
  identify_parts, identify, Device, readiness, driver_started, winusb_text,
}

-- The text that `split` cut.
abbrev pub joined : List (List ℕ) → List ℕ
joined [] = []
joined (p ∷ []) = p
joined (p ∷ q ∷ ps) = p ++ (backslash ∷ joined (q ∷ ps))

joined-cons_part :
    (b : ℕ) (p : List ℕ) (ps : List (List ℕ)) → joined ((b ∷ p) ∷ ps) ≡ b ∷ joined (p ∷ ps)
joined-cons_part b p [] = refl
joined-cons_part b p (q ∷ ps) = refl

-- Text without a separator.
abbrev pub NoBackslash : List ℕ → Type 0
NoBackslash bs = All (λ (b : ℕ). b ≢ 0x5c) bs

split-parts :
    (bs : List ℕ)
    → (p : List ℕ) × (ps : List (List ℕ)) × ((split bs ≡ p ∷ ps)
        × (joined (p ∷ ps) ≡ bs)
        × All NoBackslash (p ∷ ps))
unfolding split
split-parts [] = ([], [], (refl, refl, (tt, tt)))
split-parts (b ∷ bs) =
    let (p, ps, (q, j, clean)) = split-parts bs in
    elim (Bool-cases (b == backslash)) [
      | inl h ↦ (
        [],
        p ∷ ps,
        (
          ground arith,
          ap₂ (λ (x : ℕ) (y : List ℕ). x ∷ y) (sym ((==_iff b backslash).0 h)) j,
          (tt, clean),
        ),
      )
      | inr h ↦ (
        b ∷ p,
        ps,
        (
          ground arith,
          joined-cons_part b p ps ∙ ap (λ (t : List ℕ). b ∷ t) j,
          ((ground arith, clean.0), clean.1),
        ),
      )
    ]

split_whole : (p : List ℕ) → NoBackslash p → split p ≡ p ∷ []
unfolding split
split_whole [] h = refl
split_whole (b ∷ p) h =
    let other : (b == backslash) ≡ false = ground (arith, h.0) in rw (other, split_whole p h.1) refl

split-part : (p rest : List ℕ) → NoBackslash p → split (p ++ (backslash ∷ rest)) ≡ p ∷ split rest
unfolding split
split-part [] rest h = refl
split-part (b ∷ p) rest h =
    let other : (b == backslash) ≡ false = ground (arith, h.0) in
    rw (other, split-part p rest h.1) refl

-- A bus, a hardware id and a serial number that is not empty, each without a backslash, with
-- backslashes between them.
pub record IsScannerId (id : List ℕ) : Type 0 where
  pub bus : List ℕ
  pub hardware : List ℕ
  pub first : ℕ
  pub serial : List ℕ
  pub written : id ≡ bus ++ (0x5c ∷ (hardware ++ (0x5c ∷ first ∷ serial)))
  pub of_bus : eq_ignore_ascii_case bus usb_text ≡ true
  pub of_scanner : eq_ignore_ascii_case hardware scanner_text ≡ true
  pub clean_bus : NoBackslash bus
  pub clean_hardware : NoBackslash hardware
  pub clean_serial : NoBackslash (first ∷ serial)

scanner_parts :
    (p : List ℕ) (ps : List (List ℕ)) (id : List ℕ)
    → joined (p ∷ ps) ≡ id
    → All NoBackslash (p ∷ ps)
    → identify_parts (p ∷ ps) ≡ some scanner
    → IsScannerId id
unfolding by_hardware
scanner_parts bus (hardware ∷ (b ∷ serial) ∷ []) id j clean e = record {
  bus = bus;
  hardware = hardware;
  first = b;
  serial = serial;
  written = sym j;
  of_bus = ground arith;
  of_scanner = ground arith;
  clean_bus = clean.0;
  clean_hardware = clean.1.0;
  clean_serial = clean.1.1.0;
}
scanner_parts bus [] id j clean e = ground arith
scanner_parts bus (hardware ∷ []) id j clean e = ground arith
scanner_parts bus (hardware ∷ [] ∷ ps) id j clean e = ground arith
scanner_parts bus (hardware ∷ (b ∷ serial) ∷ q ∷ ps) id j clean e = ground arith

identify-IsScannerId : (id : List ℕ) → IsScannerId id → identify id ≡ some scanner
unfolding identify by_hardware
identify-IsScannerId id h =
    rw
      (
        h.written,
        split-part h.bus (h.hardware ++ (0x5c ∷ h.first ∷ h.serial)) h.clean_bus,
        split-part h.hardware (h.first ∷ h.serial) h.clean_hardware,
        split_whole (h.first ∷ h.serial) h.clean_serial,
        h.of_bus,
        h.of_scanner,
      )
      refl

-- An instance id is identified as the scanner exactly when it is the bus `USB`, the scanner's hardware
-- id and a serial number that is not empty, none of them with a backslash and one backslash between
-- them, in any case of the letters.
pub identify_scanner :
    (instance_id : List ℕ) → (identify instance_id ≡ some scanner) ↔ IsScannerId instance_id
unfolding identify by_hardware
identify_scanner instance_id = (
  λ e.
      let (p, ps, (q, j, clean)) = split-parts instance_id in
      scanner_parts p ps instance_id j clean
        (sym (ap (λ (t : List (List ℕ)). identify_parts t) q) ∙ e),
  identify-IsScannerId instance_id,
)

-- The device is reported ready for scanning exactly when it is the scanner interface, the system
-- reports no problem, it is started, and its service is WinUSB in any case of the letters.
pub readiness_iff :
    (d : Device)
    → (readiness d ≡ driver_started) ↔ (
        (d.interface ≡ scanner)
        × (d.problem_code ≡ 0)
        × (d.started ≡ true)
        × ((s : List ℕ) × (d.service ≡ some s) × (eq_ignore_ascii_case s winusb_text ≡ true)))
unfolding readiness
readiness_iff d = elim (Option-cases d.service) [
  | inl q ↦ ground arith
  | inr (s, q) ↦ (
    λ e. (ground arith, ground arith, ground arith, (s, q, ground arith)),
    λ (a, b, c, (t, e, f)). ground arith,
  )
]
