-- ===== src/Device.antt =====
-- src/lib.rs: which interface a device instance id names, and when the scanner is ready.
-- A `str` is the list of its UTF-8 bytes: the code only splits it at `\\` and compares it with ASCII
-- texts, ignoring the case of ASCII letters.
pub mod Identity
use workcentre_3119_modern_d.Prelude.{
  ℕ, ◌+◌, Bool, true, false, not, ◌&&◌, ◌||◌, List, [], ◌∷◌, Option, none, some, ltb, leb, ◌==◌,
  if◌then◌else◌,
}

pub data Interface : Type 0 where
  composite scanner printer : Interface

-- `split('\\')`: one part more than there are separators.
abbrev pub cons_part : ℕ → List (List ℕ) → List (List ℕ)
cons_part b [] = (b ∷ []) ∷ []
cons_part b (part ∷ parts) = (b ∷ part) ∷ parts

abbrev pub backslash : ℕ
backslash = 0x5c

unfoldable pub split : List ℕ → List (List ℕ)
split [] = [] ∷ []
split (b ∷ bs) = let rest = split bs in if b == backslash then [] ∷ rest else cons_part b rest

abbrev pub to_lower : ℕ → ℕ
to_lower b = if leb 0x41 b && leb b 0x5a then b + 0x20 else b

unfoldable pub eq_ignore_ascii_case : List ℕ → List ℕ → Bool
eq_ignore_ascii_case [] [] = true
eq_ignore_ascii_case [] (b ∷ bs) = false
eq_ignore_ascii_case (a ∷ rest) [] = false
eq_ignore_ascii_case (a ∷ rest) (b ∷ bs) =
    (to_lower a == to_lower b) && eq_ignore_ascii_case rest bs

-- "USB", "VID_0924&PID_4265", "&MI_00", "&MI_01", "WinUSB"
abbrev pub usb_text : List ℕ
usb_text = 0x55 ∷ 0x53 ∷ 0x42 ∷ []

abbrev pub with_hardware : List ℕ → List ℕ
with_hardware rest =
    0x56 ∷ 0x49 ∷ 0x44 ∷ 0x5f ∷ 0x30 ∷ 0x39 ∷ 0x32 ∷ 0x34 ∷ 0x26 ∷ 0x50 ∷ 0x49 ∷ 0x44 ∷ 0x5f ∷ 0x34
    ∷ 0x32 ∷ 0x36 ∷ 0x35 ∷ rest

abbrev pub composite_text : List ℕ
composite_text = with_hardware []

abbrev pub scanner_text : List ℕ
scanner_text = with_hardware (0x26 ∷ 0x4d ∷ 0x49 ∷ 0x5f ∷ 0x30 ∷ 0x30 ∷ [])

abbrev pub printer_text : List ℕ
printer_text = with_hardware (0x26 ∷ 0x4d ∷ 0x49 ∷ 0x5f ∷ 0x30 ∷ 0x31 ∷ [])

abbrev pub winusb_text : List ℕ
winusb_text = 0x57 ∷ 0x69 ∷ 0x6e ∷ 0x55 ∷ 0x53 ∷ 0x42 ∷ []

unfoldable pub by_hardware : List ℕ → Option Interface
by_hardware hardware =
    if eq_ignore_ascii_case hardware scanner_text
    then some scanner
    else if eq_ignore_ascii_case hardware printer_text
    then some printer
    else if eq_ignore_ascii_case hardware composite_text
    then some composite
    else none

abbrev pub identify_parts : List (List ℕ) → Option Interface
identify_parts (bus ∷ hardware ∷ (b ∷ serial) ∷ []) =
    if eq_ignore_ascii_case bus usb_text then by_hardware hardware else none
identify_parts _ = none

unfoldable pub identify : List ℕ → Option Interface
identify instance_id = identify_parts (split instance_id)

pub record Device : Type 0 where
  pub interface : Interface
  pub service : Option (List ℕ)
  pub problem_code : ℕ
  pub started : Bool

pub data Readiness : Type 0 where
  not_scanner driver_missing not_started other_driver driver_started : Readiness
  device_problem : ℕ → Readiness

abbrev is_scanner : Interface → Bool
is_scanner scanner = true
is_scanner composite = false
is_scanner printer = false

abbrev is_winusb : Option (List ℕ) → Bool
is_winusb none = false
is_winusb (some s) = eq_ignore_ascii_case s winusb_text

unfoldable pub readiness : Device → Readiness
readiness d =
    if not (is_scanner d.interface)
    then not_scanner
    else if d.problem_code == 28
    then driver_missing
    else if not (d.problem_code == 0)
    then device_problem d.problem_code
    else if not d.started
    then not_started
    else if is_winusb d.service
    then driver_started
    else other_driver
