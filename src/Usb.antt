-- ===== src/Usb.antt =====
-- src/usb.rs: the checks on descriptors, endpoints, paths and transfers. The calls of WinUSB, SetupAPI
-- and CompareStringOrdinal are not held by the source: the last is the parameter `equal_path`.
pub mod Selection
use workcentre_3119_modern_d.Prelude.{
  ℕ, zero, suc, ◌+◌, ◌*◌, ◌/◌, ◌%◌, ◌^◌, Bool, true, false, not, ◌&&◌, ◌||◌, List, [], ◌∷◌, Option,
  none, some, length, take, ltb, leb, ◌==◌, one_of, is_some, if◌then◌else◌, bit_and,
}
use workcentre_3119_modern_d.Prelude.Bytes.{byte_at, le16_at}
use workcentre_3119_modern_d.Errors.{
  IoError, ErrorKind, Result, ok, err, text, refuse, ◌>>=◌, ◌>>◌, invalid_data, invalid_input,
  other, not_connected, not_found, write_zero,
}
use workcentre_3119_modern_d.Device.{Interface, scanner, printer, composite, identify}

abbrev pub max_transfer_bytes : ℕ
max_transfer_bytes = 1024 * 1024

-- `invalid` of src/usb.rs.
abbrev pub invalid : IoError
invalid = text invalid_data

pub record PipeInfo : Type 0 where
  pub kind : ℕ
  pub id : ℕ
  pub maximum_packet : ℕ
  pub interval : ℕ

pub record BulkPipes : Type 0 where
  pub input : ℕ
  pub output : ℕ
  pub input_max_packet : ℕ
  pub output_max_packet : ℕ

abbrev names_scanner : Option Interface → Bool
names_scanner (some scanner) = true
names_scanner (some printer) = false
names_scanner (some composite) = false
names_scanner none = false

unfoldable pub validate_scanner_id : List ℕ → Result (Unit {0})
validate_scanner_id id = refuse (not (names_scanner (identify id))) invalid_data

pub record ScannerCandidates : Type 0 where
  pub active : List (List ℕ)
  pub inactive : ℕ

abbrev only_path : List (List ℕ) → ℕ → Result (List ℕ)
only_path [] inactive = if ltb 0 inactive then err (text not_connected) else err (text not_found)
only_path (p ∷ []) inactive = ok p
only_path (p ∷ q ∷ ps) inactive = err (text other)

unfoldable pub unique_scanner_path : ScannerCandidates → Result (List ℕ)
unique_scanner_path candidates = do
  refuse (ltb 1 (length candidates.active + candidates.inactive)) other
  only_path candidates.active candidates.inactive

-- `iter().position(|v| *v == 0)`
abbrev pub zero_position : List ℕ → Option ℕ
zero_position [] = none
zero_position (zero ∷ vs) = some 0
zero_position (suc v ∷ vs) = elim (zero_position vs) [ none ↦ none | some i ↦ some (suc i) ]

unfoldable pub validate_matching_path : List ℕ → Result (List ℕ)
validate_matching_path path = do
  refuse (length path == 0) invalid_data
  refuse (ltb 32768 (length path)) invalid_data
  elim (zero_position path) [
    | none ↦ err invalid
    | some end ↦ do
      refuse (end == 0) invalid_data
      refuse (not (end + 1 == length path)) invalid_data
      ok (take (end + 1) path)
  ]

module _ (equal_path : List ℕ → List ℕ → Result Bool) where
  -- The loop over the candidates.
  unfoldable pub select_loop : List (List ℕ) → List ℕ → Option (List ℕ) → Result (Option (List ℕ))
  select_loop [] requested found = ok found
  select_loop (candidate ∷ candidates) requested found =
      let one = select_loop candidates requested (some candidate) in
      let rest = select_loop candidates requested found in
      equal_path candidate requested >>= λ matches.
      if matches then (if is_some found then err (text other) else one) else rest

  unfoldable pub select_matching_scanner_path : List (List ℕ) → List ℕ → Result (List ℕ)
  select_matching_scanner_path candidates path = do
    requested ← validate_matching_path path
    found ← select_loop candidates requested none
    elim found [ none ↦ err (text not_found) | some p ↦ ok p ]

unfoldable pub validate_device : List ℕ → Result (Unit {0})
validate_device descriptor =
    refuse
      (not (length descriptor == 18)
        || not (byte_at descriptor 0 == 18)
        || not (byte_at descriptor 1 == 1)
        || not (le16_at descriptor 8 == 0x0924)
        || not (le16_at descriptor 10 == 0x4265))
      invalid_data

unfoldable pub validate_interface : List ℕ → ℕ → Result ℕ
validate_interface descriptor current = do
  refuse
      (not (byte_at descriptor 0 == 9)
        || not (byte_at descriptor 1 == 4)
        || not (byte_at descriptor 2 == 0)
        || not (byte_at descriptor 3 == current)
        || not (byte_at descriptor 5 == 0xff)
        || not (leb 2 (byte_at descriptor 4) && leb (byte_at descriptor 4) 30))
      invalid_data
  ok (byte_at descriptor 4)

abbrev pub bulk_packet_sizes : List ℕ
bulk_packet_sizes = 8 ∷ 16 ∷ 32 ∷ 64 ∷ 512 ∷ 1024 ∷ []

-- `pipe.id & 0x80 != 0`
abbrev pub is_input : PipeInfo → Bool
is_input pipe = not (bit_and pipe.id 0x80 == 0)

-- The first check of a pipe; `seen` are the ids with `addresses[id]`.
unfoldable pub bad_pipe : PipeInfo → List ℕ → Bool
bad_pipe pipe seen =
    not (bit_and pipe.id 0x70 == 0)
    || bit_and pipe.id 0x0f == 0
    || one_of pipe.id seen
    || pipe.maximum_packet == 0
    || ltb 1024 pipe.maximum_packet

abbrev pub Slots : Type 0
Slots = Option (ℕ × ℕ) × Option (ℕ × ℕ)

-- `slot.replace(…).is_some()` is refused.
unfoldable pub put_pipe : PipeInfo → Slots → Result Slots
put_pipe pipe (input, output) = do
  refuse (not (one_of pipe.maximum_packet bulk_packet_sizes)) invalid_data
  refuse (if is_input pipe then is_some input else is_some output) invalid_data
  ok (
      if is_input pipe
      then (some (pipe.id, pipe.maximum_packet), output)
      else (input, some (pipe.id, pipe.maximum_packet)))

unfoldable pub pipes_loop : List PipeInfo → List ℕ → Slots → Result Slots
pipes_loop [] seen slots = ok slots
pipes_loop (pipe ∷ pipes) seen slots = do
  refuse (bad_pipe pipe seen) invalid_data
  slots' ← if pipe.kind == 2 then put_pipe pipe slots else ok slots
  pipes_loop pipes (pipe.id ∷ seen) slots'

abbrev both_pipes : Slots → Result BulkPipes
both_pipes (some (i, i_max), some (o, o_max)) =
    ok (record { input = i; output = o; input_max_packet = i_max; output_max_packet = o_max })
both_pipes (some i, none) = err invalid
both_pipes (none, output) = err invalid

unfoldable pub select_bulk_pipes : List PipeInfo → Result BulkPipes
select_bulk_pipes pipes = do slots ← pipes_loop pipes [] (none, none); both_pipes slots

unfoldable pub validate_transfer_buffer : ℕ → Result (Unit {0})
validate_transfer_buffer size = do
  refuse (size == 0) invalid_input
  refuse (ltb max_transfer_bytes size) invalid_input

unfoldable pub validate_read_buffer : ℕ → ℕ → Result (Unit {0})
unfolding validate_transfer_buffer
validate_read_buffer size maximum_packet = do
  validate_transfer_buffer size
  refuse (maximum_packet == 0 || not (size % maximum_packet == 0)) invalid_input

unfoldable pub validate_maximum_read_transfer_size : ℕ → ℕ → ℕ → Result ℕ
validate_maximum_read_transfer_size value_length value maximum_packet = do
  refuse (not (value_length == 4)) invalid_data
  refuse (not (one_of maximum_packet bulk_packet_sizes)) invalid_data
  refuse (maximum_packet == 0 || value == 0 || ltb value maximum_packet) invalid_data
  ok value

unfoldable pub validate_complete_write : ℕ → ℕ → Result (Unit {0})
validate_complete_write transferred expected =
    refuse (expected == 0 || ltb max_transfer_bytes expected || not (transferred == expected))
      write_zero

unfoldable pub validate_bounded_read : ℕ → ℕ → Result ℕ
validate_bounded_read transferred capacity = do
  refuse (ltb capacity transferred) invalid_data
  ok transferred

unfoldable pub validate_read : ℕ → ℕ → Result ℕ
validate_read transferred capacity = do
  refuse (transferred == 0 || ltb capacity transferred) invalid_data
  ok transferred
