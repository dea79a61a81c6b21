-- ===== src/Scan/Reply.antt =====
-- src/scan.rs: `response_status`, the status of a scanner reply.
pub mod Check
use workcentre_3119_modern_d.Prelude.{
  ℕ, ◌+◌, Bool, true, false, not, ◌&&◌, ◌||◌, List, ltb, ◌==◌, if◌then◌else◌, length, bit_and,
}
use workcentre_3119_modern_d.Prelude.Bytes.{byte_at, be16_at}
use workcentre_3119_modern_d.Errors.{Result, ok, err, text, refuse, ◌>>◌, invalid_data, interrupted}

pub data ReplyStatus : Type 0 where
  good busy : ReplyStatus

-- A CHECK state is busy if it has bit 0x080 or 0x400 and no bit outside 0x481.
-- `!0x481` is 0xfb7e in 16 bits.
unfoldable pub check_busy : ℕ → Bool
check_busy state = not (state == 0) && bit_and state 0xfb7e == 0 && not (bit_and state 0x480 == 0)

abbrev pub check_reply : ℕ → Result ReplyStatus
check_reply state = if check_busy state then ok busy else err (text invalid_data)

abbrev pub status_reply : List ℕ → Bool → Result ReplyStatus
status_reply b read =
    if byte_at b 1 == 0
    then ok good
    else if byte_at b 1 == 8
    then ok busy
    else if byte_at b 1 == 4
    then err (text interrupted)
    else if byte_at b 1 == 2
    then check_reply (be16_at b (if read then 12 else 4))
    else err (text invalid_data)

unfoldable pub response_status : List ℕ → Bool → Result ReplyStatus
response_status b read = do
  refuse (ltb (length b) 32 || not (byte_at b 0 == 0xa8) || not (byte_at b 2 + 3 == length b))
      invalid_data
  status_reply b read
