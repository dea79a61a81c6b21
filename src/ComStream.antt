-- ===== src/ComStream.antt =====
-- src/com_stream.rs: `ComOutputStream`, a `Write + Seek` over an IStream. The reference counting of the
-- interface is not modelled. An HRESULT is its 32 bits.
pub mod Laws
pub mod Image
use workcentre_3119_modern_d.Prelude.{
  ℕ, ◌-◌, ◌/◌, ◌%◌, ◌^◌, List, [], ◌∷◌, length, take, min, ltb, ◌==◌, if◌then◌else◌,
}
use workcentre_3119_modern_d.Errors.{
  ErrorKind, Result, ok, err, text, interrupted, invalid_input, invalid_data, write_zero, other,
  storage_full, permission_denied, refuse, ◌>>◌,
}
use workcentre_3119_modern_d.Stateful.{St}
use workcentre_3119_modern_d.Writer.{Writer}

-- The slots of the interface: `write` answers its HRESULT and `pcbWritten`, and `seek`, for an offset and an
-- origin, its HRESULT and the new position. `os_kind` is `from_raw_os_error(code).kind()`.
pub record ComInterface (W : Type 0) : Type 0 where
  pub write : List ℕ → W → (ℕ × ℕ) × W
  pub seek : ℕ → ℕ → W → (ℕ × ℕ) × W
  pub os_kind : ℕ → ErrorKind

module _ {W : Type 0} (c : ComInterface W) where
  abbrev pub failure_kind : ℕ → ErrorKind
  failure_kind hr =
      if hr == 0x80004004
      then interrupted
      else if hr == 0x80030070
      then storage_full
      else if hr == 0x80030005
      then permission_denied
      else if hr == 0x80030001
      then invalid_input
      else if hr == 0x800704c7
      then interrupted
      else if hr / 2 ^ 16 == 0x8007
      then c.os_kind (hr % 2 ^ 16)
      else other

  unfoldable pub check_result : ℕ → Result (Unit {0})
  check_result hr = if hr == 0 then ok tt else err (text (failure_kind hr))

  -- The answer of a call of `write` for `count` bytes.
  unfoldable pub written_of : ℕ → ℕ × ℕ → Result ℕ
  written_of count (hr, written) = do
    check_result hr
    refuse (ltb count written) invalid_data
    refuse (written == 0) write_zero
    ok written

  unfoldable pub write : List ℕ → St W ℕ
  write [] w = (ok 0, w)
  write (b ∷ bs) w =
      let count = min (length (b ∷ bs)) (2 ^ 32 - 1) in
      let answer = c.write (take count (b ∷ bs)) w in (written_of count answer.0, answer.1)

  unfoldable pub seek : ℕ → ℕ → St W ℕ
  seek offset origin w =
      let answer = c.seek offset origin w in (check_result answer.0.0 >> ok answer.0.1, answer.1)

  -- `SeekFrom::Start`, `End(0)`, and `Current(0)` for `stream_position`.
  unfoldable pub com_output : Writer W
  com_output = record {
    write = write;
    seek_start = λ p. seek p 0;
    seek_end = seek 0 2;
    stream_position = seek 0 1;
  }
