-- ===== src/Scan/Exchange.antt =====
-- src/scan.rs: one command and its reply, waiting while the scanner is busy, and the cleanup.
pub mod Sync
pub mod Frame
pub mod Ready
pub mod Cleanup
use workcentre_3119_modern_d.Prelude.{
  ℕ, zero, suc, ◌+◌, ◌*◌, Bool, true, false, not, ◌&&◌, ◌||◌, List, [], ◌∷◌, length, take, ltb, leb,
  ◌==◌, one_of, if◌then◌else◌,
}
use workcentre_3119_modern_d.Prelude.Bytes.{byte_at}
use workcentre_3119_modern_d.Errors.{
  IoError, text, host_cancelled, reworded, is_ok, invalid_data, interrupted, timed_out, other,
}
use workcentre_3119_modern_d.Scan.Reply.{ReplyStatus, good, busy, response_status}
use workcentre_3119_modern_d.Scan.Diagnostics.{set_opcode, record_busy_reply, busy_poll_interval}
use workcentre_3119_modern_d.Scan.Machine.{
  Machine, Session, Answer, done, failed, stuck, M, and_then, ◌>>=◌, ◌>>◌, pure, fail, lift,
  attempt, map_error, get, set_synchronized, set_attempted, diagnose, refuse, write, read, now,
  cancelled, sleep,
}

-- The four bytes of a plain command.
abbrev pub plain_command : ℕ → List ℕ
plain_command opcode = 0x1b ∷ 0xa8 ∷ opcode ∷ 0 ∷ []

-- The reply messages that belong to a command.
unfoldable pub expected_message : ℕ → ℕ → Bool
expected_message opcode message =
    if opcode == 0x12
    then message == 0x10
    else if opcode == 0x28
    then one_of message (0x20 ∷ 0x80 ∷ 0x81 ∷ [])
    else if opcode == 0x24
    then one_of message (0 ∷ 0x20 ∷ 0x30 ∷ [])
    else one_of message (0 ∷ 0x20 ∷ [])

-- A reply that may be taken for the answer: complete, framed, and of the command's kind.
unfoldable pub unframed : ℕ → List ℕ → Bool
unframed n b = ltb n 32 || not (byte_at b 0 == 0xa8) || not (byte_at b 2 + 3 == n)

module _ {W : Type 0} (m : Machine W) where
  unfoldable pub exchange : List ℕ → M W (List ℕ)
  exchange command = do
    set_synchronized false
    map_error (λ s e. reworded e) (write m command)
    (n, buffer) ← map_error (λ s e. reworded e) (read m 1024)
    refuse (ltb 1024 n) invalid_data
    refuse (unframed n (take n buffer)) invalid_data
    refuse (not (expected_message (byte_at command 2) (byte_at (take n buffer) 3))) invalid_data
    set_synchronized true
    pure (take n buffer)

  unfoldable pub checkpoint_deadline : ℕ → M W (Unit {0})
  checkpoint_deadline deadline = do t ← now m; refuse (leb deadline t) timed_out

  unfoldable pub checkpoint : ℕ → M W (Unit {0})
  unfolding checkpoint_deadline
  checkpoint deadline = do
    c ← cancelled m
    if c then fail (host_cancelled interrupted) else checkpoint_deadline deadline

  -- `cancel: Option<&AtomicBool>`: with `false` only the deadline is checked.
  unfoldable pub wait_check : Bool → ℕ → M W (Unit {0})
  wait_check true deadline = checkpoint deadline
  wait_check false deadline = checkpoint_deadline deadline

  -- One attempt of the loop: a Good reply ends it, a Busy one is noted.
  unfoldable pub try_command : ℕ → Bool → ℕ → M W (ReplyStatus × List ℕ)
  unfolding exchange wait_check
  try_command opcode cancel deadline = do
    wait_check cancel deadline
    set_attempted true
    b ← exchange (plain_command opcode)
    status ← lift (response_status b (opcode == 0x28))
    pure (status, b)

  unfoldable pub pause : ℕ → List ℕ → M W (Unit {0})
  pause opcode b = do
    diagnose (λ d. record_busy_reply d opcode b (opcode == 0x28))
    s ← get
    sleep m (busy_poll_interval opcode s.diagnostics.read_poll_interval)

  unfoldable pub ready_loop : ℕ → ℕ → Bool → ℕ → M W (List ℕ)
  ready_loop zero opcode cancel deadline s = (stuck, s)
  ready_loop (suc fuel) opcode cancel deadline s =
      and_then (try_command opcode cancel deadline s) λ (status, b) s'. elim status [
        | good ↦ (done b, s')
        | busy ↦ and_then (pause opcode b s') λ _ s''. ready_loop fuel opcode cancel deadline s''
      ]

  unfoldable pub ready_with_attempt : ℕ → ℕ → Bool → ℕ → M W (List ℕ)
  ready_with_attempt fuel opcode cancel deadline = do
    set_attempted false
    diagnose (λ d. set_opcode d opcode)
    ready_loop fuel opcode cancel deadline

  -- The function `ready`: with the cancellation, and without looking at the attempt.
  abbrev pub ready_checked : ℕ → ℕ → ℕ → M W (List ℕ)
  ready_checked fuel opcode deadline = ready_with_attempt fuel opcode true deadline

  -- A cleanup command: Busy counts as an error.
  unfoldable pub cleanup_command : ℕ → M W (Unit {0})
  unfolding exchange
  cleanup_command opcode = do
    b ← exchange (plain_command opcode)
    status ← lift (response_status b false)
    elim status [ good ↦ pure tt | busy ↦ fail (text other) ]

  -- The loop of `finish`; the flag says whether an error was collected. It ends early once the
  -- reply stream is uncertain.
  unfoldable pub cleanup_all : List ℕ → Bool → M W Bool
  cleanup_all [] bad s = (done bad, s)
  cleanup_all (opcode ∷ opcodes) bad s =
      and_then
        (and_then (diagnose (λ d. set_opcode d opcode) s) λ _. attempt (cleanup_command opcode))
        λ r s'.
          let bad' = bad || not (is_ok r) in
          let rest = cleanup_all opcodes bad' s' in
          if s'.synchronized then rest else (done bad', s')

  unfoldable pub finish : Bool → M W (Unit {0})
  unfolding cleanup_all
  finish abort = do
    s ← get
    refuse (not s.synchronized) other
    bad ← cleanup_all (if abort then 0x06 ∷ 0x17 ∷ [] else 0x17 ∷ []) false
    refuse bad other
