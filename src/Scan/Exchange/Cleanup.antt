-- ===== src/Scan/Exchange/Cleanup.antt =====
-- What `finish` sends: nothing on an uncertain stream, RELEASE after success, and after a failure STOP,
-- with RELEASE after it only where the stream stayed synchronized.
use workcentre_3119_modern_d.Prelude.{ℕ, ◌≡◌, ◌⊎◌, Bool, true, false, List, ◌∷◌, arith}
use workcentre_3119_modern_d.Errors.{text, other}
use workcentre_3119_modern_d.Scan.Diagnostics.{set_opcode, Diagnostics}
use workcentre_3119_modern_d.Scan.Machine.{Machine, Session, done, failed}
use workcentre_3119_modern_d.Scan.Exchange.{
  exchange, plain_command, cleanup_command, cleanup_all, finish,
}
use workcentre_3119_modern_d.Scan.Exchange.Sync.{
  exchange-Keeps, exchange-synchronized, exchange-NotStuck, NotStuck,
}

abbrev pub stop_command : List ℕ
stop_command = plain_command 0x06

abbrev pub release_command : List ℕ
release_command = plain_command 0x17

module _ {W : Type 0} (m : Machine W) where
  cleanup_command-sent :
      (opcode : ℕ) (s : Session W)
      → (cleanup_command m opcode s).1.sent ≡ plain_command opcode ∷ s.sent
  unfolding cleanup_command
  cleanup_command-sent opcode s = ground (arith, exchange-Keeps m (plain_command opcode) s)

  cleanup_command_done :
      (opcode : ℕ) (s : Session W)
      → (cleanup_command m opcode s).0 ≡ done tt
      → (cleanup_command m opcode s).1.synchronized ≡ true
  unfolding cleanup_command
  cleanup_command_done opcode s e = ground (arith, exchange-synchronized m (plain_command opcode) s)

  -- Nothing is sent on a stream that is not synchronized.
  pub finish_uncertain :
      (abort : Bool) (s : Session W)
      → s.synchronized ≡ false
      → finish m abort s ≡ (failed (text other), s)
  unfolding finish
  finish_uncertain abort s h = ground arith

  cleanup_command-NotStuck : (opcode : ℕ) (s : Session W) → NotStuck (cleanup_command m opcode s).0
  unfolding cleanup_command
  cleanup_command-NotStuck opcode s = ground (arith, exchange-NotStuck m (plain_command opcode) s)

  abbrev at_opcode : ℕ → Session W → Session W
  at_opcode opcode s = record s { diagnostics = set_opcode s.diagnostics opcode }

  -- The state after STOP, in which RELEASE is sent if the stream is synchronized.
  abbrev stopped : Session W → Session W
  stopped s = at_opcode 0x17 (cleanup_command m 0x06 (at_opcode 0x06 s)).1

  -- Whether the reply to STOP, sent now, leaves the stream synchronized.
  abbrev pub stop_accepted : Session W → Bool
  stop_accepted s = (exchange m stop_command s).1.synchronized

  -- What a cleanup on a synchronized stream sends, latest first. After a STOP whose reply left the
  -- stream uncertain nothing more is sent.
  abbrev pub CleanupSent : Bool → Session W → Session W → Type 0
  CleanupSent false s s' = s'.sent ≡ release_command ∷ s.sent
  CleanupSent true s s' =
      ((stop_accepted s ≡ false) × (s'.sent ≡ stop_command ∷ s.sent) × (s'.synchronized ≡ false))
      ⊎ ((stop_accepted s ≡ true) × (s'.sent ≡ release_command ∷ stop_command ∷ s.sent))

  -- The diagnostics have no part in it.
  pub stop_accepted_diagnostics :
      (s : Session W) (d : Diagnostics)
      → stop_accepted (record s { diagnostics = d }) ≡ stop_accepted s
  unfolding exchange
  stop_accepted_diagnostics s d = ground arith

  cleanup_command-synchronized :
      (s : Session W) (d : Diagnostics)
      → (cleanup_command m 0x06 (record s { diagnostics = d })).1.synchronized ≡ stop_accepted s
  unfolding cleanup_command
  cleanup_command-synchronized s d = ground (arith, stop_accepted_diagnostics s d)

  pub finish-sent :
      (abort : Bool) (s : Session W)
      → s.synchronized ≡ true
      → CleanupSent abort s (finish m abort s).1
  unfolding finish cleanup_all set_opcode
  finish-sent false s h = ground (
    arith,
    cleanup_command-sent 0x17 (at_opcode 0x17 s),
    cleanup_command-NotStuck 0x17 (at_opcode 0x17 s),
  )
  finish-sent true s h = ground (
    arith,
    cleanup_command-sent 0x06 (at_opcode 0x06 s),
    cleanup_command-synchronized s (set_opcode s.diagnostics 0x06),
    cleanup_command-NotStuck 0x06 (at_opcode 0x06 s),
    cleanup_command-sent 0x17 (stopped s),
    cleanup_command-NotStuck 0x17 (stopped s),
  )

  -- A confirmed cleanup leaves the stream synchronized.
  pub finish_done :
      (abort : Bool) (s : Session W)
      → (finish m abort s).0 ≡ done tt
      → (finish m abort s).1.synchronized ≡ true
  unfolding finish cleanup_all
  finish_done false s e = ground (
    arith,
    cleanup_command-NotStuck 0x17 (at_opcode 0x17 s),
    cleanup_command_done 0x17 (at_opcode 0x17 s),
  )
  finish_done true s e = ground (
    arith,
    cleanup_command-NotStuck 0x06 (at_opcode 0x06 s),
    cleanup_command_done 0x06 (at_opcode 0x06 s),
    cleanup_command-NotStuck 0x17 (stopped s),
    cleanup_command_done 0x17 (stopped s),
  )

  pub finish-NotStuck : (abort : Bool) (s : Session W) → NotStuck (finish m abort s).0
  unfolding finish cleanup_all
  finish-NotStuck false s = ground (arith, cleanup_command-NotStuck 0x17 (at_opcode 0x17 s))
  finish-NotStuck true s = ground (
    arith,
    cleanup_command-NotStuck 0x06 (at_opcode 0x06 s),
    cleanup_command-NotStuck 0x17 (stopped s),
  )

  -- The cleanup leaves the job's own variables alone.
  abbrev pub Apart : Session W → Session W → Type 0
  Apart s s' = (s'.delivered ≡ s.delivered) × (s'.deferred_failed ≡ s.deferred_failed)

  cleanup_command-Apart : (opcode : ℕ) (s : Session W) → Apart s (cleanup_command m opcode s).1
  unfolding cleanup_command
  cleanup_command-Apart opcode s = ground (arith, exchange-Keeps m (plain_command opcode) s)

  pub finish-Apart : (abort : Bool) (s : Session W) → Apart s (finish m abort s).1
  unfolding finish cleanup_all
  finish-Apart false s = ground (arith, cleanup_command-Apart 0x17 (at_opcode 0x17 s))
  finish-Apart true s =
      ground (
        arith,
        cleanup_command-Apart 0x06 (at_opcode 0x06 s),
        cleanup_command-Apart 0x17 (stopped s),
      )
