-- ===== src/Scan/Exchange/Sync.antt =====
-- After an exchange the stream counts as synchronized exactly when its reply was accepted.
use workcentre_3119_modern_d.Prelude.{
  inl, inr, ℕ, ◌+◌, ◌≤◌, ◌≡◌, Bool, true, false, List, ◌∷◌, arith, length, length-take, take, ap,
  ◌⊎◌, ◌↔◌, ◌≢◌,
}
use workcentre_3119_modern_d.Prelude.Bytes.{byte_at}
use workcentre_3119_modern_d.Errors.{is_host_cancelled, Result-cases, ok}
use workcentre_3119_modern_d.Scan.Machine.{
  Machine, Session, Answer, done, failed, stuck, ClockLaws, BufferLaws,
}
use workcentre_3119_modern_d.Scan.Exchange.{exchange, expected_message, unframed}

abbrev pub is_done : {A : Type 0} → Answer A → Bool
is_done (done a) = true
is_done (failed e) = false
is_done stuck = false

abbrev pub NotStuck : {A : Type 0} → Answer A → Type 0
NotStuck (done a) = Unit
NotStuck (failed e) = Unit
NotStuck stuck = ⊥

-- No error of the answer carries the mark of a host cancellation.
abbrev pub NotCancelled : {A : Type 0} → Answer A → Type 0
NotCancelled (done a) = Unit
NotCancelled (failed e) = is_host_cancelled e ≡ false
NotCancelled stuck = Unit

-- The kinds of reply that belong to a command: INQUIRE has 0x10 alone, the band metadata has
-- three kinds, and SET_WINDOW with one more than any other command.
abbrev pub Belongs : ℕ → ℕ → Type 0
Belongs opcode message =
    ((opcode ≡ 0x12) × (message ≡ 0x10))
    ⊎ ((opcode ≡ 0x28) × ((message ≡ 0x20) ⊎ (message ≡ 0x80) ⊎ (message ≡ 0x81)))
    ⊎ ((opcode ≡ 0x24) × ((message ≡ 0) ⊎ (message ≡ 0x20) ⊎ (message ≡ 0x30)))
    ⊎ ((opcode ≢ 0x12) × (opcode ≢ 0x28) × (opcode ≢ 0x24) × ((message ≡ 0) ⊎ (message ≡ 0x20)))

module _ {W : Type 0} (m : Machine W) (command : List ℕ) (s : Session W) where
  -- What an exchange leaves alone, and what it records.
  pub record Keeps (s' : Session W) : Type 0 where
    pub sent : s'.sent ≡ command ∷ s.sent
    pub delivered : s'.delivered ≡ s.delivered
    pub attempted : s'.attempted ≡ s.attempted
    pub deferred : s'.deferred_failed ≡ s.deferred_failed
    pub diagnostics : s'.diagnostics ≡ s.diagnostics

  pub exchange-Keeps : Keeps (exchange m command s).1
  unfolding exchange
  exchange-Keeps = ground arith

  -- After an exchange the stream counts as synchronized exactly when its reply was accepted.
  pub exchange-synchronized :
      (exchange m command s).1.synchronized ≡ is_done (exchange m command s).0
  unfolding exchange
  exchange-synchronized = ground arith

  pub exchange-NotStuck : NotStuck (exchange m command s).0
  unfolding exchange
  exchange-NotStuck = ground arith

  exchange-NotCancelled : NotCancelled (exchange m command s).0
  unfolding exchange is_host_cancelled
  exchange-NotCancelled = ground arith

  -- A framed reply, of a kind that belongs to the command.
  pub record IsReply (b : List ℕ) : Type 0 where
    pub header : byte_at b 0 ≡ 0xa8
    pub long : 32 ≤ length b
    pub framed : byte_at b 2 + 3 ≡ length b
    pub related : Belongs (byte_at command 2) (byte_at b 3)

  -- The endpoints' part: the command was written, and at most 1024 bytes were read for it.
  pub record Transferred (b : List ℕ) : Type 0 where
    pub n : ℕ
    pub buffer : List ℕ
    pub written : (m.write s.world command).0 ≡ ok tt
    pub answered : (m.read (m.write s.world command).1 1024).0 ≡ ok (n, buffer)
    pub bounded : n ≤ 1024
    pub kept : b ≡ take n buffer

  expected_message_iff :
      (opcode message : ℕ) → (expected_message opcode message ≡ true) ↔ Belongs opcode message
  unfolding expected_message
  expected_message_iff opcode message = (λ e. ground arith, λ h. ground arith)

  exchange-Transferred : (b : List ℕ) → (exchange m command s).0 ≡ done b → Transferred b
  unfolding exchange
  exchange-Transferred b e = elim (Result-cases (m.write s.world command).0) [
    | inr (x, p) ↦ ground arith
    | inl (tt, p) ↦ elim (Result-cases (m.read (m.write s.world command).1 1024).0) [
      | inr (x, q) ↦ ground arith
      | inl ((n, buffer), q) ↦ record {
        n = n;
        buffer = buffer;
        written = p;
        answered = q;
        bounded = ground arith;
        kept = ground arith;
      }
    ]
  ]

  exchange_gives :
      (b : List ℕ) (t : Transferred b)
      → length b ≡ t.n
      → (exchange m command s).0 ≡ done b
      → IsReply b
  unfolding exchange unframed
  exchange_gives b t size e = record {
    header = ground (arith, t.written, t.answered, t.kept);
    long = ground (arith, t.written, t.answered, t.kept);
    framed = ground (arith, t.written, t.answered, t.kept);
    related =
        (expected_message_iff (byte_at command 2) (byte_at b 3)).0
          (ground (arith, t.written, t.answered, t.kept));
  }

  exchange_takes :
      (b : List ℕ) (t : Transferred b)
      → length b ≡ t.n
      → IsReply b
      → (exchange m command s).0 ≡ done b
  unfolding exchange unframed
  exchange_takes b t size r = ground (
    arith,
    t.written,
    t.answered,
    t.kept,
    t.bounded,
    r.header,
    r.long,
    r.framed,
    (expected_message_iff (byte_at command 2) (byte_at b 3)).1 r.related,
  )

  Transferred-length : (b : List ℕ) → BufferLaws m → (t : Transferred b) → length b ≡ t.n
  Transferred-length b laws t = omega (
    arith,
    ap length t.kept,
    length-take t.n t.buffer,
    laws.keeps_length (m.write s.world command).1 1024 t.n t.buffer t.answered,
    t.bounded,
  )

  -- Where a buffer keeps its length, an exchange answers with a reply exactly when the command was
  -- written, the reply is what was then read, of at most 1024 bytes, and it is framed and of a kind
  -- that belongs to the command.
  pub exchange-IsReply :
      (b : List ℕ)
      → BufferLaws m
      → ((exchange m command s).0 ≡ done b) ↔ (Transferred b × IsReply b)
  exchange-IsReply b laws = (
    λ e.
        let t = exchange-Transferred b e in (t, exchange_gives b t (Transferred-length b laws t) e),
    λ (t, r). exchange_takes b t (Transferred-length b laws t) r,
  )

  pub exchange_later :
      (time : W → ℕ) → ClockLaws m time → time s.world ≤ time (exchange m command s).1.world
  unfolding exchange
  exchange_later time laws =
      ground
        (arith, laws.write_later s.world command, laws.read_later (m.write s.world command).1 1024)
