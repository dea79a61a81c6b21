-- ===== src/Scan/Exchange/Frame.antt =====
-- What the waiting loop leaves alone, and what it sends.
use workcentre_3119_modern_d.Prelude.{
  ℕ, zero, suc, ◌≡◌, ◌⊎◌, inl, inr, refl, sym, ap, ◌∙◌, Bool, true, false, List, [], ◌∷◌, ◌++◌,
  arith, ◌==◌, All, All-append, append_assoc,
}
use workcentre_3119_modern_d.Errors.{ok}
use workcentre_3119_modern_d.Scan.Reply.{ReplyStatus, good, busy, response_status}
use workcentre_3119_modern_d.Scan.Diagnostics.{record_busy_reply, set_opcode}
use workcentre_3119_modern_d.Scan.Machine.{Machine, Session, Answer, done, Answer-cases}
use workcentre_3119_modern_d.Scan.Exchange.{
  plain_command, checkpoint, wait_check, try_command, pause, ready_loop, ready_with_attempt,
}
use workcentre_3119_modern_d.Scan.Exchange.Sync.{exchange-Keeps, exchange-synchronized, is_done}

-- The job's own variables stay as they are.
pub record Leaves {W : Type 0} (s s' : Session W) : Type 0 where
  pub delivered : s'.delivered ≡ s.delivered
  pub deferred : s'.deferred_failed ≡ s.deferred_failed
  pub interval : s'.diagnostics.read_poll_interval ≡ s.diagnostics.read_poll_interval
  pub buffer : s'.diagnostics.read_buffer_bytes ≡ s.diagnostics.read_buffer_bytes

pub Leaves-trans : {W : Type 0} {s t u : Session W} → Leaves s t → Leaves t u → Leaves s u
Leaves-trans a b = record {
  delivered = b.delivered ∙ a.delivered;
  deferred = b.deferred ∙ a.deferred;
  interval = b.interval ∙ a.interval;
  buffer = b.buffer ∙ a.buffer;
}

-- The commands sent meanwhile, latest first, all satisfy `P`.
abbrev pub Sends : (List ℕ → Type 0) → List (List ℕ) → List (List ℕ) → Type 0
Sends P old new = (xs : List (List ℕ)) × (new ≡ xs ++ old) × All P xs

pub Sends-trans :
    (P : List ℕ → Type 0) (s t u : List (List ℕ)) → Sends P s t → Sends P t u → Sends P s u
Sends-trans P s t u (xs, p, h) (ys, q, k) =
    (ys ++ xs, q ∙ ap (◌++◌ ys) p ∙ sym (append_assoc ys xs s), All-append P ys xs k h)

pub Sends-mono :
    (P Q : List ℕ → Type 0) (s t : List (List ℕ))
    → ((c : List ℕ) → P c → Q c)
    → Sends P s t
    → Sends Q s t
Sends-mono P Q s t f (xs, p, h) = (xs, p, all xs h)
  where
    all : (xs : List (List ℕ)) → All P xs → All Q xs
    all [] h = tt
    all (x ∷ xs) h = (f x h.0, all xs h.1)

abbrev pub Is : List ℕ → List ℕ → Type 0
Is c d = d ≡ c

module _ {W : Type 0} (m : Machine W) where
  pub record Untouched (s s' : Session W) : Type 0 where
    pub sent : s'.sent ≡ s.sent
    pub synchronized : s'.synchronized ≡ s.synchronized
    pub attempted : s'.attempted ≡ s.attempted
    pub delivered : s'.delivered ≡ s.delivered
    pub deferred : s'.deferred_failed ≡ s.deferred_failed
    pub diagnostics : s'.diagnostics ≡ s.diagnostics

  pub wait_check-Untouched :
      (cancel : Bool) (deadline : ℕ) (s : Session W)
      → Untouched s (wait_check m cancel deadline s).1
  unfolding wait_check checkpoint
  wait_check-Untouched false deadline s = ground arith
  wait_check-Untouched true deadline s = ground arith

  module _ (opcode : ℕ) (cancel : Bool) (deadline : ℕ) where
    abbrev attempted_at : Session W → Session W
    attempted_at s = record (wait_check m cancel deadline s).1 { attempted = true }

    -- An attempt either stops at the check, or sends the command once.
    pub try_command-cases :
        (s : Session W)
        → let s' = (try_command m opcode cancel deadline s).1 in
          (Untouched s s' × (is_done (try_command m opcode cancel deadline s).0 ≡ false))
          ⊎ ((s'.sent ≡ plain_command opcode ∷ s.sent) × (s'.attempted ≡ true) × Leaves s s')
    unfolding try_command
    try_command-cases s = elim (Answer-cases (wait_check m cancel deadline s).0) [
      | inl (a, q) ↦ inr (
          ground (
            arith,
            wait_check-Untouched cancel deadline s,
            exchange-Keeps m (plain_command opcode) (attempted_at s),
          ))
      | inr (inl (x, q)) ↦ inl (ground (arith, wait_check-Untouched cancel deadline s))
      | inr (inr q) ↦ inl (ground (arith, wait_check-Untouched cancel deadline s))
    ]

    -- An answered attempt leaves the stream synchronized, with the reply's status.
    pub try_command_reply :
        (s : Session W) (status : ReplyStatus) (b : List ℕ)
        → (try_command m opcode cancel deadline s).0 ≡ done (status, b)
        → (response_status b (opcode == 0x28) ≡ ok status)
          × ((try_command m opcode cancel deadline s).1.synchronized ≡ true)
    unfolding try_command
    try_command_reply s status b e =
        ground (arith, exchange-synchronized m (plain_command opcode) (attempted_at s))

    pub pause_keeps :
        (b : List ℕ) (s : Session W)
        → Leaves s (pause m opcode b s).1
          × ((pause m opcode b s).1.sent ≡ s.sent)
          × ((pause m opcode b s).1.attempted ≡ s.attempted)
          × ((pause m opcode b s).0 ≡ done tt)
    unfolding pause record_busy_reply
    pause_keeps b s = ground arith

    pub try_command-Leaves : (s : Session W) → Leaves s (try_command m opcode cancel deadline s).1
    try_command-Leaves s = ground (arith, try_command-cases s)

    abbrev pub Mine : List ℕ → Type 0
    Mine = Is (plain_command opcode)

    try_command-Sends :
        (s : Session W) → Sends Mine s.sent (try_command m opcode cancel deadline s).1.sent
    try_command-Sends s = elim (try_command-cases s) [
      | inl (u, n) ↦ ([], u.sent, tt)
      | inr (sent, a, l) ↦ (plain_command opcode ∷ [], sent, (refl, tt))
    ]

    ready_loop-Leaves :
        (fuel : ℕ) (s : Session W) → Leaves s (ready_loop m fuel opcode cancel deadline s).1
    unfolding ready_loop
    ready_loop-Leaves zero s = record {
      delivered = refl;
      deferred = refl;
      interval = refl;
      buffer = refl;
    }
    ready_loop-Leaves (suc fuel) s =
        elim (Answer-cases (try_command m opcode cancel deadline s).0) [
          | inl ((good, b), q) ↦ ground (arith, try_command-Leaves s)
          | inl ((busy, b), q) ↦ ground (
            arith,
            try_command-Leaves s,
            pause_keeps b (try_command m opcode cancel deadline s).1,
            ready_loop-Leaves fuel (pause m opcode b (try_command m opcode cancel deadline s).1).1,
          )
          | inr (inl (x, q)) ↦ ground (arith, try_command-Leaves s)
          | inr (inr q) ↦ ground (arith, try_command-Leaves s)
        ]

    -- The state in which the loop is entered again.
    abbrev pub again : List ℕ → Session W → Session W
    again b s = (pause m opcode b (try_command m opcode cancel deadline s).1).1

    pub ready_loop_step :
        (fuel : ℕ) (s : Session W) (b : List ℕ)
        → (try_command m opcode cancel deadline s).0 ≡ done (busy, b)
        → ready_loop m (suc fuel) opcode cancel deadline s
          ≡ ready_loop m fuel opcode cancel deadline (again b s)
    unfolding ready_loop
    ready_loop_step fuel s b q =
        ground (arith, (pause_keeps b (try_command m opcode cancel deadline s).1).3)

    -- Every command sent while waiting is the one waited for.
    pub ready_loop-Sends :
        (fuel : ℕ) (s : Session W)
        → Sends Mine s.sent (ready_loop m fuel opcode cancel deadline s).1.sent
    unfolding ready_loop
    ready_loop-Sends zero s = ([], refl, tt)
    ready_loop-Sends (suc fuel) s = elim (Answer-cases (try_command m opcode cancel deadline s).0) [
      | inl ((good, b), q) ↦ rw (q, ready_loop) (try_command-Sends s)
      | inl ((busy, b), q) ↦ rw (ready_loop_step fuel s b q) (
          Sends-trans Mine s.sent (again b s).sent _
            (rw (pause_keeps b (try_command m opcode cancel deadline s).1).1 (try_command-Sends s))
            (ready_loop-Sends fuel (again b s)))
      | inr (inl (x, q)) ↦ rw (q, ready_loop) (try_command-Sends s)
      | inr (inr q) ↦ rw (q, ready_loop) (try_command-Sends s)
    ]

    -- Once a command was attempted the flag stays.
    ready_loop-attempted :
        (fuel : ℕ) (s : Session W)
        → s.attempted ≡ true
        → (ready_loop m fuel opcode cancel deadline s).1.attempted ≡ true
    unfolding ready_loop
    ready_loop-attempted zero s h = h
    ready_loop-attempted (suc fuel) s h =
        elim (Answer-cases (try_command m opcode cancel deadline s).0) [
          | inl ((good, b), q) ↦ ground (arith, try_command-cases s)
          | inl ((busy, b), q) ↦ ground (
            arith,
            try_command-cases s,
            pause_keeps b (try_command m opcode cancel deadline s).1,
            ready_loop-attempted fuel (again b s),
          )
          | inr (inl (x, q)) ↦ ground (arith, try_command-cases s)
          | inr (inr q) ↦ ground (arith, try_command-cases s)
        ]

    ready_loop_unattempted :
        (fuel : ℕ) (s : Session W)
        → (ready_loop m fuel opcode cancel deadline s).1.attempted ≡ false
        → Untouched s (ready_loop m fuel opcode cancel deadline s).1
    unfolding ready_loop
    ready_loop_unattempted zero s h = ground arith
    ready_loop_unattempted (suc fuel) s h =
        elim (Answer-cases (try_command m opcode cancel deadline s).0) [
          | inl ((good, b), q) ↦ ground (arith, try_command-cases s)
          | inl ((busy, b), q) ↦ ground (
            arith,
            try_command-cases s,
            pause_keeps b (try_command m opcode cancel deadline s).1,
            ready_loop-attempted fuel (again b s),
          )
          | inr (inl (x, q)) ↦ ground (arith, try_command-cases s)
          | inr (inr q) ↦ ground (arith, try_command-cases s)
        ]

    -- The answer is a Good reply, and the stream is then synchronized.
    ready_loop_good :
        (fuel : ℕ) (s : Session W) (b : List ℕ)
        → (ready_loop m fuel opcode cancel deadline s).0 ≡ done b
        → (response_status b (opcode == 0x28) ≡ ok good)
          × ((ready_loop m fuel opcode cancel deadline s).1.synchronized ≡ true)
    unfolding ready_loop
    ready_loop_good zero s b e = cc e
    ready_loop_good (suc fuel) s b e =
        elim (Answer-cases (try_command m opcode cancel deadline s).0) [
          | inl ((good, c), q) ↦ ground (arith, try_command_reply s good c q)
          | inl ((busy, c), q) ↦ ground (
            arith,
            pause_keeps c (try_command m opcode cancel deadline s).1,
            ready_loop_good fuel (again c s) b,
          )
          | inr (inl (x, q)) ↦ ground arith
          | inr (inr q) ↦ ground arith
        ]

    -- The state in which the loop starts.
    abbrev started : Session W → Session W
    started s = record s { attempted = false; diagnostics = set_opcode s.diagnostics opcode }

    -- How a wait ends, between the state before and the state after it.
    pub record Waited (s : Session W) (answer : Answer (List ℕ)) (s' : Session W) : Type 0 where
      pub leaves : Leaves s s'
      pub sends : Sends Mine s.sent s'.sent
      pub unattempted_sent : s'.attempted ≡ false → s'.sent ≡ s.sent
      pub unattempted_synchronized : s'.attempted ≡ false → s'.synchronized ≡ s.synchronized
      pub answered : (b : List ℕ) → answer ≡ done b → response_status b (opcode == 0x28) ≡ ok good
      pub answered_synchronized : (b : List ℕ) → answer ≡ done b → s'.synchronized ≡ true

    -- A wait, whatever comes of it, sends its own command alone. If the command was never attempted,
    -- nothing was sent and the stream is untouched; if it answers, the reply is Good and the stream
    -- synchronized.
    pub ready_with_attempt-Waited :
        (fuel : ℕ) (s : Session W)
        → Waited s
            (ready_with_attempt m fuel opcode cancel deadline s).0
            (ready_with_attempt m fuel opcode cancel deadline s).1
    unfolding ready_with_attempt set_opcode
    ready_with_attempt-Waited fuel s = record {
      leaves = ground (arith, ready_loop-Leaves fuel (started s));
      sends = ready_loop-Sends fuel (started s);
      unattempted_sent = λ h. (ready_loop_unattempted fuel (started s) h).sent;
      unattempted_synchronized = λ h. (ready_loop_unattempted fuel (started s) h).synchronized;
      answered = λ b e. (ready_loop_good fuel (started s) b e).0;
      answered_synchronized = λ b e. (ready_loop_good fuel (started s) b e).1;
    }
