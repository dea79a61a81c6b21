-- ===== src/Scan/Job/Reserved.antt =====
-- Before the scanner grants the reservation a job sends INQUIRY and RESERVE only.
use workcentre_3119_modern_d.Prelude.{
  ℕ, ◌≡◌, ◌⊎◌, inl, inr, refl, sym, true, false, List, [], ◌∷◌, arith,
}
use mathlib.Core.Path.{subst}
use workcentre_3119_modern_d.Errors.{IoError, ScanStage, ok, err}
use workcentre_3119_modern_d.Protocol.{Capabilities}
use workcentre_3119_modern_d.Scan.Window.{ScanRequest, command}
use workcentre_3119_modern_d.Scan.Reply.{good, response_status}
use workcentre_3119_modern_d.Scan.Diagnostics.{set_stage, set_opcode}
use workcentre_3119_modern_d.Scan.Machine.{
  Machine, Session, Answer, done, failed, stuck, Answer-cases,
}
use workcentre_3119_modern_d.Scan.Exchange.{ready_with_attempt, checkpoint, plain_command}
use workcentre_3119_modern_d.Scan.Exchange.Sync.{exchange-Keeps}
use workcentre_3119_modern_d.Scan.Exchange.Frame.{
  Sends, Sends-trans, Sends-mono, Is, Waited, ready_with_attempt-Waited,
}
use workcentre_3119_modern_d.Scan.Job.{
  Caller, Part, go, stop, SessionHealth, ready, Report, inquire, prepare_request, reserve,
  run_reserved, run_job,
}
use workcentre_3119_modern_d.Scan.Job.Health.{inquire-Sound, prepare-Sound, reserve-Sound}

abbrev pub inquiry_command : List ℕ
inquiry_command = plain_command 0x12

abbrev pub reserve_command : List ℕ
reserve_command = plain_command 0x16

-- The commands that take nothing from another host.
abbrev pub Early : List ℕ → Type 0
Early d = (d ≡ inquiry_command) ⊎ (d ≡ reserve_command)

module _ {W : Type 0} (m : Machine W) (c : Caller W) (fuel deadline : ℕ) where
  abbrev at : ScanStage → Session W → Session W
  at stage s = record s { diagnostics = set_stage s.diagnostics stage }

  abbrev inquiring : Session W → Session W
  inquiring s =
      record (checkpoint m deadline (record s {
        diagnostics = set_opcode (set_stage s.diagnostics ScanStage.inquiry) 0x12;
      })).1 { synchronized = true }

  inquire-sent :
      (s : Session W)
      → let s' = (inquire m c fuel deadline s).1 in
        (s'.sent ≡ s.sent) ⊎ (s'.sent ≡ inquiry_command ∷ s.sent)
  unfolding inquire checkpoint
  inquire-sent s = ground (arith, exchange-Keeps m (plain_command 0x12) (inquiring s))

  prepare-sent :
      (raw : List ℕ) (caps : Capabilities) (s : Session W)
      → (prepare_request m c fuel deadline raw caps s).1.sent ≡ s.sent
  unfolding prepare_request
  prepare-sent raw caps s = ground arith

  waited :
      (s : Session W)
      → Waited m 0x16 true deadline
          (at ScanStage.reserve s)
          (ready_with_attempt m fuel 0x16 true deadline (at ScanStage.reserve s)).0
          (ready_with_attempt m fuel 0x16 true deadline (at ScanStage.reserve s)).1
  waited s = ready_with_attempt-Waited m 0x16 true deadline fuel (at ScanStage.reserve s)

  -- The reservation was granted in the state that `u` came from.
  pub record IsGranted (u : Session W) : Type 0 where
    pub before : Session W
    pub reply : List ℕ
    pub answered : (ready_with_attempt m fuel 0x16 true deadline before).0 ≡ done reply
    pub left : u ≡ (ready_with_attempt m fuel 0x16 true deadline before).1
    pub status : response_status reply false ≡ ok good

  reserve_go :
      (s : Session W) (t : Unit)
      → (reserve m c fuel deadline s).0 ≡ done (go t)
      → IsGranted (reserve m c fuel deadline s).1
  unfolding reserve
  reserve_go s t e =
      elim (Answer-cases
        (ready_with_attempt m fuel 0x16 true deadline (at ScanStage.reserve s)).0) [
          | inl (b, q) ↦ record {
            before = at ScanStage.reserve s;
            reply = b;
            answered = q;
            left = ground arith;
            status = (waited s).answered b q;
          }
          | inr (inl (x, q)) ↦ absurd (ground arith)
          | inr (inr q) ↦ absurd (ground arith)
        ]

  reserve-sent :
      (s : Session W)
      → (reserve m c fuel deadline s).1.sent
        ≡ (ready_with_attempt m fuel 0x16 true deadline (at ScanStage.reserve s)).1.sent
  unfolding reserve
  reserve-sent s = ground arith

  reserve-Sends : (s : Session W) → Sends Early s.sent (reserve m c fuel deadline s).1.sent
  reserve-Sends s =
      let h = Sends-mono (Is reserve_command) Early _ _ (λ d e. inr e) (waited s).sends in
      subst (λ (t : List (List ℕ)). Sends Early s.sent t) (sym (reserve-sent s)) h

  inquire-Sends : (s : Session W) → Sends Early s.sent (inquire m c fuel deadline s).1.sent
  inquire-Sends s = elim (inquire-sent s) [
    | inl e ↦ ([], e, tt)
    | inr e ↦ (inquiry_command ∷ [], e, (inl refl, tt))
  ]

  -- The state in which the reserved part of a job starts.
  pub record Granted (s u : Session W) : Type 0 where
    pub granted : IsGranted u
    pub synchronized : u.synchronized ≡ true
    pub delivered : u.delivered ≡ s.delivered
    pub deferred : u.deferred_failed ≡ s.deferred_failed
    pub early : Sends Early s.sent u.sent

  -- A job that ended before the reservation, or went on with it granted.
  abbrev pub Ends : Session W → Answer Report × Session W → Type 0
  Ends s r =
      ((e : IoError) × (health : SessionHealth) × (r.0 ≡ done (err e, health))
        × (health ≡ ready → r.1.synchronized ≡ true)
        × Sends Early s.sent r.1.sent)
      ⊎ ((request : ScanRequest) × (window : List ℕ) × (caps : Capabilities) × (u : Session W)
          × Granted s u
          × (command request caps ≡ ok window)
          × (r ≡ run_reserved m c fuel deadline request window caps u))
      ⊎ (r.0 ≡ stuck)

  prepare_go :
      (raw : List ℕ) (caps : Capabilities) (s : Session W) (request : ScanRequest) (window : List ℕ)
      → (prepare_request m c fuel deadline raw caps s).0 ≡ done (go (request, window))
      → command request caps ≡ ok window
  unfolding prepare_request
  prepare_go raw caps s request window e = ground arith

  -- `prepare` and `reserve` never fail.
  pub Part-cases :
      {A : Type 0} (r : Answer (Part A))
      → ((a : A) × (r ≡ done (go a)))
        ⊎ ((e : IoError) × (h : SessionHealth) × (r ≡ done (stop e h)))
        ⊎ ((e : IoError) × (r ≡ failed e))
        ⊎ (r ≡ stuck)
  Part-cases (done (go a)) = inl (a, refl)
  Part-cases (done (stop e h)) = inr (inl (e, h, refl))
  Part-cases (failed e) = inr (inr (inl (e, refl)))
  Part-cases stuck = inr (inr (inr refl))

  abbrev NotFailed : {A : Type 0} → Answer A → Type 0
  NotFailed r = (e : IoError) → ¬ (r ≡ failed e)

  inquire-NotFailed : (s : Session W) → NotFailed (inquire m c fuel deadline s).0
  unfolding inquire checkpoint
  inquire-NotFailed s e h = ground arith

  prepare-NotFailed :
      (raw : List ℕ) (caps : Capabilities) (s : Session W)
      → NotFailed (prepare_request m c fuel deadline raw caps s).0
  unfolding prepare_request
  prepare-NotFailed raw caps s e h = ground arith

  reserve-NotFailed : (s : Session W) → NotFailed (reserve m c fuel deadline s).0
  unfolding reserve
  reserve-NotFailed s e h = ground arith

  Sends-along :
      (s : Session W) (t t' : List (List ℕ)) → t' ≡ t → Sends Early s.sent t → Sends Early s.sent t'
  Sends-along s t t' p h = subst (λ (t : List (List ℕ)). Sends Early s.sent t) (sym p) h

  -- A job on a synchronized stream either ends before the reservation, or its result is that of the
  -- reserved part, entered after a Good reply to RESERVE; unless its fuel is used up. Until then it
  -- sends INQUIRY and RESERVE only, so it never stops or releases a scanner that it does not own; and
  -- an early end reports `ready` only on a synchronized stream.
  pub run_job-Ends : (s : Session W) → s.synchronized ≡ true → Ends s (run_job m c fuel deadline s)
  unfolding run_job
  run_job-Ends s h = elim (Part-cases (inquire m c fuel deadline s).0) [
    | inl ((raw, caps), q) ↦
        let s1 = (inquire m c fuel deadline s).1 in
        let sound1 = inquire-Sound m c fuel deadline s h in
        let h1 : s1.synchronized ≡ true = ground (arith, sound1) in
        elim (Part-cases (prepare_request m c fuel deadline raw caps s1).0) [
          | inl ((request, window), q2) ↦
              let s2 = (prepare_request m c fuel deadline raw caps s1).1 in
              let sound2 = prepare-Sound m c fuel deadline raw caps s1 h1 in
              let h2 : s2.synchronized ≡ true = ground (arith, sound2) in
              let early =
                Sends-trans Early _ _ _
                  (Sends-along s _ _ (prepare-sent raw caps s1) (inquire-Sends s))
                  (reserve-Sends s2) in
              elim (Part-cases (reserve m c fuel deadline s2).0) [
                | inl (t, q3) ↦ inr (
                    inl (
                      request,
                      window,
                      caps,
                      (reserve m c fuel deadline s2).1,
                      record {
                        granted = reserve_go s2 t q3;
                        synchronized = ground (arith, reserve-Sound m c fuel deadline s2 h2);
                        delivered =
                            ground (arith, sound1, sound2, reserve-Sound m c fuel deadline s2 h2);
                        deferred =
                            ground (arith, sound1, sound2, reserve-Sound m c fuel deadline s2 h2);
                        early = early;
                      },
                      prepare_go raw caps s1 request window q2,
                      ground arith,
                    ))
                | inr (inl (e, health, q3)) ↦ inl (
                  e,
                  health,
                  ground arith,
                  ground (arith, reserve-Sound m c fuel deadline s2 h2),
                  Sends-along s _ _ (ground arith) early,
                )
                | inr (inr (inl (e, q3))) ↦ absurd (reserve-NotFailed s2 e q3)
                | inr (inr (inr q3)) ↦ inr (inr (ground arith))
              ]
          | inr (inl (e, health, q2)) ↦ inl (
            e,
            health,
            ground arith,
            ground (arith, prepare-Sound m c fuel deadline raw caps s1 h1),
            Sends-along s _ _ (ground (arith, prepare-sent raw caps s1)) (inquire-Sends s),
          )
          | inr (inr (inl (e, q2))) ↦ absurd (prepare-NotFailed raw caps s1 e q2)
          | inr (inr (inr q2)) ↦ inr (inr (ground arith))
        ]
    | inr (inl (e, health, q)) ↦ inl (
      e,
      health,
      ground arith,
      ground (arith, inquire-Sound m c fuel deadline s h),
      Sends-along s _ _ (ground arith) (inquire-Sends s),
    )
    | inr (inr (inl (e, q))) ↦ absurd (inquire-NotFailed s e q)
    | inr (inr (inr q)) ↦ inr (inr (ground arith))
  ]
