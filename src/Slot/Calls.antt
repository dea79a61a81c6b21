-- ===== src/Slot/Calls.antt =====
-- What a whole call does to the slot, when no other thread enters between its sections.
use workcentre_3119_modern_d.Prelude.{
  ◌≡◌, refl, ◌⊎◌, inl, inr, Bool, true, false, arith, Bool-cases,
}
use workcentre_3119_modern_d.Scan.Job.{Outcome, returned, panicked}
use workcentre_3119_modern_d.Slot.{
  Connection, unlocked, opening, closing, in_use, quarantined, locked, Access, granted, denied,
  AccessError, busy, not_locked, quarantine, with_session,
}

Outcome-cases : {A : Type 0} (o : Outcome A) → ((a : A) × (o ≡ returned a)) ⊎ (o ≡ panicked)
Outcome-cases (returned a) = inl (a, refl)
Outcome-cases panicked = inr refl

module _ {T R : Type 0} where
  -- What came of an operation on the resource `r`.
  abbrev pub Used : (T → Outcome (R × Bool) × T) → T → Outcome (Access R) × Connection T → Type 0
  Used operation r result =
      ((a : R) × ((operation r).0 ≡ returned (a, true))
        × (result ≡ (returned (granted a), locked (operation r).1)))
      ⊎ ((a : R) × ((operation r).0 ≡ returned (a, false))
          × (result ≡ (returned (granted a), quarantined)))
      ⊎ (((operation r).0 ≡ panicked) × (result ≡ (panicked, quarantined)))

  -- A denied call changes nothing; a granted one found a resource, and it is back in the slot exactly
  -- when the operation returned and said that it is reusable. Otherwise the slot is quarantined.
  pub with_session_lem :
      (operation : T → Outcome (R × Bool) × T) (c : Connection T)
      → ((e : AccessError) × (with_session operation c ≡ (returned (denied e), c)))
        ⊎ ((r : T) × (c ≡ locked r) × Used operation r (with_session operation c))
  unfolding with_session
  with_session_lem operation unlocked = inl (not_locked, refl)
  with_session_lem operation opening = inl (busy, refl)
  with_session_lem operation closing = inl (busy, refl)
  with_session_lem operation in_use = inl (busy, refl)
  with_session_lem operation quarantined = inl (quarantine, refl)
  with_session_lem operation (locked r) = inr (
    r,
    refl,
    elim (Outcome-cases (operation r).0) [
      | inl ((a, b), q) ↦ elim (Bool-cases b) [
        | inl z ↦ inl (a, ground arith, ground arith)
        | inr z ↦ inr (inl (a, ground arith, ground arith))
      ]
      | inr q ↦ inr (inr (q, ground arith))
    ],
  )
