-- ===== src/Slot/Exclusive.antt =====
-- Any interleaving of the calls: one resource has one holder, and a quarantine is final.
use workcentre_3119_modern_d.Prelude.{
  ℕ, ◌+◌, ◌≤◌, ◌≡◌, sym, ap, ◌∙◌, ◌⊎◌, inl, inr, Bool, true, false, List, [], ◌∷◌, ◌++◌, arith,
  length, length-append,
}
use mathlib.Core.Path.{subst}
use workcentre_3119_modern_d.Errors.{Result, ok, err}
use workcentre_3119_modern_d.Scan.Job.{Outcome, returned, panicked}
use workcentre_3119_modern_d.Slot.{
  Connection, unlocked, opening, closing, in_use, quarantined, locked, granted, enter_open,
  end_open, enter_unlock, end_unlock, enter_session, end_session,
}

-- A call between its two critical sections, with the resource that it holds.
pub data Call (T : Type 0) : Type 0 where
  opens : Call T
  unlocks : T → Call T
  uses : T → Call T

pub record Shared (T : Type 0) : Type 0 where
  pub connection : Connection T
  pub calls : List (Call T)

module _ {T : Type 0} where
  -- A critical section of some thread: a call begins, or one of the running calls ends.
  pub data Step (s s' : Shared T) : Type 0 where
    begin_open :
        enter_open s.connection ≡ granted s'.connection → s'.calls ≡ opens ∷ s.calls → Step s s'
    begin_unlock :
        (r : T)
        → enter_unlock s.connection ≡ granted (r, s'.connection)
        → s'.calls ≡ unlocks r ∷ s.calls
        → Step s s'
    begin_session :
        (r : T)
        → enter_session s.connection ≡ granted (r, s'.connection)
        → s'.calls ≡ uses r ∷ s.calls
        → Step s s'
    finish_open :
        (xs ys : List (Call T)) (o : Outcome (Result T))
        → s.calls ≡ xs ++ (opens ∷ ys)
        → s'.calls ≡ xs ++ ys
        → s'.connection ≡ end_open o
        → Step s s'
    finish_unlock :
        (xs ys : List (Call T)) (r : T) (o : Outcome (Unit {0}))
        → s.calls ≡ xs ++ (unlocks r ∷ ys)
        → s'.calls ≡ xs ++ ys
        → s'.connection ≡ end_unlock o
        → Step s s'
    finish_session :
        (xs ys : List (Call T)) (r r' : T) (o : Outcome Bool)
        → s.calls ≡ xs ++ (uses r ∷ ys)
        → s'.calls ≡ xs ++ ys
        → s'.connection ≡ end_session o r'
        → Step s s'

  pub data Reaches (s : Shared T) : Shared T → Type 0 where
    here : Reaches s s
    there : {t u : Shared T} → Reaches s t → Step t u → Reaches s u

module _ {T : Type 0} where
  -- The state says which call is running: none, or one.
  abbrev pub Owned : Connection T → List (Call T) → Type 0
  Owned unlocked calls = calls ≡ []
  Owned quarantined calls = calls ≡ []
  Owned (locked r) calls = calls ≡ []
  Owned opening calls = calls ≡ opens ∷ []
  Owned closing calls = (r : T) × (calls ≡ unlocks r ∷ [])
  Owned in_use calls = (r : T) × (calls ≡ uses r ∷ [])

  -- The resources that exist: the slot's own and those of the running calls.
  abbrev pub held_by_call : Call T → ℕ
  held_by_call opens = 0
  held_by_call (unlocks r) = 1
  held_by_call (uses r) = 1

  abbrev pub held_by_calls : List (Call T) → ℕ
  held_by_calls [] = 0
  held_by_calls (f ∷ fs) = held_by_call f + held_by_calls fs

  abbrev pub held : Connection T → ℕ
  held (locked r) = 1
  held unlocked = 0
  held opening = 0
  held closing = 0
  held in_use = 0
  held quarantined = 0

  -- A list of one call, cut at a call, has nothing beside it.
  alone : (xs ys : List (Call T)) (f g : Call T) → xs ++ (f ∷ ys) ≡ g ∷ [] → xs ++ ys ≡ []
  alone [] ys f g e = cc e
  alone (x ∷ xs) ys f g e =
      absurd (omega (arith, ap (λ (l : List (Call T)). length l) e, length-append xs (f ∷ ys)))

  begun :
      (c c' : Connection T) (calls calls' : List (Call T))
      → Owned c calls
      → enter_open c ≡ granted c'
      → calls' ≡ opens ∷ calls
      → Owned c' calls'
  begun c c' calls calls' h e k = ground arith

  one_call :
      (c : Connection T) (calls : List (Call T))
      → Owned c calls
      → (calls ≡ []) ⊎ ((g : Call T) × (calls ≡ g ∷ []))
  one_call unlocked calls h = inl h
  one_call quarantined calls h = inl h
  one_call (locked r) calls h = inl h
  one_call opening calls h = inr (opens, h)
  one_call closing calls h = inr (unlocks h.0, h.1)
  one_call in_use calls h = inr (uses h.0, h.1)

  -- Where a call is running, the state shows it, and no other call runs.
  none_left :
      (c : Connection T) (calls : List (Call T))
      → Owned c calls
      → (xs ys : List (Call T)) (f : Call T) → calls ≡ xs ++ (f ∷ ys)
      → xs ++ ys ≡ []
  none_left c calls h xs ys f e = elim (one_call c calls h) [
    | inl z ↦
        absurd (
          omega
            (arith, ap (λ (l : List (Call T)). length l) (sym z ∙ e), length-append xs (f ∷ ys)))
    | inr (g, z) ↦ alone xs ys f g (sym e ∙ z)
  ]

  idle_open :
      (o : Outcome (Result T)) (calls : List (Call T)) → calls ≡ [] → Owned (end_open o) calls
  idle_open (returned (ok r)) calls h = h
  idle_open (returned (err e)) calls h = h
  idle_open panicked calls h = h

  idle_unlock :
      (o : Outcome (Unit {0})) (calls : List (Call T)) → calls ≡ [] → Owned (end_unlock o) calls
  idle_unlock (returned x) calls h = h
  idle_unlock panicked calls h = h

  idle_session :
      (o : Outcome Bool) (r : T) (calls : List (Call T))
      → calls ≡ []
      → Owned (end_session o r) calls
  idle_session (returned true) r calls h = h
  idle_session (returned false) r calls h = h
  idle_session panicked r calls h = h

  Owned-along :
      (c c' : Connection T) (calls : List (Call T)) → c' ≡ c → Owned c calls → Owned c' calls
  Owned-along c c' calls q h = subst (λ (t : Connection T). Owned t calls) (sym q) h

  Step-Owned :
      (s s' : Shared T) → Owned s.connection s.calls → Step s s' → Owned s'.connection s'.calls
  Step-Owned s s' h (begin_open e k) = begun s.connection s'.connection s.calls s'.calls h e k
  Step-Owned s s' h (begin_unlock r e k) = ground arith
  Step-Owned s s' h (begin_session r e k) = ground arith
  Step-Owned s s' h (finish_open xs ys o e k q) =
      Owned-along _ s'.connection s'.calls q
        (idle_open o s'.calls (k ∙ none_left s.connection s.calls h xs ys opens e))
  Step-Owned s s' h (finish_unlock xs ys r o e k q) =
      Owned-along _ s'.connection s'.calls q
        (idle_unlock o s'.calls (k ∙ none_left s.connection s.calls h xs ys (unlocks r) e))
  Step-Owned s s' h (finish_session xs ys r r' o e k q) =
      Owned-along _ s'.connection s'.calls q
        (idle_session o r' s'.calls (k ∙ none_left s.connection s.calls h xs ys (uses r) e))

  pub Reaches-Owned :
      (s s' : Shared T) → Owned s.connection s.calls → Reaches s s' → Owned s'.connection s'.calls
  Reaches-Owned s s' h here = h
  Reaches-Owned s s' h (there {t} r step) = Step-Owned t s' (Reaches-Owned s t h r) step

  held_bound :
      (c : Connection T) (calls : List (Call T))
      → Owned c calls
      → (held c + held_by_calls calls ≤ 1) × (length calls ≤ 1)
  held_bound unlocked calls h = rw h (omega arith, omega arith)
  held_bound quarantined calls h = rw h (omega arith, omega arith)
  held_bound (locked r) calls h = rw h (omega arith, omega arith)
  held_bound opening calls h = rw h (omega arith, omega arith)
  held_bound closing calls (r, h) = rw h (omega arith, omega arith)
  held_bound in_use calls (r, h) = rw h (omega arith, omega arith)

  abbrev Final : Shared T → Type 0
  Final s = (s.connection ≡ quarantined) × (s.calls ≡ [])

  none_running :
      (xs ys calls : List (Call T)) (f : Call T) → calls ≡ [] → calls ≡ xs ++ (f ∷ ys) → ⊥
  none_running xs ys calls f h e =
      omega (arith, ap (λ (l : List (Call T)). length l) (sym h ∙ e), length-append xs (f ∷ ys))

  Step-Final : (s s' : Shared T) → Final s → Step s s' → Final s'
  Step-Final s s' h (begin_open e k) = ground arith
  Step-Final s s' h (begin_unlock r e k) = ground arith
  Step-Final s s' h (begin_session r e k) = ground arith
  Step-Final s s' h (finish_open xs ys o e k q) = absurd (none_running xs ys s.calls opens h.1 e)
  Step-Final s s' h (finish_unlock xs ys r o e k q) =
      absurd (none_running xs ys s.calls (unlocks r) h.1 e)
  Step-Final s s' h (finish_session xs ys r r' o e k q) =
      absurd (none_running xs ys s.calls (uses r) h.1 e)

  quarantine_kept : (s s' : Shared T) → Final s → Reaches s s' → Final s'
  quarantine_kept s s' h here = h
  quarantine_kept s s' h (there {t} r step) = Step-Final t s' (quarantine_kept s t h r) step

  -- From an unlocked slot, however the calls of the threads interleave, at most one call runs at a
  -- time, and at most one resource is held, by the slot or by that call.
  pub one_holder :
      (s s' : Shared T)
      → s.connection ≡ unlocked
      → s.calls ≡ []
      → Reaches s s'
      → held s'.connection + held_by_calls s'.calls ≤ 1 × (length s'.calls ≤ 1)
  one_holder s s' c k r =
      held_bound s'.connection s'.calls
        (Reaches-Owned s s' (Owned-along unlocked s.connection s.calls c k) r)

  -- From a quarantined slot with no call running, whatever the threads do, it stays quarantined.
  pub quarantine_final :
      (s s' : Shared T)
      → s.connection ≡ quarantined
      → s.calls ≡ []
      → Reaches s s'
      → (s'.connection ≡ quarantined) × (s'.calls ≡ [])
  quarantine_final s s' c k r = quarantine_kept s s' (c, k) r
