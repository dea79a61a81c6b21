-- ===== src/Slot.antt =====
-- src/com_server/session.rs: `SessionSlot`, the owner of one resource, and its guards.
-- The mutex makes each of these functions one atomic step; the caller's code runs between them.
pub mod Exclusive
pub mod Calls
use workcentre_3119_modern_d.Prelude.{◌≡◌, refl, Bool, true, false, List, [], ◌∷◌}
use workcentre_3119_modern_d.Errors.{IoError, Result, ok, err}
use workcentre_3119_modern_d.Scan.Job.{Outcome, returned, panicked}

pub data AccessError : Type 0 where
  busy not_locked quarantine : AccessError
  opened : IoError → AccessError

pub data Connection (T : Type 0) : Type 0 where
  unlocked opening closing in_use quarantined : Connection T
  locked : T → Connection T

pub data SlotStatus : Type 0 where
  is_unlocked is_busy is_locked is_quarantined : SlotStatus

pub data Access (A : Type 0) : Type 0 where
  granted : A → Access A
  denied : AccessError → Access A

module _ {T : Type 0} where
  abbrev pub status : Connection T → SlotStatus
  status unlocked = is_unlocked
  status opening = is_busy
  status closing = is_busy
  status in_use = is_busy
  status (locked r) = is_locked
  status quarantined = is_quarantined

  -- The first critical section of `open`.
  abbrev pub enter_open : Connection T → Access (Connection T)
  enter_open unlocked = granted opening
  enter_open quarantined = denied quarantine
  enter_open opening = denied busy
  enter_open closing = denied busy
  enter_open in_use = denied busy
  enter_open (locked r) = denied busy

  -- Its end: publication, or what `TransitionGuard` rolls back to.
  abbrev pub end_open : Outcome (Result T) → Connection T
  end_open (returned (ok r)) = locked r
  end_open (returned (err e)) = unlocked
  end_open panicked = unlocked

  -- The first critical section of `unlock` and of `with_session`, up to the state that they leave.
  abbrev pub take_locked : Connection T → Connection T → Access (T × Connection T)
  take_locked next unlocked = denied not_locked
  take_locked next opening = denied busy
  take_locked next closing = denied busy
  take_locked next in_use = denied busy
  take_locked next quarantined = denied quarantine
  take_locked next (locked r) = granted (r, next)

  abbrev pub enter_unlock : Connection T → Access (T × Connection T)
  enter_unlock = take_locked closing

  -- The resource is dropped between the two sections; a panic there quarantines the slot.
  abbrev pub end_unlock : Outcome (Unit {0}) → Connection T
  end_unlock (returned _) = unlocked
  end_unlock panicked = quarantined

  abbrev pub enter_session : Connection T → Access (T × Connection T)
  enter_session = take_locked in_use

  -- `Lease::drop`, with the resource as the operation left it, and the flag `reusable`
  -- that the operation returned.
  abbrev pub end_session : Outcome Bool → T → Connection T
  end_session (returned true) resource = locked resource
  end_session (returned false) resource = quarantined
  end_session panicked resource = quarantined

abbrev dropped_as : Outcome (Unit {0}) → Outcome (Access (Unit {0}))
dropped_as (returned _) = returned (granted tt)
dropped_as panicked = panicked

module _ {R : Type 0} where
  abbrev used_as : Outcome (R × Bool) → Outcome (Access R)
  used_as (returned (result, reusable)) = returned (granted result)
  used_as panicked = panicked

  abbrev reusable_of : Outcome (R × Bool) → Outcome Bool
  reusable_of (returned (result, reusable)) = returned reusable
  reusable_of panicked = panicked

-- The calls as a whole, when no other thread enters between their sections: what the caller sees
-- (a panic goes on unwinding), and the state afterwards.
module _ {T : Type 0} where
  abbrev opened_as : Outcome (Result T) → Outcome (Access (Unit {0}))
  opened_as (returned (ok r)) = returned (granted tt)
  opened_as (returned (err e)) = returned (denied (opened e))
  opened_as panicked = panicked

  abbrev open_result :
      Outcome (Result T)
      → Access (Connection T)
      → Connection T
      → Outcome (Access (Unit {0})) × Connection T
  open_result o (denied e) c = (returned (denied e), c)
  open_result o (granted _) c = (opened_as o, end_open o)

  unfoldable pub open_slot :
      Outcome (Result T) → Connection T → Outcome (Access (Unit {0})) × Connection T
  open_slot o c = open_result o (enter_open c) c

  abbrev unlock_result :
      Outcome (Unit {0})
      → Access (T × Connection T)
      → Connection T
      → Outcome (Access (Unit {0})) × Connection T
  unlock_result o (denied e) c = (returned (denied e), c)
  unlock_result o (granted _) c = (dropped_as o, end_unlock o)

  unfoldable pub unlock :
      Outcome (Unit {0}) → Connection T → Outcome (Access (Unit {0})) × Connection T
  unlock o c = unlock_result o (enter_unlock c) c

module _ {T R : Type 0} where
  abbrev session_result :
      (T → Outcome (R × Bool) × T)
      → Access (T × Connection T)
      → Connection T
      → Outcome (Access R) × Connection T
  session_result operation (denied e) c = (returned (denied e), c)
  session_result operation (granted (r, _)) c =
      (used_as (operation r).0, end_session (reusable_of (operation r).0) (operation r).1)

  unfoldable pub with_session :
      (T → Outcome (R × Bool) × T) → Connection T → Outcome (Access R) × Connection T
  with_session operation c = session_result operation (enter_session c) c
