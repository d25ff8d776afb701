-- ===== src/Filesystem/Lock/Examples.antt =====
-- Locks on a small system, whose first calls are delayed.
use primordium.Base.{◌≤◌, ◌≡◌, refl, Bytes, Option, none, some, [], ◌∷◌, arith}
use primordium.Errors.{Error, sentinel}
use primordium.Filesystem.Lock.System.{shared, exclusive}
use primordium.Filesystem.Lock.{
  with_lock, with_read_only_lock, lock, read_only_lock, try_lock, try_read_only_lock, unlock,
}
use primordium.Filesystem.Lock.Laws.{Locks, LockFail, TryFail}
use primordium.Filesystem.Lock.Unlocking.{Unlocks, unix_lock-Locks}
use primordium.Filesystem.Lock.Returns.{Returns}
use primordium.Filesystem.Lock.Around.{Guards, with_lock-Guards}
use primordium.Filesystem.Lock.Small.{Small, small, small-IsSystem, opened_to}

-- Two delays to come, three files open.
abbrev busy : Small
busy = opened_to 3 none 2

abbrev lockfile : Bytes
lockfile = 108 ∷ []

abbrev locked : Small
locked = opened_to 4 (some exclusive) 1

abbrev work : Small → Small × Option Error
work s = (s, some (sentinel 99))

work-keeps : (t : Small) → ((work t).0.files 3 ≡ t.files 3) × ((work t).0.delays ≤ t.delays)
work-keeps t = (refl, omega arith)

unix_lock-Locks_example :
    (Returns
        (Locks small small-IsSystem 3 (LockFail small small-IsSystem 3) exclusive locked)
        (lock small 3 locked lockfile)
      × Returns
          (Locks small small-IsSystem 3 (LockFail small small-IsSystem 3) shared locked)
          (read_only_lock small 3 locked lockfile))
    × (Locks small small-IsSystem 3
          (TryFail small small-IsSystem 3)
          exclusive
          locked
          (try_lock small locked lockfile)
        × Locks small small-IsSystem 3
            (TryFail small small-IsSystem 3)
            shared
            locked
            (try_read_only_lock small locked lockfile))
    × Returns (Unlocks small small-IsSystem 3 locked 3) (unlock small 3 locked (some 3))
unfolding small-IsSystem
unix_lock-Locks_example = unix_lock-Locks small small-IsSystem 3 3 locked lockfile 3 (omega arith)

with_lock-Guards_example :
    Returns
      (Guards small small-IsSystem 3 work exclusive busy)
      (with_lock small 3 busy lockfile work)
    × Returns
        (Guards small small-IsSystem 3 work shared busy)
        (with_read_only_lock small 3 busy lockfile work)
unfolding small-IsSystem
with_lock-Guards_example =
    with_lock-Guards small small-IsSystem 3 work work-keeps 3 busy lockfile (omega arith)
