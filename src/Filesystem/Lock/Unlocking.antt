-- ===== src/Filesystem/Lock/Unlocking.antt =====
-- filesystem/lock.go and lock_unix.go: what releasing a lock leaves in the system.
use primordium.Base.{ℕ, ◌-◌, ◌≤◌, ◌<◌, ◌≡◌, refl, true, Bytes, Option, none, some, arith}
use primordium.Errors.{Error, is}
use primordium.Filesystem.Errors.{err_unlock_fail}
use primordium.Filesystem.Lock.Returns.{Returns, Returns-map}
use primordium.Filesystem.Lock.System.{Os, IsSystem, shared, exclusive, drop, here}
use primordium.Filesystem.Lock.{
  flock_loop, lock, read_only_lock, try_lock, try_read_only_lock, unlock, unlock_failed,
  platform_unlock, close_after,
}
use primordium.Filesystem.Lock.Laws.{
  Ended, flock_loop-Ended, Locks, LockFail, TryFail, lock-Locks, try_lock-Locks,
}

-- `j` is any descriptor.
module _ (O : Os) (W : IsSystem O) (j : ℕ) where
  abbrev Released : O.State → ℕ → O.State × Option Error → Type 0
  Released s fd (s', e) =
      (W.opened s' j ≡ W.opened s j - here j fd)
      × (W.held s' fd ≡ none)
      × (W.delays s' ≤ W.delays s)

  abbrev pub UnlockFail : Option Error → Type 0
  UnlockFail none = Unit {0}
  UnlockFail (some e) = is e err_unlock_fail ≡ true

  abbrev pub Unlocks : O.State → ℕ → O.State × Option Error → Type 0
  Unlocks s fd (s', e) =
      (W.opened s' j ≡ W.opened s j - here j fd)
      × (W.held s' fd ≡ none)
      × UnlockFail e
      × (W.delays s' ≤ W.delays s)

  unlocked-Unlocks :
      (s : O.State) (fd : ℕ) (x : O.State × Option Error)
      → Released s fd x
      → Unlocks s fd (unlock_failed O x)
  unlocked-Unlocks s fd (t, none) h = (h.0, h.1, tt, h.2)
  unlocked-Unlocks s fd (t, some e) h = (h.0, h.1, refl, h.2)

  close_after-Released :
      (s : O.State) (fd : ℕ) (x : O.State × Option Error)
      → Ended O W j s fd drop x
      → Released s fd (close_after O fd x)
  unfolding close_after
  close_after-Released s fd (t, e) h = (
    omega (arith, h.0, W.close_opened j t fd),
    W.close_held t fd,
    omega (arith, h.1, W.close_calm t fd),
  )

  -- `Unlock` returns once its delays end. Whatever it reports, the file is closed, and no other one is,
  -- and it holds no lock; an error is an `ErrUnlockFail`.
  pub unlock-Unlocks :
      (fuel : ℕ) (s : O.State) (fd : ℕ)
      → W.delays s < fuel
      → Returns (Unlocks s fd) (unlock O fuel s (some fd))
  unfolding unlock platform_unlock
  unlock-Unlocks fuel s fd h =
      Returns-map _ (unlock_failed O) (unlocked-Unlocks s fd) (platform_unlock O fuel s fd) (
        Returns-map _ (close_after O fd) (close_after-Released s fd) (flock_loop O fuel s fd drop)
          (flock_loop-Ended O W j fuel s fd drop h))

  -- Where the signals that interrupt them end and the processes that hold a conflicting lock give it
  -- up, `Lock`, `ReadOnlyLock` and `Unlock` return. `Lock`, `ReadOnlyLock` and those that only try open
  -- one file and hold the lock that was asked for on it, or leave the same files open as before.
  -- `Lock` and `ReadOnlyLock` then report an `ErrLockFail`, the others that or an `ErrLockWouldBlock`.
  -- `Unlock` closes its file and no other, and the file then holds no lock, whatever it reports; an
  -- error is an `ErrUnlockFail`.
  pub unix_lock-Locks :
      (fuel : ℕ) (s : O.State) (path : Bytes) (fd : ℕ)
      → W.delays s < fuel
      → (Returns (Locks O W j (LockFail O W j) exclusive s) (lock O fuel s path)
          × Returns (Locks O W j (LockFail O W j) shared s) (read_only_lock O fuel s path))
        × (Locks O W j (TryFail O W j) exclusive s (try_lock O s path)
            × Locks O W j (TryFail O W j) shared s (try_read_only_lock O s path))
        × Returns (Unlocks s fd) (unlock O fuel s (some fd))
  unix_lock-Locks fuel s path fd h =
      (lock-Locks O W j fuel s path h, try_lock-Locks O W j s path, unlock-Unlocks fuel s fd h)
