-- ===== src/Filesystem/Lock/Windows/Examples.antt =====
-- Windows locks on a small system.
use primordium.Base.{codes, some, refl}
use primordium.Filesystem.Lock.System.{exclusive}
use primordium.Filesystem.Lock.Small.{
  Small, small, small_open-counts, small_flock-grants, small_flock-files, opened_to,
}
use primordium.Filesystem.Lock.Windows.{lock, try_lock, unlock}
use primordium.Filesystem.Lock.Windows.Laws.{
  IsWindows, Locks, LockFail, TryFail, Unlocks, windows_lock-Locks,
}

small-IsWindows : IsWindows small
small-IsWindows = record {
  opened = λ s j. s.files j;
  held = λ s fd. s.lock_held;
  open_counts = small_open-counts;
  flock_grants = λ s fd r. small_flock-grants s.delays s r;
  flock_opened = λ j s fd r. small_flock-files j s.delays s r;
  close_opened = λ j s fd. refl;
  close_held = λ s fd. refl;
}

abbrev one_open : Small
one_open = opened_to 4 (some exclusive) 0

windows_lock-Locks_example :
    Locks small small-IsWindows 3 LockFail exclusive one_open
      (lock small one_open (codes "cache") exclusive)
    × Locks small small-IsWindows 3 TryFail exclusive one_open
        (try_lock small one_open (codes "cache") exclusive)
    × Unlocks small small-IsWindows 3 one_open 3 (unlock small one_open (some 3))
windows_lock-Locks_example =
    windows_lock-Locks small small-IsWindows 3 one_open (codes "cache") exclusive 3
