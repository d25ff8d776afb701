-- ===== src/Filesystem/Lock/Windows.antt =====
-- filesystem/lock.go over filesystem/lock_windows.go. `open_file` is `os.OpenFile` with `O_CREATE`,
-- `flock` is `LockFileEx` to take a lock, without waiting to try one, and `UnlockFileEx` to drop it.
-- No call is interrupted by a signal here.
pub mod Laws
mod Examples
use primordium.Base.{ℕ, Bytes, codes, ◌++◌, Option, none, some, if◌then◌else◌}
use primordium.Errors.{Error, errno, is}
use primordium.Filesystem.Errors.{err_lock_would_block, err_lock_is_nil}
use primordium.Filesystem.Lock.System.{Os, Mode, take, try, drop, Opened, handle, failure}
use primordium.Filesystem.Lock.{joined, join_close, lock_failed, try_failed, unlock_failed}

-- `ERROR_LOCK_VIOLATION`
abbrev pub error_lock_violation : Error
error_lock_violation = errno 33

abbrev pub lock_file : Bytes → Bytes
lock_file path = path ++ codes ".lock"

module _ (O : Os) where
  -- After `LockFileEx`.
  unfoldable pub locked : ℕ → O.State × Option Error → O.State × Opened
  locked fd (s, none) = (s, handle fd)
  locked fd (s, some e) = let (s', f) = O.close s fd in (s', failure (joined e f))

  unfoldable pub lock_in : Mode → O.State × Opened → O.State × Opened
  lock_in mode (s, failure e) = (s, failure e)
  lock_in mode (s, handle fd) = locked fd (O.flock s fd (take mode))

  -- `platformLock`
  unfoldable pub platform_lock : O.State → Bytes → Mode → O.State × Opened
  platform_lock s path mode = lock_in mode (O.open_file s (lock_file path))

  abbrev pub violated : Error → Error
  violated e = if is e error_lock_violation then err_lock_would_block else e

  unfoldable pub tried : ℕ → O.State × Option Error → O.State × Opened
  tried fd (s, none) = (s, handle fd)
  tried fd (s, some e) = let (s', f) = O.close s fd in (s', failure (violated (joined e f)))

  unfoldable pub try_in : Mode → O.State × Opened → O.State × Opened
  try_in mode (s, failure e) = (s, failure e)
  try_in mode (s, handle fd) = tried fd (O.flock s fd (try mode))

  -- `platformTryLock`
  unfoldable pub platform_try_lock : O.State → Bytes → Mode → O.State × Opened
  platform_try_lock s path mode = try_in mode (O.open_file s (lock_file path))

  unfoldable pub unlocked : ℕ → O.State × Option Error → O.State × Option Error
  unlocked fd (s, e) = let (s', f) = O.close s fd in (s', join_close e f)

  -- `platformUnlock`
  unfoldable pub platform_unlock : O.State → ℕ → O.State × Option Error
  platform_unlock s fd = unlocked fd (O.flock s fd drop)

  -- `Lock`, and `ReadOnlyLock` for the other mode.
  unfoldable pub lock : O.State → Bytes → Mode → O.State × Opened
  lock s path mode = lock_failed O (platform_lock s path mode)

  -- `TryLock`, and `TryReadOnlyLock` for the other mode.
  unfoldable pub try_lock : O.State → Bytes → Mode → O.State × Opened
  try_lock s path mode = try_failed O (platform_try_lock s path mode)

  -- `Unlock`; a nil lock is `none`.
  unfoldable pub unlock : O.State → Option ℕ → O.State × Option Error
  unlock s none = (s, some err_lock_is_nil)
  unlock s (some fd) = unlock_failed O (platform_unlock s fd)
