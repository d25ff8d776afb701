-- ===== src/Filesystem/Lock.antt =====
-- filesystem/lock.go and lock_unix.go: advisory locks on files. The system calls are a parameter, on
-- a state of the whole system. The loops that repeat an interrupted call, or wait on in one that blocks
-- while another process holds the lock, take fuel, and give `none` when it runs out.
pub mod Around
pub mod Laws
pub mod Unlocking
pub mod System
pub mod Returns
pub mod Small
pub mod Windows
mod Examples
use mathlib.Core.Option
use primordium.Base.{
  ℕ, zero, suc, Bool, true, false, ◌||◌, Bytes, Option, none, some, if◌then◌else◌,
}
use primordium.Errors.{Error, errno, is, join, wrap_two}
use primordium.Filesystem.Errors.{
  err_lock_fail, err_lock_would_block, err_unlock_fail, err_lock_is_nil,
}
use primordium.Filesystem.Lock.System.{
  Os, Mode, shared, exclusive, Request, take, try, drop, Opened, handle, failure, still_waiting,
}

-- The numbers are those of Linux.
abbrev pub eintr : Error
eintr = errno 4

abbrev pub ewouldblock : Error
ewouldblock = errno 11

abbrev pub eagain : Error
eagain = errno 11

-- The call is made again: a signal interrupted it, or it has not come back yet.
abbrev pub interrupted : Option Error → Bool
interrupted none = false
interrupted (some e) = is e eintr || is e still_waiting

-- `if fileErr := file.Close(); fileErr != nil { err = errors.Join(err, fileErr) }`
abbrev pub joined : Error → Option Error → Error
joined e none = e
joined e (some f) = wrap_two e f

-- `if fileErr != nil { err = errors.Join(err, fileErr) }`, where `err` may be nil.
abbrev pub join_close : Option Error → Option Error → Option Error
join_close e none = e
join_close e (some f) = join e (some f)

module _ (O : Os) where
  -- `for { err = syscall.Flock(…); if !errors.Is(err, syscall.EINTR) { break } }`
  unfoldable pub flock_loop : ℕ → O.State → ℕ → Request → Option (O.State × Option Error)
  flock_loop zero s fd r = none
  flock_loop (suc fuel) s fd r =
      let (s', e) = O.flock s fd r in
      let again = flock_loop fuel s' fd r in if interrupted e then again else some (s', e)

  -- After the loop of `platformLock`.
  unfoldable pub locked_or_closed : ℕ → O.State × Option Error → O.State × Opened
  locked_or_closed fd (s, none) = (s, handle fd)
  locked_or_closed fd (s, some e) = let (s', f) = O.close s fd in (s', failure (joined e f))

  -- `platformLock`; an interrupted call is repeated.
  unfoldable pub lock_opened : ℕ → Mode → O.State × Opened → Option (O.State × Opened)
  lock_opened fuel mode (s, failure e) = some (s, failure e)
  lock_opened fuel mode (s, handle fd) =
      Option.map (locked_or_closed fd) (flock_loop fuel s fd (take mode))

  unfoldable pub platform_lock : ℕ → O.State → Bytes → Mode → Option (O.State × Opened)
  unfolding lock_opened
  platform_lock fuel s path mode = lock_opened fuel mode (O.open_file s path)

  -- The error of a call that does not wait.
  abbrev pub would_block : Error → Error
  would_block e = if is e ewouldblock || is e eagain then err_lock_would_block else e

  unfoldable pub try_flocked : ℕ → O.State × Option Error → O.State × Opened
  try_flocked fd (s, none) = (s, handle fd)
  try_flocked fd (s, some e) =
      let (s', f) = O.close s fd in (s', failure (would_block (joined e f)))

  unfoldable pub try_opened : Mode → O.State × Opened → O.State × Opened
  try_opened mode (s, failure e) = (s, failure e)
  try_opened mode (s, handle fd) = try_flocked fd (O.flock s fd (try mode))

  unfoldable pub platform_try_lock : O.State → Bytes → Mode → O.State × Opened
  unfolding try_opened try_flocked
  platform_try_lock s path mode = try_opened mode (O.open_file s path)

  -- `platformUnlock`: the deferred call closes the file whatever the lock's error.
  unfoldable pub close_after : ℕ → O.State × Option Error → O.State × Option Error
  close_after fd (s, e) = let (s', f) = O.close s fd in (s', join_close e f)

  unfoldable pub platform_unlock : ℕ → O.State → ℕ → Option (O.State × Option Error)
  unfolding close_after
  platform_unlock fuel s fd = Option.map (close_after fd) (flock_loop fuel s fd drop)

  -- `errors.Join(ErrLockFail, err)` around an error.
  abbrev pub lock_failed : O.State × Opened → O.State × Opened
  lock_failed (s, handle fd) = (s, handle fd)
  lock_failed (s, failure e) = (s, failure (wrap_two err_lock_fail e))

  unfoldable pub locking : ℕ → O.State → Bytes → Mode → Option (O.State × Opened)
  locking fuel s path mode = Option.map lock_failed (platform_lock fuel s path mode)

  unfoldable pub lock : ℕ → O.State → Bytes → Option (O.State × Opened)
  unfolding locking platform_lock
  lock fuel s path = locking fuel s path exclusive

  unfoldable pub read_only_lock : ℕ → O.State → Bytes → Option (O.State × Opened)
  unfolding locking platform_lock
  read_only_lock fuel s path = locking fuel s path shared

  abbrev pub try_failed : O.State × Opened → O.State × Opened
  try_failed (s, handle fd) = (s, handle fd)
  try_failed (s, failure e) =
      (s, failure (if is e err_lock_would_block then e else wrap_two err_lock_fail e))

  unfoldable pub try_lock : O.State → Bytes → O.State × Opened
  try_lock s path = try_failed (platform_try_lock s path exclusive)

  unfoldable pub try_read_only_lock : O.State → Bytes → O.State × Opened
  try_read_only_lock s path = try_failed (platform_try_lock s path shared)

  abbrev pub unlock_failed : O.State × Option Error → O.State × Option Error
  unlock_failed (s, none) = (s, none)
  unlock_failed (s, some e) = (s, some (wrap_two err_unlock_fail e))

  -- `Unlock`; a nil lock is `none`.
  unfoldable pub unlock : ℕ → O.State → Option ℕ → Option (O.State × Option Error)
  unlock fuel s none = some (s, some err_lock_is_nil)
  unlock fuel s (some fd) = Option.map unlock_failed (platform_unlock fuel s fd)

  -- The body of `WithLock` and the deferred `Unlock`, once the file is locked.
  unfoldable pub run_locked :
      ℕ → (O.State → O.State × Option Error) → O.State × Opened → Option (O.State × Option Error)
  run_locked fuel body (s, failure e) = some (s, some e)
  run_locked fuel body (s, handle fd) =
      let (s', e) = body s in Option.map (λ z. (z.0, join z.1 e)) (unlock fuel s' (some fd))

  unfoldable pub with_lock :
      ℕ → O.State → Bytes → (O.State → O.State × Option Error) → Option (O.State × Option Error)
  unfolding run_locked
  with_lock fuel s path body = Option.bind (lock fuel s path) (run_locked fuel body)

  unfoldable pub with_read_only_lock :
      ℕ → O.State → Bytes → (O.State → O.State × Option Error) → Option (O.State × Option Error)
  unfolding run_locked
  with_read_only_lock fuel s path body =
      Option.bind (read_only_lock fuel s path) (run_locked fuel body)
