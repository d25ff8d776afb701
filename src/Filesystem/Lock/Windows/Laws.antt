-- ===== src/Filesystem/Lock/Windows/Laws.antt =====
-- filesystem/lock_windows.go: what taking and releasing a lock leave in the system.
use primordium.Base.{
  ℕ, ◌+◌, ◌-◌, ◌≡◌, refl, true, Bytes, Option, none, some, ◌⊎◌, inl, inr, Bool-cases, arith,
}
use primordium.Errors.{Error, is}
use primordium.Filesystem.Errors.{err_lock_fail, err_lock_would_block, err_unlock_fail}
use primordium.Filesystem.Lock.System.{
  Os, Mode, Request, take, try, drop, Opened, handle, failure, granted, Counted, here,
}
use primordium.Filesystem.Lock.{lock_failed, try_failed, unlock_failed, joined}
use primordium.Filesystem.Lock.Windows.{
  lock_file, locked, lock_in, platform_lock, violated, tried, try_in, platform_try_lock, unlocked,
  platform_unlock, lock, try_lock, unlock,
}

-- What the documentation of `CreateFile`, `LockFileEx` and `CloseHandle` promises, as far as the
-- package relies on it: `opened` is 1 for a handle that is open and 0 for any other, `held` is the lock
-- that a handle holds. A lock goes with its handle. A call that waits for a lock is taken to come back.
pub record IsWindows (O : Os) : Type 1 where
  pub opened : O.State → ℕ → ℕ
  pub held : O.State → ℕ → Option Mode
  pub open_counts :
      (j : ℕ) (s : O.State) (path : Bytes)
      → Counted j (opened s j) (opened (O.open_file s path).0 j) (O.open_file s path).1
  pub flock_grants :
      (s : O.State) (fd : ℕ) (r : Request)
      → (O.flock s fd r).1 ≡ none
      → held (O.flock s fd r).0 fd ≡ granted r
  pub flock_opened :
      (j : ℕ) (s : O.State) (fd : ℕ) (r : Request) → opened (O.flock s fd r).0 j ≡ opened s j
  pub close_opened :
      (j : ℕ) (s : O.State) (fd : ℕ) → opened (O.close s fd).0 j ≡ opened s j - here j fd
  pub close_held : (s : O.State) (fd : ℕ) → held (O.close s fd).0 fd ≡ none

abbrev pub LockFail : Error → Type 0
LockFail e = is e err_lock_fail ≡ true

abbrev pub TryFail : Error → Type 0
TryFail e = (is e err_lock_would_block ≡ true) ⊎ (is e err_lock_fail ≡ true)

abbrev pub UnlockFail : Option Error → Type 0
UnlockFail none = Unit {0}
UnlockFail (some e) = is e err_unlock_fail ≡ true

-- `j` is any handle.
module _ (O : Os) (W : IsWindows O) (j : ℕ) where
  -- A lock that is held has its file open, and no other one more; a failure leaves none behind.
  abbrev pub Locks : (Error → Type 0) → Mode → O.State → O.State × Opened → Type 0
  Locks Reported mode s (s', handle fd) =
      (W.opened s' j ≡ W.opened s j + here j fd) × (W.held s' fd ≡ some mode)
  Locks Reported mode s (s', failure e) = (W.opened s' j ≡ W.opened s j) × Reported e

  abbrev pub Unlocks : O.State → ℕ → O.State × Option Error → Type 0
  Unlocks s fd (s', e) =
      (W.opened s' j ≡ W.opened s j - here j fd) × (W.held s' fd ≡ none) × UnlockFail e

  abbrev Answers : O.State → ℕ → Request → O.State × Option Error → Type 0
  Answers s fd r (s', e) = (W.opened s' j ≡ W.opened s j) × (e ≡ none → W.held s' fd ≡ granted r)

  flock-Answers : (s : O.State) (fd : ℕ) (r : Request) → Answers s fd r (O.flock s fd r)
  flock-Answers s fd r = (W.flock_opened j s fd r, W.flock_grants s fd r)

  locked-Locks :
      (s s' : O.State) (fd : ℕ) (mode : Mode) (x : O.State × Option Error)
      → W.opened s' j ≡ W.opened s j + here j fd
      → Answers s' fd (take mode) x
      → Locks LockFail mode s (lock_failed O (locked O fd x))
  unfolding locked
  locked-Locks s s' fd mode (t, none) c h = (omega (arith, c, h.0), h.1 refl)
  locked-Locks s s' fd mode (t, some e) c h = (omega (arith, c, h.0, W.close_opened j t fd), refl)

  lock_in-Locks :
      (s : O.State) (mode : Mode) (y : O.State × Opened)
      → Counted j (W.opened s j) (W.opened y.0 j) y.1
      → Locks LockFail mode s (lock_failed O (lock_in O mode y))
  unfolding lock_in
  lock_in-Locks s mode (s', failure e) c = (c, refl)
  lock_in-Locks s mode (s', handle fd) c =
      locked-Locks s s' fd mode (O.flock s' fd (take mode)) c (flock-Answers s' fd (take mode))

  try_failed-Locks :
      (s s' : O.State) (mode : Mode) (e : Error)
      → W.opened s' j ≡ W.opened s j
      → Locks TryFail mode s (try_failed O (s', failure e))
  try_failed-Locks s s' mode e h = elim (Bool-cases (is e err_lock_would_block)) [
    | inl blocked ↦ rw blocked (h, inl blocked)
    | inr other ↦ rw other (h, inr refl)
  ]

  tried-Locks :
      (s s' : O.State) (fd : ℕ) (mode : Mode) (x : O.State × Option Error)
      → W.opened s' j ≡ W.opened s j + here j fd
      → Answers s' fd (try mode) x
      → Locks TryFail mode s (try_failed O (tried O fd x))
  unfolding tried
  tried-Locks s s' fd mode (t, none) c h = (omega (arith, c, h.0), h.1 refl)
  tried-Locks s s' fd mode (t, some e) c h =
      try_failed-Locks s (O.close t fd).0 mode (violated O (joined e (O.close t fd).1))
        (omega (arith, c, h.0, W.close_opened j t fd))

  try_in-Locks :
      (s : O.State) (mode : Mode) (y : O.State × Opened)
      → Counted j (W.opened s j) (W.opened y.0 j) y.1
      → Locks TryFail mode s (try_failed O (try_in O mode y))
  unfolding try_in
  try_in-Locks s mode (s', failure e) c = try_failed-Locks s s' mode e c
  try_in-Locks s mode (s', handle fd) c =
      tried-Locks s s' fd mode (O.flock s' fd (try mode)) c (flock-Answers s' fd (try mode))

  unlock_failed-Unlocks :
      (s : O.State) (fd : ℕ) (x : O.State × Option Error)
      → W.opened x.0 j ≡ W.opened s j - here j fd
      → W.held x.0 fd ≡ none
      → Unlocks s fd (unlock_failed O x)
  unlock_failed-Unlocks s fd (t, none) h k = (h, k, tt)
  unlock_failed-Unlocks s fd (t, some e) h k = (h, k, refl)

  unlocked-Unlocks :
      (s : O.State) (fd : ℕ) (x : O.State × Option Error)
      → W.opened x.0 j ≡ W.opened s j
      → Unlocks s fd (unlock_failed O (unlocked O fd x))
  unfolding unlocked
  unlocked-Unlocks s fd (t, e) h =
      unlock_failed-Unlocks s fd (unlocked O fd (t, e)) (omega (arith, h, W.close_opened j t fd))
        (W.close_held t fd)

  -- On Windows. `Lock`, `ReadOnlyLock` and those that only try open one file and hold the lock that was
  -- asked for on it, or leave no file open. `Lock` and `ReadOnlyLock` then report an `ErrLockFail`,
  -- the others that or an `ErrLockWouldBlock`. `Unlock` closes the file, which then holds no lock,
  -- whatever it reports; an error is an `ErrUnlockFail`.
  pub windows_lock-Locks :
      (s : O.State) (path : Bytes) (mode : Mode) (fd : ℕ)
      → Locks LockFail mode s (lock O s path mode)
        × Locks TryFail mode s (try_lock O s path mode)
        × Unlocks s fd (unlock O s (some fd))
  unfolding lock platform_lock try_lock platform_try_lock unlock platform_unlock
  windows_lock-Locks s path mode fd = (
    lock_in-Locks s mode (O.open_file s (lock_file path)) (W.open_counts j s (lock_file path)),
    try_in-Locks s mode (O.open_file s (lock_file path)) (W.open_counts j s (lock_file path)),
    unlocked-Unlocks s fd (O.flock s fd drop) (W.flock_opened j s fd drop),
  )
