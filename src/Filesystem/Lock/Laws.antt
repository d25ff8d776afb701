-- ===== src/Filesystem/Lock/Laws.antt =====
-- filesystem/lock.go and lock_unix.go: what taking a lock leaves in the system.

use primordium.Base.{
  ℕ, zero, suc, ◌+◌, ◌≤◌, ◌<◌, ◌≡◌, refl, true, Bytes, Option, none, some, inl, inr, Bool-cases,
  ◌⊎◌, arith,
}
use primordium.Errors.{Error, is}
use primordium.Filesystem.Errors.{err_lock_fail, err_lock_would_block}
use primordium.Filesystem.Lock.Returns.{Returns, Returns-mono, Returns-map}
use primordium.Filesystem.Lock.System.{
  Os, IsSystem, Mode, shared, exclusive, Request, take, try, Opened, handle, failure, granted,
  Counted, here,
}
use primordium.Filesystem.Lock.{
  flock_loop, interrupted, locked_or_closed, lock, read_only_lock, try_lock, try_read_only_lock,
  joined, platform_lock, platform_try_lock, lock_opened, try_opened, try_flocked, locking,
  lock_failed, try_failed, would_block,
}

-- `j` is any descriptor.
module _ (O : Os) (W : IsSystem O) (j : ℕ) where
  abbrev pub Ended : O.State → ℕ → Request → O.State × Option Error → Type 0
  Ended s fd r (s', e) =
      (W.opened s' j ≡ W.opened s j)
      × (W.delays s' ≤ W.delays s)
      × (e ≡ none → W.held s' fd ≡ granted r)

  -- A lock that is held has its file open, and no other one more; a failure leaves none behind.
  abbrev pub Locks : (Error → Type 0) → Mode → O.State → O.State × Opened → Type 0
  Locks Reported mode s (s', handle fd) =
      (W.opened s' j ≡ W.opened s j + here j fd)
      × (W.held s' fd ≡ some mode)
      × (W.delays s' ≤ W.delays s)
  Locks Reported mode s (s', failure e) =
      (W.opened s' j ≡ W.opened s j) × Reported e × (W.delays s' ≤ W.delays s)

  signal-eq :
      (s : O.State) (fd : ℕ) (r : Request) (e : Option Error)
      → (O.flock s fd r).1 ≡ e
      → interrupted e ≡ true
      → W.delays (O.flock s fd r).0 < W.delays s
  signal-eq s fd r none q h = absurd (ground arith)
  signal-eq s fd r (some e) q h = W.flock_delayed s fd r q h

  -- Enough fuel for the delays to come ends the loop.
  pub flock_loop-Ended :
      (fuel : ℕ) (s : O.State) (fd : ℕ) (r : Request)
      → W.delays s < fuel
      → Returns (Ended s fd r) (flock_loop O fuel s fd r)
  unfolding flock_loop
  flock_loop-Ended zero s fd r h = absurd (omega arith)
  flock_loop-Ended (suc fuel) s fd r h =
      let x : O.State × Option Error = O.flock s fd r in
      elim (Bool-cases (interrupted x.1)) [
        | inl again ↦
            let fewer : W.delays x.0 < W.delays s = signal-eq s fd r x.1 refl again in
            rw again (
              Returns-mono
                (λ y (k : Ended x.0 fd r y).
                  (omega (arith, k.0, W.flock_opened j s fd r), omega (arith, k.1, fewer), k.2))
                (flock_loop O fuel x.0 fd r)
                (flock_loop-Ended fuel x.0 fd r (omega (arith, fewer))))
        | inr over ↦ rw over (W.flock_opened j s fd r, W.flock_calm s fd r, W.flock_grants s fd r)
      ]

  abbrev pub LockFail : Error → Type 0
  LockFail e = is e err_lock_fail ≡ true

  -- What `platformLock` leaves, whatever its error.
  abbrev Any : Error → Type 0
  Any e = Unit {0}

  locked_or_closed-Locks :
      (s s' : O.State) (fd : ℕ) (mode : Mode) (x : O.State × Option Error)
      → W.opened s' j ≡ W.opened s j + here j fd
      → W.delays s' ≤ W.delays s
      → Ended s' fd (take mode) x
      → Locks Any mode s (locked_or_closed O fd x)
  unfolding locked_or_closed
  locked_or_closed-Locks s s' fd mode (t, none) c k h =
      (omega (arith, c, h.0), h.2 refl, omega (arith, k, h.1))
  locked_or_closed-Locks s s' fd mode (t, some e) c k h =
      (omega (arith, c, h.0, W.close_opened j t fd), tt, omega (arith, k, h.1, W.close_calm t fd))

  lock_opened-Locks :
      (fuel : ℕ) (s : O.State) (mode : Mode) (y : O.State × Opened)
      → W.delays s < fuel
      → Counted j (W.opened s j) (W.opened y.0 j) y.1
      → W.delays y.0 ≤ W.delays s
      → Returns (Locks Any mode s) (lock_opened O fuel mode y)
  unfolding lock_opened
  lock_opened-Locks fuel s mode (s', failure e) h c k = (c, tt, k)
  lock_opened-Locks fuel s mode (s', handle fd) h c k =
      Returns-map _ (locked_or_closed O fd)
        (λ x (m : Ended s' fd (take mode) x). locked_or_closed-Locks s s' fd mode x c k m)
        (flock_loop O fuel s' fd (take mode))
        (flock_loop-Ended fuel s' fd (take mode) (omega arith))

  lock_failed-Locks :
      (s : O.State) (mode : Mode) (x : O.State × Opened)
      → Locks Any mode s x
      → Locks LockFail mode s (lock_failed O x)
  lock_failed-Locks s mode (s', handle fd) h = h
  lock_failed-Locks s mode (s', failure e) h = (h.0, refl, h.2)

  locking-Locks :
      (fuel : ℕ) (s : O.State) (path : Bytes) (mode : Mode)
      → W.delays s < fuel
      → Returns (Locks LockFail mode s) (locking O fuel s path mode)
  unfolding locking platform_lock
  locking-Locks fuel s path mode h =
      Returns-map _ (lock_failed O) (lock_failed-Locks s mode) (platform_lock O fuel s path mode) (
        lock_opened-Locks fuel s mode (O.open_file s path) h (W.open_counts j s path)
          (W.open_calm s path))

  -- `Lock` and `ReadOnlyLock` return once the signals that interrupt them end and the processes that
  -- hold a conflicting lock have given it up. If one succeeds, it has opened one file and holds the
  -- exclusive lock on it, or the shared one. If it fails, the same files are open as before, and the
  -- error is an `ErrLockFail`.
  pub lock-Locks :
      (fuel : ℕ) (s : O.State) (path : Bytes)
      → W.delays s < fuel
      → Returns (Locks LockFail exclusive s) (lock O fuel s path)
        × Returns (Locks LockFail shared s) (read_only_lock O fuel s path)
  unfolding lock read_only_lock
  lock-Locks fuel s path h =
      (locking-Locks fuel s path exclusive h, locking-Locks fuel s path shared h)

  abbrev pub TryFail : Error → Type 0
  TryFail e = (is e err_lock_would_block ≡ true) ⊎ (is e err_lock_fail ≡ true)

  try_failed-Locks :
      (s s' : O.State) (mode : Mode) (e : Error)
      → W.opened s' j ≡ W.opened s j
      → W.delays s' ≤ W.delays s
      → Locks TryFail mode s (try_failed O (s', failure e))
  try_failed-Locks s s' mode e h k = elim (Bool-cases (is e err_lock_would_block)) [
    | inl blocked ↦ rw blocked (h, inl blocked, k)
    | inr other ↦ rw other (h, inr refl, k)
  ]

  try_flocked-Locks :
      (s s' : O.State) (fd : ℕ) (mode : Mode) (x : O.State × Option Error)
      → W.opened s' j ≡ W.opened s j + here j fd
      → W.delays s' ≤ W.delays s
      → Ended s' fd (try mode) x
      → Locks TryFail mode s (try_failed O (try_flocked O fd x))
  unfolding try_flocked
  try_flocked-Locks s s' fd mode (t, none) c k h =
      (omega (arith, c, h.0), h.2 refl, omega (arith, k, h.1))
  try_flocked-Locks s s' fd mode (t, some e) c k h =
      try_failed-Locks s (O.close t fd).0 mode (would_block O (joined e (O.close t fd).1))
        (omega (arith, c, h.0, W.close_opened j t fd)) (omega (arith, k, h.1, W.close_calm t fd))

  try_opened-Locks :
      (s : O.State) (mode : Mode) (y : O.State × Opened)
      → Counted j (W.opened s j) (W.opened y.0 j) y.1
      → W.delays y.0 ≤ W.delays s
      → Locks TryFail mode s (try_failed O (try_opened O mode y))
  unfolding try_opened
  try_opened-Locks s mode (s', failure e) c k = try_failed-Locks s s' mode e c k
  try_opened-Locks s mode (s', handle fd) c k =
      try_flocked-Locks s s' fd mode (O.flock s' fd (try mode)) c k (
        W.flock_opened j s' fd (try mode),
        W.flock_calm s' fd (try mode),
        W.flock_grants s' fd (try mode),
      )

  -- `TryLock` and `TryReadOnlyLock`: as `Lock` and `ReadOnlyLock`, without waiting. The error is an
  -- `ErrLockWouldBlock` or an `ErrLockFail`.
  pub try_lock-Locks :
      (s : O.State) (path : Bytes)
      → Locks TryFail exclusive s (try_lock O s path)
        × Locks TryFail shared s (try_read_only_lock O s path)
  unfolding try_lock try_read_only_lock platform_try_lock
  try_lock-Locks s path = (
    try_opened-Locks s exclusive (O.open_file s path) (W.open_counts j s path) (W.open_calm s path),
    try_opened-Locks s shared (O.open_file s path) (W.open_counts j s path) (W.open_calm s path),
  )
