-- ===== src/Filesystem/Lock/Around.antt =====
-- filesystem/lock.go: `WithLock` and `WithReadOnlyLock`, which run a function under a lock.
use primordium.Base.{
  ℕ, ◌≤◌, ◌<◌, ◌≡◌, Bool, true, false, Bytes, Option, none, some, inl, inr, ◌⊎◌, arith,
}
use primordium.Errors.{Error, is, join}
use primordium.Filesystem.Errors.{err_lock_fail}
use primordium.Filesystem.Lock.System.{
  Os, IsSystem, Mode, shared, exclusive, Opened, handle, failure,
}
use primordium.Filesystem.Lock.{
  run_locked, with_lock, with_read_only_lock, lock, read_only_lock, unlock,
}
use primordium.Filesystem.Lock.Laws.{Locks, LockFail, lock-Locks}
use primordium.Filesystem.Lock.Unlocking.{Unlocks, unlock-Unlocks}
use primordium.Filesystem.Lock.Returns.{Returns, Returns-map, Returns-bind}

-- `errors.Is` of a value that may be nil.
abbrev pub is_error : Option Error → Error → Bool
is_error none target = false
is_error (some e) target = is e target

join-is_error :
    (f e : Option Error) (target : Error)
    → is_error e target ≡ true
    → is_error (join f e) target ≡ true
join-is_error none none target h = h
join-is_error (some f) none target h = absurd (ground arith)
join-is_error none (some e) target h = h
join-is_error (some f) (some e) target h = ground arith

module _ (O : Os) (W : IsSystem O) (j : ℕ) (body : O.State → O.State × Option Error) where
  -- The body ran in a state where the lock is held. The lock was released, and the body's error is
  -- part of the error reported.
  abbrev pub RanLocked : Mode → O.State × Option Error → Type 0
  RanLocked mode (s', e) =
      (t : O.State) × (fd : ℕ) × (W.held t fd ≡ some mode)
      × (W.held s' fd ≡ none)
      × ((target : Error) → is_error (body t).1 target ≡ true → is_error e target ≡ true)

  abbrev pub Guards : Mode → O.State → O.State × Option Error → Type 0
  Guards mode s (s', e) =
      (W.opened s' j ≡ W.opened s j) × ((is_error e err_lock_fail ≡ true) ⊎ RanLocked mode (s', e))

  module _
      (keeps : (t : O.State)
        → (W.opened (body t).0 j ≡ W.opened t j) × (W.delays (body t).0 ≤ W.delays t)) where
    run_locked-Guards :
        (fuel : ℕ) (mode : Mode) (s : O.State) (x : O.State × Opened)
        → W.delays s < fuel
        → Locks O W j (LockFail O W j) mode s x
        → Returns (Guards mode s) (run_locked O fuel body x)
    unfolding run_locked
    run_locked-Guards fuel mode s (t, failure e) h k = (k.0, inl k.1)
    run_locked-Guards fuel mode s (t, handle fd) h k =
        let y : O.State × Option Error = body t in
        Returns-map _ (λ z. (z.0, join z.1 y.1))
          (λ z (m : Unlocks O W j y.0 fd z).
            (omega (arith, h, k.0, (keeps t).0, m.0), inr (t, fd, k.1, m.1, join-is_error z.1 y.1)))
          (unlock O fuel y.0 (some fd))
          (unlock-Unlocks O W j fuel y.0 fd (omega (arith, h, k.2, (keeps t).1)))

    -- Where the signals that interrupt them end, the processes that hold a conflicting lock give it up,
    -- and the body leaves the same files open and adds no delay, `WithLock` and `WithReadOnlyLock`
    -- return and leave the same files open. Either the error is an `ErrLockFail`, or the body ran
    -- under the lock, its error is part of the error reported, and the lock is released.
    pub with_lock-Guards :
        (fuel : ℕ) (s : O.State) (path : Bytes)
        → W.delays s < fuel
        → Returns (Guards exclusive s) (with_lock O fuel s path body)
          × Returns (Guards shared s) (with_read_only_lock O fuel s path body)
    unfolding with_lock with_read_only_lock
    with_lock-Guards fuel s path h = (
      Returns-bind _ (run_locked O fuel body) (λ x. run_locked-Guards fuel exclusive s x h)
          (lock O fuel s path) (lock-Locks O W j fuel s path h).0,
      Returns-bind _ (run_locked O fuel body) (λ x. run_locked-Guards fuel shared s x h)
          (read_only_lock O fuel s path) (lock-Locks O W j fuel s path h).1,
    )
