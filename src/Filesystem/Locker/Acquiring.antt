-- ===== src/Filesystem/Locker/Acquiring.antt =====
-- filesystem/refcounted.go: `Acquire`.
use primordium.Base.{
  ℕ, ◌+◌, arith, ◌≡◌, refl, Bytes, List, [], ◌∷◌, Option, none, some, inl, inr, ◌⊎◌, true,
}
use primordium.Errors.{Error, Result, ok, err, panic, is}
use primordium.Fault.{err_invalid_argument, err_filesystem_failure}
use primordium.Filesystem.Platform.{Goos}
use primordium.Filesystem.Path.Component.{Checks, validate_path_component-Checks}
use primordium.Filesystem.Errors.{err_invalid_path}
use primordium.Filesystem.Lock.System.{Os, IsSystem, Opened, handle, failure, here}
use primordium.Filesystem.Lock.Returns.{Returns, Returns-map, Returns-bind}
use primordium.Filesystem.Locker.{
  Disk, Cleanup, Made, ResourceFactory, Lease, unlock_all, refuse, finish, read_locked, touched,
  dir_locked, dir_made, root_locked, root_made, with_key, acquire, run_cleanup, resource_dir,
}
use primordium.Filesystem.Locker.Files.{
  counted, Keeps, IsDisk, Open, keep-Open, same-Open, Opens, lock-Opens, read_only_lock-Opens,
  unlock_all-Open, touch_lock_file-Open,
}

module _ (O : Os) (W : IsSystem O) (j : ℕ) (D : Disk O) (P : IsDisk O W j D) (fuel : ℕ) where
  module _ (root key : Bytes) (factory : ResourceFactory O D) where
    abbrev pub CleanupKeeps : Cleanup O D → Type 0
    CleanupKeeps cleanup = (s : O.State) → Keeps O W j s (run_cleanup O D cleanup s)

    -- What a factory hands over keeps the open files.
    abbrev pub MadeKeeps : Made O D → Type 0
    MadeKeeps (Made.made path cleanup) = CleanupKeeps cleanup
    MadeKeeps (Made.not_made e) = Unit {0}

    -- The factory and its cleanups give back what they open.
    abbrev pub FactoryKeeps : Type 0
    FactoryKeeps =
        (s : O.State) (dir : Bytes) → Keeps O W j s (factory s dir).0 × MadeKeeps (factory s dir).1

    -- The factory's outcome, called in some state.
    abbrev pub MadeBy : Made O D → Type 0
    MadeBy m = (s : O.State) × ((factory s (resource_dir O D fuel root key factory)).1 ≡ m)

    abbrev pub Reported : Error → Type 0
    Reported e =
        (is e err_invalid_argument ≡ true)
        ⊎ ((is e err_filesystem_failure ≡ true) ⊎ MadeBy (Made.not_made e))

    abbrev pub Leases : ℕ → O.State × Result (Lease O D) → Type 0
    Leases n (s, ok lease) =
        Open O W j D P fuel (n + here j lease.read_lock) s × CleanupKeeps lease.cleanup
    Leases n (s, err e) = Open O W j D P fuel n s × Reported e
    Leases n (s, panic) = ⊥

    refuse-Leases :
        (n : ℕ) (s : O.State) (fds : List ℕ) (e : Error)
        → Open O W j D P fuel (counted j fds n) s
        → Reported e
        → Returns (Leases n) (refuse O D fuel s fds e)
    unfolding refuse
    refuse-Leases n s fds e h r =
        Returns-map _ (λ s'. (s', err e)) (λ s' k. (k, r)) (unlock_all O D fuel s fds)
          (unlock_all-Open O W j D P fuel n s fds h)

    module _ (keeps : FactoryKeeps) where
      abbrev Steps : ℕ → Option (O.State × Result (Lease O D)) → Type 0
      Steps n x = Returns (Leases n) x

      finish-Leases :
          (n dir_lock read_lock : ℕ) (x : O.State × Made O D)
          → Open O W j D P fuel (n + here j dir_lock + here j read_lock) x.0
          → MadeKeeps x.1
          → MadeBy x.1
          → Steps n (finish O D fuel root key factory dir_lock read_lock x)
      unfolding finish
      finish-Leases n d r (s, Made.not_made e) h k m =
          refuse-Leases n s (r ∷ d ∷ []) e h (inr (inr m))
      finish-Leases n d r (s, Made.made path cleanup) h k m =
          Returns-map _ _ (λ s' o. (o, k)) (unlock_all O D fuel s (d ∷ []))
            (unlock_all-Open O W j D P fuel (n + here j r) s (d ∷ []) (
              same-Open O W j D P fuel (n + here j d + here j r) (n + here j r + here j d) s
                (omega arith) h))

      read_locked-Leases :
          (n dir_lock : ℕ) (x : O.State × Opened)
          → Opens O W j D P fuel (n + here j dir_lock) x
          → Steps n (read_locked O D fuel root key factory dir_lock x)
      unfolding read_locked
      read_locked-Leases n d (s, failure e) h = refuse-Leases n s (d ∷ []) _ h (inr (inl refl))
      read_locked-Leases n d (s, handle r) h =
          finish-Leases n d r _ (keep-Open O W j D P fuel _ s _ h (keeps s _).0) (keeps s _).1
            (s, refl)

      touched-Leases :
          (n dir_lock : ℕ) (x : O.State × Option Error)
          → Open O W j D P fuel (n + here j dir_lock) x.0
          → Steps n (touched O D fuel root key factory dir_lock x)
      unfolding touched
      touched-Leases n d (s, some e) h = refuse-Leases n s (d ∷ []) _ h (inr (inl refl))
      touched-Leases n d (s, none) h =
          Returns-bind _ (read_locked O D fuel root key factory d) (read_locked-Leases n d) _
            (read_only_lock-Opens O W j D P fuel (n + here j d) s _ h)

      dir_locked-Leases :
          (n global_lock : ℕ) (x : O.State × Opened)
          → Opens O W j D P fuel (n + here j global_lock) x
          → Steps n (dir_locked O D fuel root key factory global_lock x)
      unfolding dir_locked
      dir_locked-Leases n g (s, failure e) h = refuse-Leases n s (g ∷ []) _ h (inr (inl refl))
      dir_locked-Leases n g (s, handle d) h =
          Returns-bind _ _
            (λ s' k.
              touched-Leases n d _ (touch_lock_file-Open O W j D P fuel (n + here j d) s' _ k))
            (unlock_all O D fuel s (g ∷ []))
            (unlock_all-Open O W j D P fuel (n + here j d) s (g ∷ []) (
              same-Open O W j D P fuel (n + here j g + here j d) (n + here j d + here j g) s
                (omega arith) h))

      dir_made-Leases :
          (n global_lock : ℕ) (x : O.State × Option Error)
          → Open O W j D P fuel (n + here j global_lock) x.0
          → Steps n (dir_made O D fuel root key factory global_lock x)
      unfolding dir_made
      dir_made-Leases n g (s, some e) h = refuse-Leases n s (g ∷ []) _ h (inr (inl refl))
      dir_made-Leases n g (s, none) h =
          Returns-bind _ (dir_locked O D fuel root key factory g) (dir_locked-Leases n g) _
            (lock-Opens O W j D P fuel (n + here j g) s _ h)

      root_locked-Leases :
          (n : ℕ) (x : O.State × Opened)
          → Opens O W j D P fuel n x
          → Steps n (root_locked O D fuel root key factory x)
      unfolding root_locked
      root_locked-Leases n (s, failure e) h = (h, inr (inl refl))
      root_locked-Leases n (s, handle g) h =
          dir_made-Leases n g _ (keep-Open O W j D P fuel _ s _ h (P.mkdir_keeps s _ _))

      root_made-Leases :
          (n : ℕ) (x : O.State × Option Error)
          → Open O W j D P fuel n x.0
          → Steps n (root_made O D fuel root key factory x)
      unfolding root_made
      root_made-Leases n (s, some e) h = (h, inr (inl refl))
      root_made-Leases n (s, none) h =
          Returns-bind _ (root_locked O D fuel root key factory) (root_locked-Leases n) _
            (lock-Opens O W j D P fuel n s _ h)

      with_key-Leases :
          (n : ℕ) (s : O.State) (x : Result (Unit {0}))
          → Open O W j D P fuel n s
          → Checks err_invalid_path x
          → Steps n (with_key O D fuel root key factory s x)
      unfolding root_made with_key
      with_key-Leases n s (ok u) h k =
          root_made-Leases n _ (keep-Open O W j D P fuel _ s _ h (P.mkdir_keeps s _ _))
      with_key-Leases n s (err e) h k = (h, inl refl)
      with_key-Leases n s panic h k = absurd k

      -- Where the signals that interrupt its calls end, the processes that hold a conflicting lock
      -- give it up, and the factory and its cleanups leave the same files open and add no delay,
      -- `Acquire` returns and does not panic. If it succeeds, the files that are open are those of before
      -- and the reader's lock of the lease. If it fails, they are those of before, and the error is an
      -- `ErrInvalidArgument`, an `ErrFilesystemFailure`, or the factory's own.
      pub acquire-Leases :
          (os : Goos) (n : ℕ) (s : O.State)
          → Open O W j D P fuel n s
          → Steps n (acquire O D fuel root key factory os s)
      unfolding acquire
      acquire-Leases os n s h = with_key-Leases n s _ h (validate_path_component-Checks os key)
