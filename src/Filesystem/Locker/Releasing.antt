-- ===== src/Filesystem/Locker/Releasing.antt =====
-- filesystem/refcounted.go: the function that `Acquire` returns.
use primordium.Base.{ℕ, ◌+◌, arith, Bytes, [], ◌∷◌}
use primordium.Filesystem.Lock.System.{Os, IsSystem, Opened, handle, failure, here}
use primordium.Filesystem.Lock.Returns.{Returns, Returns-bind}
use primordium.Filesystem.Locker.{
  Disk, Cleanup, run_cleanup, tried, release_in, release_under, release,
}
use primordium.Filesystem.Locker.Files.{
  Keeps, IsDisk, Open, keep-Open, same-Open, Opens, lock-Opens, try_lock-Opens, unlock_all-Open,
}

module _ (O : Os) (W : IsSystem O) (j : ℕ) (D : Disk O) (P : IsDisk O W j D) (fuel : ℕ) where
  module _ (root dir path : Bytes) (read_lock : ℕ) (cleanup : Cleanup O D)
      (keeps : (s : O.State) → Keeps O W j s (run_cleanup O D cleanup s)) where
    tried-Open :
        (n global_lock dir_lock : ℕ) (x : O.State × Opened)
        → Opens O W j D P fuel (n + here j global_lock + here j dir_lock) x
        → Returns
            (Open O W j D P fuel n)
            (tried O D fuel root dir path read_lock cleanup global_lock dir_lock x)
    unfolding tried
    tried-Open n g d (s, failure e) h = unlock_all-Open O W j D P fuel n s (d ∷ g ∷ []) h
    tried-Open n g d (s, handle x) h =
        Returns-bind _ _
          (λ s' k.
            unlock_all-Open O W j D P fuel n _ (d ∷ g ∷ [])
              (keep-Open O W j D P fuel _ s' _ k (P.remove_keeps s' dir)))
          _
          (unlock_all-Open O W j D P fuel (n + here j g + here j d) _ (x ∷ [])
            (keep-Open O W j D P fuel _ s _ h (keeps s)))

    release_in-Open :
        (n global_lock : ℕ) (x : O.State × Opened)
        → Opens O W j D P fuel (n + here j read_lock + here j global_lock) x
        → Returns
            (Open O W j D P fuel n)
            (release_in O D fuel root dir path read_lock cleanup global_lock x)
    unfolding release_in
    release_in-Open n g (s, failure e) h = unlock_all-Open O W j D P fuel n s (g ∷ read_lock ∷ []) h
    release_in-Open n g (s, handle d) h =
        Returns-bind _ _ (λ s' k. tried-Open n g d _ (try_lock-Opens O W j D P fuel _ s' path k)) _
          (unlock_all-Open O W j D P fuel (n + here j g + here j d) s (read_lock ∷ []) (
            same-Open O W j D P fuel (n + here j read_lock + here j g + here j d)
              (n + here j g + here j d + here j read_lock) s (omega arith) h))

    release_under-Open :
        (n : ℕ) (x : O.State × Opened)
        → Opens O W j D P fuel (n + here j read_lock) x
        → Returns (Open O W j D P fuel n) (release_under O D fuel root dir path read_lock cleanup x)
    unfolding release_under
    release_under-Open n (s, failure e) h = unlock_all-Open O W j D P fuel n s (read_lock ∷ []) h
    release_under-Open n (s, handle g) h =
        Returns-bind _ _ (release_in-Open n g) _
          (lock-Opens O W j D P fuel (n + here j read_lock + here j g) s dir h)

    -- Where the signals that interrupt its calls end, the processes that hold a conflicting lock give it
    -- up, and the cleanup leaves the same files open and adds no delay, the release function returns. On
    -- every path it has closed the reader's lock and every lock that it took, and no other file.
    pub release-Open :
        (n : ℕ) (s : O.State)
        → Open O W j D P fuel (n + here j read_lock) s
        → Returns (Open O W j D P fuel n) (release O D fuel root dir path read_lock cleanup s)
    unfolding release
    release-Open n s h =
        Returns-bind _ (release_under O D fuel root dir path read_lock cleanup)
          (release_under-Open n) _ (lock-Opens O W j D P fuel (n + here j read_lock) s root h)
