-- ===== src/Filesystem/Locker/Files.antt =====
-- filesystem/refcounted.go: the files that its steps leave open. Each lock is an open file.
use primordium.Base.{ℕ, ◌+◌, ◌≤◌, ◌<◌, ◌≡◌, Bytes, List, [], ◌∷◌, Option, none, some, arith}
use primordium.Errors.{Error}
use primordium.Filesystem.Lock.System.{Os, IsSystem, Mode, Opened, handle, failure, Counted, here}
use primordium.Filesystem.Lock.{lock, read_only_lock, try_lock, unlock}
use primordium.Filesystem.Lock.Laws.{Locks, lock-Locks, try_lock-Locks}
use primordium.Filesystem.Lock.Unlocking.{Unlocks, unlock-Unlocks}
use primordium.Filesystem.Lock.Returns.{Returns, Returns-bind, Returns-mono}
use primordium.Filesystem.Locker.{Disk, touch_lock_file, unlock_all, touched_file, close_error}

-- How often the descriptor `j` is open, if it is open so often without those of `fds`.
abbrev pub counted : ℕ → List ℕ → ℕ → ℕ
counted j [] n = n
counted j (fd ∷ fds) n = counted j fds n + here j fd

module _ (O : Os) (W : IsSystem O) (j : ℕ) where
  -- What is open stays, and no delay is added. `j` is any descriptor.
  abbrev pub Keeps : O.State → O.State → Type 0
  Keeps s s' = (W.opened s' j ≡ W.opened s j) × (W.delays s' ≤ W.delays s)

  -- The manual pages of mkdir(2), open(2) and unlink(2), as far as the package relies on them.
  pub record IsDisk (D : Disk O) : Type 0 where
    pub mkdir_keeps : (s : O.State) (path : Bytes) (perm : ℕ) → Keeps s (D.mkdir_all s path perm).0
    pub remove_keeps : (s : O.State) (path : Bytes) → Keeps s (D.remove_all s path).0
    pub create_counts :
        (s : O.State) (path : Bytes) (perm : ℕ)
        → Counted j
            (W.opened s j)
            (W.opened (D.create_file s path perm).0 j)
            (D.create_file s path perm).1
    pub create_calm :
        (s : O.State) (path : Bytes) (perm : ℕ)
        → W.delays (D.create_file s path perm).0 ≤ W.delays s

  module _ (D : Disk O) (P : IsDisk D) (fuel : ℕ) where
    abbrev pub Open : ℕ → O.State → Type 0
    Open n s = (W.opened s j ≡ n) × (W.delays s < fuel)

    pub keep-Open : (n : ℕ) (s s' : O.State) → Open n s → Keeps s s' → Open n s'
    keep-Open n s s' h k = (omega (arith, h.0, k.0), omega (arith, h.1, k.1))

    pub same-Open : (m n : ℕ) (s : O.State) → m ≡ n → Open m s → Open n s
    same-Open m n s e h = (omega (arith, h.0, e), h.1)

    abbrev pub Opens : ℕ → O.State × Opened → Type 0
    Opens n (s, handle fd) = Open (n + here j fd) s
    Opens n (s, failure e) = Open n s

    Locks-Opens :
        (Reported : Error → Type 0) (mode : Mode) (n : ℕ) (s : O.State) (x : O.State × Opened)
        → Open n s
        → Locks O W j Reported mode s x
        → Opens n x
    Locks-Opens Reported mode n s (t, handle fd) h k =
        (omega (arith, h.0, k.0), omega (arith, h.1, k.2))
    Locks-Opens Reported mode n s (t, failure e) h k =
        (omega (arith, h.0, k.0), omega (arith, h.1, k.2))

    pub lock-Opens :
        (n : ℕ) (s : O.State) (path : Bytes) → Open n s → Returns (Opens n) (lock O fuel s path)
    lock-Opens n s path h =
        Returns-mono (λ x. Locks-Opens _ Mode.exclusive n s x h) (lock O fuel s path)
          (lock-Locks O W j fuel s path h.1).0

    pub read_only_lock-Opens :
        (n : ℕ) (s : O.State) (path : Bytes)
        → Open n s
        → Returns (Opens n) (read_only_lock O fuel s path)
    read_only_lock-Opens n s path h =
        Returns-mono (λ x. Locks-Opens _ Mode.shared n s x h) (read_only_lock O fuel s path)
          (lock-Locks O W j fuel s path h.1).1

    pub try_lock-Opens :
        (n : ℕ) (s : O.State) (path : Bytes) → Open n s → Opens n (try_lock O s path)
    try_lock-Opens n s path h =
        Locks-Opens _ Mode.exclusive n s (try_lock O s path) h (try_lock-Locks O W j s path).0

    pub unlock_all-Open :
        (n : ℕ) (s : O.State) (fds : List ℕ)
        → Open (counted j fds n) s
        → Returns (Open n) (unlock_all O D fuel s fds)
    unfolding unlock_all
    unlock_all-Open n s [] h = h
    unlock_all-Open n s (fd ∷ fds) h =
        Returns-bind _ (λ x. unlock_all O D fuel x.0 fds)
          (λ x (m : Unlocks O W j s fd x).
            unlock_all-Open n x.0 fds (omega (arith, h.0, m.0), omega (arith, h.1, m.3)))
          (unlock O fuel s (some fd)) (unlock-Unlocks O W j fuel s fd h.1)

    close_error-Open :
        (n : ℕ) (x : O.State × Option Error) → Open n x.0 → Open n (close_error O D x).0
    close_error-Open n (s, none) h = h
    close_error-Open n (s, some e) h = h

    touched_file-Open :
        (n : ℕ) (s : O.State) (x : O.State × Opened)
        → Open n s
        → Counted j (W.opened s j) (W.opened x.0 j) x.1
        → W.delays x.0 ≤ W.delays s
        → Open n (touched_file O D x).0
    touched_file-Open n s (t, failure e) h c k = (omega (arith, h.0, c), omega (arith, h.1, k))
    touched_file-Open n s (t, handle fd) h c k =
        close_error-Open n (O.close t fd)
          (omega (arith, h.0, c, W.close_opened j t fd), omega (arith, h.1, k, W.close_calm t fd))

    pub touch_lock_file-Open :
        (n : ℕ) (s : O.State) (path : Bytes) → Open n s → Open n (touch_lock_file O D s path).0
    unfolding touch_lock_file
    touch_lock_file-Open n s path h =
        touched_file-Open n s _ h (P.create_counts s path _) (P.create_calm s path _)
