-- ===== src/Filesystem/Locker.antt =====
-- filesystem/refcounted.go: resources that several processes share, each in a directory of its own.
-- One process is modelled; the others are part of the system's state. A factory returns, and so does
-- a cleanup.
pub mod Files
pub mod Acquiring
pub mod Releasing
pub mod Processes
mod Examples
use mathlib.Core.Option
use primordium.Base.{ℕ, zero, suc, Bytes, codes, List, [], ◌∷◌, Option, none, some}
use primordium.Errors.{Error, Result, ok, err, panic, wrap, wrap_two}
use primordium.Fault.{err_invalid_argument, err_filesystem_failure}
use primordium.Filesystem.Platform.{Goos}
use primordium.Filesystem.Path.{validate_path, validate_path_component}
use primordium.Filesystem.Lock.System.{Os, Opened, handle, failure}
use primordium.Filesystem.Lock.{lock, read_only_lock, try_lock, unlock}

abbrev pub ref_counted_lock_file : Bytes
ref_counted_lock_file = codes ".lock"

-- 0o600
abbrev pub file_permissions_private : ℕ
file_permissions_private = 384

-- 0o700
abbrev pub dir_permissions_private : ℕ
dir_permissions_private = 448

-- The other calls of packages os and path/filepath. `create_file` is `os.OpenFile` with `O_CREATE`
-- and `O_RDONLY`.
pub record Disk (O : Os) : Type 0 where
  pub mkdir_all : O.State → Bytes → ℕ → O.State × Option Error
  pub create_file : O.State → Bytes → ℕ → O.State × Opened
  pub remove_all : O.State → Bytes → O.State × Option Error
  pub join_path : Bytes → Bytes → Bytes

abbrev pub failed : Error → Error
failed e = wrap_two err_filesystem_failure e

-- `NewLocker`: the root directory, kept as it is.
unfoldable pub new_locker : (Bytes → ℕ) → Goos → Bytes → Result Bytes
new_locker volume os root = elim (validate_path volume os root) [
  | ok _ ↦ ok root
  | err _ ↦ panic
  | panic ↦ panic
]

module _ (O : Os) (D : Disk O) where
  -- A cleanup function, perhaps nil.
  abbrev pub Cleanup : Type 0
  Cleanup = Option (O.State → O.State)

  -- `if cleanup != nil { cleanup() }`
  abbrev pub run_cleanup : Cleanup → O.State → O.State
  run_cleanup none s = s
  run_cleanup (some f) s = f s

  -- What a factory returns.
  pub data Made : Type 0 where
    made : Bytes → Cleanup → Made
    not_made : Error → Made

  abbrev pub ResourceFactory : Type 0
  ResourceFactory = O.State → Bytes → O.State × Made

  -- What `Acquire` returns, with the variables that its release function captures.
  pub record Lease : Type 0 where
    pub resource_path : Bytes
    pub read_lock : ℕ
    pub cleanup : Cleanup

  -- The error of `file.Close`, wrapped.
  abbrev pub close_error : O.State × Option Error → O.State × Option Error
  close_error (s, none) = (s, none)
  close_error (s, some e) = (s, some (wrap e))

  abbrev pub touched_file : O.State × Opened → O.State × Option Error
  touched_file (s, failure e) = (s, some (wrap e))
  touched_file (s, handle fd) = close_error (O.close s fd)

  unfoldable pub touch_lock_file : O.State → Bytes → O.State × Option Error
  touch_lock_file s path = touched_file (D.create_file s path file_permissions_private)

  module _ (fuel : ℕ) where
    -- `_ = Unlock(lock)` for each of them, in order.
    unfoldable pub unlock_all : O.State → List ℕ → Option O.State
    unlock_all s [] = some s
    unlock_all s (fd ∷ fds) = Option.bind (unlock O fuel s (some fd)) (λ x. unlock_all x.0 fds)

    abbrev pub Acquired : Type 0
    Acquired = Option (O.State × Result Lease)

    -- Give the locks back, and fail.
    unfoldable pub refuse : O.State → List ℕ → Error → Acquired
    unfolding unlock_all
    refuse s fds e = Option.map (λ s'. (s', err e)) (unlock_all s fds)

    module _ (root key : Bytes) (factory : ResourceFactory) where
      abbrev pub resource_dir : Bytes
      resource_dir = D.join_path root key

      abbrev pub lock_path : Bytes
      lock_path = D.join_path resource_dir ref_counted_lock_file

      -- Steps 5 and 6 of `Acquire`, after the factory's call.
      unfoldable pub finish : ℕ → ℕ → O.State × Made → Acquired
      unfolding refuse unlock_all
      finish dir_lock read_lock (s, not_made e) = refuse s (read_lock ∷ dir_lock ∷ []) e
      finish dir_lock read_lock (s, made path cleanup) =
          Option.map
            (λ s'.
              (s', ok (record { resource_path = path; read_lock = read_lock; cleanup = cleanup })))
            (unlock_all s (dir_lock ∷ []))

      -- After `ReadOnlyLock(lockPath)`.
      unfoldable pub read_locked : ℕ → O.State × Opened → Acquired
      unfolding refuse finish
      read_locked dir_lock (s, failure e) = refuse s (dir_lock ∷ []) (failed e)
      read_locked dir_lock (s, handle read_lock) =
          finish dir_lock read_lock (factory s resource_dir)

      -- After `touchLockFile(lockPath)`.
      unfoldable pub touched : ℕ → O.State × Option Error → Acquired
      unfolding refuse read_locked
      touched dir_lock (s, some e) = refuse s (dir_lock ∷ []) (failed e)
      touched dir_lock (s, none) =
          Option.bind (read_only_lock O fuel s lock_path) (read_locked dir_lock)

      -- After `Lock(resourceDir)`.
      unfoldable pub dir_locked : ℕ → O.State × Opened → Acquired
      unfolding refuse touched unlock_all touch_lock_file
      dir_locked global_lock (s, failure e) = refuse s (global_lock ∷ []) (failed e)
      dir_locked global_lock (s, handle dir_lock) =
          Option.bind (unlock_all s (global_lock ∷ []))
            (λ s'. touched dir_lock (touch_lock_file s' lock_path))

      -- After `os.MkdirAll(resourceDir, …)`.
      unfoldable pub dir_made : ℕ → O.State × Option Error → Acquired
      unfolding refuse dir_locked
      dir_made global_lock (s, some e) = refuse s (global_lock ∷ []) (failed e)
      dir_made global_lock (s, none) =
          Option.bind (lock O fuel s resource_dir) (dir_locked global_lock)

      -- After `Lock(rc.rootDir)`.
      unfoldable pub root_locked : O.State × Opened → Acquired
      unfolding dir_made
      root_locked (s, failure e) = some (s, err (failed e))
      root_locked (s, handle global_lock) =
          dir_made global_lock (D.mkdir_all s resource_dir dir_permissions_private)

      -- After `os.MkdirAll(rc.rootDir, …)`.
      unfoldable pub root_made : O.State × Option Error → Acquired
      unfolding root_locked
      root_made (s, some e) = some (s, err (failed e))
      root_made (s, none) = Option.bind (lock O fuel s root) root_locked

      abbrev pub with_key : O.State → Result (Unit {0}) → Acquired
      unfolding root_made
      with_key s (err e) = some (s, err (wrap_two err_invalid_argument e))
      with_key s panic = some (s, panic)
      with_key s (ok _) = root_made (D.mkdir_all s root dir_permissions_private)

      -- `Acquire`
      unfoldable pub acquire : Goos → O.State → Acquired
      unfolding root_made with_key
      acquire os s = with_key s (validate_path_component os key)

    -- The function that `buildRelease` returns.
    module _ (root dir path : Bytes) (read_lock : ℕ) (cleanup : Cleanup) where
      -- After `TryLock(lockPath)`.
      unfoldable pub tried : ℕ → ℕ → O.State × Opened → Option O.State
      unfolding unlock_all
      tried global_lock dir_lock (s, failure e) = unlock_all s (dir_lock ∷ global_lock ∷ [])
      tried global_lock dir_lock (s, handle exclusive_lock) =
          Option.bind (unlock_all (run_cleanup cleanup s) (exclusive_lock ∷ []))
            (λ s'. unlock_all (D.remove_all s' dir).0 (dir_lock ∷ global_lock ∷ []))

      -- After `Lock(dir)`.
      unfoldable pub release_in : ℕ → O.State × Opened → Option O.State
      unfolding unlock_all tried
      release_in global_lock (s, failure e) = unlock_all s (global_lock ∷ read_lock ∷ [])
      release_in global_lock (s, handle dir_lock) =
          Option.bind (unlock_all s (read_lock ∷ []))
            (λ s'. tried global_lock dir_lock (try_lock O s' path))

      -- After `Lock(rc.rootDir)`.
      unfoldable pub release_under : O.State × Opened → Option O.State
      unfolding unlock_all release_in
      release_under (s, failure e) = unlock_all s (read_lock ∷ [])
      release_under (s, handle global_lock) =
          Option.bind (lock O fuel s dir) (release_in global_lock)

      unfoldable pub release : O.State → Option O.State
      unfolding release_under
      release s = Option.bind (lock O fuel s root) release_under
