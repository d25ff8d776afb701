-- ===== src/Filesystem/Locker/Processes.antt =====
-- filesystem/refcounted.go: processes that share one entry, interleaved in any order, a step at a
-- time. Most steps are one call of the system; making the root directory with opening and locking the
-- root lock is one step, as are touching the lock file, and unlocking with the closing of the file. A lock is on the file that was opened, not on its path: `removals` counts the
-- directories that have stood at the entry's path, and tells a directory and the lock file in it from
-- the ones before.
pub mod System
pub mod Invariant
pub mod Keeping
pub mod Safety
pub mod Progress
pub mod Ending
mod Examples
use primordium.Base.{ℕ, suc, ◌≡◌, ◌≢◌, ◌⊎◌, Bool, true, false, Option, none, some}

pub record Shared : Type 0 where
  pub removals : ℕ
  pub dir_exists : Bool

-- Where a process stands, with the directory `d` and the lock file `f` that it has opened. It holds
-- what `has_root`, `dir_of`, `read_of` and `write_of` say.
pub data Pc : Type 0 where
  idle : Pc
  -- `Acquire`
  wants_root : Pc
  makes_dir : Pc
  opens_dir : Pc
  wants_dir : (d : ℕ) → Pc
  leaves_root : (d : ℕ) → Pc
  touches : (d : ℕ) → Pc
  opens_read : (d : ℕ) → Pc
  wants_read : (d f : ℕ) → Pc
  creates : (d f : ℕ) → Pc  -- the factory runs
  leaves_dir : (d f : ℕ) → Pc
  gives_dir : (d : ℕ) → Pc  -- after a failure
  -- A lease
  holding : (f : ℕ) → Pc
  -- The release function
  wants_root_back : (f : ℕ) → Pc
  reopens_dir : (f : ℕ) → Pc
  wants_dir_back : (f d : ℕ) → Pc
  drops_read : (f d : ℕ) → Pc
  opens_file : (d : ℕ) → Pc
  tries : (d f : ℕ) → Pc
  cleans : (d f : ℕ) → Pc
  frees_file : (d f : ℕ) → Pc
  removes : (d : ℕ) → Pc
  frees_dir : (d : ℕ) → Pc
  frees_removed : (d : ℕ) → Pc
  frees_root : Pc
  backs_out : (f : ℕ) → Pc  -- after a failure
  drops : (f : ℕ) → Pc  -- after a failure

-- It holds the exclusive lock on the root directory.
abbrev pub has_root : Pc → Bool
has_root makes_dir = true
has_root opens_dir = true
has_root (wants_dir d) = true
has_root (leaves_root d) = true
has_root (reopens_dir f) = true
has_root (wants_dir_back f d) = true
has_root (drops_read f d) = true
has_root (opens_file d) = true
has_root (tries d f) = true
has_root (cleans d f) = true
has_root (frees_file d f) = true
has_root (removes d) = true
has_root (frees_dir d) = true
has_root (frees_removed d) = true
has_root frees_root = true
has_root (backs_out f) = true
has_root _ = false

-- The directory on which it holds the exclusive lock.
abbrev pub dir_of : Pc → Option ℕ
dir_of (leaves_root d) = some d
dir_of (touches d) = some d
dir_of (opens_read d) = some d
dir_of (wants_read d f) = some d
dir_of (creates d f) = some d
dir_of (leaves_dir d f) = some d
dir_of (gives_dir d) = some d
dir_of (drops_read f d) = some d
dir_of (opens_file d) = some d
dir_of (tries d f) = some d
dir_of (cleans d f) = some d
dir_of (frees_file d f) = some d
dir_of (removes d) = some d
dir_of (frees_dir d) = some d
dir_of (frees_removed d) = some d
dir_of _ = none

-- The lock file on which it holds a shared lock.
abbrev pub read_of : Pc → Option ℕ
read_of (creates d f) = some f
read_of (leaves_dir d f) = some f
read_of (holding f) = some f
read_of (wants_root_back f) = some f
read_of (reopens_dir f) = some f
read_of (wants_dir_back f d) = some f
read_of (drops_read f d) = some f
read_of (backs_out f) = some f
read_of (drops f) = some f
read_of _ = none

-- The lock file on which it holds the exclusive lock.
abbrev pub write_of : Pc → Option ℕ
write_of (cleans d f) = some f
write_of (frees_file d f) = some f
write_of _ = none

-- One step of one process among the others that stand at `pcs`. `flock` grants a lock that no other
-- conflicts with. A step that opens a path opens what stands there.
pub data Move (m : Shared) (pcs : ℕ → Pc) : Pc → Shared → Pc → Type 0 where
  start : Move m pcs idle m wants_root
  lock_root : ((j : ℕ) → has_root (pcs j) ≡ false) → Move m pcs wants_root m makes_dir
  make_dir : Move m pcs makes_dir (record m { dir_exists = true }) opens_dir
  open_dir : m.dir_exists ≡ true → Move m pcs opens_dir m (wants_dir m.removals)
  lock_dir :
      {d : ℕ} → ((j : ℕ) → dir_of (pcs j) ≢ some d) → Move m pcs (wants_dir d) m (leaves_root d)
  unlock_root : {d : ℕ} → Move m pcs (leaves_root d) m (touches d)
  touch : {d : ℕ} → m.dir_exists ≡ true → Move m pcs (touches d) m (opens_read d)
  open_read : {d : ℕ} → m.dir_exists ≡ true → Move m pcs (opens_read d) m (wants_read d m.removals)
  lock_read :
      {d f : ℕ}
      → ((j : ℕ) → write_of (pcs j) ≢ some f)
      → Move m pcs (wants_read d f) m (creates d f)
  create : {d f : ℕ} → Move m pcs (creates d f) m (leaves_dir d f)
  unlock_dir : {d f : ℕ} → Move m pcs (leaves_dir d f) m (holding f)
  give_dir : {d : ℕ} → Move m pcs (gives_dir d) m idle
  release : {f : ℕ} → Move m pcs (holding f) m (wants_root_back f)
  relock_root :
      {f : ℕ}
      → ((j : ℕ) → has_root (pcs j) ≡ false)
      → Move m pcs (wants_root_back f) m (reopens_dir f)
  reopen_dir :
      {f : ℕ} → m.dir_exists ≡ true → Move m pcs (reopens_dir f) m (wants_dir_back f m.removals)
  relock_dir :
      {f d : ℕ}
      → ((j : ℕ) → dir_of (pcs j) ≢ some d)
      → Move m pcs (wants_dir_back f d) m (drops_read f d)
  drop_read : {f d : ℕ} → Move m pcs (drops_read f d) m (opens_file d)
  open_file : {d : ℕ} → m.dir_exists ≡ true → Move m pcs (opens_file d) m (tries d m.removals)
  try_free :
      {d f : ℕ}
      → ((j : ℕ) → (read_of (pcs j) ≢ some f) × (write_of (pcs j) ≢ some f))
      → Move m pcs (tries d f) m (cleans d f)
  try_busy :
      {d f : ℕ} (j : ℕ)
      → (read_of (pcs j) ≡ some f) ⊎ (write_of (pcs j) ≡ some f)
      → Move m pcs (tries d f) m (frees_dir d)
  clean : {d f : ℕ} → Move m pcs (cleans d f) m (frees_file d f)
  free_file : {d f : ℕ} → Move m pcs (frees_file d f) m (removes d)
  remove :
      {d : ℕ}
      → Move m pcs
          (removes d)
          (record { removals = suc m.removals; dir_exists = false })
          (frees_removed d)
  free_dir : {d : ℕ} → Move m pcs (frees_dir d) m frees_root
  free_removed : {d : ℕ} → Move m pcs (frees_removed d) m frees_root
  free_root : Move m pcs frees_root m idle
  back_out : {f : ℕ} → Move m pcs (backs_out f) m (drops f)
  drop : {f : ℕ} → Move m pcs (drops f) m idle

-- A call of the system, or the factory, that fails, and the death of a process, on which the system
-- takes its locks back.
pub data Fault : Pc → Pc → Type 0 where
  no_root : Fault wants_root idle
  no_make : Fault makes_dir frees_root
  no_open : Fault opens_dir frees_root
  no_dir : {d : ℕ} → Fault (wants_dir d) frees_root
  no_touch : {d : ℕ} → Fault (touches d) (gives_dir d)
  no_open_read : {d : ℕ} → Fault (opens_read d) (gives_dir d)
  no_read : {d f : ℕ} → Fault (wants_read d f) (gives_dir d)
  no_create : {d f : ℕ} → Fault (creates d f) (gives_dir d)
  no_root_back : {f : ℕ} → Fault (wants_root_back f) (drops f)
  no_reopen : {f : ℕ} → Fault (reopens_dir f) (backs_out f)
  no_dir_back : {f d : ℕ} → Fault (wants_dir_back f d) (backs_out f)
  no_file : {d : ℕ} → Fault (opens_file d) (frees_dir d)
  no_try : {d f : ℕ} → Fault (tries d f) (frees_dir d)
  no_remove : {d : ℕ} → Fault (removes d) (frees_dir d)
  dies : {p : Pc} → Fault p idle
