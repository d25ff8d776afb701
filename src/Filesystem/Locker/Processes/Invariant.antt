-- ===== src/Filesystem/Locker/Processes/Invariant.antt =====
-- Who holds which lock, and what the opened files are.
use primordium.Base.{ℕ, ◌≡◌, ◌≤◌, Bool, true, false, some, arith}
use primordium.Filesystem.Locker.Processes.{
  Shared, Pc, idle, opens_dir, wants_dir, leaves_root, touches, opens_read, wants_read, creates,
  leaves_dir, gives_dir, holding, wants_root_back, reopens_dir, wants_dir_back, drops_read,
  opens_file, tries, cleans, frees_file, removes, frees_dir, backs_out, drops, has_root, dir_of,
  read_of,
}

-- It holds the lock on the directory that stands at the path.
abbrev pub has_dir : Pc → Bool
has_dir (leaves_root d) = true
has_dir (touches d) = true
has_dir (opens_read d) = true
has_dir (wants_read d f) = true
has_dir (creates d f) = true
has_dir (leaves_dir d f) = true
has_dir (gives_dir d) = true
has_dir (drops_read f d) = true
has_dir (opens_file d) = true
has_dir (tries d f) = true
has_dir (cleans d f) = true
has_dir (frees_file d f) = true
has_dir (removes d) = true
has_dir (frees_dir d) = true
has_dir _ = false

abbrev pub reads : Pc → Bool
reads (creates d f) = true
reads (leaves_dir d f) = true
reads (holding f) = true
reads (wants_root_back f) = true
reads (reopens_dir f) = true
reads (wants_dir_back f d) = true
reads (drops_read f d) = true
reads (backs_out f) = true
reads (drops f) = true
reads _ = false

-- It cleans up the resource, or removes the directory.
abbrev pub cleaning : Pc → Bool
cleaning (cleans d f) = true
cleaning (frees_file d f) = true
cleaning (removes d) = true
cleaning _ = false

-- What stands at the path is what a process has opened there.
abbrev pub Stands : Shared → ℕ → Type 0
Stands m d = (d ≡ m.removals) × (m.dir_exists ≡ true)

abbrev pub IsFresh : Shared → Pc → Type 0
IsFresh m opens_dir = m.dir_exists ≡ true
IsFresh m (wants_dir d) = Stands m d
IsFresh m (leaves_root d) = Stands m d
IsFresh m (touches d) = Stands m d
IsFresh m (opens_read d) = Stands m d
IsFresh m (wants_read d f) = Stands m d × Stands m f
IsFresh m (creates d f) = Stands m d × Stands m f
IsFresh m (leaves_dir d f) = Stands m d × Stands m f
IsFresh m (gives_dir d) = Stands m d
IsFresh m (holding f) = Stands m f
IsFresh m (wants_root_back f) = Stands m f
IsFresh m (reopens_dir f) = Stands m f
IsFresh m (wants_dir_back f d) = Stands m d × Stands m f
IsFresh m (drops_read f d) = Stands m d × Stands m f
IsFresh m (opens_file d) = Stands m d
IsFresh m (tries d f) = Stands m d × Stands m f
IsFresh m (cleans d f) = Stands m d × Stands m f
IsFresh m (frees_file d f) = Stands m d × Stands m f
IsFresh m (removes d) = Stands m d
IsFresh m (frees_dir d) = Stands m d
IsFresh m (backs_out f) = Stands m f
IsFresh m (drops f) = Stands m f
IsFresh m _ = Unit {0}

pub record Inv (n : ℕ) (m : Shared) (pcs : ℕ → Pc) : Type 0 where
  pub rest : (i : ℕ) → n ≤ i → pcs i ≡ idle
  pub root_one : (i j : ℕ) → has_root (pcs i) ≡ true → has_root (pcs j) ≡ true → i ≡ j
  pub dir_one : (i j : ℕ) → has_dir (pcs i) ≡ true → has_dir (pcs j) ≡ true → i ≡ j
  pub fresh : (i : ℕ) → IsFresh m (pcs i)
  pub alone : (i j : ℕ) → cleaning (pcs i) ≡ true → reads (pcs j) ≡ false

-- A live directory's lock is on what stands at the path, and so is a reader's.
pub has_dir-stands :
    (m : Shared) (p : Pc) → has_dir p ≡ true → IsFresh m p → dir_of p ≡ some m.removals
has_dir-stands m idle h k = ground arith
has_dir-stands m p h k = ground arith

pub reads-stands :
    (m : Shared) (p : Pc)
    → reads p ≡ true
    → IsFresh m p
    → (read_of p ≡ some m.removals) × (m.dir_exists ≡ true)
reads-stands m idle h k = ground arith
reads-stands m p h k = ground arith

-- A process with no lock does not depend on what stands at the path.
pub calm-IsFresh :
    (m : Shared) (p : Pc) → has_root p ≡ false → has_dir p ≡ false → reads p ≡ false → IsFresh m p
calm-IsFresh m idle h k l = ground arith
calm-IsFresh m p h k l = ground arith

pub made-IsFresh : (m : Shared) (p : Pc) → IsFresh m p → IsFresh (record m { dir_exists = true }) p
made-IsFresh m idle h = tt
made-IsFresh m p h = ground arith

pub cleaning-has_dir : (p : Pc) → cleaning p ≡ true → has_dir p ≡ true
cleaning-has_dir idle h = ground arith
cleaning-has_dir p h = ground arith
