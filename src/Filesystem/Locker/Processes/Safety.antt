-- ===== src/Filesystem/Locker/Processes/Safety.antt =====
-- No process cleans up what another one uses.
use primordium.Base.{ℕ, ◌≡◌, true, false, some}
use primordium.Filesystem.Locker.Processes.{read_of}
use primordium.Filesystem.Locker.Processes.System.{System, Reach}
use primordium.Filesystem.Locker.Processes.Invariant.{
  has_dir, reads, cleaning, Inv, reads-stands, cleaning-has_dir,
}
use primordium.Filesystem.Locker.Processes.Keeping.{Reach-Inv}

-- In every state that processes reach, with any failures and deaths: while one process cleans up the
-- resource or removes the directory, no process holds a lease or runs a factory, and no other one
-- has the lock on the directory.
pub cleaning_alone :
    {n : ℕ} {s : System} (i j : ℕ)
    → Reach n s
    → cleaning (s.pcs i) ≡ true
    → (reads (s.pcs j) ≡ false) × (has_dir (s.pcs j) ≡ true → j ≡ i)
cleaning_alone {s} i j r h =
    let inv : Inv _ s.shared s.pcs = Reach-Inv r in
    (inv.alone i j h, λ k. inv.dir_one j i k (cleaning-has_dir (s.pcs i) h))

-- In every state that processes reach, with any failures and deaths: who holds a lease holds the
-- shared lock on the lock file that stands at the path, in a directory that exists.
pub lease_stands :
    {n : ℕ} {s : System} (i : ℕ)
    → Reach n s
    → reads (s.pcs i) ≡ true
    → (read_of (s.pcs i) ≡ some s.shared.removals) × (s.shared.dir_exists ≡ true)
lease_stands {s} i r h =
    let inv : Inv _ s.shared s.pcs = Reach-Inv r in reads-stands s.shared (s.pcs i) h (inv.fresh i)
