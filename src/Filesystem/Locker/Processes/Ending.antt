-- ===== src/Filesystem/Locker/Processes/Ending.antt =====
-- How many steps are left in the calls that are under way.
use primordium.Base.{ℕ, zero, suc, ◌+◌, ◌≡◌, ◌<◌, true}
use primordium.Filesystem.Locker.Processes.{
  Shared, Pc, idle, wants_root, makes_dir, opens_dir, wants_dir, leaves_root, touches, opens_read,
  wants_read, creates, leaves_dir, gives_dir, holding, wants_root_back, reopens_dir, wants_dir_back,
  drops_read, opens_file, tries, cleans, frees_file, removes, frees_dir, frees_removed, frees_root,
  backs_out, drops, Move, Fault,
}
use primordium.Filesystem.Locker.Processes.System.{update, System}
use primordium.Filesystem.Locker.Processes.Progress.{busy}

-- A bound on the steps that are left in a process's call.
abbrev rank : Pc → ℕ
rank idle = 0
rank wants_root = 10
rank makes_dir = 9
rank opens_dir = 8
rank (wants_dir d) = 7
rank (leaves_root d) = 6
rank (touches d) = 5
rank (opens_read d) = 4
rank (wants_read d f) = 3
rank (creates d f) = 2
rank (leaves_dir d f) = 1
rank (gives_dir d) = 1
rank (holding f) = 0
rank (wants_root_back f) = 11
rank (reopens_dir f) = 10
rank (wants_dir_back f d) = 9
rank (drops_read f d) = 8
rank (opens_file d) = 7
rank (tries d f) = 6
rank (cleans d f) = 5
rank (frees_file d f) = 4
rank (removes d) = 3
rank (frees_dir d) = 2
rank (frees_removed d) = 2
rank frees_root = 1
rank (backs_out f) = 2
rank (drops f) = 1

total : ℕ → (ℕ → Pc) → ℕ
total zero pcs = 0
total (suc n) pcs = total n pcs + rank (pcs n)

-- A step of a process inside a call, where the call may fail or the process die.
pub data CallStep (n : ℕ) (s : System) : System → Type 0 where
  call_moves :
      (i : ℕ) {m : Shared} {p : Pc}
      → i < n
      → busy (s.pcs i) ≡ true
      → Move s.shared s.pcs (s.pcs i) m p
      → CallStep n s (record { shared = m; pcs = update s.pcs i p })
  call_fails :
      (i : ℕ) {p : Pc}
      → i < n
      → busy (s.pcs i) ≡ true
      → Fault (s.pcs i) p
      → CallStep n s (record { shared = s.shared; pcs = update s.pcs i p })

-- So many steps inside calls, one after another.
pub data Calls (n : ℕ) : ℕ → System → System → Type 0 where
  none_left : {s : System} → Calls n zero s s
  one_more : {k : ℕ} {s t u : System} → CallStep n s t → Calls n k t u → Calls n (suc k) s u
