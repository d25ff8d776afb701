-- ===== src/Filesystem/Locker/Processes/System.antt =====
-- `n` processes over one entry, from the start, when no directory stands there.
use primordium.Base.{ℕ, ◌<◌, ◌==◌, false, if◌then◌else◌}
use primordium.Filesystem.Locker.Processes.{Shared, Pc, idle, Move, Fault}

abbrev pub update {ℓ} : {A : Type ℓ} → (ℕ → A) → ℕ → A → ℕ → A
update f i a j = if i == j then a else f j

-- An index from `n` on names no process, and stays `idle`.
pub record System : Type 0 where
  pub shared : Shared
  pub pcs : ℕ → Pc

pub data Step (n : ℕ) (s : System) : System → Type 0 where
  moves :
      (i : ℕ) {m : Shared} {p : Pc}
      → i < n
      → Move s.shared s.pcs (s.pcs i) m p
      → Step n s (record { shared = m; pcs = update s.pcs i p })
  fails :
      (i : ℕ) {p : Pc}
      → i < n
      → Fault (s.pcs i) p
      → Step n s (record { shared = s.shared; pcs = update s.pcs i p })

abbrev pub init : System
init = record { shared = record { removals = 0; dir_exists = false }; pcs = λ _. idle }

pub data Reach (n : ℕ) : System → Type 0 where
  begin : Reach n init
  later : {s t : System} → Reach n s → Step n s t → Reach n t
