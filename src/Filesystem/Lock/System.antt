-- ===== src/Filesystem/Lock/System.antt =====
-- The system calls that filesystem/lock_unix.go makes, and what it relies on.
use primordium.Base.{
  ℕ, ◌+◌, ◌==◌, ◌||◌, if◌then◌else◌, ◌-◌, ◌≤◌, ◌<◌, ◌≡◌, true, Bytes, Option, none, some,
}
use primordium.Errors.{Error, sentinel, errno, is}

-- `LOCK_SH` and `LOCK_EX`
pub data Mode : Type 0 where
  shared exclusive : Mode

-- The operations given to `flock`: a mode, a mode with `LOCK_NB`, and `LOCK_UN`.
pub data Request : Type 0 where
  take : Mode → Request
  try : Mode → Request
  drop : Request

-- A file, or nil with an error.
pub data Opened : Type 0 where
  handle : ℕ → Opened
  failure : Error → Opened

pub record Os : Type 1 where
  pub State : Type 0
  pub open_file : State → Bytes → State × Opened
  pub flock : State → ℕ → Request → State × Option Error
  pub close : State → ℕ → State × Option Error

-- What a request that is granted leaves on the descriptor.
abbrev pub granted : Request → Option Mode
granted (take m) = some m
granted (try m) = some m
granted drop = none

-- 1 for the descriptor itself, 0 for another.
abbrev pub here : ℕ → ℕ → ℕ
here j fd = if fd == j then 1 else 0

-- What became of the descriptor `j`, which was open so often: it is open if the call gave it.
abbrev pub Counted : ℕ → ℕ → ℕ → Opened → Type 0
Counted j before after (handle fd) = after ≡ before + here j fd
Counted j before after (failure e) = after ≡ before

-- No error of the system. A call that waits for a lock which another process holds is one call for each
-- time slice here: it answers so while it waits, and goes on.
abbrev pub still_waiting : Error
still_waiting = sentinel 33

-- The manual pages of open(2), flock(2) and close(2), as far as the package relies on them: `opened`
-- is 1 for a descriptor that is open and 0 for any other, `held` is the lock that a descriptor holds. A
-- descriptor is released, and its lock with it, also where `close` reports an error; to close one that
-- is not open changes nothing. `delays` bounds the signals that will still interrupt a call and the
-- time slices that calls will still wait: the processes that hold conflicting locks give them up. A
-- system in which one is kept for ever has no such bound.
pub record IsSystem (O : Os) : Type 1 where
  pub opened : O.State → ℕ → ℕ
  pub held : O.State → ℕ → Option Mode
  pub delays : O.State → ℕ
  pub open_counts :
      (j : ℕ) (s : O.State) (path : Bytes)
      → Counted j (opened s j) (opened (O.open_file s path).0 j) (O.open_file s path).1
  pub open_calm : (s : O.State) (path : Bytes) → delays (O.open_file s path).0 ≤ delays s
  pub flock_grants :
      (s : O.State) (fd : ℕ) (r : Request)
      → (O.flock s fd r).1 ≡ none
      → held (O.flock s fd r).0 fd ≡ granted r
  pub flock_opened :
      (j : ℕ) (s : O.State) (fd : ℕ) (r : Request) → opened (O.flock s fd r).0 j ≡ opened s j
  pub flock_delayed :
      (s : O.State) (fd : ℕ) (r : Request) {e : Error}
      → (O.flock s fd r).1 ≡ some e
      → (is e (errno 4) || is e still_waiting) ≡ true
      → delays (O.flock s fd r).0 < delays s
  pub flock_calm : (s : O.State) (fd : ℕ) (r : Request) → delays (O.flock s fd r).0 ≤ delays s
  pub close_opened :
      (j : ℕ) (s : O.State) (fd : ℕ) → opened (O.close s fd).0 j ≡ opened s j - here j fd
  pub close_calm : (s : O.State) (fd : ℕ) → delays (O.close s fd).0 ≤ delays s
  pub close_held : (s : O.State) (fd : ℕ) → held (O.close s fd).0 fd ≡ none
