-- ===== src/Filesystem/Lock/Small.antt =====
-- A small system for the examples, with one lock. Its first calls are delayed: one that takes the lock
-- waits for another process, and any other is interrupted.
use primordium.Base.{
  ℕ, zero, suc, ◌+◌, ◌-◌, ◌≤◌, ◌<◌, ◌≡◌, refl, Bytes, Option, none, some, [], ◌∷◌, arith,
  if◌then◌else◌, ltb,
}
use primordium.Errors.{Error, errno}
use primordium.Filesystem.Lock.System.{
  Os, IsSystem, Mode, Request, take, Opened, handle, failure, granted, Counted, here, still_waiting,
}

-- Which files are open, the next descriptor, the lock held, and the delays to come.
pub record Small : Type 0 where
  pub files : ℕ → ℕ
  pub next : ℕ
  pub lock_held : Option Mode
  pub delays : ℕ

-- A file that is open under the next descriptor.
abbrev pub small_file : Small → Small × Opened
small_file s = (
  record s { files = λ j. s.files j + here j s.next; next = suc s.next; lock_held = none },
  handle s.next,
)

-- Only the empty path names no file.
abbrev small_open : Small → Bytes → Small × Opened
small_open s [] = (s, failure (errno 2))
small_open s (x ∷ path) = small_file s

abbrev delay_of : Request → Error
delay_of (take m) = still_waiting
delay_of r = errno 4

abbrev small_flock : ℕ → Small → Request → Small × Option Error
small_flock zero s r = (record s { lock_held = granted r; delays = 0 }, none)
small_flock (suc n) s r = (record s { delays = n }, some (delay_of r))

abbrev small_close : Small → ℕ → Small × Option Error
small_close s fd = (record s { files = λ j. s.files j - here j fd; lock_held = none }, none)

abbrev pub small : Os
small = record {
  State = Small;
  open_file = small_open;
  flock = λ s fd r. small_flock s.delays s r;
  close = small_close;
}

pub small_open-counts :
    (j : ℕ) (s : Small) (path : Bytes)
    → Counted j (s.files j) ((small_open s path).0.files j) (small_open s path).1
small_open-counts j s [] = refl
small_open-counts j s (x ∷ path) = refl

pub small_open-calm : (s : Small) (path : Bytes) → (small_open s path).0.delays ≤ s.delays
small_open-calm s [] = omega arith
small_open-calm s (x ∷ path) = omega arith

pub small_flock-grants :
    (n : ℕ) (s : Small) (r : Request)
    → (small_flock n s r).1 ≡ none
    → (small_flock n s r).0.lock_held ≡ granted r
small_flock-grants zero s r h = refl
small_flock-grants (suc n) s r h = absurd (ground arith)

pub small_flock-files :
    (j n : ℕ) (s : Small) (r : Request) → (small_flock n s r).0.files j ≡ s.files j
small_flock-files j zero s r = refl
small_flock-files j (suc n) s r = refl

pub small_flock-delays :
    (n : ℕ) (s : Small) (r : Request) {e : Error}
    → (small_flock n s r).1 ≡ some e
    → (small_flock n s r).0.delays < n
small_flock-delays zero s r h = absurd (ground arith)
small_flock-delays (suc n) s r h = omega arith

pub small_flock-calm : (n : ℕ) (s : Small) (r : Request) → (small_flock n s r).0.delays ≤ n
small_flock-calm zero s r = omega arith
small_flock-calm (suc n) s r = omega arith

unfoldable pub small-IsSystem : IsSystem small
small-IsSystem = record {
  opened = λ s j. s.files j;
  held = λ s fd. s.lock_held;
  delays = λ s. s.delays;
  open_counts = small_open-counts;
  open_calm = small_open-calm;
  flock_grants = λ s fd r. small_flock-grants s.delays s r;
  flock_opened = λ j s fd r. small_flock-files j s.delays s r;
  flock_delayed = λ s fd r h k. small_flock-delays s.delays s r h;
  flock_calm = λ s fd r. small_flock-calm s.delays s r;
  close_opened = λ j s fd. refl;
  close_calm = λ s fd. omega arith;
  close_held = λ s fd. refl;
}

-- A state in which the descriptors below `next` are open.
abbrev pub opened_to : ℕ → Option Mode → ℕ → Small
opened_to n lock delays = record {
  files = λ j. if ltb j n then 1 else 0;
  next = n;
  lock_held = lock;
  delays = delays;
}
