-- ===== src/Filesystem/Locker/Processes/Progress.antt =====
-- A call waits only for other calls, never for a lease, and some call can always go on.
use mathlib.Core.Path.{subst}
use primordium.Base.{
  ℕ, zero, suc, ◌≡◌, ◌≢◌, ◌<◌, ◌⊎◌, inl, inr, refl, sym, ◌∙◌, ap, Bool, true, false, none, some,
  arith, ◌==◌, Bool-cases, leb,
}
use primordium.Filesystem.Locker.Processes.{
  Shared, Pc, idle, wants_root, makes_dir, opens_dir, wants_dir, leaves_root, touches, opens_read,
  wants_read, creates, leaves_dir, gives_dir, holding, wants_root_back, reopens_dir, wants_dir_back,
  drops_read, opens_file, tries, cleans, frees_file, removes, frees_dir, frees_removed, frees_root,
  backs_out, drops, has_root, dir_of, read_of, write_of, Move, lock_root, make_dir, open_dir,
  lock_dir, unlock_root, touch, open_read, lock_read, create, unlock_dir, give_dir, relock_root,
  reopen_dir, relock_dir, drop_read, open_file, try_free, try_busy, clean, free_file, remove,
  free_dir, free_removed, free_root, back_out, drop,
}
use primordium.Filesystem.Locker.Processes.System.{System, Reach}
use primordium.Filesystem.Locker.Processes.Invariant.{
  has_dir, reads, cleaning, IsFresh, Inv, reads-stands, cleaning-has_dir,
}
use primordium.Filesystem.Locker.Processes.Keeping.{Reach-Inv}

-- It is inside `Acquire` or the release function.
abbrev pub busy : Pc → Bool
busy idle = false
busy (holding f) = false
busy _ = true

-- The first of `n` indices that passes a test, or none does.
find_index : (n : ℕ) (t : ℕ → Bool) → ((j : ℕ) × (t j ≡ true)) ⊎ ((j : ℕ) → j < n → t j ≡ false)
find_index zero t = inr (λ j h. absurd (omega arith))
find_index (suc n) t = elim (Bool-cases (t n)) [
  | inl here ↦ inl (n, here)
  | inr not_here ↦ elim (find_index n t) [
    | inl (j, found) ↦ inl (j, found)
    | inr nowhere ↦ inr (λ j h. elim (Bool-cases (j == n)) [
      | inl last ↦ ground arith
      | inr before ↦ nowhere j (ground arith)
    ])
  ]
]

no_read : (p : Pc) (f : ℕ) → reads p ≡ false → read_of p ≢ some f
no_read idle f h e = ground arith
no_read p f h e = ground arith

no_write : (p : Pc) (f : ℕ) → cleaning p ≡ false → write_of p ≢ some f
no_write idle f h e = ground arith
no_write p f h e = ground arith

no_dir : (p : Pc) (d : ℕ) → has_root p ≡ false → has_dir p ≡ false → dir_of p ≢ some d
no_dir idle d h k e = ground arith
no_dir p d h k e = ground arith

module _ {n : ℕ} {m : Shared} {pcs : ℕ → Pc} (inv : Inv n m pcs) where
  open inv use {rest, root_one, dir_one, fresh, alone}

  abbrev Can : Pc → Type 0
  Can p = (m' : Shared) × (p' : Pc) × Move m pcs p m' p'

  -- Some process inside a call can move.
  abbrev Next : Type 0
  Next = (j : ℕ) × (busy (pcs j) ≡ true) × Can (pcs j)

  everywhere :
      (t : Pc → Bool)
      → t idle ≡ false
      → ((j : ℕ) → j < n → t (pcs j) ≡ false)
      → (j : ℕ) → t (pcs j) ≡ false
  everywhere t e h j = elim (Bool-cases (leb n j)) [
    | inl out ↦ ap t (rest j (ground arith)) ∙ e
    | inr in_range ↦ h j (ground arith)
  ]

  -- Inside the directory's lock no exclusive lock on the lock file stands in the way.
  no_writer :
      (i : ℕ) (f : ℕ)
      → has_dir (pcs i) ≡ true
      → cleaning (pcs i) ≡ false
      → (j : ℕ) → write_of (pcs j) ≢ some f
  no_writer i f h k j = ground (arith, cleaning-has_dir (pcs j), dir_one i j, no_write (pcs j) f)

  at : (i : ℕ) (p : Pc) → pcs i ≡ p → busy p ≡ true → Can p → Next
  at i p e b c = (i, ap busy e ∙ b, subst Can (sym e) c)

  -- Who has the directory's lock alone can move.
  inner : (i : ℕ) (p : Pc) → pcs i ≡ p → has_root p ≡ false → has_dir p ≡ true → IsFresh m p → Next
  inner i (touches d) e h k f = at i _ e refl (_, _, touch f.1)
  inner i (opens_read d) e h k f = at i _ e refl (_, _, open_read f.1)
  inner i (wants_read d g) e h k f =
      at i _ e refl (_, _, lock_read (no_writer i g (ap has_dir e) (ap cleaning e)))
  inner i (creates d g) e h k f = at i _ e refl (_, _, create)
  inner i (leaves_dir d g) e h k f = at i _ e refl (_, _, unlock_dir)
  inner i (gives_dir d) e h k f = at i _ e refl (_, _, give_dir)
  inner i p e h k f = absurd (ground arith)

  -- The directory's lock is free, or who has it can move.
  dir_free :
      (i d : ℕ)
      → has_root (pcs i) ≡ true
      → has_dir (pcs i) ≡ false
      → dir_of (pcs i) ≡ none
      → ((j : ℕ) → dir_of (pcs j) ≢ some d) ⊎ Next
  dir_free i d h k l = elim (find_index n (λ j. has_dir (pcs j))) [
    | inl (j, found) ↦ inr (
        inner j (pcs j) refl (ground (arith, Bool-cases (has_root (pcs j)), root_one i j)) found
          (fresh j))
    | inr none_found ↦
        inl (λ j.
          ground (arith, root_one i j, no_dir (pcs j) d, everywhere has_dir refl none_found j))
  ]

  -- Who has the root's lock can move, or waits for one that can.
  rooted : (i : ℕ) (p : Pc) → pcs i ≡ p → has_root p ≡ true → IsFresh m p → Next
  rooted i makes_dir e h f = at i _ e refl (_, _, make_dir)
  rooted i opens_dir e h f = at i _ e refl (_, _, open_dir f)
  rooted i (wants_dir d) e h f = elim (dir_free i d (ap has_root e) (ap has_dir e) (ap dir_of e)) [
    | inl free ↦ at i _ e refl (_, _, lock_dir free)
    | inr next ↦ next
  ]
  rooted i (leaves_root d) e h f = at i _ e refl (_, _, unlock_root)
  rooted i (reopens_dir g) e h f = at i _ e refl (_, _, reopen_dir f.1)
  rooted i (wants_dir_back g d) e h f =
      elim (dir_free i d (ap has_root e) (ap has_dir e) (ap dir_of e)) [
        | inl free ↦ at i _ e refl (_, _, relock_dir free)
        | inr next ↦ next
      ]
  rooted i (drops_read g d) e h f = at i _ e refl (_, _, drop_read)
  rooted i (opens_file d) e h f = at i _ e refl (_, _, open_file f.1)
  rooted i (tries d g) e h f = elim (find_index n (λ j. reads (pcs j))) [
    | inl (j, found) ↦
        at i _ e refl (_, _, try_busy j (inl (ground (arith, reads-stands m (pcs j), fresh j))))
    | inr none_found ↦ at i _ e refl (
      _,
      _,
      try_free (λ j. (
        no_read (pcs j) g (everywhere reads refl none_found j),
        no_writer i g (ap has_dir e) (ap cleaning e) j,
      )),
    )
  ]
  rooted i (cleans d g) e h f = at i _ e refl (_, _, clean)
  rooted i (frees_file d g) e h f = at i _ e refl (_, _, free_file)
  rooted i (removes d) e h f = at i _ e refl (_, _, remove)
  rooted i (frees_dir d) e h f = at i _ e refl (_, _, free_dir)
  rooted i (frees_removed d) e h f = at i _ e refl (_, _, free_removed)
  rooted i frees_root e h f = at i _ e refl (_, _, free_root)
  rooted i (backs_out g) e h f = at i _ e refl (_, _, back_out)
  rooted i p e h f = absurd (ground arith)

  root_free : ((j : ℕ) → has_root (pcs j) ≡ false) ⊎ Next
  root_free = elim (find_index n (λ j. has_root (pcs j))) [
    | inl (j, found) ↦ inr (rooted j (pcs j) refl found (fresh j))
    | inr none_found ↦ inl (everywhere has_root refl none_found)
  ]

  outside :
      (i : ℕ) (p : Pc) → pcs i ≡ p → busy p ≡ true → has_root p ≡ false → has_dir p ≡ false → Next
  outside i wants_root e b h k = elim root_free [
    | inl free ↦ at i _ e refl (_, _, lock_root free)
    | inr next ↦ next
  ]
  outside i (wants_root_back g) e b h k = elim root_free [
    | inl free ↦ at i _ e refl (_, _, relock_root free)
    | inr next ↦ next
  ]
  outside i (drops g) e b h k = at i _ e refl (_, _, drop)
  outside i p e b h k = absurd (ground arith)

  next : (i : ℕ) → busy (pcs i) ≡ true → Next
  next i b = elim (Bool-cases (has_root (pcs i))) [
    | inl root ↦ rooted i (pcs i) refl root (fresh i)
    | inr no_root ↦ elim (Bool-cases (has_dir (pcs i))) [
      | inl dir ↦ inner i (pcs i) refl no_root dir (fresh i)
      | inr no_dir' ↦ outside i (pcs i) refl b no_root no_dir'
    ]
  ]

-- In every state that processes reach, with any failures and deaths: if a process is inside a call,
-- then some process inside a call can take a step of its own, without a failure, and with no lease
-- given up.
pub call_progress :
    {n : ℕ} {s : System} (i : ℕ)
    → Reach n s
    → busy (s.pcs i) ≡ true
    → (j : ℕ) × (busy (s.pcs j) ≡ true)
      × (m : Shared) × (p : Pc) × Move s.shared s.pcs (s.pcs j) m p
call_progress i r b = let (j, b', c) = next (Reach-Inv r) i b in (j, b', c.0, c.1, c.2)
