-- ===== src/Filesystem/Locker/Processes/Examples.antt =====
-- One process that takes a lease and gives it back.
use mathlib.Core.Path.{subst, fun_ext}
use primordium.Base.{ℕ, ◌≡◌, refl, ap, true, false, some, arith}
use primordium.Filesystem.Locker.Processes.{
  Shared, Pc, idle, wants_root, makes_dir, opens_dir, wants_dir, leaves_root, touches, opens_read,
  wants_read, creates, leaves_dir, holding, wants_root_back, reopens_dir, wants_dir_back,
  drops_read, opens_file, tries, cleans, frees_file, removes, frees_removed, frees_root, read_of,
  Move, start, lock_root, make_dir, open_dir, lock_dir, unlock_root, touch, open_read, lock_read,
  create, unlock_dir, release, relock_root, reopen_dir, relock_dir, drop_read, open_file, try_free,
  clean, free_file, remove, free_removed, free_root,
}
use primordium.Filesystem.Locker.Processes.System.{update, System, moves, init, Reach, begin, later}
use primordium.Filesystem.Locker.Processes.Invariant.{has_dir, reads}
use primordium.Filesystem.Locker.Processes.Safety.{cleaning_alone, lease_stands}
use primordium.Filesystem.Locker.Processes.Progress.{busy, call_progress}

abbrev only : Pc → ℕ → Pc
only p = update (λ _. idle) 0 p

abbrev at : Shared → Pc → System
at m p = record { shared = m; pcs = only p }

update-only : (p p' : Pc) → update (only p) 0 p' ≡ only p'
update-only p p' = fun_ext λ j. ground arith

on :
    {m m' : Shared} {p : Pc} (p' : Pc)
    → Reach 1 (at m p)
    → Move m (only p) p m' p'
    → Reach 1 (at m' p')
on {m' = m'} {p = p} p' r mv =
    subst (λ f. Reach 1 (record { shared = m'; pcs = f })) (update-only p p')
      (later r (moves 0 (omega arith) mv))

abbrev absent : Shared
absent = record { removals = 0; dir_exists = false }

abbrev present : Shared
present = record { removals = 0; dir_exists = true }

init-at : init ≡ at absent idle
init-at = ap (λ f. record { shared = absent; pcs = f }) (fun_ext λ j. ground arith)

acquired : Reach 1 (at present (holding 0))
acquired =
    let r0 : Reach 1 (at absent idle) = subst (Reach 1) init-at begin in
    let r1 : Reach 1 (at absent wants_root) = on wants_root r0 start in
    let r2 : Reach 1 (at absent makes_dir) = on makes_dir r1 (lock_root (λ j. ground arith)) in
    let r3 : Reach 1 (at present opens_dir) = on opens_dir r2 make_dir in
    let r4 : Reach 1 (at present (wants_dir 0)) = on (wants_dir 0) r3 (open_dir refl) in
    let r5 : Reach 1 (at present (leaves_root 0)) =
      on (leaves_root 0) r4 (lock_dir (λ j e. ground arith)) in
    let r6 : Reach 1 (at present (touches 0)) = on (touches 0) r5 unlock_root in
    let r6b : Reach 1 (at present (opens_read 0)) = on (opens_read 0) r6 (touch refl) in
    let r7 : Reach 1 (at present (wants_read 0 0)) = on (wants_read 0 0) r6b (open_read refl) in
    let r8 : Reach 1 (at present (creates 0 0)) =
      on (creates 0 0) r7 (lock_read (λ j e. ground arith)) in
    on (holding 0) (on (leaves_dir 0 0) r8 create) unlock_dir

last_released : Reach 1 (at present (cleans 0 0))
last_released =
    let r1 : Reach 1 (at present (wants_root_back 0)) = on (wants_root_back 0) acquired release in
    let r2 : Reach 1 (at present (reopens_dir 0)) =
      on (reopens_dir 0) r1 (relock_root (λ j. ground arith)) in
    let r3 : Reach 1 (at present (wants_dir_back 0 0)) =
      on (wants_dir_back 0 0) r2 (reopen_dir refl) in
    let r4 : Reach 1 (at present (drops_read 0 0)) =
      on (drops_read 0 0) r3 (relock_dir (λ j e. ground arith)) in
    let r5 : Reach 1 (at present (opens_file 0)) = on (opens_file 0) r4 drop_read in
    let r6 : Reach 1 (at present (tries 0 0)) = on (tries 0 0) r5 (open_file refl) in
    on (cleans 0 0) r6 (try_free (λ j. ((λ e. ground arith), (λ e. ground arith))))

removed : Reach 1 (at (record { removals = 1; dir_exists = false }) idle)
removed =
    let r0 : Reach 1 (at present (frees_file 0 0)) = on (frees_file 0 0) last_released clean in
    let r1 : Reach 1 (at present (removes 0)) = on (removes 0) r0 free_file in
    on idle (on frees_root (on (frees_removed 0) r1 remove) free_removed) free_root

cleaning_alone_example :
    (reads (only (cleans 0 0) 1) ≡ false) × (has_dir (only (cleans 0 0) 1) ≡ true → ◌≡◌ {A = ℕ} 1 0)
cleaning_alone_example = cleaning_alone {s = at present (cleans 0 0)} 0 1 last_released refl

lease_stands_example : (read_of (only (holding 0) 0) ≡ some 0) × (present.dir_exists ≡ true)
lease_stands_example = lease_stands {s = at present (holding 0)} 0 acquired refl

call_progress_example :
    (j : ℕ) × (busy (only (cleans 0 0) j) ≡ true)
    × (m : Shared) × (p : Pc) × Move present (only (cleans 0 0)) (only (cleans 0 0) j) m p
call_progress_example = call_progress {s = at present (cleans 0 0)} 0 last_released refl
