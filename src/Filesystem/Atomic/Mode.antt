-- ===== src/Filesystem/Atomic/Mode.antt =====
-- filesystem/atomic.go: the mode of a file that `WriteFile` wrote.
use primordium.Base.{
  ℕ, zero, suc, ◌*◌, ◌/◌, ◌%◌, ◌≤◌, ◌<◌, ◌≡◌, refl, ◌∙◌, Bool, false, not, ◌&&◌, ◌==◌, Bool-cases,
  Bytes, length, ltb, Option, none, some, ◌⊎◌, inl, inr, arith,
}
use primordium.Errors.{Error}
use primordium.Filesystem.Umask.{Kernel, Process, get_umask, set_umask}
use primordium.Filesystem.Umask.Laws.{get_umask-set_umask}
use primordium.Filesystem.Atomic.{
  Files, Outcome, and_not, close_failed, renamed, closed, synced, copied, moded, created,
  write_file,
}

-- Bit `i` of a number.
abbrev pub bit : ℕ → ℕ → Bool
bit zero n = n % 2 == 1
bit (suc i) n = bit i (n / 2)

bit-zero : (i : ℕ) → bit i 0 ≡ false
bit-zero zero = refl
bit-zero (suc i) = bit-zero i

-- `2 ^ width`
abbrev pub power : ℕ → ℕ
power zero = 1
power (suc width) = 2 * power width

and_not-half :
    (width mask perm : ℕ) → and_not (suc width) mask perm / 2 ≡ and_not width (mask / 2) (perm / 2)
unfolding and_not
and_not-half width mask perm = ground arith

bit-and_not :
    (width i mask perm : ℕ)
    → perm < power width
    → bit i (and_not width mask perm) ≡ (bit i perm && not (bit i mask))
unfolding and_not
bit-and_not zero i mask perm h =
    let none_left : perm ≡ 0 = omega arith in rw (none_left, bit-zero i) refl
bit-and_not (suc width) zero mask perm h = ground arith
bit-and_not (suc width) (suc i) mask perm h =
    rw (and_not-half width mask perm) (bit-and_not width i (mask / 2) (perm / 2) (omega arith))

and_not-le : (width mask perm : ℕ) → and_not width mask perm ≤ perm
unfolding and_not
and_not-le zero mask perm = omega arith
and_not-le (suc width) mask perm = ground (arith, and_not-le width (mask / 2) (perm / 2))

module _ (F : Files) where
  -- `os.Chmod` gives the file that the path names its mode, if it succeeds.
  abbrev pub Chmods : (F.State → Bytes → Option ℕ) → Bytes → ℕ → Outcome F → Type 0
  Chmods mode path perm (s, none) = mode s path ≡ some perm
  Chmods mode path perm (s, some e) = Unit {0}

  -- `os.Rename` keeps the mode of the file, if it succeeds.
  abbrev pub Moves : (F.State → Bytes → Option ℕ) → F.State → Bytes → Bytes → Outcome F → Type 0
  Moves mode s old new (s', none) = mode s' new ≡ mode s old
  Moves mode s old new (s', some e) = Unit {0}

  -- The documentation of the calls, as far as the mode of the file depends on it. `mode` is that of
  -- the file that a path names, on a system that keeps the nine permission bits.
  pub record HasModes : Type 0 where
    pub mode : F.State → Bytes → Option ℕ
    pub chmods :
        (s : F.State) (path : Bytes) (perm : ℕ)
        → perm < 512
        → Chmods mode path perm (F.chmod s path perm)
    pub copy_keeps :
        (s : F.State) (file : F.File) (payload path : Bytes)
        → mode (F.copy s file payload).0 path ≡ mode s path
    pub sync_keeps :
        (s : F.State) (file : F.File) (path : Bytes) → mode (F.sync s file).0 path ≡ mode s path
    pub close_keeps :
        (s : F.State) (file : F.File) (path : Bytes) → mode (F.close s file).0 path ≡ mode s path
    pub moves : (s : F.State) (old new : Bytes) → Moves mode s old new (F.rename s old new)

  module _ (L : HasModes) (filename payload : Bytes) where
    -- The file has the mode, or there was an error.
    abbrev Has : ℕ → Outcome F → Type 0
    Has m (s, none) = L.mode s filename ≡ some m
    Has m (s, some e) = Unit {0}

    renamed-Has :
        (m : ℕ) (s : F.State) (old : Bytes) (x : Outcome F)
        → L.mode s old ≡ some m
        → Moves L.mode s old filename x
        → Has m (renamed F filename payload x)
    unfolding renamed
    renamed-Has m s old (t, none) h r = r ∙ h
    renamed-Has m s old (t, some e) h r = tt

    closed-Has :
        (m : ℕ) (file : F.File) (x : Outcome F)
        → L.mode x.0 (F.name file) ≡ some m
        → Has m (closed F filename payload file x)
    unfolding closed
    closed-Has m file (s, none) h = renamed-Has m s _ _ h (L.moves s _ filename)
    closed-Has m file (s, some e) h = tt

    synced-Has :
        (m : ℕ) (file : F.File) (x : Outcome F)
        → L.mode x.0 (F.name file) ≡ some m
        → Has m (synced F filename payload file x)
    unfolding synced close_failed
    synced-Has m file (s, none) h = closed-Has m file _ (L.close_keeps s file _ ∙ h)
    synced-Has m file (s, some e) h = tt

    copied-Has :
        (m : ℕ) (file : F.File) (x : F.State × ℕ × Option Error)
        → L.mode x.0 (F.name file) ≡ some m
        → Has m (copied F filename payload file x)
    unfolding copied close_failed
    copied-Has m file (s, n, some e) h = tt
    copied-Has m file (s, n, none) h = elim (Bool-cases (ltb n (length payload))) [
      | inl short ↦ rw short tt
      | inr whole ↦ rw whole (synced-Has m file _ (L.sync_keeps s file _ ∙ h))
    ]

    moded-Has :
        (m : ℕ) (file : F.File) (x : Outcome F)
        → Chmods L.mode (F.name file) m x
        → Has m (moded F filename payload file x)
    unfolding moded close_failed
    moded-Has m file (s, none) h = copied-Has m file _ (L.copy_keeps s file payload _ ∙ h)
    moded-Has m file (s, some e) h = tt

    created-Has :
        (m : ℕ) (x : F.State × (Error ⊎ F.File)) → m < 512 → Has m (created F filename payload m x)
    unfolding created
    created-Has m (s, inl e) small = tt
    created-Has m (s, inr file) small = moded-Has m file _ (L.chmods s _ m small)

    -- The mode of the file, bit by bit, or an error.
    abbrev pub Moded : ℕ → ℕ → Outcome F → Type 0
    Moded mask perm (s, none) =
        (m : ℕ) × (L.mode s filename ≡ some m)
        × ((i : ℕ) → bit i m ≡ (bit i perm && not (bit i mask)))
    Moded mask perm (s, some e) = Unit {0}

    Has-Moded :
        (mask perm : ℕ) (x : Outcome F)
        → perm < 512
        → Has (and_not 32 mask perm) x
        → Moded mask perm x
    Has-Moded mask perm (s, none) small h = (_, h, λ i. bit-and_not 32 i mask perm (omega arith))
    Has-Moded mask perm (s, some e) small h = tt

    -- On a system that keeps the nine permission bits: after `SetUmask` of a mask, a file that
    -- `WriteFile` wrote without an error has just those of the nine bits of `perm` that the mask does
    -- not have, whatever mode a file had that was there.
    pub write_file-Moded :
        (K : Kernel) (p : Process K) (mask perm : ℕ) (s : F.State)
        → perm < 512
        → Moded mask perm (write_file F filename payload (get_umask K (set_umask K mask p)) perm s)
    unfolding write_file
    write_file-Moded K p mask perm s small = rw (get_umask-set_umask K mask p) (
        Has-Moded mask perm _ small
          (created-Has (and_not 32 mask perm) _ (omega (arith, and_not-le 32 mask perm))))
