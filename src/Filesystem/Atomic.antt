-- ===== src/Filesystem/Atomic.antt =====
-- filesystem/atomic.go: a file is written to a temporary file, which then takes its name.
pub mod Laws
pub mod Crash
pub mod Mode
mod Examples
use primordium.Base.{
  ℕ, zero, suc, ◌+◌, ◌*◌, ◌/◌, ◌%◌, Bytes, codes, length, ◌++◌, ◌==◌, ◌&&◌, ltb, Option, none, some,
  ◌⊎◌, inl, inr, if◌then◌else◌,
}
use primordium.Errors.{Error, sentinel, wrap_two}
use primordium.Filesystem.Errors.{err_atomic_write_fail}

-- `io.ErrShortWrite`
abbrev pub err_short_write : Error
err_short_write = sentinel 50

-- The calls of packages os, io and path/filepath, on a state of the file system. `copy` is `io.Copy`
-- of the data, with the number of bytes written.
pub record Files : Type 1 where
  pub State : Type 0
  pub File : Type 0
  pub dir : Bytes → Bytes
  pub base : Bytes → Bytes
  pub name : File → Bytes
  pub create_temp : State → Bytes → Bytes → State × (Error ⊎ File)
  pub chmod : State → Bytes → ℕ → State × Option Error
  pub copy : State → File → Bytes → State × ℕ × Option Error
  pub sync : State → File → State × Option Error
  pub close : State → File → State × Option Error
  pub rename : State → Bytes → Bytes → State × Option Error

-- `^mask & perm`, on so many bits.
unfoldable pub and_not : ℕ → ℕ → ℕ → ℕ
and_not zero mask perm = 0
and_not (suc width) mask perm =
    let rest = 2 * and_not width (mask / 2) (perm / 2) in
    if (mask % 2 == 0) && (perm % 2 == 1) then rest + 1 else rest

-- `errors.Join(ErrAtomicWriteFail, err, closeErr)`
abbrev pub failed : Error → Option Error → Error
failed e none = wrap_two err_atomic_write_fail e
failed e (some f) = wrap_two (wrap_two err_atomic_write_fail e) f

module _ (F : Files) where
  abbrev pub Outcome : Type 0
  Outcome = F.State × Option Error

  -- Fail, and close the file.
  unfoldable pub close_failed : F.File → F.State → Error → Outcome
  close_failed file s e = let (s', f) = F.close s file in (s', some (failed e f))

  module _ (filename payload : Bytes) where
    unfoldable pub renamed : Outcome → Outcome
    renamed (s, none) = (s, none)
    renamed (s, some e) = (s, some (failed e none))

    unfoldable pub closed : F.File → Outcome → Outcome
    unfolding renamed
    closed file (s, none) = renamed (F.rename s (F.name file) filename)
    closed file (s, some e) = (s, some (failed e none))

    unfoldable pub synced : F.File → Outcome → Outcome
    unfolding close_failed closed
    synced file (s, none) = closed file (F.close s file)
    synced file (s, some e) = close_failed file s e

    unfoldable pub copied : F.File → F.State × ℕ × Option Error → Outcome
    unfolding close_failed synced
    copied file (s, n, some e) = close_failed file s e
    copied file (s, n, none) =
        if ltb n (length payload)
        then close_failed file s err_short_write
        else synced file (F.sync s file)

    unfoldable pub moded : F.File → Outcome → Outcome
    unfolding close_failed copied
    moded file (s, none) = copied file (F.copy s file payload)
    moded file (s, some e) = close_failed file s e

    unfoldable pub created : ℕ → F.State × (Error ⊎ F.File) → Outcome
    unfolding moded
    created perm (s, inl e) = (s, some (failed e none))
    created perm (s, inr file) = moded file (F.chmod s (F.name file) perm)

    -- `WriteFile`, with the package's `currentMask`.
    unfoldable pub write_file : ℕ → ℕ → F.State → Outcome
    unfolding created and_not
    write_file mask perm s =
        created (and_not 32 mask perm)
          (F.create_temp s (F.dir filename) (codes ".tmp-" ++ F.base filename))
