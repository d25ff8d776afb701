-- ===== src/Filesystem/Atomic/Laws.antt =====
-- filesystem/atomic.go: `WriteFile` writes all or nothing.
use primordium.Base.{
  ℕ, suc, ◌-◌, ◌≡◌, ◌≢◌, refl, ◌∙◌, Bytes, codes, length, take, take-all, ◌++◌, ltb, Option, none,
  some, ◌⊎◌, inl, inr, Bool-cases, arith, true, [], ap,
}
use primordium.Errors.{Error, is}
use primordium.Filesystem.Errors.{err_atomic_write_fail}
use primordium.Filesystem.Atomic.{
  Files, Outcome, failed, close_failed, renamed, closed, synced, copied, moded, created, write_file,
}

module _ (F : Files) where
  -- The contents of every file stay.
  abbrev Same : (F.State → Bytes → Option Bytes) → F.State → F.State → Type 0
  Same contents s s' = (path : Bytes) → contents s' path ≡ contents s path

  -- What became of a file system when `os.CreateTemp` was called for `path`.
  abbrev pub Fresh :
      (F.State → Bytes → Option Bytes) → Bytes → F.State → F.State × (Error ⊎ F.File) → Type 0
  Fresh contents path s (s', inl e) = contents s' path ≡ contents s path
  Fresh contents path s (s', inr file) =
      (contents s' path ≡ contents s path)
      × (F.name file ≢ path)
      × (contents s' (F.name file) ≡ some [])

  abbrev Counts : ℕ → ℕ → Error ⊎ F.File → Type 0
  Counts before after (inl e) = after ≡ before
  Counts before after (inr file) = after ≡ suc before

  abbrev pub Renames :
      (F.State → Bytes → Option Bytes) → F.State → Bytes → Bytes → Outcome F → Type 0
  Renames contents s old new (s', none) = contents s' new ≡ contents s old
  Renames contents s old new (s', some e) = Same contents s s'

  -- The documentation of the calls, as far as `WriteFile` relies on it. `contents` is what each path
  -- names, `opened` counts the open files. A file is closed also where `Close` reports an error.
  pub record IsFiles : Type 0 where
    pub contents : F.State → Bytes → Option Bytes
    pub opened : F.State → ℕ
    pub create_fresh :
        (s : F.State) (path : Bytes)
        → Fresh contents path s (F.create_temp s (F.dir path) (codes ".tmp-" ++ F.base path))
    pub create_counts :
        (s : F.State) (dir pattern : Bytes)
        → Counts (opened s) (opened (F.create_temp s dir pattern).0) (F.create_temp s dir pattern).1
    pub chmod_same :
        (s : F.State) (path : Bytes) (perm : ℕ) → Same contents s (F.chmod s path perm).0
    pub chmod_opened :
        (s : F.State) (path : Bytes) (perm : ℕ) → opened (F.chmod s path perm).0 ≡ opened s
    pub copy_others :
        (s : F.State) (file : F.File) (payload path : Bytes)
        → F.name file ≢ path
        → contents (F.copy s file payload).0 path ≡ contents s path
    pub copy_writes :
        (s : F.State) (file : F.File) (payload : Bytes)
        → contents s (F.name file) ≡ some []
        → contents (F.copy s file payload).0 (F.name file)
          ≡ some (take (F.copy s file payload).1 payload)
    pub copy_opened :
        (s : F.State) (file : F.File) (payload : Bytes)
        → opened (F.copy s file payload).0 ≡ opened s
    pub sync_same : (s : F.State) (file : F.File) → Same contents s (F.sync s file).0
    pub sync_opened : (s : F.State) (file : F.File) → opened (F.sync s file).0 ≡ opened s
    pub close_same : (s : F.State) (file : F.File) → Same contents s (F.close s file).0
    pub close_opened : (s : F.State) (file : F.File) → opened (F.close s file).0 ≡ opened s - 1
    pub rename_lem :
        (s : F.State) (old new : Bytes) → Renames contents s old new (F.rename s old new)
    pub rename_opened : (s : F.State) (old new : Bytes) → opened (F.rename s old new).0 ≡ opened s

  module _ (L : IsFiles) (filename payload : Bytes) where
    -- All of the data on success, and on an error what was there before.
    abbrev pub Writes : F.State → Outcome F → Type 0
    Writes s (s', none) = (L.contents s' filename ≡ some payload) × (L.opened s' ≡ L.opened s)
    Writes s (s', some e) =
        (L.contents s' filename ≡ L.contents s filename)
        × (L.opened s' ≡ L.opened s)
        × (is e err_atomic_write_fail ≡ true)

    failed-is : (e : Error) (f : Option Error) → is (failed e f) err_atomic_write_fail ≡ true
    failed-is e none = refl
    failed-is e (some f) = refl

    -- The temporary file is open, and the target as it was.
    abbrev Pending : F.State → F.State → Type 0
    Pending s t = (L.contents t filename ≡ L.contents s filename) × (L.opened t ≡ suc (L.opened s))

    close_failed-Writes :
        (s t : F.State) (file : F.File) (e : Error)
        → Pending s t
        → Writes s (close_failed F file t e)
    unfolding close_failed
    close_failed-Writes s t file e h = (
      L.close_same t file filename ∙ h.0,
      omega (arith, h.1, L.close_opened t file),
      failed-is e _,
    )

    -- The temporary file is closed, and has all of the data.
    abbrev Ready : F.State → F.State → F.File → Type 0
    Ready s t file =
        (L.contents t filename ≡ L.contents s filename)
        × (L.opened t ≡ L.opened s)
        × (L.contents t (F.name file) ≡ some payload)

    renamed-Writes :
        (s t : F.State) (file : F.File) (x : Outcome F)
        → Renames L.contents t (F.name file) filename x
        → L.opened x.0 ≡ L.opened t
        → Ready s t file
        → Writes s (renamed F filename payload x)
    unfolding renamed
    renamed-Writes s t file (u, none) m o h = (m ∙ h.2, o ∙ h.1)
    renamed-Writes s t file (u, some e) m o h = (m filename ∙ h.0, o ∙ h.1, failed-is e none)

    closed-Writes :
        (s : F.State) (file : F.File) (x : Outcome F)
        → Ready s x.0 file
        → Writes s (closed F filename payload file x)
    unfolding closed
    closed-Writes s file (t, none) h =
        renamed-Writes s t file _ (L.rename_lem t _ filename) (L.rename_opened t _ filename) h
    closed-Writes s file (t, some e) h = (h.0, h.1, failed-is e none)

    synced-Writes :
        (s : F.State) (file : F.File) (x : Outcome F)
        → Pending s x.0
        → L.contents x.0 (F.name file) ≡ some payload
        → Writes s (synced F filename payload file x)
    unfolding synced
    synced-Writes s file (t, none) h d = closed-Writes s file _ (
      L.close_same t file filename ∙ h.0,
      omega (arith, h.1, L.close_opened t file),
      L.close_same t file _ ∙ d,
    )
    synced-Writes s file (t, some e) h d = close_failed-Writes s t file e h

    copied-Writes :
        (s : F.State) (file : F.File) (x : F.State × ℕ × Option Error)
        → Pending s x.0
        → L.contents x.0 (F.name file) ≡ some (take x.1 payload)
        → Writes s (copied F filename payload file x)
    unfolding copied
    copied-Writes s file (t, n, some e) h d = close_failed-Writes s t file e h
    copied-Writes s file (t, n, none) h d = elim (Bool-cases (ltb n (length payload))) [
      | inl short ↦ rw short (close_failed-Writes s t file _ h)
      | inr whole ↦ rw whole (
          synced-Writes s file (F.sync t file)
            (L.sync_same t file filename ∙ h.0, omega (arith, h.1, L.sync_opened t file))
            (L.sync_same t file _ ∙ d ∙ ap some (take-all n payload (ground arith))))
    ]

    moded-Writes :
        (s : F.State) (file : F.File) (x : Outcome F)
        → Pending s x.0
        → F.name file ≢ filename
        → L.contents x.0 (F.name file) ≡ some []
        → Writes s (moded F filename payload file x)
    unfolding moded
    moded-Writes s file (t, none) h f d =
        copied-Writes s file (F.copy t file payload)
          (
            L.copy_others t file payload filename f ∙ h.0,
            omega (arith, h.1, L.copy_opened t file payload),
          )
          (L.copy_writes t file payload d)
    moded-Writes s file (t, some e) h f d = close_failed-Writes s t file e h

    created-Writes :
        (s : F.State) (perm : ℕ) (x : F.State × (Error ⊎ F.File))
        → Fresh L.contents filename s x
        → Counts (L.opened s) (L.opened x.0) x.1
        → Writes s (created F filename payload perm x)
    unfolding created
    created-Writes s perm (t, inl e) h c = (h, c, failed-is e none)
    created-Writes s perm (t, inr file) h c =
        moded-Writes s file (F.chmod t (F.name file) perm)
          (
            L.chmod_same t _ perm filename ∙ h.0,
            omega (arith, c, L.chmod_opened t (F.name file) perm),
          )
          h.1 (L.chmod_same t _ perm _ ∙ h.2)

    -- `WriteFile` writes all of the data, or fails with an `ErrAtomicWriteFail` and leaves what the
    -- path named before. On every path it leaves as many files open as before.
    pub write_file-Writes :
        (mask perm : ℕ) (s : F.State) → Writes s (write_file F filename payload mask perm s)
    unfolding write_file
    write_file-Writes mask perm s =
        created-Writes s _ _ (L.create_fresh s filename) (L.create_counts s _ _)
