-- ===== src/Filesystem/Atomic/Crash.antt =====
-- filesystem/atomic.go: what stands at the path between two calls of the system that `WriteFile` makes, where
-- the process may be stopped.
use primordium.Base.{
  take-all, ℕ, ◌≡◌, ◌≢◌, refl, ◌∙◌, Bytes, length, take, ltb, All, List, [], ◌∷◌, Option, none,
  some, ◌⊎◌, inl, inr, Bool-cases, arith, ap,
}
use primordium.Errors.{Error}
use primordium.Filesystem.Atomic.{
  Files, Outcome, close_failed, renamed, closed, synced, copied, moded, created, write_file,
  err_short_write,
}
use primordium.Filesystem.Atomic.Laws.{IsFiles, Fresh, Renames}

module _ (F : Files) where
  -- The same file system, which also keeps the states after each call, the last one first.
  abbrev pub recorded : Files
  recorded = record {
    State = F.State × List F.State;
    File = F.File;
    dir = F.dir;
    base = F.base;
    name = F.name;
    create_temp = λ s d p. let (t, r) = F.create_temp s.0 d p in ((t, t ∷ s.1), r);
    chmod = λ s path perm. let (t, r) = F.chmod s.0 path perm in ((t, t ∷ s.1), r);
    copy = λ s file p. let (t, n, r) = F.copy s.0 file p in ((t, t ∷ s.1), n, r);
    sync = λ s file. let (t, r) = F.sync s.0 file in ((t, t ∷ s.1), r);
    close = λ s file. let (t, r) = F.close s.0 file in ((t, t ∷ s.1), r);
    rename = λ s old new. let (t, r) = F.rename s.0 old new in ((t, t ∷ s.1), r);
  }

  module _ (L : IsFiles F) (filename payload : Bytes) (before : Option Bytes) where
    -- What was there before, or all of the new data.
    abbrev pub OldOrNew : F.State → Type 0
    OldOrNew t = (L.contents t filename ≡ before) ⊎ (L.contents t filename ≡ some payload)

    abbrev pub Seen : Outcome recorded → Type 0
    Seen x = All OldOrNew x.0.1

    -- The target is as it was, now and in the states that were recorded.
    abbrev Before : F.State × List F.State → Type 0
    Before s = (L.contents s.0 filename ≡ before) × All OldOrNew s.1

    close_failed-Seen :
        (file : F.File) (s : F.State × List F.State) (e : Error)
        → Before s
        → Seen (close_failed recorded file s e)
    unfolding close_failed
    close_failed-Seen file (t, l) e h = (inl (L.close_same t file filename ∙ h.0), h.1)

    renamed-Seen :
        (t : F.State) (l : List F.State) (file : F.File) (x : Outcome F)
        → Renames F L.contents t (F.name file) filename x
        → Before (t, l)
        → L.contents t (F.name file) ≡ some payload
        → Seen (renamed recorded filename payload ((x.0, x.0 ∷ l), x.1))
    unfolding renamed
    renamed-Seen t l file (u, none) m h d = (inr (m ∙ d), h.1)
    renamed-Seen t l file (u, some e) m h d = (inl (m filename ∙ h.0), h.1)

    closed-Seen :
        (file : F.File) (x : Outcome recorded)
        → Before x.0
        → L.contents x.0.0 (F.name file) ≡ some payload
        → Seen (closed recorded filename payload file x)
    unfolding closed
    closed-Seen file ((t, l), none) h d =
        renamed-Seen t l file (F.rename t (F.name file) filename) (L.rename_lem t _ filename) h d
    closed-Seen file ((t, l), some e) h d = h.1

    synced-Seen :
        (file : F.File) (x : Outcome recorded)
        → Before x.0
        → L.contents x.0.0 (F.name file) ≡ some payload
        → Seen (synced recorded filename payload file x)
    unfolding synced
    synced-Seen file ((t, l), none) h d =
        let kept : L.contents (F.close t file).0 filename ≡ before =
          L.close_same t file filename ∙ h.0 in
        closed-Seen file (recorded.close (t, l) file) (kept, (inl kept, h.1))
          (L.close_same t file _ ∙ d)
    synced-Seen file ((t, l), some e) h d = close_failed-Seen file (t, l) e h

    copied-Seen :
        (file : F.File) (x : (F.State × List F.State) × ℕ × Option Error)
        → Before x.0
        → L.contents x.0.0 (F.name file) ≡ some (take x.1 payload)
        → Seen (copied recorded filename payload file x)
    unfolding copied
    copied-Seen file ((t, l), n, some e) h d = close_failed-Seen file (t, l) e h
    copied-Seen file ((t, l), n, none) h d = elim (Bool-cases (ltb n (length payload))) [
      | inl short ↦ rw short (close_failed-Seen file (t, l) err_short_write h)
      | inr whole ↦
          let kept : L.contents (F.sync t file).0 filename ≡ before =
            L.sync_same t file filename ∙ h.0 in
          let all : L.contents (F.sync t file).0 (F.name file) ≡ some payload =
            L.sync_same t file _ ∙ d ∙ ap some (take-all n payload (ground arith)) in
          rw whole (synced-Seen file (recorded.sync (t, l) file) (kept, (inl kept, h.1)) all)
    ]

    moded-Seen :
        (file : F.File) (x : Outcome recorded)
        → Before x.0
        → F.name file ≢ filename
        → L.contents x.0.0 (F.name file) ≡ some []
        → Seen (moded recorded filename payload file x)
    unfolding moded
    moded-Seen file ((t, l), none) h f d =
        let kept : L.contents (F.copy t file payload).0 filename ≡ before =
          L.copy_others t file payload filename f ∙ h.0 in
        copied-Seen file (recorded.copy (t, l) file payload) (kept, (inl kept, h.1))
          (L.copy_writes t file payload d)
    moded-Seen file ((t, l), some e) h f d = close_failed-Seen file (t, l) e h

    created-Seen :
        (s : F.State) (perm : ℕ) (x : F.State × (Error ⊎ F.File))
        → L.contents s filename ≡ before
        → Fresh F L.contents filename s x
        → Seen (created recorded filename payload perm ((x.0, x.0 ∷ []), x.1))
    unfolding created
    created-Seen s perm (t, inl e) h c = (inl (c ∙ h), tt)
    created-Seen s perm (t, inr file) h c =
        let kept : L.contents (F.chmod t (F.name file) perm).0 filename ≡ before =
          L.chmod_same t _ perm filename ∙ c.0 ∙ h in
        moded-Seen file (recorded.chmod (t, t ∷ []) (F.name file) perm)
          (kept, (inl kept, (inl (c.0 ∙ h), tt))) c.1 (L.chmod_same t _ perm _ ∙ c.2)

  -- In the state after each call of the system that `WriteFile` makes, the path names what it named
  -- before, or all of the new data.
  pub write_file-Seen :
      (L : IsFiles F) (filename payload : Bytes) (mask perm : ℕ) (s : F.State)
      → Seen L filename payload
          (L.contents s filename)
          (write_file recorded filename payload mask perm (s, []))
  unfolding write_file
  write_file-Seen L filename payload mask perm s =
      created-Seen L filename payload (L.contents s filename) s _ _ refl (L.create_fresh s filename)
