-- ===== src/Filesystem/Atomic/Examples.antt =====
-- `WriteFile` on a small file system.
use primordium.Base.{
  take-all, ℕ, suc, ◌-◌, ◌≡◌, ◌≢◌, ◌∙◌, refl, sym, ap, Bool-cases, inl, inr, Bytes, codes, bytes_eq,
  eq_of_bytes_eq, bytes_eq_refl, length, length-append, ◌++◌, Option, none, some, [], arith,
  if◌then◌else◌,
}
use primordium.Filesystem.Atomic.{Files, write_file}
use primordium.Filesystem.Atomic.Laws.{IsFiles, Writes, write_file-Writes}
use primordium.Filesystem.Atomic.Mode.{HasModes, Moded, write_file-Moded}
use primordium.Filesystem.Umask.{get_umask, set_umask}
use primordium.Filesystem.Umask.Small.{kernel, process}
use primordium.Filesystem.Atomic.Crash.{recorded, Seen, write_file-Seen}

record Small : Type 0 where
  named : Bytes → Option Bytes
  count : ℕ
  modes : Bytes → Option ℕ

-- The contents of the path `p` are now `v`.
abbrev put : Small → Bytes → Option Bytes → ℕ → Small
put s p v n = record s { named = λ q. if bytes_eq q p then v else s.named q; count = n }

-- And its mode is `m`.
abbrev give : Small → Bytes → Option ℕ → Small
give s p m = record s { modes = λ q. if bytes_eq q p then m else s.modes q }

abbrev small : Files
small = record {
  State = Small;
  File = Bytes;
  dir = λ path. [];
  base = λ path. path;
  name = λ file. file;
  create_temp = λ s dir pattern. (put s pattern (some []) (suc s.count), inr pattern);
  chmod = λ s path perm. (give s path (some perm), none);
  copy = λ s file payload. (put s file (some payload) s.count, length payload, none);
  sync = λ s file. (s, none);
  close = λ s file. (record s { count = s.count - 1 }, none);
  rename = λ s old new. (give (put s new (s.named old) s.count) new (s.modes old), none);
}

put-same : (s : Small) (p : Bytes) (v : Option Bytes) (n : ℕ) → (put s p v n).named p ≡ v
put-same s p v n = rw (bytes_eq_refl p) refl

put-other :
    (s : Small) (p q : Bytes) (v : Option Bytes) (n : ℕ) → p ≢ q → (put s p v n).named q ≡ s.named q
put-other s p q v n h = elim (Bool-cases (bytes_eq q p)) [
  | inl e ↦ absurd (h (sym (eq_of_bytes_eq q p e)))
  | inr e ↦ rw e refl
]

temp-ne : (path : Bytes) → codes ".tmp-" ++ path ≢ path
temp-ne path h = absurd (omega (arith, length-append (codes ".tmp-") path, ap length h))

small-IsFiles : IsFiles small
small-IsFiles = record {
  contents = λ s path. s.named path;
  opened = λ s. s.count;
  create_fresh = λ s path. (
    put-other s _ path _ (suc s.count) (temp-ne path),
    temp-ne path,
    put-same s _ _ (suc s.count),
  );
  create_counts = λ s dir pattern. refl;
  chmod_same = λ s path perm q. refl;
  chmod_opened = λ s path perm. refl;
  copy_others = λ s file payload path h. put-other s file path _ s.count h;
  copy_writes = λ s file payload h.
      put-same s file _ s.count ∙ ap some (sym (take-all (length payload) payload (omega arith)));
  copy_opened = λ s file payload. refl;
  sync_same = λ s file q. refl;
  sync_opened = λ s file. refl;
  close_same = λ s file q. refl;
  close_opened = λ s file. refl;
  rename_lem = λ s old new. put-same s new _ s.count;
  rename_opened = λ s old new. refl;
}

abbrev before : Small
before = record { named = λ path. none; count = 2; modes = λ path. none }

write_file-Writes_example :
    Writes small small-IsFiles
      (codes "config")
      (codes "on")
      before
      (write_file small (codes "config") (codes "on") 18 420 before)
write_file-Writes_example =
    write_file-Writes small small-IsFiles (codes "config") (codes "on") 18 420 before

write_file-Seen_example :
    Seen small small-IsFiles
      (codes "config")
      (codes "on")
      (small-IsFiles.contents before (codes "config"))
      (write_file (recorded small) (codes "config") (codes "on") 18 420 (before, []))
write_file-Seen_example =
    write_file-Seen small small-IsFiles (codes "config") (codes "on") 18 420 before

give-same : (s : Small) (p : Bytes) (m : Option ℕ) → (give s p m).modes p ≡ m
give-same s p m = rw (bytes_eq_refl p) refl

small-HasModes : HasModes small
small-HasModes = record {
  mode = λ s path. s.modes path;
  chmods = λ s path perm h. give-same s path (some perm);
  copy_keeps = λ s file payload path. refl;
  sync_keeps = λ s file path. refl;
  close_keeps = λ s file path. refl;
  moves = λ s old new. give-same s new (s.modes old);
}

write_file-Moded_example : Moded small small-HasModes (codes "config") (codes "on") 18 420 (
    write_file small
      (codes "config")
      (codes "on")
      (get_umask kernel (set_umask kernel 18 process))
      420
      before)
write_file-Moded_example =
    write_file-Moded small small-HasModes (codes "config") (codes "on") kernel process 18 420 before
      (omega arith)
