-- ===== src/Filesystem/Umask/Windows.antt =====
-- filesystem/umask_windows.go: a system without a file mode mask.
use primordium.Base.{ℕ, ◌≡◌, refl, Bytes, ◌==◌, Bool-cases, inl, inr, arith}
use primordium.Errors.{ok}
use primordium.Filesystem.Umask.{Kernel, Process, set_umask, get_umask, initialize}

-- `umask` does nothing and returns 0.
abbrev pub windows : Kernel
windows = record { State = Unit {0}; umask = λ s mask. (s, 0) }

-- On Windows `Inititalize` returns, and `GetUmask` gives 0 after it, and whatever `SetUmask` was
-- called with last after that.
windows_mask :
    (name : Bytes) (mask : ℕ) (p : Process windows)
    → (initialize windows name p ≡ ok (record { current_mask = 0; name = name; system = tt }))
      × (get_umask windows (set_umask windows mask p) ≡ mask)
unfolding initialize set_umask
windows_mask name mask p = (
  refl,
  elim (Bool-cases (mask == p.current_mask)) [ inl e ↦ rw e (ground arith) | inr e ↦ rw e refl ],
)
