-- ===== src/Filesystem/Umask.antt =====
-- filesystem/umask.go and init.go: the file mode mask of the process, and the package's copy of it.
pub mod Laws
pub mod Small
mod Windows
mod Examples
use primordium.Base.{ℕ, ◌&&◌, ◌||◌, ◌==◌, ltb, leb, Bytes, if◌then◌else◌}
use primordium.Errors.{Result, ok, panic}
use primordium.Filesystem.ReadSeeker.{sign}

-- `syscall.Umask`: it sets the mask and returns the one before, an `int` as a 64-bit pattern.
pub record Kernel : Type 1 where
  pub State : Type 0
  pub umask : State → ℕ → State × ℕ

-- 0o077
abbrev pub default_umask : ℕ
default_umask = 63

abbrev pub max_uint32 : ℕ
max_uint32 = 4294967295

module _ (K : Kernel) where
  -- The package's variables, and the system.
  pub record Process : Type 0 where
    pub current_mask : ℕ
    pub name : Bytes
    pub system : K.State

  unfoldable pub set_umask : ℕ → Process → Process
  set_umask mask p =
      if mask == p.current_mask
      then p
      else record p { current_mask = mask; system = (K.umask p.system mask).0 }

  abbrev pub get_umask : Process → ℕ
  get_umask p = p.current_mask

  -- `Inititalize`
  unfoldable pub initialize : Bytes → Process → Result Process
  initialize app_name p =
      let (s, c_mask) = K.umask p.system 0 in
      if (ltb max_uint32 c_mask && ltb c_mask sign) || leb sign c_mask
      then panic
      else ok (record { current_mask = c_mask; name = app_name; system = s })
