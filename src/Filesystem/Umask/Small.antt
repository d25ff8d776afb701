-- ===== src/Filesystem/Umask/Small.antt =====
-- A system that holds a mask, for the examples.
use primordium.Base.{ℕ, ◌%◌, refl, codes, arith}
use primordium.Filesystem.Umask.{Kernel, Process, default_umask}
use primordium.Filesystem.Umask.Laws.{IsKernel}

abbrev pub kernel : Kernel
kernel = record { State = ℕ; umask = λ s mask. (mask % 512, s % 512) }

abbrev pub kernel-IsKernel : IsKernel kernel
kernel-IsKernel = record {
  mask_of = λ s. s % 512;
  mask_small = λ s. omega arith;
  umask_returns = λ s mask. refl;
  umask_sets = λ s mask. omega arith;
}

abbrev pub process : Process kernel
process = record { current_mask = default_umask; name = codes "app"; system = 63 }
