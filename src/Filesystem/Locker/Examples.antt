-- ===== src/Filesystem/Locker/Examples.antt =====
-- `Acquire` and its release function on a small system.
use primordium.Base.{refl, Bytes, codes, none, arith}
use primordium.Filesystem.Platform.{linux}
use primordium.Filesystem.Lock.Returns.{Returns}
use primordium.Filesystem.Lock.Small.{Small, small, small_file, small-IsSystem, opened_to}
use primordium.Filesystem.Locker.{Disk, Made, acquire, release}
use primordium.Filesystem.Locker.Files.{IsDisk, Open}
use primordium.Filesystem.Locker.Acquiring.{FactoryKeeps, Leases, acquire-Leases}
use primordium.Filesystem.Locker.Releasing.{release-Open}

abbrev disk : Disk small
disk = record {
  mkdir_all = λ s path perm. (s, none);
  create_file = λ s path perm. small_file s;
  remove_all = λ s path. (s, none);
  join_path = λ dir name. dir;
}

disk-IsDisk : IsDisk small small-IsSystem 3 disk
unfolding small-IsSystem
disk-IsDisk = record {
  mkdir_keeps = λ s path perm. (refl, omega arith);
  remove_keeps = λ s path. (refl, omega arith);
  create_counts = λ s path perm. refl;
  create_calm = λ s path perm. omega arith;
}

abbrev idle : Small
idle = opened_to 3 none 2

abbrev leased : Small
leased = opened_to 4 none 1

abbrev factory : Small → Bytes → Small × Made small disk
factory s dir = (s, Made.made (codes "r") none)

factory-Keeps :
    FactoryKeeps small small-IsSystem 3 disk disk-IsDisk 3 (codes "d") (codes "k") factory
unfolding small-IsSystem
factory-Keeps s dir = ((refl, omega arith), λ t. (refl, omega arith))

acquire-Leases_example :
    Returns
      (Leases small small-IsSystem 3 disk disk-IsDisk 3 (codes "d") (codes "k") factory 0)
      (acquire small disk 3 (codes "d") (codes "k") factory linux idle)
unfolding small-IsSystem
acquire-Leases_example =
    acquire-Leases small small-IsSystem 3 disk disk-IsDisk 3 (codes "d") (codes "k") factory
      factory-Keeps linux 0 idle (refl, omega arith)

release-Open_example :
    Returns
      (Open small small-IsSystem 3 disk disk-IsDisk 3 0)
      (release small disk 3 (codes "d") (codes "k") (codes "l") 3 none leased)
unfolding small-IsSystem
release-Open_example =
    release-Open small small-IsSystem 3 disk disk-IsDisk 3 (codes "d") (codes "k") (codes "l") 3
      none (λ s. (refl, omega arith)) 0 leased (refl, omega arith)
