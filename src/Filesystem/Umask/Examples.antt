-- ===== src/Filesystem/Umask/Examples.antt =====
-- A system that holds a mask.
use primordium.Base.{codes}
use primordium.Filesystem.Umask.{initialize}
use primordium.Filesystem.Umask.Small.{kernel, kernel-IsKernel, process}
use primordium.Filesystem.Umask.Laws.{Unmasked, initialize-Unmasked}

initialize-Unmasked_example :
    Unmasked kernel kernel-IsKernel 63 (initialize kernel (codes "app") process)
initialize-Unmasked_example = initialize-Unmasked kernel kernel-IsKernel (codes "app") process
