-- ===== src/Filesystem/Size/Examples.antt =====
-- A directory with two files in it.
use primordium.Base.{ℕ, true, false, Bytes, List, [], ◌∷◌, Option, none, refl}
use primordium.Errors.{Error}
use primordium.Filesystem.Size.{Visit, Iterator, directory_size}
use primordium.Filesystem.Size.Laws.{visit_all, Sizes, directory_size-Sizes}

abbrev tree : List Visit
tree =
    (record { is_dir = true; size = 4096 }, none)
    ∷ (record { is_dir = false; size = 10 }, none)
    ∷ (record { is_dir = false; size = 32 }, none)
    ∷ []

abbrev walk : Bytes → Iterator → ℕ → ℕ × Option Error
walk path = visit_all tree

directory_size-Sizes_example : Sizes true 42 (directory_size walk [])
directory_size-Sizes_example = directory_size-Sizes walk [] tree refl
