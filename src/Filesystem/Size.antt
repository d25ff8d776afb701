-- ===== src/Filesystem/Size.antt =====
-- filesystem/size.go: the size of a directory. `filepath.Walk` is a parameter. An `int64` is a
-- 64-bit pattern.
pub mod Laws
mod Examples
use primordium.Base.{ℕ, ◌+◌, ◌%◌, ◌^◌, Bool, Bytes, Option, none, some, if◌then◌else◌}
use primordium.Errors.{Error, wrap_two}
use primordium.Filesystem.Errors.{err_generic_failure}

-- The calls of `os.FileInfo` that the code makes.
pub record FileInfo : Type 0 where
  pub is_dir : Bool
  pub size : ℕ

-- What `filepath.Walk` gives its function for one path.
abbrev pub Visit : Type 0
Visit = FileInfo × Option Error

-- The function that `filepath.Walk` calls, with the variable that it shares.
abbrev pub Iterator : Type 0
Iterator = ℕ → Visit → ℕ × Option Error

unfoldable pub count : ℕ → FileInfo → ℕ
count size info = if info.is_dir then size else (size + info.size) % 2 ^ 64

-- `iterator`
unfoldable pub iterator : Iterator
unfolding count
iterator size (info, none) = (count size info, none)
iterator size (info, some e) = (size, some e)

-- The size, and the error.
unfoldable pub sized : ℕ × Option Error → ℕ × Option Error
sized (size, none) = (size, none)
sized (size, some e) = (0, some (wrap_two err_generic_failure e))

module _ (walk : Bytes → Iterator → ℕ → ℕ × Option Error) where
  unfoldable pub directory_size : Bytes → ℕ × Option Error
  unfolding sized iterator
  directory_size path = sized (walk path iterator 0)
