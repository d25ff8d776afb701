-- ===== src/Filesystem/Platform.antt =====
-- What the build tags of filesystem/ and `runtime.GOOS` choose by.

-- `bsd` stands for the other systems that are neither Windows nor one of these two.
pub data Goos : Type 0 where
  linux darwin windows bsd : Goos
