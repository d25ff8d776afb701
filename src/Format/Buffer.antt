-- ===== src/Format/Buffer.antt =====
-- A writer in memory that may be full, for the runs of the printers.
use primordium.Base.{ℕ, zero, suc, Bytes, Option, none, some, [], ◌++◌}
use primordium.Errors.{Error, sentinel}
use primordium.Format.Writer.{Writer}

-- A buffer that takes `room` more writes.
pub record Buffer : Type 0 where
  pub text : Bytes
  pub room : ℕ

unfoldable pub put : Buffer → ℕ → Bytes → Buffer × Option Error
put b zero t = (b, some (sentinel 92))
put b (suc n) t = (record { text = b.text ++ t; room = n }, none)

abbrev pub buffer : Writer
buffer = record { State = Buffer; write = λ b t. put b b.room t }

abbrev pub empty : ℕ → Buffer
empty n = record { text = []; room = n }
