-- ===== src/Filesystem/Buffered.antt =====
-- filesystem/reader.go and readwriter.go: buffered wrappers, over package bufio as a parameter.
pub mod Laws
mod Examples
use primordium.Base.{ℕ, Bytes, Option, none, some}
use primordium.Errors.{Error, join}
use primordium.Filesystem.ReadSeeker.{default_buffer_size}

-- What `Read` and `Write` return: the buffer filled, the count, and the error.
pub record Transfer : Type 0 where
  pub filled : Bytes
  pub count : ℕ
  pub error : Option Error

-- A source with its state, and the buffers of package bufio over it. `closer` is there if the source
-- implements `io.Closer`.
pub record Bufio : Type 1 where
  pub Source : Type 0
  pub InBuffer : Type 0
  pub OutBuffer : Type 0
  pub new_reader_size : ℕ → InBuffer
  pub new_writer_size : ℕ → OutBuffer
  pub read : Source → InBuffer → Bytes → Source × InBuffer × Transfer
  pub write : Source → OutBuffer → Bytes → Source × OutBuffer × Transfer
  pub flush : Source → OutBuffer → Source × OutBuffer × Option Error
  pub closer : Option (Source → Source × Option Error)

module _ (B : Bufio) where
  pub record Reader : Type 0 where
    pub r : B.InBuffer
    pub src : B.Source

  unfoldable pub new_reader_with_size : B.Source → ℕ → Reader
  new_reader_with_size src size = record { r = B.new_reader_size size; src = src }

  unfoldable pub new_reader : B.Source → Reader
  unfolding new_reader_with_size
  new_reader src = new_reader_with_size src default_buffer_size

  unfoldable pub read : Reader → Bytes → Reader × Transfer
  read rd dest = let (s, b, t) = B.read rd.src rd.r dest in (record { r = b; src = s }, t)

  -- Close the source if it can be closed.
  unfoldable pub close_source :
      Option (B.Source → B.Source × Option Error) → B.Source → B.Source × Option Error
  close_source none s = (s, none)
  close_source (some closer) s = closer s

  -- `(*Reader).Close`
  unfoldable pub close_reader : Reader → Reader × Option Error
  unfolding close_source
  close_reader rd = let (s, e) = close_source B.closer rd.src in (record rd { src = s }, e)

  pub record ReadWriter : Type 0 where
    pub r : B.InBuffer
    pub w : B.OutBuffer
    pub src : B.Source

  unfoldable pub new_read_writer_with_size : B.Source → ℕ → ReadWriter
  new_read_writer_with_size src size = record {
    r = B.new_reader_size size;
    w = B.new_writer_size size;
    src = src;
  }

  unfoldable pub new_read_writer : B.Source → ReadWriter
  unfolding new_read_writer_with_size
  new_read_writer src = new_read_writer_with_size src default_buffer_size

  unfoldable pub read_both : ReadWriter → Bytes → ReadWriter × Transfer
  read_both rw dest = let (s, b, t) = B.read rw.src rw.r dest in (record rw { r = b; src = s }, t)

  unfoldable pub write : ReadWriter → Bytes → ReadWriter × Transfer
  write rw p = let (s, b, t) = B.write rw.src rw.w p in (record rw { w = b; src = s }, t)

  -- After the flush: the errors are joined if there is a closer.
  unfoldable pub close_flushed :
      Option (B.Source → B.Source × Option Error)
      → ReadWriter
      → B.Source × B.OutBuffer × Option Error
      → ReadWriter × Option Error
  close_flushed none rw (s, b, e) = (record rw { w = b; src = s }, e)
  close_flushed (some closer) rw (s, b, e) =
      let (s', f) = closer s in (record rw { w = b; src = s' }, join e f)

  -- `(*ReadWriter).Close`
  unfoldable pub close : ReadWriter → ReadWriter × Option Error
  unfolding close_flushed
  close rw = close_flushed B.closer rw (B.flush rw.src rw.w)
