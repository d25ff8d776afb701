-- ===== src/Filesystem/ReadSeeker.antt =====
-- filesystem/readseeker.go: a buffer in front of an `io.ReadSeeker`. An `int` and an `int64` are
-- 64-bit patterns, negative from 2^63 on; the source is a parameter with a state of its own.
pub mod Contract
pub mod Buffer
pub mod Reading
pub mod Seeking
pub mod Drift
pub mod Overflow
pub mod Ends
pub mod Session
pub mod Draining
pub mod Memory
mod Examples
use primordium.Base.{
  ℕ, ◌+◌, ◌-◌, ◌%◌, ◌^◌, min, Bool, ◌&&◌, Bytes, ltb, leb, ◌==◌, Option, none, some, ◌++◌, length,
  take, drop, replicate, if◌then◌else◌,
}
use primordium.Errors.{Error, Result, ok, panic, ◌>>=◌}

abbrev pub word : ℕ
word = 2 ^ 64

abbrev pub sign : ℕ
sign = 2 ^ 63

abbrev negative : ℕ → Bool
negative a = leb sign a

-- `a < b` and `a <= b` on signed words.
abbrev pub signed_lt : ℕ → ℕ → Bool
signed_lt a b = ltb ((a + sign) % word) ((b + sign) % word)

abbrev pub signed_le : ℕ → ℕ → Bool
signed_le a b = leb ((a + sign) % word) ((b + sign) % word)

-- What `Read(p)` leaves in `p` and returns. All of `p` may be written.
pub record Outcome : Type 0 where
  pub filled : Bytes
  pub count : ℕ
  pub error : Option Error

-- What `Seek` returns.
pub record Sought : Type 0 where
  pub place : ℕ
  pub error : Option Error

-- An `io.ReadSeeker`, which may be an `io.Closer` too.
pub record Source : Type 1 where
  pub State : Type 0
  pub read : State → Bytes → State × Outcome
  pub seek : State → ℕ → ℕ → State × Sought
  pub close : Option (State → State × Option Error)

-- `io.SeekStart`, `io.SeekCurrent` and `io.SeekEnd`
abbrev pub seek_start : ℕ
seek_start = 0

abbrev pub seek_current : ℕ
seek_current = 1

abbrev pub seek_end : ℕ
seek_end = 2

-- filesystem/consts.go
abbrev pub default_buffer_size : ℕ
default_buffer_size = 4096

-- `copy(dest, src)`: the new `dest`, and the count.
abbrev pub copy : Bytes → Bytes → Bytes × ℕ
copy dest src = let n = min (length dest) (length src) in (take n src ++ drop n dest, n)

-- `b[low:high]`, which panics out of range.
abbrev pub slice : Bytes → ℕ → ℕ → Result Bytes
slice b low high =
    if leb low high && leb high (length b) then ok (take (high - low) (drop low b)) else panic

module _ (S : Source) where
  pub record ReadSeeker : Type 0 where
    pub buf : Bytes
    pub off : ℕ
    pub end : ℕ
    pub source : S.State

  -- The size is a signed word.
  unfoldable pub new_read_seeker_with_size : S.State → ℕ → ReadSeeker
  new_read_seeker_with_size source size = record {
    buf = replicate (if signed_le size 0 then default_buffer_size else size) 0;
    off = 0;
    end = 0;
    source = source;
  }

  unfoldable pub new_read_seeker : S.State → ReadSeeker
  unfolding new_read_seeker_with_size
  new_read_seeker source = new_read_seeker_with_size source default_buffer_size

  abbrev pub Step : Type 0
  Step = Result (ReadSeeker × Outcome)

  -- Serve from the buffer.
  unfoldable pub serve : ReadSeeker → Bytes → Step
  serve rs dest = do
    rest ← slice rs.buf rs.off rs.end
    let (dest', n) = copy dest rest
    ok (record rs { off = rs.off + n }, record { filled = dest'; count = n; error = none })

  unfoldable pub bypass : ReadSeeker → Bytes → Step
  bypass rs dest = let (s, r) = S.read rs.source dest in ok (record rs { source = s }, r)

  -- Refill the buffer, and serve from its start if that gave anything; if not, return the error.
  unfoldable pub refill : ReadSeeker → Bytes → Step
  refill rs dest =
      let (s, r) = S.read rs.source rs.buf in
      if ltb 0 r.count
      then serve (record { buf = r.filled; off = 0; end = r.count; source = s }) dest
      else ok (
        record rs { buf = r.filled; source = s },
        record { filled = dest; count = 0; error = r.error },
      )

  unfoldable pub read : ReadSeeker → Bytes → Step
  read rs dest =
      if length dest == 0
      then ok (rs, record { filled = dest; count = 0; error = none })
      else if signed_lt rs.off rs.end
      then serve rs dest
      else if leb (length rs.buf) (length dest)
      then bypass rs dest
      else refill rs dest

  -- A short forward seek, within the buffer.
  unfoldable pub seek_buffered : ReadSeeker → ℕ → ReadSeeker × Sought
  seek_buffered rs new_off =
      let (s, r) = S.seek rs.source 0 seek_current in
      let rs' : ReadSeeker = record rs { off = new_off; source = s } in
      elim r.error [
        | some e ↦ (rs', record { place = 0; error = some e })
        | none ↦ (
          rs',
          record {
            place = (r.place + word - (rs.end + word - new_off) % word) % word;
            error = none;
          },
        )
      ]

  -- Any other seek: the buffer is dropped.
  unfoldable pub seek_through : ReadSeeker → ℕ → ℕ → ReadSeeker × Sought
  seek_through rs offset whence =
      let (s, r) = S.seek rs.source offset whence in (record rs { off = 0; end = 0; source = s }, r)

  unfoldable pub seek : ReadSeeker → ℕ → ℕ → ReadSeeker × Sought
  seek rs offset whence =
      let new_off = (rs.off + offset) % word in
      let offset' = (offset + word - (rs.end + word - rs.off) % word) % word in
      if whence == seek_current
      then if ltb offset sign && signed_le new_off rs.end
        then seek_buffered rs new_off
        else seek_through rs offset' whence
      else seek_through rs offset whence

  unfoldable pub close : ReadSeeker → ReadSeeker × Option Error
  close rs = elim S.close [
    | none ↦ (rs, none)
    | some closer ↦ let (s, e) = closer rs.source in (record rs { source = s }, e)
  ]
