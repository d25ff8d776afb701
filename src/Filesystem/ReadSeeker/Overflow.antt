-- ===== src/Filesystem/ReadSeeker/Overflow.antt =====
-- filesystem/readseeker.go: what `Seek` does where the sum of `off` and the offset overflows, and
-- where the source refuses.
use primordium.Base.{
  ℕ, ◌+◌, ◌%◌, ◌≤◌, ◌<◌, ◌≡◌, ◌≢◌, Bytes, length, arith, true, false, ltb, leb, none, ◌==◌,
}
use primordium.Errors.{panic}
use primordium.Filesystem.ReadSeeker.{
  Source, ReadSeeker, read, seek, seek_buffered, seek_through, serve, signed_le, signed_lt, sign,
  word, seek_current,
}
use primordium.Filesystem.ReadSeeker.Contract.{IsFile, IsValid, position, pending}
use primordium.Filesystem.ReadSeeker.Seeking.{seek_other}

module _ (S : Source) (content : Bytes) (F : IsFile S content) where
  seek_wrapped :
      (rs : ReadSeeker S) (offset : ℕ)
      → IsValid S content F rs
      → offset < sign
      → sign ≤ rs.off + offset
      → seek S rs offset seek_current ≡ seek_buffered S rs (rs.off + offset)
  unfolding seek
  seek_wrapped rs offset v small wraps =
      let no_wrap : (rs.off + offset) % word ≡ rs.off + offset =
        omega (arith, v.ordered, v.within, v.small) in
      let inside : signed_le (rs.off + offset) rs.end ≡ true =
        ground (arith, v.ordered, v.within, v.small) in
      let positive : ltb offset sign ≡ true = ground arith in rw (no_wrap, inside, positive)

  off-seek_buffered :
      (rs : ReadSeeker S) (n : ℕ)
      → ((seek_buffered S rs n).0.off ≡ n) × ((seek_buffered S rs n).0.end ≡ rs.end)
  unfolding seek_buffered
  off-seek_buffered rs n = ground arith

  read_negative :
      (rs : ReadSeeker S) (dest : Bytes)
      → sign ≤ rs.off
      → rs.off < word
      → rs.end < sign
      → 0 < length dest
      → read S rs dest ≡ panic
  unfolding read serve
  read_negative rs dest negative fits small some_room =
      let somewhere : (length dest == 0) ≡ false = ground arith in
      let held : signed_lt rs.off rs.end ≡ true = ground arith in
      let outside : leb rs.off rs.end ≡ false = ground arith in rw (somewhere, held, serve, outside)

  -- A forward seek from the current position whose sum with `off` reaches 2^63 is taken for one
  -- within the buffer: it leaves an `off` that is negative as an `int`, and the `Read` right after it,
  -- into a `dest` that is not empty, panics.
  pub read-seek_wrapped :
      (rs : ReadSeeker S) (offset : ℕ) (dest : Bytes)
      → IsValid S content F rs
      → offset < sign
      → sign ≤ rs.off + offset
      → 0 < length dest
      → let rs' = (seek S rs offset seek_current).0 in
        (sign ≤ rs'.off) × (rs'.off < word) × (read S rs' dest ≡ panic)
  read-seek_wrapped rs offset dest v small wraps some_room =
      let (at_off, at_end) = off-seek_buffered rs (rs.off + offset) in
      let fits : rs.off + offset < word = omega (arith, v.ordered, v.within, v.small) in
      rw (seek_wrapped rs offset v small wraps) (
        omega (arith, at_off),
        omega (arith, at_off, fits),
        read_negative _ dest (omega arith) (omega (arith, fits)) (omega (arith, v.within, v.small))
            some_room,
      )

  -- A seek from the start or the end that the source refuses moves the reader all the same: it
  -- loses the bytes that the buffer still held, and the next byte read is the one after them.
  pub position-seek_refused :
      (rs : ReadSeeker S) (offset whence : ℕ)
      → IsValid S content F rs
      → whence ≢ seek_current
      → (S.seek rs.source offset whence).1.error ≢ none
      → position S content F (seek S rs offset whence).0
        ≡ position S content F rs + pending S content F rs
  unfolding seek_through
  position-seek_refused rs offset whence v other refused =
      rw (seek_other S content F rs offset whence other)
        (omega (arith, F.seek_stays rs.source offset whence refused, v.given))
