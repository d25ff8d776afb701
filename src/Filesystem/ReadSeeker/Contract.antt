-- ===== src/Filesystem/ReadSeeker/Contract.antt =====
-- What the documentation of `io.Reader` and `io.Seeker` promises of a source over fixed contents, and
-- filesystem/readseeker.go read as such a source.
use primordium.Base.{
  ℕ, ◌+◌, ◌-◌, ◌%◌, ◌≤◌, ◌<◌, ◌≡◌, ◌≢◌, Bytes, none, ◌==◌, length, take, drop, if◌then◌else◌,
}
use primordium.Errors.{Result, ok}
use primordium.Filesystem.ReadSeeker.{
  word, sign, Outcome, Sought, Source, ReadSeeker, seek_start, seek_current,
}

-- A read at `from` into `dest` gives a stretch of the contents that begins there, and ends at `to`.
-- It is empty only for an empty `dest` or with an error.
pub record ReadsFrom (content dest : Bytes) (from : ℕ) (r : Outcome) (to : ℕ) : Type 0 where
  pub sized : length r.filled ≡ length dest
  pub fits : r.count ≤ length dest
  pub data_read : take r.count r.filled ≡ take r.count (drop from content)
  pub moved : to ≡ from + r.count
  pub progress : 0 < length dest → r.count ≡ 0 → r.error ≢ none

-- The place that `Seek` is asked for, as a 64-bit sum.
abbrev pub target : Bytes → ℕ → ℕ → ℕ → ℕ
target content from offset whence =
    if whence == seek_start
    then offset
    else if whence == seek_current
    then (from + offset) % word
    else (length content + offset) % word

-- A seek that succeeds goes to the place that it was asked for, and returns it.
abbrev pub SeeksTo : Bytes → ℕ → ℕ → ℕ → Sought → ℕ → Type 0
SeeksTo content from offset whence r to =
    r.error ≡ none → (r.place ≡ target content from offset whence) × (to ≡ r.place)

-- A source over fixed contents. A seek that fails leaves it where it stands, as `lseek` does.
pub record IsFile (S : Source) (content : Bytes) : Type 1 where
  pub position : S.State → ℕ
  pub in_range : (s : S.State) → position s < sign
  pub read_lem :
      (s : S.State) (dest : Bytes)
      → ReadsFrom content dest (position s) (S.read s dest).1 (position (S.read s dest).0)
  pub seek_lem :
      (s : S.State) (offset whence : ℕ)
      → offset < word
      → SeeksTo content
          (position s)
          offset
          whence
          (S.seek s offset whence).1
          (position (S.seek s offset whence).0)
  pub seek_stays :
      (s : S.State) (offset whence : ℕ)
      → (S.seek s offset whence).1.error ≢ none
      → position (S.seek s offset whence).0 ≡ position s

module _ (S : Source) (content : Bytes) (F : IsFile S content) where
  -- Bytes that the source has given and that the buffer still holds.
  abbrev pub pending : ReadSeeker S → ℕ
  pending rs = rs.end - rs.off

  -- Where the next byte that `Read` returns stands in the contents.
  abbrev pub position : ReadSeeker S → ℕ
  position rs = F.position rs.source - pending rs

  -- The window lies in the buffer, and holds the bytes in front of the source's position.
  pub record IsValid (rs : ReadSeeker S) : Type 0 where
    pub small : length rs.buf < sign
    pub ordered : rs.off ≤ rs.end
    pub within : rs.end ≤ length rs.buf
    pub given : rs.end - rs.off ≤ F.position rs.source
    pub window :
        take (rs.end - rs.off) (drop rs.off rs.buf)
        ≡ take (rs.end - rs.off) (drop (F.position rs.source - (rs.end - rs.off)) content)

  -- `Read` returned, and did what a read of the source's contents at the reader's position does.
  abbrev pub Reads : ReadSeeker S → Bytes → Result (ReadSeeker S × Outcome) → Type 0
  Reads rs dest (ok (rs', r)) = IsValid rs' × ReadsFrom content dest (position rs) r (position rs')
  Reads rs dest _ = ⊥
