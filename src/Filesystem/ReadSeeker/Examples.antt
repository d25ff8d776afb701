-- ===== src/Filesystem/ReadSeeker/Examples.antt =====
-- filesystem/readseeker.go: runs of the model over a source in memory, and the theorems there.
use primordium.Base.{
  ℕ, ◌+◌, ◌-◌, ◌<◌, ◌≡◌, refl, Bytes, codes, length, none, ◌∷◌, [], List, ◌≤◌, ◌≢◌, arith,
}
use primordium.Errors.{ok, panic}
use primordium.Filesystem.ReadSeeker.{
  Source, ReadSeeker, sign, word, new_read_seeker_with_size, read, refill, serve, seek,
  seek_buffered, seek_start, seek_current,
}
use primordium.Filesystem.ReadSeeker.Reading.{read-Reads}
use primordium.Filesystem.ReadSeeker.Memory.{
  memory, memory_read, go_to, memory_seek, memory-IsFile, memory_read-ends,
}
use primordium.Filesystem.ReadSeeker.Session.{Call, reads, seeks, run, Followed, session-Followed}
use primordium.Filesystem.ReadSeeker.Draining.{read_all, Gives, read_all-Gives}
use primordium.Filesystem.ReadSeeker.Seeking.{Seeks, seek-Seeks}
use primordium.Filesystem.ReadSeeker.Overflow.{read-seek_wrapped, position-seek_refused}
use primordium.Filesystem.ReadSeeker.Contract.{Reads, IsFile, IsValid, position, pending}

-- Eleven bytes behind a buffer of four.
abbrev text : Bytes
text = codes "hello world"

abbrev disk : Source
disk = memory text

file : IsFile disk text
file = memory-IsFile text (omega arith)

abbrev fresh : ReadSeeker disk
fresh = record { buf = 0 ∷ 0 ∷ 0 ∷ 0 ∷ []; off = 0; end = 0; source = 0 }

-- After two bytes are read.
abbrev part_read : ReadSeeker disk
part_read = record { buf = codes "hell"; off = 2; end = 4; source = 4 }

reads_two :
    read disk fresh (0 ∷ 0 ∷ [])
    ≡ ok (part_read, record { filled = codes "he"; count = 2; error = none })
unfolding read refill serve memory_read
reads_two = refl

part_read-IsValid : IsValid disk text file part_read
unfolding file memory-IsFile
part_read-IsValid = record {
  small = omega arith;
  ordered = omega arith;
  within = omega arith;
  given = omega arith;
  window = refl;
}

seeks_within :
    seek disk part_read 1 seek_current
    ≡ (record part_read { off = 3 }, record { place = 3; error = none })
unfolding seek seek_buffered memory_seek go_to
seeks_within = refl

read-Reads_example :
    Reads disk text file part_read (0 ∷ 0 ∷ 0 ∷ []) (read disk part_read (0 ∷ 0 ∷ 0 ∷ []))
read-Reads_example = read-Reads disk text file part_read (0 ∷ 0 ∷ 0 ∷ []) part_read-IsValid

seek-Seeks_example :
    Seeks disk text file part_read 1 seek_current (seek disk part_read 1 seek_current)
seek-Seeks_example =
    seek-Seeks disk text file part_read 1 seek_current part_read-IsValid (omega arith)
      (λ _. omega arith)

read-seek_wrapped_example :
    let rs' = (seek disk part_read (sign - 1) seek_current).0 in
    (sign ≤ rs'.off) × (rs'.off < word) × (read disk rs' (0 ∷ []) ≡ panic)
read-seek_wrapped_example =
    read-seek_wrapped disk text file part_read (sign - 1) (0 ∷ []) part_read-IsValid (omega arith)
      (omega arith) (omega arith)

refuses : (disk.seek 4 sign seek_start).1.error ≢ none
unfolding memory_seek go_to
refuses = ground arith

position-seek_refused_example :
    position disk text file (seek disk part_read sign seek_start).0
    ≡ position disk text file part_read + pending disk text file part_read
position-seek_refused_example =
    position-seek_refused disk text file part_read sign seek_start part_read-IsValid (omega arith)
      refuses

abbrev calls : List Call
calls = reads (0 ∷ 0 ∷ []) ∷ seeks 3 seek_current ∷ reads (0 ∷ 0 ∷ 0 ∷ []) ∷ []

session-Followed_example :
    Followed disk text file 4 0 calls (run disk calls (new_read_seeker_with_size disk 0 4))
unfolding file memory-IsFile
session-Followed_example =
    session-Followed disk text file 0 4 calls (omega arith)
      (tt, ((omega arith, λ h. omega arith), (tt, tt)))

fails_at_end :
    (s : ℕ) (dest : Bytes)
    → 0 < length dest
    → (disk.read s dest).1.error ≢ none
    → length text ≤ file.position (disk.read s dest).0
unfolding file memory-IsFile
fails_at_end s dest = memory_read-ends text s dest

read_all-Gives_example :
    Gives disk text file fails_at_end
      (codes "llo world")
      (read_all disk 10 (0 ∷ 0 ∷ 0 ∷ []) part_read)
unfolding file memory-IsFile
read_all-Gives_example =
    read_all-Gives disk text file fails_at_end 10 (0 ∷ 0 ∷ 0 ∷ []) part_read part_read-IsValid
      (omega arith) (omega arith)
