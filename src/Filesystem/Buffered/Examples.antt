-- ===== src/Filesystem/Buffered/Examples.antt =====
-- A source that keeps what it is given, under a buffer that waits for the flush.
use primordium.Base.{
  ◌≡◌, refl, sym, Bool, true, false, Bytes, codes, [], ◌∷◌, ◌++◌, Option, none, some,
}
use mathlib.Core.List.{append_assoc}
use primordium.Errors.{Error}
use primordium.Filesystem.Buffered.{
  Bufio, Transfer, ReadWriter, new_read_writer_with_size, read_both, write, close,
}
use primordium.Filesystem.Buffered.Laws.{
  IsBufio, Writes, no_more, write_one, read_one, concat, ClosedBy, Sends, close-Sends,
}

record Sink : Type 0 where
  taken : Bytes
  open_still : Bool

abbrev all_of : Bytes → Transfer
all_of p = record { filled = p; count = 0; error = none }

abbrev close_sink : Sink → Sink × Option Error
close_sink s = (record s { open_still = false }, none)

abbrev waiting : Bufio
waiting = record {
  Source = Sink;
  InBuffer = Bytes;
  OutBuffer = Bytes;
  new_reader_size = λ size. [];
  new_writer_size = λ size. [];
  read = λ s b dest. (s, b, all_of dest);
  write = λ s b p. (s, b ++ p, all_of p);
  flush = λ s b. (record s { taken = s.taken ++ b }, [], none);
  closer = some close_sink;
}

waiting-IsBufio : IsBufio waiting
waiting-IsBufio = record {
  sent = λ s. s.taken;
  pending = λ b. b;
  closed = λ s. s.open_still ≡ false;
  new_empty = λ size. refl;
  write_keeps = λ s b p e. sym (append_assoc s.taken b p);
  flush_sends = λ s b e. refl;
  read_keeps = λ s b dest. refl;
  closer_lem = λ s. (refl, refl);
}

abbrev fresh : Sink
fresh = record { taken = codes "a"; open_still = true }

abbrev opened : ReadWriter waiting
opened = record { r = []; w = codes "bc"; src = fresh }

two-Writes :
    Writes waiting waiting-IsBufio
      (new_read_writer_with_size waiting fresh 16)
      (codes "b" ∷ codes "c" ∷ [])
      opened
unfolding new_read_writer_with_size write read_both
two-Writes = write_one (codes "b") refl (read_one (codes "-") (write_one (codes "c") refl no_more))

close-Sends_example :
    ClosedBy waiting waiting-IsBufio (some close_sink) (close waiting opened).0.src
    × Sends waiting waiting-IsBufio
        (codes "a" ++ concat (codes "b" ∷ codes "c" ∷ []))
        (close waiting opened)
unfolding waiting-IsBufio
close-Sends_example =
    close-Sends waiting waiting-IsBufio fresh 16 (codes "b" ∷ codes "c" ∷ []) two-Writes
