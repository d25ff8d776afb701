-- ===== src/Filesystem/ReadSeeker/Session.antt =====
-- filesystem/readseeker.go: a client that reads and seeks, from a new reader on.
use mathlib.Core.Path.{subst}
use primordium.Base.{
  ◌∙◌, length-replicate, ℕ, ◌+◌, ◌<◌, ◌≡◌, refl, Bytes, length, arith, All, List, [], ◌∷◌,
  if◌then◌else◌,
}
use primordium.Errors.{Result, ok, err, panic, ◌>>=◌}
use primordium.Filesystem.ReadSeeker.{
  Source, ReadSeeker, Outcome, Sought, new_read_seeker_with_size, read, seek, seek_buffered,
  seek_through, sign, word, signed_le, default_buffer_size,
}
use primordium.Filesystem.ReadSeeker.Contract.{ReadsFrom, SeeksTo, IsFile, IsValid, position, Reads}
use primordium.Filesystem.ReadSeeker.Reading.{read-Reads, new-IsValid}
use primordium.Filesystem.ReadSeeker.Seeking.{seek-Seeks}
use primordium.Filesystem.ReadSeeker.Drift.{Drifts, seek-Drifts}
use primordium.Filesystem.ReadSeeker.Ends.{Keeps, read-Keeps}

-- A call of the client, and what it returned.
pub data Call : Type 0 where
  reads : (dest : Bytes) → Call
  seeks : (offset whence : ℕ) → Call

pub data Answer : Type 0 where
  gave : Outcome → Answer
  sought : Sought → Answer

-- A file with no buffer that stands at `p` may answer the calls so, and then stands at `q`; except
-- that a seek that fails may move it forward by at most `room`.
abbrev pub Follows : ℕ → Bytes → ℕ → List Call → List Answer → ℕ → Type 0
Follows room content p [] [] q = p ≡ q
Follows room content p (reads dest ∷ calls) (gave r ∷ answers) q =
    (t : ℕ) × ReadsFrom content dest p r t × Follows room content t calls answers q
Follows room content p (seeks offset whence ∷ calls) (sought r ∷ answers) q =
    (t : ℕ) × SeeksTo content p offset whence r t
    × Drifts room p r t
    × Follows room content t calls answers q
Follows room content p _ _ q = ⊥

-- An offset is a word, and one that is not negative leaves room below 2^63 for the buffer.
abbrev pub Modest : ℕ → Call → Type 0
Modest size (reads dest) = Unit {0}
Modest size (seeks offset whence) = (offset < word) × (offset < sign → size + offset < sign)

module _ (S : Source) where
  unfoldable pub run : List Call → ReadSeeker S → Result (ReadSeeker S × List Answer)
  run [] rs = ok (rs, [])
  run (reads dest ∷ calls) rs = do
    (rs', r) ← read S rs dest
    (rs'', answers) ← run calls rs'
    ok (rs'', gave r ∷ answers)
  run (seeks offset whence ∷ calls) rs =
      let (rs', r) = seek S rs offset whence in
      do (rs'', answers) ← run calls rs'; ok (rs'', sought r ∷ answers)

  -- The size of a new reader's buffer.
  abbrev pub room : ℕ → ℕ
  room size = if signed_le size 0 then default_buffer_size else size

  module _ (content : Bytes) (F : IsFile S content) where
    -- A valid reader with a buffer of so many bytes.
    abbrev Ready : ℕ → ReadSeeker S → Type 0
    Ready size rs = IsValid S content F rs × (length rs.buf ≡ size)

    -- The client's run came to an end, with answers as from such a file.
    abbrev pub Followed : ℕ → ℕ → List Call → Result (ReadSeeker S × List Answer) → Type 0
    Followed size p calls (ok (rs, answers)) =
        IsValid S content F rs × Follows size content p calls answers (position S content F rs)
    Followed size p calls _ = ⊥

    after-Followed :
        (size p t : ℕ) (call : Call) (answer : Answer) (calls : List Call)
        (y : Result (ReadSeeker S × List Answer))
        → ((answers : List Answer) (q : ℕ)
            → Follows size content t calls answers q
            → Follows size content p (call ∷ calls) (answer ∷ answers) q)
        → Followed size t calls y
        → Followed size p
            (call ∷ calls)
            (y >>= λ (z : ReadSeeker S × List Answer). ok (z.0, answer ∷ z.1))
    after-Followed size p t call answer calls (ok (rs, answers)) f h = (h.0, f answers _ h.1)
    after-Followed size p t call answer calls (err e) f h = h
    after-Followed size p t call answer calls panic f h = h

    length-seek :
        (rs : ReadSeeker S) (offset whence : ℕ)
        → length (seek S rs offset whence).0.buf ≡ length rs.buf
    unfolding seek seek_buffered seek_through
    length-seek rs offset whence = ground arith

    read-Followed :
        (size : ℕ) (dest : Bytes) (calls : List Call) (rs : ReadSeeker S)
        (x : Result (ReadSeeker S × Outcome))
        → Reads S content F rs dest x
        → Keeps S content F (λ s. Unit {0}) (λ s d h e. tt) rs x
        → length rs.buf ≡ size
        → ((rs' : ReadSeeker S)
            → Ready size rs'
            → Followed size (position S content F rs') calls (run calls rs'))
        → Followed size (position S content F rs) (reads dest ∷ calls) (
            x >>= λ (z : ReadSeeker S × Outcome).
            run calls z.0 >>= λ (w : ReadSeeker S × List Answer). ok (w.0, gave z.1 ∷ w.1))
    read-Followed size dest calls rs (ok (rs', r)) h k l rest =
        after-Followed size (position S content F rs) (position S content F rs') (reads dest)
          (gave r) calls (run calls rs') (λ answers q f. (position S content F rs', h.1, f))
          (rest rs' (h.0, k.0 ∙ l))
    read-Followed size dest calls rs (err e) h k l rest = absurd h
    read-Followed size dest calls rs panic h k l rest = absurd h

    run-Followed :
        (size : ℕ) (calls : List Call) (rs : ReadSeeker S)
        → Ready size rs
        → All (Modest size) calls
        → Followed size (position S content F rs) calls (run calls rs)
    unfolding run
    run-Followed size [] rs v m = (v.0, refl)
    run-Followed size (reads dest ∷ calls) rs v m =
        read-Followed size dest calls rs (read S rs dest) (read-Reads S content F rs dest v.0)
          (read-Keeps S content F (λ s. Unit {0}) (λ s d h e. tt) rs dest v.0) v.1
          (λ rs' v'. run-Followed size calls rs' v' m.1)
    run-Followed size (seeks offset whence ∷ calls) rs v m =
        let rs' : ReadSeeker S = (seek S rs offset whence).0 in
        let fits : offset < sign → rs.off + offset < sign =
          λ h. omega (arith, m.0.1 h, v.1, v.0.ordered, v.0.within) in
        let (valid, goes) = seek-Seeks S content F rs offset whence v.0 m.0.0 fits in
        let drifts : Drifts size (position S content F rs) (seek S rs offset whence).1
            (position S content F rs') =
          λ refused.
            let (least, most) = seek-Drifts S content F rs offset whence v.0 fits refused in
            (least, omega (arith, most, v.0.within, v.1)) in
        after-Followed size (position S content F rs) (position S content F rs')
          (seeks offset whence) (sought (seek S rs offset whence).1) calls (run calls rs')
          (λ answers q f. (position S content F rs', goes, drifts, f))
          (run-Followed size calls rs' (valid, length-seek rs offset whence ∙ v.1) m.1)

    -- A client opens a reader, of any size, and then reads and seeks, in any order; the offsets that
    -- are not negative leave room below 2^63 for the buffer. Up to the first `Seek` that fails it is
    -- answered as by a file with the same contents and no buffer that stands where the source stood. A
    -- `Seek` that fails may leave the reader further on, by at most the size of its buffer, and from
    -- there it is answered so again. No call panics.
    pub session-Followed :
        (s : S.State) (size : ℕ) (calls : List Call)
        → size < word
        → All (Modest (room size)) calls
        → Followed (room size) (F.position s) calls (run calls (new_read_seeker_with_size S s size))
    unfolding new_read_seeker_with_size
    session-Followed s size calls h m =
        let rs : ReadSeeker S = new_read_seeker_with_size S s size in
        let (valid, some_room, at) = new-IsValid S content F s size h in
        subst (λ p. Followed (room size) p calls (run calls rs)) at
          (run-Followed (room size) calls rs (valid, length-replicate (room size) 0) m)
