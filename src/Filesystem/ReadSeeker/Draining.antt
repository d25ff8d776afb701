-- ===== src/Filesystem/ReadSeeker/Draining.antt =====
-- filesystem/readseeker.go: a client that reads to the end, in the manner of `io.ReadAll`.
use primordium.Base.{
  ℕ, zero, suc, ◌-◌, ◌≤◌, ◌<◌, ◌≡◌, ◌≢◌, refl, sym, ap, ◌∙◌, Bytes, length, take, drop, arith, ◌++◌,
  Option, none, some, length-take, length-drop, drop-drop, take-append_drop, take-all, Option-cases,
  inl, inr,
}
use primordium.Errors.{Error, Result, ok, err, panic}
use primordium.Filesystem.ReadSeeker.{Source, ReadSeeker, Outcome, read}
use primordium.Filesystem.ReadSeeker.Contract.{ReadsFrom, IsFile, IsValid, position, Reads}
use primordium.Filesystem.ReadSeeker.Reading.{read-Reads}
use primordium.Filesystem.ReadSeeker.Ends.{Keeps, read-Keeps}

-- What the client has: it ran out of fuel, a read panicked, or the texts that it was given with the
-- error that ended them.
pub data Drained : Type 0 where
  exhausted : Drained
  panicked : Drained
  finished : Bytes → Error → Drained

abbrev prepend : Bytes → Drained → Drained
prepend given (finished rest e) = finished (given ++ rest) e
prepend given d = d

-- After one read that gave some bytes: stop at an error, or go on.
abbrev go_on : Bytes → Option Error → Drained → Drained
go_on given none rest = prepend given rest
go_on given (some e) rest = finished given e

module _ (S : Source) where
  abbrev after_read : (ReadSeeker S → Drained) → Result (ReadSeeker S × Outcome) → Drained
  after_read rest (ok (rs, r)) = go_on (take r.count r.filled) r.error (rest rs)
  after_read rest _ = panicked

  -- Read into the same `dest` until an error.
  unfoldable pub read_all : ℕ → Bytes → ReadSeeker S → Drained
  read_all zero dest rs = exhausted
  read_all (suc fuel) dest rs = after_read (read_all fuel dest) (read S rs dest)

  module _ (content : Bytes) (F : IsFile S content)
      (fails_at_end : (s : S.State) (dest : Bytes)
        → 0 < length dest
        → (S.read s dest).1.error ≢ none
        → length content ≤ F.position (S.read s dest).0) where
    -- All of these bytes, and then an error.
    abbrev pub Gives : Bytes → Drained → Type 0
    Gives all (finished given e) = given ≡ all
    Gives all _ = ⊥

    abbrev AtEnd : S.State → Type 0
    AtEnd s = length content ≤ F.position s

    prepend-Gives :
        (given : Bytes) (all rest : Bytes) (d : Drained)
        → all ≡ given ++ rest
        → Gives rest d
        → Gives all (prepend given d)
    prepend-Gives given all rest (finished g e) h k = ap (λ (b : Bytes). given ++ b) k ∙ sym h
    prepend-Gives given all rest exhausted h k = absurd k
    prepend-Gives given all rest panicked h k = absurd k

    -- What one read adds, if it does not end the run, and the way it ends it.
    step-Gives :
        (rs rs' : ReadSeeker S) (dest : Bytes) (r : Outcome) (rest : Drained)
        → ReadsFrom content dest (position S content F rs) r (position S content F rs')
        → (r.error ≢ none → length content ≤ position S content F rs')
        → (r.error ≡ none → Gives (drop (position S content F rs') content) rest)
        → Gives
            (drop (position S content F rs) content)
            (go_on (take r.count r.filled) r.error rest)
    step-Gives rs rs' dest r rest f ends more =
        let p : ℕ = position S content F rs in
        let left : Bytes = drop p content in
        elim (Option-cases r.error) [
          | inl going ↦ rw going (
              prepend-Gives (take r.count r.filled) left (drop (position S content F rs') content)
                rest
                (take-append_drop r.count left
                  ∙ rw (drop-drop r.count p content, f.data_read, f.moved) refl)
                (more going))
          | inr (e, failed) ↦
              let over : length content ≤ position S content F rs' = ends (λ g. cc) in
              rw failed (
                f.data_read
                ∙ take-all r.count left (omega (arith, length-drop p content, over, f.moved)))
        ]

    after_read-Gives :
        (rs : ReadSeeker S) (dest : Bytes) (rest : ReadSeeker S → Drained)
        (x : Result (ReadSeeker S × Outcome))
        → Reads S content F rs dest x
        → Keeps S content F AtEnd fails_at_end rs x
        → ((rs' : ReadSeeker S)
            → IsValid S content F rs'
            → position S content F rs < position S content F rs'
            → position S content F rs' ≤ length content
            → Gives (drop (position S content F rs') content) (rest rs'))
        → 0 < length dest
        → Gives (drop (position S content F rs) content) (after_read rest x)
    after_read-Gives rs dest rest (ok (rs', r)) (v, f) k ih some_room =
        step-Gives rs rs' dest r (rest rs') f
          (λ failed. let (over, empty) = k.1 failed in omega (arith, over, empty))
          (λ going.
            let some_read : 0 < r.count = ground (arith, f.progress) in
            let here : r.count ≤ length content - position S content F rs = omega (
              arith,
              ap length f.data_read,
              length-take r.count r.filled,
              length-take r.count (drop (position S content F rs) content),
              length-drop (position S content F rs) content,
              f.fits,
              f.sized,
            ) in
            ih rs' v (omega (arith, f.moved, some_read)) (omega (arith, f.moved, here, some_read)))
    after_read-Gives rs dest rest (err e) h k ih some_room = absurd h
    after_read-Gives rs dest rest panic h k ih some_room = absurd h

    -- A client that reads into the same `dest`, which is not empty, until it is given an error, over a
    -- source whose reads fail only at the end: it is given all of the contents from the reader's
    -- position on, and then an error. One read more than there are bytes is enough.
    pub read_all-Gives :
        (fuel : ℕ) (dest : Bytes) (rs : ReadSeeker S)
        → IsValid S content F rs
        → 0 < length dest
        → length content - position S content F rs < fuel
        → Gives (drop (position S content F rs) content) (read_all fuel dest rs)
    unfolding read_all
    read_all-Gives zero dest rs v some_room h = absurd (omega arith)
    read_all-Gives (suc fuel) dest rs v some_room h =
        after_read-Gives rs dest (read_all fuel dest) (read S rs dest)
          (read-Reads S content F rs dest v) (read-Keeps S content F AtEnd fails_at_end rs dest v)
          (λ rs' v' l k. read_all-Gives fuel dest rs' v' some_room (omega (arith, l, k, h)))
          some_room
