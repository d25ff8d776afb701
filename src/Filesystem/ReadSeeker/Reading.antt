-- ===== src/Filesystem/ReadSeeker/Reading.antt =====
-- filesystem/readseeker.go: `Read`, and a loop of reads.
use primordium.Base.{
  ℕ, ◌+◌, ◌≤◌, ◌<◌, ◌%◌, ◌≡◌, refl, Bytes, length, arith, Bool-cases, inl, inr, ltb, leb, ◌==◌,
  List, [], ◌∷◌, ◌++◌, take, drop, replicate, length-replicate, if◌then◌else◌, length-take,
  length-append, take_add, drop-drop,
}
use primordium.Errors.{Result, ok, err, panic, ◌>>=◌}
use primordium.Filesystem.ReadSeeker.{
  Source, ReadSeeker, new_read_seeker_with_size, read, signed_lt, signed_le, Outcome,
  default_buffer_size, sign, word,
}
use primordium.Filesystem.ReadSeeker.Contract.{ReadsFrom, IsFile, IsValid, position, Reads}
use primordium.Filesystem.ReadSeeker.Buffer.{empty-IsValid, serve-Reads, bypass-Reads, refill-Reads}

-- On words that are not negative the signed order is the order of the numbers.
pub shift_sign : (a : ℕ) → a < sign → (a + sign) % word ≡ a + sign
shift_sign a h = omega arith

pub signed_lt-eq : (a b : ℕ) → a < sign → b < sign → signed_lt a b ≡ ltb a b
signed_lt-eq a b h k = rw (shift_sign a h, shift_sign b k) (ground arith)

module _ (S : Source) (content : Bytes) (F : IsFile S content) where
  -- `Read` on a valid reader does not panic and leaves the reader valid. It puts into `dest` a
  -- stretch of the contents that begins at the reader's position, moves the position to the end of
  -- the stretch, and returns an empty one only for an empty `dest` or with an error.
  pub read-Reads :
      (rs : ReadSeeker S) (dest : Bytes)
      → IsValid S content F rs
      → Reads S content F rs dest (read S rs dest)
  unfolding read
  read-Reads rs dest v = elim (Bool-cases (length dest == 0)) [
    | inl nowhere ↦
        let none_asked : length dest ≡ 0 = ground arith in
        rw nowhere (
          v,
          record {
            sized = refl;
            fits = omega arith;
            data_read = refl;
            moved = omega arith;
            progress = λ some_room. absurd (omega arith);
          },
        )
    | inr somewhere ↦
        let some_room : 0 < length dest = ground arith in
        let small : rs.end < sign = omega (arith, v.within, v.small) in
        rw (somewhere, signed_lt-eq rs.off rs.end (omega (arith, v.ordered)) small)
          (elim (Bool-cases (ltb rs.off rs.end)) [
            | inl held ↦ rw held (serve-Reads S content F rs dest v (ground arith) some_room)
            | inr bare ↦
                let empty : rs.end ≤ rs.off = ground arith in
                rw bare (elim (Bool-cases (leb (length rs.buf) (length dest))) [
                  | inl large ↦ rw large (bypass-Reads S content F rs dest v empty)
                  | inr little ↦
                      rw little (refill-Reads S content F rs dest v empty some_room (ground arith))
                ])
          ])
  ]

  -- A new reader is valid, has room in its buffer, and stands where its source does.
  pub new-IsValid :
      (s : S.State) (size : ℕ)
      → size < word
      → let rs = new_read_seeker_with_size S s size in
        IsValid S content F rs × (0 < length rs.buf) × (position S content F rs ≡ F.position s)
  unfolding new_read_seeker_with_size
  new-IsValid s size h =
      let n : ℕ = if signed_le size 0 then default_buffer_size else size in
      let sized : length {A = ℕ} (replicate n 0) ≡ n = length-replicate n 0 in
      let bounds : (n < sign) × (0 < n) = ground arith in
      (
        empty-IsValid S content F _ (omega (arith, sized, bounds)) refl (omega arith),
        omega (arith, sized, bounds),
        omega arith,
      )

  -- A client that reads into one `dest` after another, and keeps what it is given.
  pub read_each : ReadSeeker S → List Bytes → Result (ReadSeeker S × Bytes)
  read_each rs [] = ok (rs, [])
  read_each rs (dest ∷ dests) = do
    (rs', r) ← read S rs dest
    (rs'', given) ← read_each rs' dests
    ok (rs'', take r.count r.filled ++ given)

  abbrev pub Streams : ReadSeeker S → Result (ReadSeeker S × Bytes) → Type 0
  Streams rs (ok (rs', given)) =
      IsValid S content F rs'
      × (given ≡ take (length given) (drop (position S content F rs) content))
      × (position S content F rs' ≡ position S content F rs + length given)
  Streams rs _ = ⊥

  glue-Streams :
      (rs rs' : ReadSeeker S) (dest : Bytes) (r : Outcome) (y : Result (ReadSeeker S × Bytes))
      → ReadsFrom content dest (position S content F rs) r (position S content F rs')
      → Streams rs' y
      → Streams rs (y >>= λ (z : ReadSeeker S × Bytes). ok (z.0, take r.count r.filled ++ z.1))
  glue-Streams rs rs' dest r (ok (rs'', given)) f (v, e, m) =
      let p : ℕ = position S content F rs in
      let part : length (take r.count r.filled) ≡ r.count =
        omega (arith, length-take r.count r.filled, f.fits, f.sized) in
      let whole : length (take r.count r.filled ++ given) ≡ r.count + length given =
        omega (arith, part, length-append (take r.count r.filled) given) in
      (
        v,
        rw (
          whole,
          take_add r.count (length given) (drop p content),
          drop-drop r.count p content,
          ← f.moved,
          ← e,
          f.data_read,
        ),
        omega (arith, m, f.moved, whole),
      )
  glue-Streams rs rs' dest r (err e) f h = h
  glue-Streams rs rs' dest r panic f h = h

  then-Streams :
      (rs : ReadSeeker S) (dest : Bytes) (dests : List Bytes) (x : Result (ReadSeeker S × Outcome))
      → Reads S content F rs dest x
      → ((rs' : ReadSeeker S) → IsValid S content F rs' → Streams rs' (read_each rs' dests))
      → Streams rs (
          x >>= λ (z : ReadSeeker S × Outcome).
          read_each z.0 dests >>= λ (w : ReadSeeker S × Bytes).
          ok (w.0, take z.1.count z.1.filled ++ w.1))
  then-Streams rs dest dests (ok (rs', r)) h k =
      glue-Streams rs rs' dest r (read_each rs' dests) h.1 (k rs' h.0)
  then-Streams rs dest dests (err e) h k = h
  then-Streams rs dest dests panic h k = h

  -- Reads into any list of buffers, however large, give together one stretch of the contents that
  -- begins at the reader's position, with nothing lost, repeated or reordered; none of them panics,
  -- and the reader then stands at the end of the stretch.
  pub read_each-Streams :
      (rs : ReadSeeker S) (dests : List Bytes)
      → IsValid S content F rs
      → Streams rs (read_each rs dests)
  unfolding read_each
  read_each-Streams rs [] v = (v, refl, omega arith)
  read_each-Streams rs (dest ∷ dests) v =
      then-Streams rs dest dests (read S rs dest) (read-Reads rs dest v)
        (λ rs' v'. read_each-Streams rs' dests v')
