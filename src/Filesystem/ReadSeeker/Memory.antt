-- ===== src/Filesystem/ReadSeeker/Memory.antt =====
-- A source in memory, in the manner of `bytes.Reader`, for the examples.
use primordium.Base.{
  ℕ, ◌+◌, ◌-◌, ◌%◌, ◌<◌, ◌≤◌, ◌≡◌, Bytes, take, drop, length, min, none, some, ltb, ◌==◌, ◌++◌, ◌∙◌,
  ◌≢◌, arith, if◌then◌else◌, length-append, length-take, length-drop, take-append_le, take-take_le,
}
use primordium.Errors.{sentinel}
use primordium.Filesystem.ReadSeeker.{Source, Outcome, Sought, sign}
use primordium.Filesystem.ReadSeeker.Contract.{IsFile, target, ReadsFrom}

module _ (content : Bytes) where
  abbrev pub place : ℕ → ℕ
  place s = s % sign

  abbrev pub given : ℕ → Bytes → ℕ
  given s dest = min (length dest) (length content - place s)

  unfoldable pub memory_read : ℕ → Bytes → ℕ × Outcome
  memory_read s dest = (
    place s + given s dest,
    record {
      filled = take (given s dest) (drop (place s) content) ++ drop (given s dest) dest;
      count = given s dest;
      error = if given s dest == 0 then some (sentinel 90) else none;
    },
  )

  -- Go to `t`, unless it is negative.
  unfoldable pub go_to : ℕ → ℕ → ℕ × Sought
  go_to s t =
      if ltb t sign
      then (t, record { place = t; error = none })
      else (s, record { place = 0; error = some (sentinel 91) })

  unfoldable pub memory_seek : ℕ → ℕ → ℕ → ℕ × Sought
  memory_seek s offset whence = go_to s (target content (place s) offset whence)

  abbrev pub memory : Source
  memory = record { State = ℕ; read = memory_read; seek = memory_seek; close = none }

  given_fits :
      (s : ℕ) (dest : Bytes) → length (take (given s dest) (drop (place s) content)) ≡ given s dest
  given_fits s dest =
      omega
        (arith, length-take (given s dest) (drop (place s) content), length-drop (place s) content)

  pub memory_read-ReadsFrom :
      (s : ℕ) (dest : Bytes)
      → length content < sign
      → ReadsFrom content dest (place s) (memory_read s dest).1 (place (memory_read s dest).0)
  unfolding memory_read
  memory_read-ReadsFrom s dest small =
      let n : ℕ = given s dest in
      let stretch : Bytes = take n (drop (place s) content) in
      let sized : length stretch ≡ n = given_fits s dest in
      record {
        sized = omega (arith, sized, length-append stretch (drop n dest), length-drop n dest);
        fits = omega arith;
        data_read =
            take-append_le n stretch (drop n dest) (omega (arith, sized))
            ∙ take-take_le n n (drop (place s) content) (omega arith);
        moved = omega arith;
        progress = λ some_room dry bad. ground arith;
      }

  pub go_to_lem :
      (s t : ℕ)
      → (go_to s t).1.error ≡ none
      → ((go_to s t).1.place ≡ t) × (place (go_to s t).0 ≡ (go_to s t).1.place)
  unfolding go_to
  go_to_lem s t = ground arith

  pub go_to_stays : (s t : ℕ) → (go_to s t).1.error ≢ none → place (go_to s t).0 ≡ place s
  unfolding go_to
  go_to_stays s t = ground arith

  unfoldable pub memory-IsFile : length content < sign → IsFile memory content
  unfolding memory_seek
  memory-IsFile small = record {
    position = place;
    in_range = λ s. omega arith;
    read_lem = λ s dest. memory_read-ReadsFrom s dest small;
    seek_lem = λ s offset whence fits. go_to_lem s (target content (place s) offset whence);
    seek_stays = λ s offset whence. go_to_stays s (target content (place s) offset whence);
  }

  -- It fails only at the end, where there is room to read into.
  pub memory_read-ends :
      (s : ℕ) (dest : Bytes)
      → 0 < length dest
      → (memory_read s dest).1.error ≢ none
      → length content ≤ place (memory_read s dest).0
  unfolding memory_read
  memory_read-ends s dest some_room failed = ground arith
