-- ===== src/Filesystem/ReadSeeker/Seeking.antt =====
-- filesystem/readseeker.go: `Seek`.
use mathlib.Core.Path.{subst}
use native.Mathlib.Decide.{dec_lt, ℕ_discrete}
use native.Mathlib.Nat.{sub-zero}
use primordium.Base.{
  sym, ◌∙◌, ℕ, ◌+◌, ◌-◌, ◌≤◌, ◌<◌, ◌%◌, ◌≡◌, refl, Bytes, length, arith, Bool-cases, Option-cases,
  inl, inr, ltb, leb, true, false, ◌⊎◌, ◌≢◌,
}
use primordium.Filesystem.ReadSeeker.{
  Source, ReadSeeker, Sought, seek, seek_buffered, seek_through, signed_le, sign, word,
  seek_current,
}
use primordium.Filesystem.ReadSeeker.Contract.{IsFile, IsValid, position, SeeksTo, target}
use primordium.Filesystem.ReadSeeker.Buffer.{empty-IsValid, window_rest}
use primordium.Filesystem.ReadSeeker.Reading.{shift_sign}

pub signed_le-eq : (a b : ℕ) → a < sign → b < sign → signed_le a b ≡ leb a b
signed_le-eq a b h k = rw (shift_sign a h, shift_sign b k) (ground arith)

module _ (S : Source) (content : Bytes) (F : IsFile S content) where
  -- The sum that the short forward seek makes stays below 2^63.
  abbrev pub Fits : ReadSeeker S → ℕ → Type 0
  Fits rs offset = offset < sign → rs.off + offset < sign

  -- A seek left the reader valid, and went where it was asked to if it did not fail.
  abbrev pub Seeks : ReadSeeker S → ℕ → ℕ → ReadSeeker S × Sought → Type 0
  Seeks rs offset whence (rs', r) =
      IsValid S content F rs'
      × SeeksTo content (position S content F rs) offset whence r (position S content F rs')

  seek_through-IsValid :
      (rs : ReadSeeker S) (offset whence : ℕ)
      → length rs.buf < sign
      → IsValid S content F (seek_through S rs offset whence).0
  unfolding seek_through
  seek_through-IsValid rs offset whence small = empty-IsValid S content F _ small refl (omega arith)

  -- Asking the source for its position does not move it.
  pub asks : (s : S.State) → F.position (S.seek s 0 seek_current).0 ≡ F.position s
  asks s = elim (Option-cases (S.seek s 0 seek_current).1.error) [
    | inl done ↦ omega (arith, F.in_range s, F.seek_lem s 0 seek_current (omega arith) done)
    | inr (e, failed) ↦ F.seek_stays s 0 seek_current (ground arith)
  ]

  seek_buffered-IsValid :
      (rs : ReadSeeker S) (offset : ℕ)
      → IsValid S content F rs
      → rs.off + offset ≤ rs.end
      → IsValid S content F
          (record rs { off = rs.off + offset; source = (S.seek rs.source 0 seek_current).0 })
  seek_buffered-IsValid rs offset v h = record {
    small = v.small;
    ordered = h;
    within = v.within;
    given = omega (arith, v.given, asks rs.source);
    window = rw (asks rs.source) (
        window_rest rs.off rs.end offset (F.position rs.source) rs.buf content v.ordered v.given
          (omega arith) v.window);
  }

  seek_buffered-Seeks :
      (rs : ReadSeeker S) (offset : ℕ)
      → IsValid S content F rs
      → rs.off + offset ≤ rs.end
      → Seeks rs offset seek_current (seek_buffered S rs (rs.off + offset))
  unfolding seek_buffered
  seek_buffered-Seeks rs offset v h =
      elim (Option-cases (S.seek rs.source 0 seek_current).1.error) [
        | inl done ↦
            rw (done, seek_buffered)
              (
                seek_buffered-IsValid rs offset v h,
                λ _.
                    let there = F.seek_lem rs.source 0 seek_current (omega arith) done in
                    (
                      omega (
                        arith,
                        there,
                        v.given,
                        v.within,
                        v.small,
                        F.in_range rs.source,
                        asks rs.source,
                      ),
                      omega (
                        arith,
                        there,
                        v.given,
                        v.within,
                        v.small,
                        F.in_range rs.source,
                        asks rs.source,
                      ),
                    ),
              )
        | inr (e, failed) ↦
            rw (failed, seek_buffered) (seek_buffered-IsValid rs offset v h, λ bad. cc)
      ]

  seek_through-Seeks :
      (rs : ReadSeeker S) (offset offset' whence : ℕ)
      → offset' < word
      → length rs.buf < sign
      → target content (F.position rs.source) offset' whence
        ≡ target content (position S content F rs) offset whence
      → Seeks rs offset whence (seek_through S rs offset' whence)
  unfolding seek_through
  seek_through-Seeks rs offset offset' whence fits small same = (
    seek_through-IsValid rs offset' whence small,
    λ done.
        let there = F.seek_lem rs.source offset' whence fits done in
        (there.0 ∙ same, rw sub-zero there.1),
  )

  pub seek_short :
      (rs : ReadSeeker S) (offset : ℕ)
      → IsValid S content F rs
      → offset < sign
      → rs.off + offset < sign
      → rs.off + offset ≤ rs.end
      → seek S rs offset seek_current ≡ seek_buffered S rs (rs.off + offset)
  unfolding seek
  seek_short rs offset v small fits near =
      let no_wrap : (rs.off + offset) % word ≡ rs.off + offset = omega arith in
      let inside : leb (rs.off + offset) rs.end ≡ true = ground arith in
      let positive : ltb offset sign ≡ true = ground arith in
      rw (
        no_wrap,
        signed_le-eq (rs.off + offset) rs.end fits (omega (arith, v.within, v.small)),
        inside,
        positive,
      )

  -- The offset that a seek passes on, less what is pending.
  abbrev pub rest_offset : ReadSeeker S → ℕ → ℕ
  rest_offset rs offset = (offset + word - (rs.end + word - rs.off) % word) % word

  pub seek_far :
      (rs : ReadSeeker S) (offset : ℕ)
      → IsValid S content F rs
      → Fits rs offset
      → (sign ≤ offset) ⊎ (rs.end < rs.off + offset)
      → seek S rs offset seek_current ≡ seek_through S rs (rest_offset rs offset) seek_current
  unfolding seek
  seek_far rs offset v fits (inl back) = let no : ltb offset sign ≡ false = ground arith in rw no
  seek_far rs offset v fits (inr far) = elim (Bool-cases (ltb offset sign)) [
    | inl forward ↦
        let small : rs.off + offset < sign = fits (ground arith) in
        let no_wrap : (rs.off + offset) % word ≡ rs.off + offset = omega arith in
        let outside : leb (rs.off + offset) rs.end ≡ false = ground arith in
        rw (
          forward,
          no_wrap,
          signed_le-eq (rs.off + offset) rs.end small (omega (arith, v.within, v.small)),
          outside,
        )
    | inr back ↦ rw back
  ]

  pub seek_other :
      (rs : ReadSeeker S) (offset whence : ℕ)
      → whence ≢ seek_current
      → seek S rs offset whence ≡ seek_through S rs offset whence
  unfolding seek
  seek_other rs offset whence h = ground arith

  far-Seeks :
      (rs : ReadSeeker S) (offset : ℕ)
      → IsValid S content F rs
      → offset < word
      → Fits rs offset
      → (sign ≤ offset) ⊎ (rs.end < rs.off + offset)
      → Seeks rs offset seek_current (seek S rs offset seek_current)
  far-Seeks rs offset v small fits far =
      subst (Seeks rs offset seek_current) (sym (seek_far rs offset v fits far)) (
        seek_through-Seeks rs offset (rest_offset rs offset) seek_current (omega arith) v.small
          (omega (arith, v.ordered, v.within, v.small, v.given, F.in_range rs.source)))

  from_here :
      (rs : ReadSeeker S) (offset : ℕ)
      → IsValid S content F rs
      → offset < word
      → Fits rs offset
      → Seeks rs offset seek_current (seek S rs offset seek_current)
  from_here rs offset v small fits = elim (dec_lt offset sign) [
    | no back ↦ far-Seeks rs offset v small fits (inl (omega arith))
    | yes forward ↦ elim (dec_lt rs.end (rs.off + offset)) [
      | yes far ↦ far-Seeks rs offset v small fits (inr far)
      | no near ↦
          subst (Seeks rs offset seek_current)
            (sym (seek_short rs offset v forward (fits forward) (omega arith)))
            (seek_buffered-Seeks rs offset v (omega arith))
    ]
  ]

  -- On a valid reader every seek leaves the reader valid. One that succeeds goes to the place that
  -- it was asked for, counted from the reader's own position for `io.SeekCurrent`, and returns that
  -- place, whether it is made within the buffer or by the source. The condition is that `off` and
  -- an offset that is not negative have a sum below 2^63.
  pub seek-Seeks :
      (rs : ReadSeeker S) (offset whence : ℕ)
      → IsValid S content F rs
      → offset < word
      → Fits rs offset
      → Seeks rs offset whence (seek S rs offset whence)
  seek-Seeks rs offset whence v small fits = elim (ℕ_discrete whence seek_current) [
    | yes current ↦ rw current (from_here rs offset v small fits)
    | no other ↦
        subst (Seeks rs offset whence) (sym (seek_other rs offset whence other))
          (seek_through-Seeks rs offset offset whence small v.small (ground arith))
  ]
