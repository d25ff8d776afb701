-- ===== src/Filesystem/ReadSeeker/Drift.antt =====
-- filesystem/readseeker.go: where a `Seek` that fails leaves the reader.
use mathlib.Core.Path.{subst}
use native.Mathlib.Decide.{dec_lt, ℕ_discrete}
use primordium.Base.{
  sym, ℕ, ◌+◌, ◌≤◌, ◌<◌, ◌≢◌, refl, Bytes, arith, Option-cases, inl, inr, none, ◌⊎◌,
}
use primordium.Filesystem.ReadSeeker.{
  Source, ReadSeeker, Sought, seek, seek_buffered, seek_through, sign, seek_current,
}
use primordium.Filesystem.ReadSeeker.Contract.{IsFile, IsValid, position, pending}
use primordium.Filesystem.ReadSeeker.Seeking.{
  Fits, asks, seek_short, seek_far, seek_other, rest_offset,
}

-- A seek that fails moves from `p` to `q`, forward by at most `room`.
abbrev pub Drifts : ℕ → ℕ → Sought → ℕ → Type 0
Drifts room p r q = r.error ≢ none → (p ≤ q) × (q ≤ p + room)

module _ (S : Source) (content : Bytes) (F : IsFile S content) where
  abbrev Strays : ReadSeeker S → ReadSeeker S × Sought → Type 0
  Strays rs (rs', r) =
      Drifts (pending S content F rs) (position S content F rs) r (position S content F rs')

  seek_through-Strays :
      (rs : ReadSeeker S) (offset whence : ℕ)
      → IsValid S content F rs
      → Strays rs (seek_through S rs offset whence)
  unfolding seek_through
  seek_through-Strays rs offset whence v refused =
      let stays = F.seek_stays rs.source offset whence refused in
      (omega (arith, stays, v.given), omega (arith, stays, v.given))

  seek_buffered-Strays :
      (rs : ReadSeeker S) (offset : ℕ)
      → IsValid S content F rs
      → rs.off + offset ≤ rs.end
      → Strays rs (seek_buffered S rs (rs.off + offset))
  unfolding seek_buffered
  seek_buffered-Strays rs offset v near =
      let stays = asks S content F rs.source in
      elim (Option-cases (S.seek rs.source 0 seek_current).1.error) [
        | inl done ↦ rw (done, seek_buffered) (λ bad. absurd (bad refl))
        | inr (e, failed) ↦
            rw (failed, seek_buffered)
              (λ _. (omega (arith, stays, v.given), omega (arith, stays, v.given)))
      ]

  far-Strays :
      (rs : ReadSeeker S) (offset : ℕ)
      → IsValid S content F rs
      → Fits S content F rs offset
      → (sign ≤ offset) ⊎ (rs.end < rs.off + offset)
      → Strays rs (seek S rs offset seek_current)
  far-Strays rs offset v fits far =
      subst (Strays rs) (sym (seek_far S content F rs offset v fits far))
        (seek_through-Strays rs (rest_offset S content F rs offset) seek_current v)

  -- A seek that fails leaves a valid reader where it was, or further on by at most what the buffer
  -- still held.
  pub seek-Drifts :
      (rs : ReadSeeker S) (offset whence : ℕ)
      → IsValid S content F rs
      → Fits S content F rs offset
      → Drifts
          (pending S content F rs)
          (position S content F rs)
          (seek S rs offset whence).1
          (position S content F (seek S rs offset whence).0)
  seek-Drifts rs offset whence v fits = elim (ℕ_discrete whence seek_current) [
    | no other ↦
        subst (Strays rs) (sym (seek_other S content F rs offset whence other))
          (seek_through-Strays rs offset whence v)
    | yes current ↦ rw current (elim (dec_lt offset sign) [
      | no back ↦ far-Strays rs offset v fits (inl (omega arith))
      | yes forward ↦ elim (dec_lt rs.end (rs.off + offset)) [
        | yes far ↦ far-Strays rs offset v fits (inr far)
        | no near ↦
            subst (Strays rs)
              (sym (seek_short S content F rs offset v forward (fits forward) (omega arith)))
              (seek_buffered-Strays rs offset v (omega arith))
      ]
    ])
  ]
