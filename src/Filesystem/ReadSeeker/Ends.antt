-- ===== src/Filesystem/ReadSeeker/Ends.antt =====
-- filesystem/readseeker.go: what `Read` does with its buffer, and where an error comes from.
use primordium.Base.{
  ◌-◌, ◌≢◌, ◌≤◌, ◌<◌, ◌≡◌, refl, Bytes, length, take, drop, arith, Bool-cases, inl, inr, ltb, leb,
  ◌==◌, none,
}
use primordium.Errors.{Result, ok}
use primordium.Filesystem.ReadSeeker.{
  Source, ReadSeeker, Outcome, read, serve, bypass, refill, slice, sign,
}
use primordium.Filesystem.ReadSeeker.Contract.{IsFile, IsValid}
use primordium.Filesystem.ReadSeeker.Reading.{signed_lt-eq}

-- `Ended` holds of the source after a read of it that fails.
module _ (S : Source) (content : Bytes) (F : IsFile S content) (Ended : S.State → Type 0)
    (fails : (s : S.State) (dest : Bytes)
      → 0 < length dest
      → (S.read s dest).1.error ≢ none
      → Ended (S.read s dest).0) where
  -- The buffer keeps its size. An error is the source's, and then the buffer is empty.
  abbrev pub Keeps : ReadSeeker S → Result (ReadSeeker S × Outcome) → Type 0
  Keeps rs (ok (rs', r)) =
      (length rs'.buf ≡ length rs.buf) × (r.error ≢ none → Ended rs'.source × (rs'.end ≤ rs'.off))
  Keeps rs _ = ⊥

  serve-Keeps :
      (rs rs₁ : ReadSeeker S) (dest : Bytes)
      → rs.off ≤ rs.end
      → rs.end ≤ length rs.buf
      → length rs.buf ≡ length rs₁.buf
      → Keeps rs₁ (serve S rs dest)
  unfolding serve
  serve-Keeps rs rs₁ dest h k same =
      let in_bounds : slice rs.buf rs.off rs.end
          ≡ ok (take (rs.end - rs.off) (drop rs.off rs.buf)) =
        ground arith in
      rw in_bounds (same, λ f. absurd (f refl))

  refill-Keeps :
      (rs : ReadSeeker S) (dest : Bytes)
      → rs.end ≤ rs.off
      → 0 < length rs.buf
      → Keeps rs (refill S rs dest)
  unfolding refill
  refill-Keeps rs dest empty room =
      let x : S.State × Outcome = S.read rs.source rs.buf in
      let r = F.read_lem rs.source rs.buf in
      elim (Bool-cases (ltb 0 x.1.count)) [
        | inl more ↦ rw more (
            serve-Keeps (record { buf = x.1.filled; off = 0; end = x.1.count; source = x.0 }) rs
              dest (omega arith) (omega (arith, r.sized, r.fits)) r.sized)
        | inr dry ↦ rw dry (r.sized, λ f. (fails rs.source rs.buf room f, empty))
      ]

  pub read-Keeps :
      (rs : ReadSeeker S) (dest : Bytes) → IsValid S content F rs → Keeps rs (read S rs dest)
  unfolding read bypass
  read-Keeps rs dest v = elim (Bool-cases (length dest == 0)) [
    | inl nowhere ↦ rw nowhere (refl, λ f. absurd (f refl))
    | inr somewhere ↦
        let some_room : 0 < length dest = ground arith in
        let small : rs.end < sign = omega (arith, v.within, v.small) in
        rw (somewhere, signed_lt-eq rs.off rs.end (omega (arith, v.ordered)) small)
          (elim (Bool-cases (ltb rs.off rs.end)) [
            | inl held ↦ rw held (serve-Keeps rs rs dest v.ordered v.within refl)
            | inr bare ↦
                let empty : rs.end ≤ rs.off = ground arith in
                rw bare (elim (Bool-cases (leb (length rs.buf) (length dest))) [
                  | inl large ↦ rw large (refl, λ f. (fails rs.source dest some_room f, empty))
                  | inr little ↦ rw little (refill-Keeps rs dest empty (ground arith))
                ])
          ])
  ]
