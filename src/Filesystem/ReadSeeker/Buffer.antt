-- ===== src/Filesystem/ReadSeeker/Buffer.antt =====
-- filesystem/readseeker.go: the parts of `Read`, one lemma for each.
use mathlib.Core.Path.{subst}
use native.Mathlib.Nat.{sub-zero}
use primordium.Base.{
  ltb, ℕ, ◌+◌, ◌-◌, ◌≤◌, ◌<◌, min, ◌≡◌, refl, sym, ap, ◌∙◌, Bytes, length, take, drop,
  take-append_le, take-take_le, drop-take, drop-drop, length-append, length-take, length-drop,
  arith, Bool-cases, inl, inr,
}
use primordium.Errors.{Result, ok, err, panic}
use primordium.Filesystem.ReadSeeker.{
  sign, Outcome, Source, ReadSeeker, copy, slice, serve, bypass, refill,
}
use primordium.Filesystem.ReadSeeker.Contract.{Reads, ReadsFrom, IsFile, IsValid, position}

-- Two texts that agree on `k` bytes agree on what is left of these after `n`.
take_rest :
    (k n : ℕ) (xs ys : Bytes)
    → take k xs ≡ take k ys
    → take (k - n) (drop n xs) ≡ take (k - n) (drop n ys)
take_rest k n xs ys h = sym (drop-take n k xs) ∙ (ap (drop n) h ∙ drop-take n k ys)

take_fewer : (k n : ℕ) (xs ys : Bytes) → n ≤ k → take k xs ≡ take k ys → take n xs ≡ take n ys
take_fewer k n xs ys h e = sym (take-take_le n k xs h) ∙ (ap (take n) e ∙ take-take_le n k ys h)

length-copy : (dest src : Bytes) → length (copy dest src).0 ≡ length dest
length-copy dest src = omega (
  arith,
  length-append (take (min (length dest) (length src)) src)
      (drop (min (length dest) (length src)) dest),
  length-take (min (length dest) (length src)) src,
  length-drop (min (length dest) (length src)) dest,
)

take-copy :
    (dest src : Bytes) → take (copy dest src).1 (copy dest src).0 ≡ take (copy dest src).1 src
take-copy dest src =
    let n : ℕ = min (length dest) (length src) in
    take-append_le n (take n src) (drop n dest) (omega (arith, length-take n src))
    ∙ take-take_le n n src (omega arith)

-- The window after `n` of its bytes are passed over.
pub window_rest :
    (o e n p : ℕ) (buf content : Bytes)
    → o ≤ e
    → e - o ≤ p
    → n ≤ e - o
    → take (e - o) (drop o buf) ≡ take (e - o) (drop (p - (e - o)) content)
    → take (e - (o + n)) (drop (o + n) buf) ≡ take (e - (o + n)) (drop (p - (e - (o + n))) content)
window_rest o e n p buf content h g f w =
    let shorter : e - (o + n) ≡ e - o - n = omega arith in
    let later : p - (e - o - n) ≡ p - (e - o) + n = omega arith in
    rw (shorter, later, ← drop-drop n o buf, ← drop-drop n (p - (e - o)) content)
      (take_rest (e - o) n (drop o buf) (drop (p - (e - o)) content) w)

module _ (S : Source) (content : Bytes) (F : IsFile S content) where
  pub serve-Reads :
      (rs : ReadSeeker S) (dest : Bytes)
      → IsValid S content F rs
      → rs.off < rs.end
      → 0 < length dest
      → Reads S content F rs dest (serve S rs dest)
  unfolding serve
  serve-Reads rs dest v h some_room = rw in_bounds (
    record {
      small = v.small;
      ordered = omega (arith, sized);
      within = v.within;
      given = omega (arith, sized);
      window =
          window_rest rs.off rs.end n (F.position rs.source) rs.buf content v.ordered v.given
            (omega (arith, sized)) v.window;
    },
    record {
      sized = length-copy dest rest;
      fits = omega arith;
      data_read =
          take-copy dest rest
          ∙ (take-take_le n k (drop rs.off rs.buf) (omega (arith, sized))
              ∙ take_fewer k n (drop rs.off rs.buf) (drop (position S content F rs) content)
                  (omega (arith, sized)) v.window);
      moved = omega (arith, sized);
      progress = λ _ e. absurd (omega (arith, sized));
    },
  )
    where
      k : ℕ
      k = rs.end - rs.off

      rest : Bytes
      rest = take k (drop rs.off rs.buf)

      in_bounds : slice rs.buf rs.off rs.end ≡ ok rest
      in_bounds = ground (arith, v)

      sized : length rest ≡ k
      sized = omega (arith, length-take k (drop rs.off rs.buf), length-drop rs.off rs.buf)

      n : ℕ
      n = min (length dest) (length rest)

  -- An empty window is valid wherever the source stands.
  pub empty-IsValid :
      (rs : ReadSeeker S)
      → length rs.buf < sign
      → rs.off ≡ rs.end
      → rs.end ≤ length rs.buf
      → IsValid S content F rs
  empty-IsValid rs small empty within = record {
    small = small;
    ordered = omega arith;
    within = within;
    given = omega arith;
    window = let gone : rs.end - rs.off ≡ 0 = omega arith in rw gone;
  }

  pub bypass-Reads :
      (rs : ReadSeeker S) (dest : Bytes)
      → IsValid S content F rs
      → rs.end ≤ rs.off
      → Reads S content F rs dest (bypass S rs dest)
  unfolding bypass
  bypass-Reads rs dest v empty =
      let r = F.read_lem rs.source dest in
      let no_shift : F.position rs.source - (rs.end - rs.off) ≡ F.position rs.source =
        omega arith in
      (
        empty-IsValid _ v.small (omega (arith, v.ordered)) v.within,
        record {
          sized = r.sized;
          fits = r.fits;
          data_read = rw no_shift r.data_read;
          moved = omega (arith, r.moved);
          progress = r.progress;
        },
      )

  -- A step tells as much of another reader at the same position.
  Reads-position :
      (rs rs₁ : ReadSeeker S) (dest : Bytes) (x : Result (ReadSeeker S × Outcome))
      → position S content F rs₁ ≡ position S content F rs
      → Reads S content F rs₁ dest x
      → Reads S content F rs dest x
  Reads-position rs rs₁ dest (ok (rs', r)) e h =
      (h.0, subst (λ p. ReadsFrom content dest p r (position S content F rs')) e h.1)
  Reads-position rs rs₁ dest (err x) e h = h
  Reads-position rs rs₁ dest panic e h = h

  refilled-IsValid :
      (rs : ReadSeeker S)
      → length rs.buf < sign
      → let (s, r) = S.read rs.source rs.buf in
        IsValid S content F (record { buf = r.filled; off = 0; end = r.count; source = s })
  refilled-IsValid rs small =
      let r = F.read_lem rs.source rs.buf in
      record {
        small = omega (arith, r.sized);
        ordered = omega arith;
        within = omega (arith, r.sized, r.fits);
        given = omega (arith, r.moved);
        window =
            let back : F.position (S.read rs.source rs.buf).0 - (S.read rs.source rs.buf).1.count
                ≡ F.position rs.source =
              omega (arith, r.moved) in
            rw (sub-zero, back) r.data_read;
      }

  pub refill-Reads :
      (rs : ReadSeeker S) (dest : Bytes)
      → IsValid S content F rs
      → rs.end ≤ rs.off
      → 0 < length dest
      → length dest < length rs.buf
      → Reads S content F rs dest (refill S rs dest)
  unfolding refill
  refill-Reads rs dest v empty some_room short =
      let x : S.State × Outcome = S.read rs.source rs.buf in
      let rs₁ : ReadSeeker S = record {
        buf = x.1.filled;
        off = 0;
        end = x.1.count;
        source = x.0;
      } in
      let r = F.read_lem rs.source rs.buf in
      elim (Bool-cases (ltb 0 x.1.count)) [
        | inl more ↦ rw more (
            Reads-position rs rs₁ dest (serve S rs₁ dest) (omega (arith, r.moved))
              (serve-Reads rs₁ dest (refilled-IsValid rs v.small) (ground arith) some_room))
        | inr dry ↦
            let none_read : x.1.count ≡ 0 = ground arith in
            rw dry (
              empty-IsValid _ (omega (arith, r.sized)) (omega (arith, v.ordered))
                  (omega (arith, r.sized, v.within)),
              record {
                sized = refl;
                fits = omega arith;
                data_read = refl;
                moved = omega (arith, r.moved);
                progress = λ _ _. r.progress (omega arith) none_read;
              },
            )
      ]
