-- ===== src/Filesystem/Size/Laws.antt =====
-- filesystem/size.go: `DirectorySize` is the sum of the files' sizes.
use primordium.Base.{
  ℕ, ◌+◌, ◌%◌, ◌^◌, ◌≡◌, refl, ap, Bool, true, false, Bool-cases, Bytes, List, [], ◌∷◌, Option,
  none, some, inl, inr, arith, if◌then◌else◌,
}
use primordium.Errors.{Error, is}
use primordium.Filesystem.Errors.{err_generic_failure}
use primordium.Filesystem.Size.{FileInfo, Visit, Iterator, count, iterator, sized, directory_size}

-- What a walk has returned after one call: it goes on, or stops at an error.
abbrev pub visit_rest : (ℕ → ℕ × Option Error) → ℕ × Option Error → ℕ × Option Error
visit_rest rest (s, none) = rest s
visit_rest rest (s, some e) = (s, some e)

-- The calls that a walk makes, one after another, up to the first error.
abbrev pub visit_all : List Visit → Iterator → ℕ → ℕ × Option Error
visit_all [] f s = (s, none)
visit_all (v ∷ vs) f s = visit_rest (visit_all vs f) (f s v)

-- Every path could be read.
abbrev pub readable : List Visit → Bool
readable [] = true
readable ((info, none) ∷ vs) = readable vs
readable ((info, some e) ∷ vs) = false

-- The sizes of all that is not a directory.
abbrev pub total : List Visit → ℕ
total [] = 0
total ((info, e) ∷ vs) = (if info.is_dir then 0 else info.size) + total vs

abbrev pub Failed : Option Error → Type 0
Failed none = ⊥
Failed (some e) = is e err_generic_failure ≡ true

abbrev pub Sizes : Bool → ℕ → ℕ × Option Error → Type 0
Sizes true t x = x ≡ (t % 2 ^ 64, none)
Sizes false t x = (x.0 ≡ 0) × Failed x.1

counted :
    (s t : ℕ) (i : FileInfo)
    → s ≡ t % 2 ^ 64
    → count s i ≡ (t + (if i.is_dir then 0 else i.size)) % 2 ^ 64
unfolding count
counted s t i h = elim (Bool-cases i.is_dir) [
  | inl dir ↦ rw dir (omega arith)
  | inr file ↦ rw file (omega arith)
]

visit_all-Sizes :
    (vs : List Visit) (s t n : ℕ)
    → s ≡ t % 2 ^ 64
    → n ≡ t + total vs
    → Sizes (readable vs) n (sized (visit_all vs iterator s))
unfolding sized iterator
visit_all-Sizes [] s t n h k = ap (λ m. (m, none)) (omega arith)
visit_all-Sizes ((i, none) ∷ vs) s t n h k =
    visit_all-Sizes vs (count s i) (t + (if i.is_dir then 0 else i.size)) n (counted s t i h)
      (omega arith)
visit_all-Sizes ((i, some e) ∷ vs) s t n h k = (refl, refl)

-- `DirectorySize` over a walk that visits `vs`. If every path can be read, it returns the sum of the
-- sizes of all that is not a directory, modulo 2^64, and else 0 and an `ErrGenericFailure`.
pub directory_size-Sizes :
    (walk : Bytes → Iterator → ℕ → ℕ × Option Error) (path : Bytes) (vs : List Visit)
    → walk path iterator 0 ≡ visit_all vs iterator 0
    → Sizes (readable vs) (total vs) (directory_size walk path)
unfolding directory_size
directory_size-Sizes walk path vs h =
    rw h (visit_all-Sizes vs 0 0 (total vs) (omega arith) (omega arith))
