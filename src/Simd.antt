-- ===== src/Simd.antt =====
-- simd/dot.go and matvec.go over the Go code of dot_generic.go and matvec_generic.go, which is built
-- where there is no assembly. The arithmetic of float32 is a parameter, with no law. A slice or an
-- array is a list; an index out of range is a panic.
pub mod Laws
mod Examples
use primordium.Base.{
  ℕ, zero, suc, ◌==◌, min, length, take, get_elem?, modify, List, Option, none, some, if◌then◌else◌,
}
use primordium.Errors.{Result, ok, panic, ◌>>=◌}

pub record Float : Type 1 where
  pub Num : Type 0
  pub origin : Num  -- 0
  pub add : Num → Num → Num
  pub mul : Num → Num → Num

abbrev pub found {ℓ} : {A : Type ℓ} → Option A → Result A
found none = panic
found (some a) = ok a

module _ (F : Float) where
  -- `for idx := range left { sum += first[idx] * second[idx] }`, from `idx` on
  unfoldable pub dot_loop : List F.Num → List F.Num → ℕ → ℕ → F.Num → Result F.Num
  dot_loop first second zero idx sum = ok sum
  dot_loop first second (suc left) idx sum = do
    a ← found (get_elem? first idx)
    b ← found (get_elem? second idx)
    dot_loop first second left (suc idx) (F.add sum (F.mul a b))

  -- `dotProductF32`
  unfoldable pub dot_product : List F.Num → List F.Num → Result F.Num
  dot_product first second = dot_loop first second (length first) 0 F.origin

  -- `DotFloat32`
  unfoldable pub dot : List F.Num → List F.Num → Result F.Num
  dot first second =
      let count = min (length first) (length second) in
      if count == 0 then ok F.origin else dot_product (take count first) (take count second)

  -- `dst[i] = sum`
  abbrev pub store : List F.Num → ℕ → F.Num → List F.Num
  store dst i sum = modify (λ old. sum) i dst

  -- `for j := range 32 { sum += row[j] * vec[j] }`
  unfoldable pub row_sum : List F.Num → List F.Num → Result F.Num
  row_sum row vec = dot_loop row vec 32 0 F.origin

  -- The rows from `i` on.
  unfoldable pub row_loop :
      List (List F.Num) → List F.Num → ℕ → ℕ → List F.Num → Result (List F.Num)
  row_loop mat vec zero i dst = ok dst
  row_loop mat vec (suc left) i dst = do
    row ← found (get_elem? mat i)
    sum ← row_sum row vec
    row_loop mat vec left (suc i) (store dst i sum)

  -- `matVecProduct64x32`
  unfoldable pub mat_vec_product : List F.Num → List (List F.Num) → List F.Num → Result (List F.Num)
  mat_vec_product dst mat vec = row_loop mat vec 64 0 dst

  -- `MatVecMul64x32`, which gives the new contents of `dst`.
  unfoldable pub mat_vec_mul : List F.Num → List (List F.Num) → List F.Num → Result (List F.Num)
  mat_vec_mul dst mat vec = mat_vec_product dst mat vec
