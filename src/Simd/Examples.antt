-- ===== src/Simd/Examples.antt =====
-- Natural numbers in place of float32.
use primordium.Base.{
  ℕ, ◌+◌, ◌*◌, ◌≡◌, refl, length, replicate, length-replicate, All, zero, suc, List, [], ◌∷◌, map,
}
use primordium.Errors.{ok}
use primordium.Simd.{Float, dot_loop, dot_product, dot, mat_vec_mul}
use primordium.Simd.Laws.{mat_vec_mul-dot}

abbrev whole : Float
whole = record { Num = ℕ; origin = 0; add = λ a b. a + b; mul = λ a b. a * b }

dots : dot whole (1 ∷ 2 ∷ 3 ∷ []) (4 ∷ 5 ∷ []) ≡ ok 14
unfolding dot dot_product dot_loop
dots = refl

abbrev ones : List ℕ
ones = replicate 32 1

abbrev rows : List (List ℕ)
rows = replicate 64 ones

abbrev vector : List ℕ
vector = replicate 32 2

All-replicate : {A : Type 0} (P : A → Type 0) (n : ℕ) (a : A) → P a → All P (replicate n a)
All-replicate P zero a h = tt
All-replicate P (suc n) a h = (h, All-replicate P n a h)

mat_vec_mul-dot_example :
    (out : List ℕ) × (mat_vec_mul whole (replicate 64 0) rows vector ≡ ok out)
    × (map (λ s. ok s) out ≡ map (λ row. dot whole row vector) rows)
mat_vec_mul-dot_example =
    mat_vec_mul-dot whole (replicate 64 0) rows vector (length-replicate {A = ℕ} 64 0)
      (length-replicate 64 ones)
      (All-replicate (λ row. length row ≡ 32) 64 ones (length-replicate {A = ℕ} 32 1))
      (length-replicate {A = ℕ} 32 2)
