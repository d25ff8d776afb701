-- ===== src/Simd/Laws.antt =====
-- simd/: the products against sums of products.
use primordium.Base.{
  ℕ, zero, suc, ◌==◌, ◌≡◌, refl, sym, ap, ◌∙◌, Bool-cases, inl, inr, length-take, min, length, take,
  get_elem?, All, List, [], ◌∷◌, map, arith,
}
use primordium.Errors.{Result, ok, ◌>>=◌, bind_congr, bind_assoc}
use primordium.Simd.{
  Float, found, dot_loop, dot_product, dot, store, row_sum, row_loop, mat_vec_product, mat_vec_mul,
}

module _ (F : Float) where
  -- The sum of `sum` and the products of the items, up to the end of the shorter list.
  abbrev pub products : F.Num → List F.Num → List F.Num → F.Num
  products sum [] ys = sum
  products sum (x ∷ xs) [] = sum
  products sum (x ∷ xs) (y ∷ ys) = products (F.add sum (F.mul x y)) xs ys

  dot_loop-shift :
      (x y : F.Num) (xs ys : List F.Num) (left idx : ℕ) (sum : F.Num)
      → dot_loop F (x ∷ xs) (y ∷ ys) left (suc idx) sum ≡ dot_loop F xs ys left idx sum
  unfolding dot_loop
  dot_loop-shift x y xs ys zero idx sum = refl
  dot_loop-shift x y xs ys (suc left) idx sum = bind_congr (found (get_elem? xs idx)) (λ a.
      bind_congr (found (get_elem? ys idx))
        (λ b. dot_loop-shift x y xs ys left (suc idx) (F.add sum (F.mul a b))))

  dot_loop-products :
      (n : ℕ) (xs ys : List F.Num) (sum : F.Num)
      → length xs ≡ n
      → length ys ≡ n
      → dot_loop F xs ys n 0 sum ≡ ok (products sum xs ys)
  unfolding dot_loop
  dot_loop-products zero [] ys sum h k = refl
  dot_loop-products zero (x ∷ xs) ys sum h k = absurd (omega arith)
  dot_loop-products (suc n) [] ys sum h k = absurd (omega arith)
  dot_loop-products (suc n) (x ∷ xs) [] sum h k = absurd (omega arith)
  dot_loop-products (suc n) (x ∷ xs) (y ∷ ys) sum h k =
      dot_loop-shift x y xs ys n 0 (F.add sum (F.mul x y))
      ∙ dot_loop-products n xs ys (F.add sum (F.mul x y)) (omega arith) (omega arith)

  products-take :
      (n : ℕ) (xs ys : List F.Num) (sum : F.Num)
      → n ≡ min (length xs) (length ys)
      → products sum (take n xs) (take n ys) ≡ products sum xs ys
  products-take zero [] ys sum h = refl
  products-take zero (x ∷ xs) [] sum h = refl
  products-take zero (x ∷ xs) (y ∷ ys) sum h = absurd (omega arith)
  products-take (suc n) [] ys sum h = absurd (omega arith)
  products-take (suc n) (x ∷ xs) [] sum h = absurd (omega arith)
  products-take (suc n) (x ∷ xs) (y ∷ ys) sum h =
      products-take n xs ys (F.add sum (F.mul x y)) (omega arith)

  -- `DotFloat32` does not panic, and returns the sum of the products in order, over the length of the
  -- shorter slice.
  pub dot-products : (xs ys : List F.Num) → dot F xs ys ≡ ok (products F.origin xs ys)
  unfolding dot dot_product
  dot-products xs ys =
      let n : ℕ = min (length xs) (length ys) in
      let whole : products F.origin (take n xs) (take n ys) ≡ products F.origin xs ys =
        products-take n xs ys F.origin refl in
      elim (Bool-cases (n == 0)) [
        | inl e ↦
            let none_left : 0 ≡ n = ground arith in
            rw e (ap (λ (s : F.Num). ok s) (products-take 0 xs ys F.origin none_left))
        | inr e ↦ rw e (
            dot_loop-products (length (take n xs)) (take n xs) (take n ys) F.origin refl
              (omega (arith, length-take n xs, length-take n ys))
            ∙ ap (λ (s : F.Num). ok s) whole)
      ]

  row_loop-shift :
      (row : List F.Num) (d : F.Num) (mat : List (List F.Num)) (vec : List F.Num) (left i : ℕ)
      (dst : List F.Num)
      → row_loop F (row ∷ mat) vec left (suc i) (d ∷ dst)
        ≡ (row_loop F mat vec left i dst >>= λ out. ok (d ∷ out))
  unfolding row_loop
  row_loop-shift row d mat vec zero i dst = refl
  row_loop-shift row d mat vec (suc left) i dst =
      let k : List F.Num → Result (List F.Num) = λ out. ok (d ∷ out) in
      let rest : F.Num → Result (List F.Num) =
        λ sum. row_loop F mat vec left (suc i) (store F dst i sum) in
      bind_congr (found (get_elem? mat i)) (λ r.
        bind_congr (row_sum F r vec)
          (λ sum. row_loop-shift row d mat vec left (suc i) (store F dst i sum))
        ∙ sym (bind_assoc (row_sum F r vec) rest k))
      ∙ sym (bind_assoc (found (get_elem? mat i)) (λ r. (row_sum F r vec >>= rest)) k)

  row_sum-products :
      (row vec : List F.Num)
      → length row ≡ 32
      → length vec ≡ 32
      → row_sum F row vec ≡ ok (products F.origin row vec)
  unfolding row_sum
  row_sum-products row vec h k = dot_loop-products 32 row vec F.origin h k

  row_loop-dot :
      (n : ℕ) (mat : List (List F.Num)) (vec dst : List F.Num)
      → length mat ≡ n
      → length dst ≡ n
      → length vec ≡ 32
      → All (λ row. length row ≡ 32) mat
      → row_loop F mat vec n 0 dst ≡ ok (map (λ row. products F.origin row vec) mat)
  unfolding row_loop
  row_loop-dot zero [] vec [] h k v r = refl
  row_loop-dot zero [] vec (d ∷ dst) h k v r = absurd (omega arith)
  row_loop-dot zero (row ∷ mat) vec dst h k v r = absurd (omega arith)
  row_loop-dot (suc n) [] vec dst h k v r = absurd (omega arith)
  row_loop-dot (suc n) (row ∷ mat) vec [] h k v r = absurd (omega arith)
  row_loop-dot (suc n) (row ∷ mat) vec (d ∷ dst) h k v r =
      let p : F.Num = products F.origin row vec in
      ap (λ (m : Result F.Num). m >>= λ sum. row_loop F (row ∷ mat) vec n 1 (sum ∷ dst))
        (row_sum-products row vec r.0 v)
      ∙ row_loop-shift row p mat vec n 0 dst
      ∙ ap (λ (m : Result (List F.Num)). m >>= λ out. ok (p ∷ out))
          (row_loop-dot n mat vec dst (omega arith) (omega arith) v r.1)

  map-dot :
      (mat : List (List F.Num)) (vec : List F.Num)
      → map (λ s. ok s) (map (λ row. products F.origin row vec) mat)
        ≡ map (λ row. dot F row vec) mat
  map-dot [] vec = refl
  map-dot (row ∷ mat) vec =
      rw (dot-products row vec)
        (ap (λ (l : List (Result F.Num)). ok (products F.origin row vec) ∷ l) (map-dot mat vec))

  -- `MatVecMul64x32` on arrays of 64, 64 by 32 and 32 numbers does not panic, whatever `dst` held, and
  -- puts there what `DotFloat32` returns for each row and the vector, in the order of the rows.
  pub mat_vec_mul-dot :
      (dst : List F.Num) (mat : List (List F.Num)) (vec : List F.Num)
      → length dst ≡ 64
      → length mat ≡ 64
      → All (λ row. length row ≡ 32) mat
      → length vec ≡ 32
      → (out : List F.Num) × (mat_vec_mul F dst mat vec ≡ ok out)
        × (map (λ s. ok s) out ≡ map (λ row. dot F row vec) mat)
  unfolding mat_vec_mul mat_vec_product
  mat_vec_mul-dot dst mat vec d m r v = (
    map (λ row. products F.origin row vec) mat,
    row_loop-dot 64 mat vec dst m d v r,
    map-dot mat vec,
  )
