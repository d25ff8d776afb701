-- ===== src/Errors.antt =====
-- Go error values as `errors.Is` sees them: the tree of wrapped errors. Message texts are left out.
use primordium.Base.{ℕ, Bool, false, ◌||◌, ◌==◌, ◌≡◌, refl, Option, none, some}

-- `sentinel k` is the value of one `errors.New` call, `k` its identity; `errno k` is a system
-- call's error number; `wrap` and `wrap_two` are `fmt.Errorf` with one and with two `%w`.
pub data Error : Type 0 where
  sentinel : ℕ → Error
  errno : ℕ → Error
  wrap : Error → Error
  wrap_two : Error → Error → Error

-- The error itself, without what it wraps, is the target.
abbrev same : Error → Error → Bool
same (sentinel a) (sentinel b) = a == b
same (errno a) (errno b) = a == b
same _ _ = false

-- `errors.Is`, for a target that is a sentinel or an error number.
abbrev pub is : Error → Error → Bool
is (wrap e) target = is e target
is (wrap_two e f) target = is e target || is f target
is (sentinel k) target = same (sentinel k) target
is (errno k) target = same (errno k) target

-- `errors.Join` of two values, each perhaps nil.
abbrev pub join : Option Error → Option Error → Option Error
join none none = none
join (some e) none = some (wrap e)
join none (some f) = some (wrap f)
join (some e) (some f) = some (wrap_two e f)

-- What a Go function with an error result does: returns, fails, or panics.
pub data Result {ℓ} (A : Type ℓ) : Type ℓ where
  ok : A → Result A
  err : Error → Result A
  panic : Result A

infixl 5 ◌>>=◌ ◌>>◌
abbrev pub ◌>>=◌ {ℓ κ} : {A : Type ℓ} {B : Type κ} → Result A → (A → Result B) → Result B
ok a >>= f = f a
err e >>= f = err e
panic >>= f = panic

abbrev pub ◌>>◌ {ℓ} : {B : Type ℓ} → Result (Unit {0}) → Result B → Result B
m >> k = m >>= λ _. k

pub >>_assoc : (m n k : Result (Unit {0})) → (m >> n >> k) ≡ (m >> (n >> k))
>>_assoc (ok a) n k = refl
>>_assoc (err e) n k = refl
>>_assoc panic n k = refl

pub bind_congr {ℓ κ} :
    {A : Type ℓ} {B : Type κ} (m : Result A) {f g : A → Result B}
    → ((a : A) → f a ≡ g a)
    → (m >>= f) ≡ (m >>= g)
bind_congr (ok a) h = h a
bind_congr (err e) h = refl
bind_congr panic h = refl

pub bind_assoc {ℓ κ μ} :
    {A : Type ℓ} {B : Type κ} {C : Type μ} (m : Result A) (f : A → Result B) (g : B → Result C)
    → ((m >>= f) >>= g) ≡ (m >>= λ a. (f a >>= g))
bind_assoc (ok a) f g = refl
bind_assoc (err e) f g = refl
bind_assoc panic f g = refl
