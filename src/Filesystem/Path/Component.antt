-- ===== src/Filesystem/Path/Component.antt =====
-- filesystem/path.go, path_unix.go, path_windows.go: one path component.
use primordium.Base.{
  ℕ, ◌≤◌, ◌≡◌, ◌≢◌, ◌↔◌, refl, true, false, Bool-cases, inl, inr, Bytes, ltb, codes, bytes_eq,
  bytes_eq_iff, All, [], ◌∷◌, arith, length,
}
use primordium.Errors.{Error, is, Result, ok, err, panic}
use primordium.Filesystem.Errors.{err_invalid_path}
use primordium.Filesystem.Platform.{Goos, linux, darwin, windows, bsd}
use primordium.Filesystem.Path.Text.{any, is_blank, last_is}
use primordium.Filesystem.Path.{
  reserved_unix, keyword_unix, reserved_windows, validate_unix, validate_windows, join_invalid,
  validate_platform_specific, validate_path_component,
}

-- A check returned: if it failed, with an error that is the target.
abbrev pub Checks : Error → Result (Unit {0}) → Type 0
Checks target (ok _) = Unit
Checks target (err e) = is e target ≡ true
Checks target panic = ⊥

pub not-blank-length : (s : Bytes) → is_blank s ≡ false → length s ≢ 0
unfolding is_blank
not-blank-length [] h = cc
not-blank-length (c ∷ s) h = ground arith

validate_windows-ne-panic : (s : Bytes) → length s ≢ 0 → validate_windows s ≢ panic
unfolding validate_windows
validate_windows-ne-panic s h = ground arith

validate_unix-ne-panic : (s : Bytes) → validate_unix s ≢ panic
unfolding validate_unix
validate_unix-ne-panic s = ground arith

join_invalid-Checks : (r : Result (Unit {0})) → r ≢ panic → Checks err_invalid_path (join_invalid r)
join_invalid-Checks (ok _) h = tt
join_invalid-Checks (err e) h = refl
join_invalid-Checks panic h = h refl

platform-ne-panic : (os : Goos) (s : Bytes) → length s ≢ 0 → validate_platform_specific os s ≢ panic
unfolding validate_platform_specific
platform-ne-panic windows s h = validate_windows-ne-panic s h
platform-ne-panic linux s h = validate_unix-ne-panic s
platform-ne-panic darwin s h = validate_unix-ne-panic s
platform-ne-panic bsd s h = validate_unix-ne-panic s

-- On every platform and every text the check of a component returns without a panic, and each of
-- its errors is `ErrInvalidPath`.
pub validate_path_component-Checks :
    (os : Goos) (s : Bytes) → Checks err_invalid_path (validate_path_component os s)
unfolding validate_path_component
validate_path_component-Checks os s = elim (Bool-cases (ltb 255 (length s))) [
  | inl long ↦ rw long refl
  | inr short ↦ rw short (elim (Bool-cases (is_blank s)) [
    | inl blank ↦ rw blank refl
    | inr visible ↦
        rw visible (join_invalid-Checks _ (platform-ne-panic os s (not-blank-length s visible)))
  ])
]

-- A name that Unix systems take, as `validatePlatformSpecific` and the bounds say it.
pub record IsUnixName (s : Bytes) : Type 0 where
  pub short : length s ≤ 255
  pub visible : is_blank s ≡ false
  pub plain : All (λ c. (c ≢ 0) × (c ≢ b'/')) s
  pub not_here : s ≢ codes "."
  pub not_parent : s ≢ codes ".."

any-reserved_iff : (s : Bytes) → (any reserved_unix s ≡ false) ↔ All (λ c. (c ≢ 0) × (c ≢ b'/')) s
unfolding any reserved_unix
any-reserved_iff [] = (λ _. tt, λ _. refl)
any-reserved_iff (c ∷ s) = ground (arith, any-reserved_iff s)

validate_unix_iff :
    (s : Bytes)
    → (validate_unix s ≡ ok tt)
      ↔ (All (λ c. (c ≢ 0) × (c ≢ b'/')) s × (s ≢ codes ".") × (s ≢ codes ".."))
unfolding validate_unix keyword_unix
validate_unix_iff s =
    ground (arith, any-reserved_iff s, bytes_eq_iff s (codes "."), bytes_eq_iff s (codes ".."))

join_invalid-eq-ok : (r : Result (Unit {0})) → (join_invalid r ≡ ok tt) ↔ (r ≡ ok tt)
join_invalid-eq-ok (ok tt) = (λ h. h, λ h. h)
join_invalid-eq-ok (err e) = (λ h. cc, λ h. cc)
join_invalid-eq-ok panic = (λ h. h, λ h. h)

pub passes_iff :
    (os : Goos) (s : Bytes)
    → (validate_path_component os s ≡ ok tt)
      ↔ ((length s ≤ 255) × (is_blank s ≡ false) × (validate_platform_specific os s ≡ ok tt))
unfolding validate_path_component
passes_iff os s = ground (arith, join_invalid-eq-ok (validate_platform_specific os s))

unix-eq : (os : Goos) (s : Bytes) → os ≢ windows → validate_platform_specific os s ≡ validate_unix s
unfolding validate_platform_specific
unix-eq windows s h = absurd (h refl)
unix-eq linux s h = refl
unix-eq darwin s h = refl
unix-eq bsd s h = refl

-- Outside Windows a component passes exactly when it is a Unix name: at most 255 bytes, not blank,
-- with no NUL and no slash, and neither "." nor "..".
pub validate_path_component_iff :
    (os : Goos) (s : Bytes) → os ≢ windows → (validate_path_component os s ≡ ok tt) ↔ IsUnixName s
validate_path_component_iff os s unix =
    let whole = passes_iff os s in
    let platform = validate_unix_iff s in
    (
      λ h.
          let (l, b, p) = whole.0 h in
          let (a, d, e) = platform.0 (rw (unix-eq os s unix) at p) in
          record { short = l; visible = b; plain = a; not_here = d; not_parent = e },
      λ n. whole.1 (
        n.short,
        n.visible,
        rw (unix-eq os s unix) (platform.1 (n.plain, n.not_here, n.not_parent)),
      ),
    )

reserved_mono : (c : ℕ) → reserved_windows c ≡ false → reserved_unix c ≡ false
unfolding reserved_windows reserved_unix
reserved_mono c h = ground arith

any-reserved_mono : (s : Bytes) → any reserved_windows s ≡ false → any reserved_unix s ≡ false
unfolding any
any-reserved_mono [] h = refl
any-reserved_mono (c ∷ s) h = ground (arith, reserved_mono c, any-reserved_mono s)

last-dot : (s : Bytes) → last_is b'.' s ≡ false → keyword_unix s ≡ false
unfolding last_is keyword_unix bytes_eq
last-dot [] h = refl
last-dot (a ∷ []) h = ground arith
last-dot (a ∷ b ∷ []) h = ground arith
last-dot (a ∷ b ∷ c ∷ s) h = ground arith

windows-unix : (s : Bytes) → validate_windows s ≡ ok tt → validate_unix s ≡ ok tt
unfolding validate_windows validate_unix
windows-unix s h = ground (arith, any-reserved_mono s, last-dot s)

-- A component that passes on Windows passes on every platform.
pub validate_path_component-windows :
    (os : Goos) (s : Bytes)
    → validate_path_component windows s ≡ ok tt
    → validate_path_component os s ≡ ok tt
unfolding validate_platform_specific
validate_path_component-windows windows s h = h
validate_path_component-windows linux s h =
    let (l, b, p) = (passes_iff windows s).0 h in (passes_iff linux s).1 (l, b, windows-unix s p)
validate_path_component-windows darwin s h =
    let (l, b, p) = (passes_iff windows s).0 h in (passes_iff darwin s).1 (l, b, windows-unix s p)
validate_path_component-windows bsd s h =
    let (l, b, p) = (passes_iff windows s).0 h in (passes_iff bsd s).1 (l, b, windows-unix s p)
