-- ===== src/Filesystem/Path/Whole.antt =====
-- filesystem/path.go: whole paths, and the paths of sockets.
use primordium.Base.{
  ◌⊎◌, drop, ℕ, ◌+◌, ◌≤◌, ◌≡◌, ◌≢◌, ◌↔◌, refl, sym, true, Bool-cases, inl, inr, Bytes, All, List,
  [], ◌∷◌, ◌++◌, arith, length, ◌==◌,
}
use primordium.Errors.{is, Result, ok, err, panic, ◌>>◌, >>_assoc}
use primordium.Fault.{err_invalid_argument}
use primordium.Filesystem.Errors.{err_invalid_path}
use primordium.Filesystem.Platform.{Goos, linux, darwin, windows, bsd}
use primordium.Filesystem.Path.Text.{split_on, onto_first}
use primordium.Filesystem.Path.Component.{Checks, validate_path_component-Checks}
use primordium.Filesystem.Path.Names.{IsName, validate_path_component-IsName}
use primordium.Filesystem.Path.{
  separator, wrap_invalid, validate_path_component, validate_components, validate_path,
  validate_socket_path,
}

split_on-ne-nil : (sep : ℕ) (s : Bytes) → split_on sep s ≢ []
unfolding split_on
split_on-ne-nil sep [] = ground arith
split_on-ne-nil sep (c ∷ s) = ground arith

onto_first-append :
    (c : ℕ) (ps qs : List Bytes) → ps ≢ [] → onto_first c (ps ++ qs) ≡ onto_first c ps ++ qs
onto_first-append c [] qs h = absurd (h refl)
onto_first-append c (p ∷ ps) qs h = refl

-- A separator splits a text into the parts of both sides.
split_on-append :
    (sep : ℕ) (s t : Bytes) → split_on sep (s ++ sep ∷ t) ≡ split_on sep s ++ split_on sep t
unfolding split_on
split_on-append sep [] t = ground arith
split_on-append sep (c ∷ s) t =
    rw
      (
        split_on-append sep s t,
        onto_first-append c (split_on sep s) (split_on sep t) (split_on-ne-nil sep s),
      )
      (ground arith)

validate_components-append :
    (os : Goos) (xs ys : List Bytes)
    → validate_components os (xs ++ ys) ≡ (validate_components os xs >> validate_components os ys)
unfolding validate_components
validate_components-append os [] ys = refl
validate_components-append os (x ∷ xs) ys =
    rw (validate_components-append os xs ys) (elim (Bool-cases (length x == 0)) [
      | inl empty ↦ rw empty
      | inr name ↦ rw name (
          sym (
            >>_assoc (wrap_invalid (validate_path_component os x)) (validate_components os xs)
              (validate_components os ys)))
    ])

-- Where no volume is stripped, a path made of two joined by a separator is checked as the first and
-- then the second are: it passes if both do, and fails as the first that fails.
pub validate_path-append :
    (os : Goos) (p q : Bytes)
    → validate_path (λ _. 0) os (p ++ separator os ∷ q)
      ≡ (validate_path (λ _. 0) os p >> validate_path (λ _. 0) os q)
unfolding validate_path
validate_path-append os p q =
    rw (split_on-append (separator os) p q)
      (validate_components-append os (split_on (separator os) p) (split_on (separator os) q))

-- A component that is left out or is a name.
abbrev pub EmptyOrName : Goos → Bytes → Type 0
EmptyOrName os c = (length c ≡ 0) ⊎ IsName os c

wrap_invalid-eq-ok : (r : Result (Unit {0})) → (wrap_invalid r ≡ ok tt) ↔ (r ≡ ok tt)
wrap_invalid-eq-ok (ok tt) = (λ h. h, λ h. h)
wrap_invalid-eq-ok (err e) = (λ h. cc, λ h. cc)
wrap_invalid-eq-ok panic = (λ h. h, λ h. h)

>>-eq-ok : (m n : Result (Unit {0})) → ((m >> n) ≡ ok tt) ↔ ((m ≡ ok tt) × (n ≡ ok tt))
>>-eq-ok (ok tt) n = (λ h. (refl, h), λ h. h.1)
>>-eq-ok (err e) n = (λ h. cc, λ h. cc)
>>-eq-ok panic n = (λ h. cc, λ h. cc)

EmptyOrName-IsName : (os : Goos) (c : Bytes) → length c ≢ 0 → EmptyOrName os c → IsName os c
EmptyOrName-IsName os c h (inl e) = absurd (h e)
EmptyOrName-IsName os c h (inr n) = n

validate_components_iff :
    (os : Goos) (cs : List Bytes) → (validate_components os cs ≡ ok tt) ↔ All (EmptyOrName os) cs
unfolding validate_components
validate_components_iff os [] = (λ _. tt, λ _. refl)
validate_components_iff os (c ∷ cs) =
    let ih = validate_components_iff os cs in
    elim (Bool-cases (length c == 0)) [
      | inl empty ↦
          let none' : length c ≡ 0 = ground arith in
          rw empty (λ h. (inl none', ih.0 h), λ h. ih.1 h.1)
      | inr name ↦
          let some' : length c ≢ 0 = ground arith in
          let part = wrap_invalid-eq-ok (validate_path_component os c) in
          let whole = validate_path_component-IsName os c in
          let both =
            >>-eq-ok (wrap_invalid (validate_path_component os c)) (validate_components os cs) in
          rw name (
            λ h. let (a, b) = both.0 h in (inr (whole.0 (part.0 a)), ih.0 b),
            λ h. both.1 (part.1 (whole.1 (EmptyOrName-IsName os c some' h.0)), ih.1 h.1),
          )
    ]

-- On every platform a path passes exactly when every component between its separators, after its
-- volume, is empty or a name on that platform.
pub validate_path_iff :
    (volume : Bytes → ℕ) (os : Goos) (path : Bytes)
    → (validate_path volume os path ≡ ok tt)
      ↔ All (EmptyOrName os) (split_on (separator os) (drop (volume path) path))
unfolding validate_path
validate_path_iff volume os path =
    validate_components_iff os (split_on (separator os) (drop (volume path) path))

-- A check returned, and any error is `ErrInvalidArgument` and `ErrInvalidPath` at once.
abbrev pub ChecksPath : Result (Unit {0}) → Type 0
ChecksPath (ok _) = Unit
ChecksPath (err e) = (is e err_invalid_argument ≡ true) × (is e err_invalid_path ≡ true)
ChecksPath panic = ⊥

then-ChecksPath :
    (r rest : Result (Unit {0}))
    → Checks err_invalid_path r
    → ChecksPath rest
    → ChecksPath (wrap_invalid r >> rest)
then-ChecksPath (ok _) rest h k = k
then-ChecksPath (err e) rest h k = (refl, h)
then-ChecksPath panic rest h k = h

validate_components-ChecksPath :
    (os : Goos) (cs : List Bytes) → ChecksPath (validate_components os cs)
unfolding validate_components
validate_components-ChecksPath os [] = tt
validate_components-ChecksPath os (c ∷ cs) =
    let ih = validate_components-ChecksPath os cs in
    elim (Bool-cases (length c == 0)) [
      | inl empty ↦ rw empty ih
      | inr name ↦ rw name (then-ChecksPath _ _ (validate_path_component-Checks os c) ih)
    ]

-- On every platform, whatever the volume, the check of a path returns without a panic, and each of
-- its errors is both `ErrInvalidArgument` and `ErrInvalidPath`.
pub validate_path-ChecksPath :
    (volume : Bytes → ℕ) (os : Goos) (path : Bytes) → ChecksPath (validate_path volume os path)
unfolding validate_path
validate_path-ChecksPath volume os path = validate_components-ChecksPath os _

-- The bytes of `sun_path` in the platform's `struct sockaddr_un`.
pub data SunPath : Goos → ℕ → Type 0 where
  linux_size : SunPath linux 108
  windows_size : SunPath windows 108
  darwin_size : SunPath darwin 104
  bsd_size : SunPath bsd 104

-- A path is accepted as a socket address exactly when its bytes and a NUL fit `sun_path`: 108 bytes on
-- Linux and Windows, 104 on Darwin and the BSDs. A longer one gives an error that is
-- `ErrInvalidArgument`, and the check does not panic.
pub validate_socket_path_iff :
    {os : Goos} {room : ℕ} (path : Bytes)
    → SunPath os room
    → ((validate_socket_path os path ≡ ok tt) ↔ (length path + 1 ≤ room))
      × Checks err_invalid_argument (validate_socket_path os path)
unfolding validate_socket_path
validate_socket_path_iff path linux_size = ground arith
validate_socket_path_iff path darwin_size = ground arith
validate_socket_path_iff path windows_size = ground arith
validate_socket_path_iff path bsd_size = ground arith
