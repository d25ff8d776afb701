-- ===== src/Filesystem/Path/Windows.antt =====
-- filesystem/path_windows.go: the names that Windows takes.
use primordium.Base.{
  sym, ap, ◌∙◌, ℕ, ◌≡◌, ◌≢◌, ◌↔◌, refl, true, false, Bool-cases, inl, inr, Bytes, codes, All, [],
  ◌∷◌, ◌++◌, arith, length,
}
use primordium.Errors.{ok}
use primordium.Filesystem.Path.Text.{any, last_is}
use primordium.Filesystem.Path.{reserved_windows, keyword_windows, validate_windows}
use primordium.Filesystem.Path.Device.{Plain, IsDevice, keyword_iff}

reserved_iff : (s : Bytes) → (any reserved_windows s ≡ false) ↔ All Plain s
unfolding any reserved_windows
reserved_iff [] = (λ _. tt, λ _. refl)
reserved_iff (c ∷ s) = ground (arith, reserved_iff s)

last_is-Ends : (d : ℕ) (t : Bytes) → last_is d (t ++ d ∷ []) ≡ true
unfolding last_is
last_is-Ends d [] = ground arith
last_is-Ends d (c ∷ []) = ground arith
last_is-Ends d (c ∷ b ∷ t) = last_is-Ends d (b ∷ t)

Ends-last_is : (d : ℕ) (s : Bytes) → last_is d s ≡ true → (t : Bytes) × (s ≡ t ++ d ∷ [])
unfolding last_is
Ends-last_is d [] h = absurd (ground arith)
Ends-last_is d (c ∷ []) h = ([], ground arith)
Ends-last_is d (c ∷ b ∷ s) h =
    let (t, e) = Ends-last_is d (b ∷ s) h in (c ∷ t, ap (λ (x : Bytes). c ∷ x) e)

false-ne-true : false ≢ true
false-ne-true h = cc

last_is_iff : (d : ℕ) (s : Bytes) → (last_is d s ≡ false) ↔ ((t : Bytes) → s ≢ t ++ d ∷ [])
last_is_iff d s = (
  λ h t e. absurd (false-ne-true (sym h ∙ ap (last_is d) e ∙ last_is-Ends d t)),
  λ h. elim (Bool-cases (last_is d s)) [
    | inl e ↦ let (t, same) = Ends-last_is d s e in absurd (h t same)
    | inr e ↦ e
  ],
)

keyword-not-IsDevice : (s : Bytes) → All Plain s → (keyword_windows s ≡ false) ↔ (¬ IsDevice s)
keyword-not-IsDevice s p = (
  λ h d. absurd (false-ne-true (sym h ∙ (keyword_iff s p).1 d)),
  λ n. elim (Bool-cases (keyword_windows s)) [
    | inl e ↦ absurd (n ((keyword_iff s p).0 e))
    | inr e ↦ e
  ],
)

-- What `validatePlatformSpecific` asks of a text that is not empty.
pub record IsPlatformName (s : Bytes) : Type 0 where
  pub plain : All Plain s
  pub not_device : ¬ IsDevice s
  pub no_dot : (t : Bytes) → s ≢ t ++ codes "."
  pub no_space : (t : Bytes) → s ≢ t ++ codes " "

validates :
    (s : Bytes)
    → length s ≢ 0
    → (validate_windows s ≡ ok tt) ↔ (
        (any reserved_windows s ≡ false)
        × (keyword_windows s ≡ false)
        × (last_is b'.' s ≡ false)
        × (last_is b' ' s ≡ false))
unfolding validate_windows
validates s h = ground arith

pub validate_windows_iff :
    (s : Bytes) → length s ≢ 0 → (validate_windows s ≡ ok tt) ↔ IsPlatformName s
validate_windows_iff s h = (
  λ v.
      let (r, k, d, e) = (validates s h).0 v in
      let plain : All Plain s = (reserved_iff s).0 r in
      record {
        plain = plain;
        not_device = (keyword-not-IsDevice s plain).0 k;
        no_dot = (last_is_iff b'.' s).0 d;
        no_space = (last_is_iff b' ' s).0 e;
      },
  λ n. (validates s h).1 (
    (reserved_iff s).1 n.plain,
    (keyword-not-IsDevice s n.plain).1 n.not_device,
    (last_is_iff b'.' s).1 n.no_dot,
    (last_is_iff b' ' s).1 n.no_space,
  ),
)
