-- ===== src/Filesystem/Path/Device.antt =====
-- filesystem/path_windows.go: the names of devices.
use mathlib.Core.Path.{subst}
use primordium.Base.{
  sym, ap, ◌∙◌, ℕ, ◌≤◌, ◌≡◌, ◌≢◌, ◌↔◌, refl, true, false, ◌==◌, ◌||◌, ◌&&◌, leb, Bool-cases, inl,
  inr, Bytes, codes, bytes_eq, bytes_eq_iff, All, [], ◌∷◌, ◌++◌, ◌⊎◌, Option-cases, some, arith,
}
use primordium.Filesystem.Path.Text.{any, fold}
use primordium.Filesystem.Path.{port_digit, extension, device, keyword_windows}

-- A byte that Windows takes in a name: no control character, and none of `<>:"/\|?*`.
abbrev pub Plain : ℕ → Type 0
Plain c =
    (0x20 ≤ c)
    × (c ≢ b'<')
    × (c ≢ b'>')
    × (c ≢ b':')
    × (c ≢ 0x22)
    × (c ≢ b'/')
    × (c ≢ 0x5c)
    × (c ≢ b'|')
    × (c ≢ b'?')
    × (c ≢ b'*')

-- The number of a port: a digit that is not 0, or a superscript 1, 2 or 3.
abbrev pub Port : Bytes → Type 0
Port (c ∷ []) = (b'1' ≤ c) × (c ≤ b'9')
Port (c ∷ d ∷ []) = (c ≡ 0xc2) × ((d ≡ 0xb9) ⊎ (d ≡ 0xb2) ⊎ (d ≡ 0xb3))
Port _ = ⊥

-- A device, by three letters in lower case and what is after them.
abbrev pub Device : Bytes → Bytes → Type 0
Device word port =
    (((word ≡ codes "con") ⊎ (word ≡ codes "prn") ⊎ (word ≡ codes "nul") ⊎ (word ≡ codes "aux"))
      × (port ≡ []))
    ⊎ (((word ≡ codes "com") ⊎ (word ≡ codes "lpt")) × Port port)

-- Nothing, or a dot and anything.
abbrev pub Dotted : Bytes → Type 0
Dotted [] = Unit {0}
Dotted (c ∷ s) = c ≡ b'.'

-- What is after the letters of a device: a port, or nothing, and an extension, or nothing.
abbrev pub Found : Bytes → Bytes → Type 0
Found word s = (port : Bytes) × (rest : Bytes) × (s ≡ port ++ rest) × Device word port × Dotted rest

-- A device in letters of either case, with or without an extension.
abbrev pub IsDevice : Bytes → Type 0
IsDevice (a ∷ b ∷ c ∷ s) = Found (fold a ∷ fold b ∷ fold c ∷ []) s
IsDevice _ = ⊥

no_newline : (s : Bytes) → All Plain s → any (λ d. d == 0x0a) s ≡ false
unfolding any
no_newline [] h = refl
no_newline (c ∷ s) h = ground (arith, no_newline s)

extension_iff : (s : Bytes) → All Plain s → (extension s ≡ true) ↔ Dotted s
unfolding extension
extension_iff [] h = (λ _. tt, λ _. refl)
extension_iff (c ∷ s) h = ground (arith, no_newline s h.1)

-- What `port_digit` takes off is a port.
port_digit-Port :
    (s : Bytes) {rest : Bytes}
    → port_digit s ≡ some rest
    → (port : Bytes) × Port port × (s ≡ port ++ rest)
unfolding port_digit
port_digit-Port [] h = cc
port_digit-Port (c ∷ []) {rest} h = (c ∷ [], ground arith, ground arith)
port_digit-Port (c ∷ d ∷ s) {rest} h = elim (Bool-cases (leb b'1' c && leb c b'9')) [
  | inl digit ↦ (c ∷ [], ground arith, ground arith)
  | inr other ↦ (c ∷ d ∷ [], ground arith, ground arith)
]

Port-port_digit :
    (port rest : Bytes) → Port port → Dotted rest → port_digit (port ++ rest) ≡ some rest
unfolding port_digit
Port-port_digit [] rest h k = absurd h
Port-port_digit (c ∷ []) [] h k = ground arith
Port-port_digit (c ∷ []) (d ∷ s) h k = ground arith
Port-port_digit (c ∷ d ∷ []) rest h k = ground arith
Port-port_digit (c ∷ d ∷ e ∷ s) rest h k = absurd h

abbrev Whole : Bytes → Type 0
Whole word =
    (word ≡ codes "con") ⊎ (word ≡ codes "prn") ⊎ (word ≡ codes "nul") ⊎ (word ≡ codes "aux")

abbrev Numbered : Bytes → Type 0
Numbered word = (word ≡ codes "com") ⊎ (word ≡ codes "lpt")

Whole-iff :
    (word : Bytes)
    → ((bytes_eq word (codes "con")
          || bytes_eq word (codes "prn")
          || bytes_eq word (codes "nul")
          || bytes_eq word (codes "aux"))
        ≡ true)
      ↔ Whole word
Whole-iff word = ground (
  arith,
  bytes_eq_iff word (codes "con"),
  bytes_eq_iff word (codes "prn"),
  bytes_eq_iff word (codes "nul"),
  bytes_eq_iff word (codes "aux"),
)

Numbered-iff :
    (word : Bytes)
    → ((bytes_eq word (codes "com") || bytes_eq word (codes "lpt")) ≡ true) ↔ Numbered word
Numbered-iff word = ground (arith, bytes_eq_iff word (codes "com"), bytes_eq_iff word (codes "lpt"))

Numbered-not-Whole :
    (word : Bytes)
    → Numbered word
    → (bytes_eq word (codes "con")
        || bytes_eq word (codes "prn")
        || bytes_eq word (codes "nul")
        || bytes_eq word (codes "aux"))
      ≡ false
unfolding bytes_eq
Numbered-not-Whole word (inl e) = rw e refl
Numbered-not-Whole word (inr e) = rw e refl

All-right : (P : ℕ → Type 0) (s t : Bytes) → All P (s ++ t) → All P t
All-right P [] t h = h
All-right P (c ∷ s) t h = All-right P s t h.1

device-Found : (word s : Bytes) → All Plain s → device word s ≡ true → Found word s
unfolding device
device-Found word s p h =
    elim (Bool-cases (
      bytes_eq word (codes "con")
      || bytes_eq word (codes "prn")
      || bytes_eq word (codes "nul")
      || bytes_eq word (codes "aux"))) [
        | inl e ↦ ([], s, refl, inl ((Whole-iff word).0 e, refl), (extension_iff s p).0 (rw e at h))
        | inr n ↦ elim (Bool-cases (bytes_eq word (codes "com") || bytes_eq word (codes "lpt"))) [
          | inl e ↦ elim (Option-cases (port_digit s)) [
            | inl stuck ↦ absurd (ground arith)
            | inr (rest, found) ↦
                let (port, is_port, split) = port_digit-Port s found in
                let plain : All Plain rest = All-right Plain port rest (rw split at p) in
                (
                  port,
                  rest,
                  split,
                  inr ((Numbered-iff word).0 e, is_port),
                  (extension_iff rest plain).0 (rw (n, e, found) at h),
                )
          ]
          | inr k ↦ absurd (ground arith)
        ]
      ]

Found-device : (word s : Bytes) → All Plain s → Found word s → device word s ≡ true
unfolding device
Found-device word s p (port, rest, split, inl (w, none'), d) =
    let same : s ≡ rest = split ∙ ap (λ (t : Bytes). t ++ rest) none' in
    rw ((Whole-iff word).1 w) ((extension_iff s p).1 (subst Dotted (sym same) d))
Found-device word s p (port, rest, split, inr (w, q), d) =
    let plain : All Plain rest = All-right Plain port rest (rw split at p) in
    let found : port_digit s ≡ some rest = ap port_digit split ∙ Port-port_digit port rest q d in
    rw (Numbered-not-Whole word w, (Numbered-iff word).1 w, found) ((extension_iff rest plain).1 d)

pub keyword_iff : (s : Bytes) → All Plain s → (keyword_windows s ≡ true) ↔ IsDevice s
unfolding keyword_windows
keyword_iff [] p = (λ h. absurd (ground arith), λ h. absurd h)
keyword_iff (a ∷ []) p = (λ h. absurd (ground arith), λ h. absurd h)
keyword_iff (a ∷ b ∷ []) p = (λ h. absurd (ground arith), λ h. absurd h)
keyword_iff (a ∷ b ∷ c ∷ s) p =
    let word : Bytes = fold a ∷ fold b ∷ fold c ∷ [] in
    (device-Found word s p.1.1.1, Found-device word s p.1.1.1)
