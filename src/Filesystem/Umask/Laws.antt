-- ===== src/Filesystem/Umask/Laws.antt =====
-- filesystem/umask.go and init.go: whether the package knows the mask of the process.
use primordium.Base.{
  ℕ, ◌%◌, ◌<◌, ◌≡◌, refl, true, false, Bool-cases, inl, inr, ◌==◌, Bytes, arith, ◌&&◌, ◌||◌, ltb,
  leb,
}
use primordium.Errors.{Result, ok}
use primordium.Filesystem.ReadSeeker.{sign}
use primordium.Filesystem.Umask.{Kernel, Process, set_umask, get_umask, initialize, max_uint32}

-- umask(2): the mask of the process is nine bits.
pub record IsKernel (K : Kernel) : Type 0 where
  pub mask_of : K.State → ℕ
  pub mask_small : (s : K.State) → mask_of s < 512
  pub umask_returns : (s : K.State) (mask : ℕ) → (K.umask s mask).1 ≡ mask_of s
  pub umask_sets : (s : K.State) (mask : ℕ) → mask_of (K.umask s mask).0 ≡ mask % 512

pub get_umask-set_umask :
    (K : Kernel) (mask : ℕ) (p : Process K) → get_umask K (set_umask K mask p) ≡ mask
unfolding set_umask
get_umask-set_umask K mask p = elim (Bool-cases (mask == p.current_mask)) [
  | inl e ↦ rw e (ground arith)
  | inr e ↦ rw e refl
]

module _ (K : Kernel) (L : IsKernel K) where
  -- The package knows the mask of the process.
  abbrev pub Synced : Process K → Type 0
  Synced p = L.mask_of p.system ≡ get_umask K p

  -- Where the package knows the mask of the process, `SetUmask` sets it to any nine bits, and the
  -- package still knows it.
  pub set_umask-Synced :
      (mask : ℕ) (p : Process K)
      → mask < 512
      → Synced p
      → Synced (set_umask K mask p) × (get_umask K (set_umask K mask p) ≡ mask)
  unfolding set_umask
  set_umask-Synced mask p h k = elim (Bool-cases (mask == p.current_mask)) [
    | inl e ↦ rw e (k, ground arith)
    | inr e ↦ rw e (omega (arith, h, L.umask_sets p.system mask), refl)
  ]

  -- What the process is after `Inititalize`.
  abbrev pub Unmasked : K.State → Result (Process K) → Type 0
  Unmasked s (ok p) =
      (L.mask_of p.system ≡ 0) × (get_umask K p ≡ L.mask_of s) × (set_umask K (L.mask_of s) p ≡ p)
  Unmasked s _ = ⊥

  -- `Inititalize` leaves the process without a mask. `GetUmask` then returns the mask that the
  -- process had, and `SetUmask` of that mask does nothing.
  pub initialize-Unmasked :
      (app_name : Bytes) (p : Process K) → Unmasked p.system (initialize K app_name p)
  unfolding initialize set_umask
  initialize-Unmasked app_name p =
      let small : L.mask_of p.system < 512 = L.mask_small p.system in
      let cleared : L.mask_of (K.umask p.system 0).0 ≡ 0 = L.umask_sets p.system 0 in
      let m : ℕ = L.mask_of p.system in
      let in_range : ((ltb max_uint32 m && ltb m sign) || leb sign m) ≡ false = ground arith in
      let same : (m == m) ≡ true = ground arith in
      rw (L.umask_returns p.system 0, in_range) (cleared, refl, rw same refl)
