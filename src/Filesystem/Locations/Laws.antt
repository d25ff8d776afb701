-- ===== src/Filesystem/Locations/Laws.antt =====
-- filesystem/locations.go: what the functions give, and when they panic.
use primordium.Base.{
  ℕ, ◌≡◌, refl, true, Bytes, codes, List, [], ◌∷◌, Option, none, some, ◌⊎◌, inl, inr,
}
use primordium.Errors.{Error, is, Result, ok, err, panic, ◌>>=◌}
use primordium.Fault.{err_filesystem_failure}
use primordium.Filesystem.Platform.{Goos, linux, darwin, windows, bsd}
use primordium.Filesystem.Locations.{
  Host, found, below_home, below_variable, temporary, runtime_base, get_data_dir, get_cache_dir,
  Outcome, after_mkdir, make_dir, make_found, runtime_dir, data_dir, config_base, config_dir,
  cache_base, cache_dir, below_cache, bin_dir,
}

module _ (H : Host) (exists : H.State → Bytes → Type 0) where
  -- `os.MkdirAll` leaves a directory at the path where it reports no error.
  abbrev pub Mkdir : Bytes → H.State × Option Error → Type 0
  Mkdir dir (s, none) = exists s dir
  Mkdir dir (s, some e) = Unit {0}

  -- The user's directory that is asked for is not known.
  abbrev pub Unknown : Error ⊎ Bytes → Type 0
  Unknown (inl e) = Unit {0}
  Unknown (inr dir) = ⊥

  -- The directory that is returned exists; an error is an `ErrFilesystemFailure`; a panic is for such
  -- a reason.
  abbrev pub Gives : Type 0 → Outcome H → Type 0
  Gives Reason (s, ok dir) = exists s dir
  Gives Reason (s, err e) = is e err_filesystem_failure ≡ true
  Gives Reason (s, panic) = Reason

  -- It finds a path, or panics for such a reason.
  abbrev Finds : Type 0 → Result Bytes → Type 0
  Finds Reason (ok dir) = Unit {0}
  Finds Reason (err e) = ⊥
  Finds Reason panic = Reason

  found-Finds :
      (x : Error ⊎ Bytes) (f : Bytes → Bytes) → Finds (Unknown x) (found H x >>= λ dir. ok (f dir))
  found-Finds (inl e) f = tt
  found-Finds (inr dir) f = tt

  -- The variable is empty, and the home directory is not known.
  abbrev pub NoPlace : Bytes → Type 0
  NoPlace variable = (H.getenv variable ≡ []) × Unknown H.user_home_dir

  below_variable-Finds :
      (value : Bytes) (parts : List Bytes) (other : Result Bytes) (Reason : Type 0)
      → Finds Reason other
      → Finds ((value ≡ []) × Reason) (below_variable H value parts other)
  unfolding below_variable
  below_variable-Finds [] parts (ok dir) Reason h = tt
  below_variable-Finds [] parts (err e) Reason h = absurd h
  below_variable-Finds [] parts panic Reason h = (refl, h)
  below_variable-Finds (c ∷ cs) parts other Reason h = tt

  below_home-Finds : (parts : List Bytes) → Finds (Unknown H.user_home_dir) (below_home H parts)
  unfolding below_home
  below_home-Finds parts = found-Finds H.user_home_dir (λ home. H.join_path (home ∷ parts))

  variable_or_home-Finds :
      (variable : Bytes) (parts home_parts : List Bytes)
      → Finds
          (NoPlace variable)
          (below_variable H (H.getenv variable) parts (below_home H home_parts))
  variable_or_home-Finds variable parts home_parts =
      below_variable-Finds (H.getenv variable) parts (below_home H home_parts)
        (Unknown H.user_home_dir) (below_home-Finds home_parts)

  -- Why `DataDir` panics.
  abbrev pub DataUnknown : Goos → Type 0
  DataUnknown linux = NoPlace (codes "XDG_DATA_HOME")
  DataUnknown windows = NoPlace (codes "LOCALAPPDATA")
  DataUnknown darwin = Unknown H.user_home_dir
  DataUnknown bsd = Unknown H.user_home_dir

  -- Why `CacheDir` panics.
  abbrev pub CacheUnknown : Goos → Type 0
  CacheUnknown linux = NoPlace (codes "XDG_CACHE_HOME")
  CacheUnknown windows = NoPlace (codes "LOCALAPPDATA")
  CacheUnknown darwin = Unknown H.user_home_dir
  CacheUnknown bsd = Unknown H.user_home_dir

  get_data_dir-Finds : (os : Goos) → Finds (DataUnknown os) (get_data_dir H os)
  unfolding get_data_dir
  get_data_dir-Finds linux =
      variable_or_home-Finds (codes "XDG_DATA_HOME") (H.name ∷ [])
        (codes ".local" ∷ codes "share" ∷ H.name ∷ [])
  get_data_dir-Finds windows =
      variable_or_home-Finds (codes "LOCALAPPDATA") (H.name ∷ [])
        (codes "AppData" ∷ codes "Local" ∷ H.name ∷ [])
  get_data_dir-Finds darwin =
      below_home-Finds (codes "Library" ∷ codes "Application Support" ∷ H.name ∷ [])
  get_data_dir-Finds bsd = below_home-Finds (codes ".local" ∷ codes "share" ∷ H.name ∷ [])

  get_cache_dir-Finds : (os : Goos) → Finds (CacheUnknown os) (get_cache_dir H os)
  unfolding get_cache_dir
  get_cache_dir-Finds linux =
      variable_or_home-Finds (codes "XDG_CACHE_HOME") (H.name ∷ []) (codes ".cache" ∷ H.name ∷ [])
  get_cache_dir-Finds windows =
      variable_or_home-Finds (codes "LOCALAPPDATA") (H.name ∷ codes "cache" ∷ [])
        (codes "AppData" ∷ codes "Local" ∷ H.name ∷ codes "cache" ∷ [])
  get_cache_dir-Finds darwin = below_home-Finds (codes "Library" ∷ codes "Caches" ∷ H.name ∷ [])
  get_cache_dir-Finds bsd = below_home-Finds (codes ".cache" ∷ H.name ∷ [])

  set_or-Finds : (value : Bytes) → Finds ⊥ (below_variable H value (H.name ∷ []) (temporary H))
  unfolding below_variable
  set_or-Finds [] = tt
  set_or-Finds (c ∷ cs) = tt

  runtime_base-Finds : (os : Goos) → Finds ⊥ (runtime_base H os)
  unfolding runtime_base
  runtime_base-Finds linux = set_or-Finds (H.getenv (codes "XDG_RUNTIME_DIR"))
  runtime_base-Finds darwin = tt
  runtime_base-Finds windows = tt
  runtime_base-Finds bsd = tt

  bind-Finds :
      (Reason : Type 0) (f : Bytes → Bytes) (x : Result Bytes)
      → Finds Reason x
      → Finds Reason (x >>= λ dir. ok (f dir))
  bind-Finds Reason f (ok dir) h = tt
  bind-Finds Reason f (err e) h = h
  bind-Finds Reason f panic h = h

  module _
      (mkdir_lem : (s : H.State) (dir : Bytes) (perm : ℕ)
        → Mkdir dir (H.mkdir_all s dir perm)) where
    after_mkdir-Gives :
        (Reason : Type 0) (dir : Bytes) (x : H.State × Option Error)
        → Mkdir dir x
        → Gives Reason (after_mkdir H dir x)
    after_mkdir-Gives Reason dir (s, none) h = h
    after_mkdir-Gives Reason dir (s, some e) h = refl

    make_found-Gives :
        (Reason : Type 0) (s : H.State) (x : Result Bytes)
        → Finds Reason x
        → Gives Reason (make_found H s x)
    unfolding make_found
    make_found-Gives Reason s (ok dir) h = after_mkdir-Gives Reason dir _ (mkdir_lem s dir _)
    make_found-Gives Reason s (err e) h = absurd h
    make_found-Gives Reason s panic h = h

    cache_dir-Gives :
        (s : H.State) (sub : List Bytes) → Gives (CacheUnknown H.goos) (cache_dir H s sub)
    unfolding cache_dir cache_base
    cache_dir-Gives s sub = make_found-Gives (CacheUnknown H.goos) s _ (
        bind-Finds (CacheUnknown H.goos) (λ dir. H.join_path (dir ∷ sub)) (get_cache_dir H H.goos)
          (get_cache_dir-Finds H.goos))

    below_cache-Gives :
        (Reason : Type 0) (x : Outcome H) → Gives Reason x → Gives Reason (below_cache H x)
    unfolding below_cache make_dir
    below_cache-Gives Reason (s, ok dir) h = after_mkdir-Gives Reason _ _ (mkdir_lem s _ _)
    below_cache-Gives Reason (s, err e) h = h
    below_cache-Gives Reason (s, panic) h = h

    -- Each of the five functions returns a directory that exists, or an `ErrFilesystemFailure`, or it
    -- panics. `RuntimeDir` never panics. `ConfigDir` panics only where the system knows no
    -- configuration directory. `DataDir`, `CacheDir` and `BinDir` panic only where the home directory
    -- is not known and, on Linux and Windows, the variable that would be taken instead is empty.
    pub dirs-Gives :
        (s : H.State) (sub : List Bytes)
        → Gives ⊥ (runtime_dir H s)
          × Gives (DataUnknown H.goos) (data_dir H s)
          × Gives (Unknown H.user_config_dir) (config_dir H s)
          × Gives (CacheUnknown H.goos) (cache_dir H s sub)
          × Gives (CacheUnknown H.goos) (bin_dir H s)
    unfolding runtime_dir data_dir config_dir config_base bin_dir
    dirs-Gives s sub = (
      make_found-Gives ⊥ s _ (runtime_base-Finds H.goos),
      make_found-Gives (DataUnknown H.goos) s _ (get_data_dir-Finds H.goos),
      make_found-Gives (Unknown H.user_config_dir) s _
          (found-Finds H.user_config_dir (λ base. H.join_path (base ∷ H.name ∷ []))),
      cache_dir-Gives s sub,
      below_cache-Gives (CacheUnknown H.goos) _ (cache_dir-Gives s []),
    )
