-- ===== src/Filesystem/Locations.antt =====
-- filesystem/locations.go: the directories of an application. The environment is a parameter.
pub mod Laws
mod Examples
use primordium.Base.{ℕ, Bytes, codes, List, [], ◌∷◌, ◌++◌, Option, none, some, ◌⊎◌, inl, inr}
use primordium.Errors.{Error, Result, ok, err, panic, wrap_two, ◌>>=◌}
use primordium.Fault.{err_filesystem_failure}
use primordium.Filesystem.Platform.{Goos, linux, darwin, windows, bsd}
use primordium.Filesystem.Locker.{dir_permissions_private}

-- `runtime.GOOS`, the calls of packages os and path/filepath, and the package's `name`.
pub record Host : Type 1 where
  pub State : Type 0
  pub goos : Goos
  pub name : Bytes
  pub getenv : Bytes → Bytes
  pub temp_dir : Bytes
  pub user_home_dir : Error ⊎ Bytes
  pub user_config_dir : Error ⊎ Bytes
  pub join_path : List Bytes → Bytes
  pub mkdir_all : State → Bytes → ℕ → State × Option Error

module _ (H : Host) where
  -- Panic on an error.
  abbrev pub found : Error ⊎ Bytes → Result Bytes
  found (inl e) = panic
  found (inr dir) = ok dir

  unfoldable pub home_dir : Result Bytes
  home_dir = found H.user_home_dir

  -- A path below the home directory.
  unfoldable pub below_home : List Bytes → Result Bytes
  unfolding home_dir
  below_home parts = do home ← home_dir; ok (H.join_path (home ∷ parts))

  -- The path below a variable's value, or the other one where the variable is empty.
  unfoldable pub below_variable : Bytes → List Bytes → Result Bytes → Result Bytes
  below_variable [] parts other = other
  below_variable (c ∷ cs) parts other = ok (H.join_path ((c ∷ cs) ∷ parts))

  abbrev pub temporary : Result Bytes
  temporary = ok (H.join_path (H.temp_dir ∷ H.name ∷ []))

  unfoldable pub runtime_base : Goos → Result Bytes
  unfolding below_variable
  runtime_base linux = below_variable (H.getenv (codes "XDG_RUNTIME_DIR")) (H.name ∷ []) temporary
  runtime_base darwin = temporary
  runtime_base windows = temporary
  runtime_base bsd = temporary

  -- `getDataDir`
  unfoldable pub get_data_dir : Goos → Result Bytes
  unfolding below_home below_variable
  get_data_dir darwin = below_home (codes "Library" ∷ codes "Application Support" ∷ H.name ∷ [])
  get_data_dir linux =
      below_variable (H.getenv (codes "XDG_DATA_HOME")) (H.name ∷ [])
        (below_home (codes ".local" ∷ codes "share" ∷ H.name ∷ []))
  get_data_dir windows =
      below_variable (H.getenv (codes "LOCALAPPDATA")) (H.name ∷ [])
        (below_home (codes "AppData" ∷ codes "Local" ∷ H.name ∷ []))
  get_data_dir bsd = below_home (codes ".local" ∷ codes "share" ∷ H.name ∷ [])

  -- `getCacheDir`
  unfoldable pub get_cache_dir : Goos → Result Bytes
  unfolding below_home below_variable
  get_cache_dir darwin = below_home (codes "Library" ∷ codes "Caches" ∷ H.name ∷ [])
  get_cache_dir linux =
      below_variable (H.getenv (codes "XDG_CACHE_HOME")) (H.name ∷ [])
        (below_home (codes ".cache" ∷ H.name ∷ []))
  get_cache_dir windows =
      below_variable (H.getenv (codes "LOCALAPPDATA")) (H.name ∷ codes "cache" ∷ [])
        (below_home (codes "AppData" ∷ codes "Local" ∷ H.name ∷ codes "cache" ∷ []))
  get_cache_dir bsd = below_home (codes ".cache" ∷ H.name ∷ [])

  abbrev pub Outcome : Type 0
  Outcome = H.State × Result Bytes

  abbrev pub after_mkdir : Bytes → H.State × Option Error → Outcome
  after_mkdir dir (s, none) = (s, ok dir)
  after_mkdir dir (s, some e) = (s, err (wrap_two err_filesystem_failure e))

  -- Make the directory, and return its path.
  unfoldable pub make_dir : H.State → Bytes → Outcome
  make_dir s dir = after_mkdir dir (H.mkdir_all s dir dir_permissions_private)

  unfoldable pub make_found : H.State → Result Bytes → Outcome
  unfolding make_dir
  make_found s (ok dir) = make_dir s dir
  make_found s (err e) = (s, err e)
  make_found s panic = (s, panic)

  unfoldable pub runtime_dir : H.State → Outcome
  unfolding make_found runtime_base
  runtime_dir s = make_found s (runtime_base H.goos)

  unfoldable pub data_dir : H.State → Outcome
  unfolding make_found get_data_dir
  data_dir s = make_found s (get_data_dir H.goos)

  unfoldable pub config_base : Result Bytes
  config_base = do base ← found H.user_config_dir; ok (H.join_path (base ∷ H.name ∷ []))

  unfoldable pub config_dir : H.State → Outcome
  unfolding make_found config_base
  config_dir s = make_found s config_base

  unfoldable pub cache_base : List Bytes → Result Bytes
  unfolding get_cache_dir
  cache_base sub = do dir ← get_cache_dir H.goos; ok (H.join_path (dir ∷ sub))

  unfoldable pub cache_dir : H.State → List Bytes → Outcome
  unfolding make_found cache_base
  cache_dir s sub = make_found s (cache_base sub)

  unfoldable pub below_cache : Outcome → Outcome
  unfolding make_dir
  below_cache (s, ok dir) = make_dir s (H.join_path (dir ∷ codes "bin" ∷ []))
  below_cache (s, err e) = (s, err e)
  below_cache (s, panic) = (s, panic)

  unfoldable pub bin_dir : H.State → Outcome
  unfolding below_cache cache_dir
  bin_dir s = below_cache (cache_dir s [])
