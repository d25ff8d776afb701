-- ===== src/Filesystem/Locations/Examples.antt =====
-- A Linux system with no variables set, on which every directory can be made.
use primordium.Base.{◌≡◌, refl, Bytes, codes, List, [], ◌∷◌, ◌++◌, none, inr}
use primordium.Errors.{ok}
use primordium.Filesystem.Platform.{linux}
use primordium.Filesystem.Locations.{Host, runtime_dir, data_dir, config_dir, cache_dir, bin_dir}
use primordium.Filesystem.Locations.Laws.{Gives, Unknown, DataUnknown, CacheUnknown, dirs-Gives}

abbrev joined : List Bytes → Bytes
joined [] = []
joined (p ∷ ps) = p ++ codes "/" ++ joined ps

-- The state is the last directory made.
abbrev host : Host
host = record {
  State = Bytes;
  goos = linux;
  name = codes "app";
  getenv = λ variable. [];
  temp_dir = codes "tmp";
  user_home_dir = inr (codes "home");
  user_config_dir = inr (codes "config");
  join_path = joined;
  mkdir_all = λ s path perm. (path, none);
}

abbrev LastMade : Bytes → Bytes → Type 0
LastMade s dir = s ≡ dir

data_below_home :
    data_dir host [] ≡ (codes "home/.local/share/app/", ok (codes "home/.local/share/app/"))
unfolding data_dir
data_below_home = refl

dirs-Gives_example :
    Gives host LastMade ⊥ (runtime_dir host [])
    × Gives host LastMade (DataUnknown host LastMade linux) (data_dir host [])
    × Gives host LastMade (Unknown host LastMade (inr (codes "config"))) (config_dir host [])
    × Gives host LastMade (CacheUnknown host LastMade linux) (cache_dir host [] [])
    × Gives host LastMade (CacheUnknown host LastMade linux) (bin_dir host [])
dirs-Gives_example = dirs-Gives host LastMade (λ s dir perm. refl) [] []
