-- ===== src/Base/Maps.antt =====
-- A Go map with string keys, as the list of its entries.
use mathlib.Core.Option.{Option, none, some}
use mathlib.Core.List.{List, [], ◌∷◌}
use primordium.Base.Tests.{Bytes, bytes_eq, if◌then◌else◌}

-- `m[key]`
unfoldable pub find {ℓ} : {V : Type ℓ} → Bytes → List (Bytes × V) → Option V
find key [] = none
find key ((k, v) ∷ rest) = if bytes_eq k key then some v else find key rest
