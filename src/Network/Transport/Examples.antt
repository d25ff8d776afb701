-- ===== src/Network/Transport/Examples.antt =====
-- One transport at the start.
use primordium.Base.{◌≡◌, refl}
use primordium.Errors.{ok, panic}
use primordium.Network.Transport.{Globals, set_defaults, new_transport}
use primordium.Network.Transport.Small.{net, first, at_start}
use primordium.Network.Transport.Laws.{Ready, Adds, set_defaults-Ready}

set_defaults-Ready_example :
    (new_transport net at_start ≡ panic)
    × (g' : Globals net) × (set_defaults net at_start ≡ ok g')
    × Ready net at_start 0 first g'
    × (g'' : Globals net) × (new_transport net g' ≡ ok (g'', 1))
    × Adds net g' first g''
set_defaults-Ready_example = set_defaults-Ready net at_start 0 first refl refl refl
