-- ===== src/App/Shutdown/Examples.antt =====
-- Handlers that write their names down.
use primordium.Base.{ℕ, ◌≡◌, refl, true, false, List, [], ◌∷◌, ◌++◌, ◌==◌, if◌then◌else◌}
use primordium.App.Shutdown.{App, shutdown}
use primordium.App.Shutdown.Laws.{run_reversed, shutdown-run_reversed}

-- Handler 7 registers handler 8.
abbrev note : ℕ → List ℕ → List ℕ × List ℕ
note h log = (log ++ (h ∷ []), if h == 7 then 8 ∷ [] else [])

abbrev app : App note
app = record { handlers = 5 ∷ 7 ∷ 9 ∷ []; done = false; world = [] }

stops_in_order : (shutdown note app).world ≡ 9 ∷ 7 ∷ 5 ∷ []
unfolding shutdown
stops_in_order = refl

shutdown-run_reversed_example :
    shutdown note app ≡ record (run_reversed note app.handlers app) { done = true }
shutdown-run_reversed_example = shutdown-run_reversed note app refl
