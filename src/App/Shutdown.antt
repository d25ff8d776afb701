-- ===== src/App/Shutdown.antt =====
-- app/shutdown/shutdown.go: handlers that run when the program stops. A handler is known by its
-- name; a call of it changes the world, and may register more handlers. A handler that calls
-- `Shutdown` waits for itself in `sync.Once`: here it does not.
pub mod Laws
pub mod Process
mod Examples
use primordium.Base.{
  ℕ, zero, suc, ◌+◌, Bool, true, false, List, [], ◌∷◌, ◌++◌, length, Option, none, some,
  if◌then◌else◌,
}

-- `handlers[i]`, if there is one.
abbrev pub get {ℓ} : {A : Type ℓ} → List A → ℕ → Option A
get [] i = none
get (x ∷ xs) zero = some x
get (x ∷ xs) (suc i) = get xs i

module _ {Handler World : Type 0} (call : Handler → World → World × List Handler) where
  -- The package's variables: the handlers, and whether `shutdownOnce` is used up.
  pub record App : Type 0 where
    pub handlers : List Handler
    pub done : Bool
    pub world : World

  unfoldable pub register : Handler → App → App
  register h a = record a { handlers = a.handlers ++ (h ∷ []) }

  abbrev register_all : List Handler → App → App
  register_all hs a = record a { handlers = a.handlers ++ hs }

  unfoldable pub invoke : Handler → App → App
  invoke h a = let (w, hs) = call h a.world in register_all hs (record a { world = w })

  -- `handlers[i]()`; the index is in range.
  abbrev invoke_at : Option Handler → App → App
  unfolding invoke
  invoke_at none a = a
  invoke_at (some h) a = invoke h a

  -- `for i := n - 1; i >= 0; i--`
  unfoldable pub run_down : List Handler → ℕ → App → App
  unfolding invoke_at
  run_down handlers zero a = a
  run_down handlers (suc i) a = run_down handlers i (invoke_at (get handlers i) a)

  unfoldable pub shutdown : App → App
  unfolding run_down
  shutdown a =
      if a.done then a else record (run_down a.handlers (length a.handlers) a) { done = true }
