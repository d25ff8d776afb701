-- ===== src/Filesystem/Lock/Returns.antt =====
-- Calls that may run out of fuel: that one comes back, and with what.
use mathlib.Core.Option
use primordium.Base.{Option, none, some}

-- The call came back, and with such a result.
abbrev pub Returns : {A : Type 0} → (A → Type 0) → Option A → Type 0
Returns P none = ⊥
Returns P (some x) = P x

pub Returns-mono :
    {A : Type 0} {P Q : A → Type 0}
    → ((x : A) → P x → Q x)
    → (o : Option A) → Returns P o
    → Returns Q o
Returns-mono f none h = absurd h
Returns-mono f (some x) h = f x h

pub Returns-map :
    {A B : Type 0} {P : A → Type 0} (Q : B → Type 0) (f : A → B)
    → ((x : A) → P x → Q (f x))
    → (o : Option A) → Returns P o
    → Returns Q (Option.map f o)
Returns-map Q f step none h = absurd h
Returns-map Q f step (some x) h = step x h

pub Returns-bind :
    {A B : Type 0} {P : A → Type 0} (Q : B → Type 0) (f : A → Option B)
    → ((x : A) → P x → Returns Q (f x))
    → (o : Option A) → Returns P o
    → Returns Q (Option.bind o f)
unfolding Option.bind
Returns-bind Q f step none h = absurd h
Returns-bind Q f step (some x) h = step x h
