-- ===== src/Api/Laws.antt =====
-- What is said of a run: that it returns with a postcondition, or that it keeps a predicate of the
-- state however it ends; and the rules by which a run is taken apart.
use manet_testbed.Base.{◌≡◌, true}
use manet_testbed.Api.Globals.{State}
use manet_testbed.Api.Monad.{Run, M, done, blocked, fault, out_of_fuel, ◌>>=◌}

-- The run returns, and its value and final state satisfy `Q`.
abbrev pub Returns : {A : Type 0} → (A → State → Type 0) → Run A → Type 0
Returns Q (done a s) = Q a s
Returns Q (blocked s) = ⊥
Returns Q (fault s) = ⊥
Returns Q (out_of_fuel s) = ⊥

-- Wherever the run stops, the state there satisfies `P`.
abbrev pub Leaves : {A : Type 0} → (State → Type 0) → Run A → Type 0
Leaves P (done a s) = P s
Leaves P (blocked s) = P s
Leaves P (fault s) = P s
Leaves P (out_of_fuel s) = P s

-- The run waits for ever, and holds the mutex while it waits.
abbrev pub WaitsLocked : {A : Type 0} → Run A → Type 0
WaitsLocked (blocked s) = s.lock ≡ true
WaitsLocked _ = ⊥

module _ {A B : Type 0} where
  pub Returns-bind :
      (P : A → State → Type 0) (Q : B → State → Type 0) (m : M A) (k : A → M B) (s : State)
      → Returns P (m s)
      → ((a : A) (t : State) → P a t → Returns Q (k a t))
      → Returns Q ((m >>= k) s)
  Returns-bind P Q m k s h next = bind (m s) h
    where
      bind : (r : Run A) → Returns P r → Returns Q (◌>>=◌ (λ _. r) k s)
      bind (done a t) p = next a t p
      bind (blocked t) p = absurd p
      bind (fault t) p = absurd p
      bind (out_of_fuel t) p = absurd p

  pub Leaves-bind :
      (P : State → Type 0) (m : M A) (k : A → M B) (s : State)
      → Leaves P (m s)
      → ((a : A) (t : State) → P t → Leaves P (k a t))
      → Leaves P ((m >>= k) s)
  Leaves-bind P m k s h next = bind (m s) h
    where
      bind : (r : Run A) → Leaves P r → Leaves P (◌>>=◌ (λ _. r) k s)
      bind (done a t) p = next a t p
      bind (blocked t) p = p
      bind (fault t) p = p
      bind (out_of_fuel t) p = p

module _ {A : Type 0} where
  pub Returns-mono :
      (P Q : A → State → Type 0) (r : Run A)
      → Returns P r
      → ((a : A) (t : State) → P a t → Q a t)
      → Returns Q r
  Returns-mono P Q (done a t) h weaken = weaken a t h
  Returns-mono P Q (blocked t) h weaken = h
  Returns-mono P Q (fault t) h weaken = h
  Returns-mono P Q (out_of_fuel t) h weaken = h

  pub Leaves-mono :
      (P Q : State → Type 0) (r : Run A) → Leaves P r → ((t : State) → P t → Q t) → Leaves Q r
  Leaves-mono P Q (done a t) h weaken = weaken t h
  Leaves-mono P Q (blocked t) h weaken = weaken t h
  Leaves-mono P Q (fault t) h weaken = weaken t h
  Leaves-mono P Q (out_of_fuel t) h weaken = weaken t h
