-- ===== src/UavRouting/Laws.antt =====
-- What is said of how a function of the simulation ends, and the rules by which it is taken apart.
use manet_testbed.UavRouting.Outcome.{
  Sim, Outcome, returned, aborted, crashed, exhausted, M, and_then,
}

-- How a call ends: it returns, and its final state satisfies `Q`.
abbrev pub Returned : {A : Type 0} → (A → Sim → Type 0) → Outcome A → Type 0
Returned Q (returned a s) = Q a s
Returned Q (aborted s) = ⊥
Returned Q (crashed s) = ⊥
Returned Q (exhausted s) = ⊥

pub Returned-mono :
    {A : Type 0} (P Q : A → Sim → Type 0) (r : Outcome A)
    → Returned P r
    → ((a : A) (t : Sim) → P a t → Q a t)
    → Returned Q r
Returned-mono P Q (returned a t) h weaken = weaken a t h
Returned-mono P Q (aborted t) h weaken = h
Returned-mono P Q (crashed t) h weaken = h
Returned-mono P Q (exhausted t) h weaken = h

pub Returned-bind :
    {A B : Type 0} (P : A → Sim → Type 0) (Q : B → Sim → Type 0) (r : Outcome A) (k : A → M B)
    → Returned P r
    → ((a : A) (t : Sim) → P a t → Returned Q (k a t))
    → Returned Q (and_then r k)
Returned-bind P Q (returned a t) k h next = next a t h
Returned-bind P Q (aborted t) k h next = absurd h
Returned-bind P Q (crashed t) k h next = absurd h
Returned-bind P Q (exhausted t) k h next = absurd h
