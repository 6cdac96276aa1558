-- ===== src/UavRouting/Outcome.antt =====
-- The static variables of the simulation, and how its functions run over them.
use manet_testbed.Base.{ℕ, ℤ, List, ◌∷◌}
use manet_testbed.UavRouting.Ns3.{Call, Double, Ns3}

pub record Sim : Type 0 where
  pub current_tx_bytes : ℕ
  pub current_rx_bytes : ℕ
  pub packets_received : ℕ
  -- the array `data`
  pub data_bytes : List ℕ
  -- not a variable of the program: the calls of ns-3 so far, the newest first
  pub log : List Call

-- A function returns; ends the program by NS_FATAL_ERROR; goes through a null pointer; or used up
-- the rounds that its loop was given.
pub data Outcome (A : Type 0) : Type 0 where
  returned : A → Sim → Outcome A
  aborted : Sim → Outcome A
  crashed : Sim → Outcome A
  exhausted : Sim → Outcome A

abbrev pub M : Type 0 → Type 0
M A = Sim → Outcome A

abbrev pub pure : {A : Type 0} → A → M A
pure a s = returned a s

abbrev pub and_then : {A B : Type 0} → Outcome A → (A → M B) → Outcome B
and_then (returned a s) k = k a s
and_then (aborted s) k = aborted s
and_then (crashed s) k = crashed s
and_then (exhausted s) k = exhausted s

infixl 5 ◌>>=◌ ◌>>◌
abbrev pub ◌>>=◌ : {A B : Type 0} → M A → (A → M B) → M B
◌>>=◌ m k s = and_then (m s) k

abbrev pub ◌>>◌ : {A B : Type 0} → M A → M B → M B
m >> k = m >>= λ _. k

abbrev pub gets : {A : Type 0} → (Sim → A) → M A
gets f s = returned (f s) s

abbrev pub modify : (Sim → Sim) → M (Unit {0})
modify f s = returned tt (f s)

-- A call of ns-3 is added to the log.
abbrev pub called : Call → Sim → Sim
called c s = record s { log = c ∷ s.log }

-- A call whose result is not used, and one that gives an object, a number or a `double`.
unfoldable pub call : Call → M (Unit {0})
call c s = returned tt (called c s)

module _ (ns3 : Ns3) where
  unfoldable pub object : Call → M ℕ
  object c s = returned (ns3.object (c ∷ s.log)) (called c s)

  unfoldable pub number : Call → M ℤ
  number c s = returned (ns3.number (c ∷ s.log)) (called c s)

  unfoldable pub double : Call → M Double
  double c s = returned (ns3.double (c ∷ s.log)) (called c s)
