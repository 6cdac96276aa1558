-- ===== src/Api/Monad.antt =====
-- How a C function runs over the global state.
use manet_testbed.Api.Globals.{State}

-- It returns; it waits for ever, for the mutex or for a message; it reads through a null or
-- dangling pointer, or calls a null one; or it used up the rounds that its loop was given.
pub data Run (A : Type 0) : Type 0 where
  done : A → State → Run A
  blocked : State → Run A
  fault : State → Run A
  out_of_fuel : State → Run A

abbrev pub M : Type 0 → Type 0
M A = State → Run A

abbrev pub pure : {A : Type 0} → A → M A
pure a s = done a s

abbrev pub and_then : {A B : Type 0} → Run A → (A → M B) → Run B
and_then (done a s) k = k a s
and_then (blocked s) k = blocked s
and_then (fault s) k = fault s
and_then (out_of_fuel s) k = out_of_fuel s

infixl 5 ◌>>=◌ ◌>>◌
abbrev pub ◌>>=◌ : {A B : Type 0} → M A → (A → M B) → M B
◌>>=◌ m k s = and_then (m s) k

abbrev pub ◌>>◌ : {A B : Type 0} → M A → M B → M B
m >> k = m >>= λ _. k

abbrev pub gets : {A : Type 0} → (State → A) → M A
gets f s = done (f s) s

abbrev pub modify : (State → State) → M (Unit {0})
modify f s = done tt (f s)
