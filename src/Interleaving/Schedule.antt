-- ===== src/Interleaving/Schedule.antt =====
-- Threads that make calls, and a scheduler that lets any of them take its next step.
use manet_testbed.Base.{
  ℕ, zero, suc, ℤ, pos, minus_one, is_zero, Option, none, some, List, [], ◌∷◌, ◌++◌, if◌then◌else◌,
  ◌==◌, length, ltb,
}
use manet_testbed.Netlink.{Mem, Netlink}
use manet_testbed.Api.{State, Run, done, blocked, fault, out_of_fuel, Os, mutex_lock}
use manet_testbed.System.{state_of}
use manet_testbed.System.Misread.{read_result}
use manet_testbed.Interleaving.{
  in_query, Call, Point, awaits_dump, checks_dump, parses_dump, frees_queried, Ending, reads_error,
  reads_address, gives, Next, goes, ends, first, advance, perform_call,
}

-- Where a thread stands: outside the library, at the mutex, inside what it guards, behind that, or
-- at a read through a bad pointer. `turn` says the how many-th call it was to take the mutex.
pub data Place : Type 0 where
  outside : Place
  waits : Call → Place
  inside : (turn : ℕ) → Point → Place
  leaves : (turn : ℕ) → Ending → Place
  crashed : Place

pub record World : Type 0 where
  pub shared : State
  -- the threads, by number
  pub count : ℕ
  pub places : ℕ → Place
  -- not variables of the program: the calls in the order in which they took the mutex, and the
  -- results that calls have returned, each with the call's turn
  pub entered : List Call
  pub returned : List (ℕ × ℤ)

-- All threads outside.
abbrev pub at_rest : ℕ → State → World
at_rest count s = record {
  shared = s;
  count = count;
  places = λ i. outside;
  entered = [];
  returned = [];
}

abbrev pub put : ℕ → Place → (ℕ → Place) → ℕ → Place
put i p places j = if j == i then p else places j

-- The buffer of a `GetInterfaceIP` that has not returned, if it is the `frame`-th call.
abbrev buffer_at : ℕ → Mem → ℕ → Option Mem
buffer_at frame buf wanted = if frame == wanted then some buf else none

abbrev pub buffer : Place → ℕ → Option Mem
buffer (inside turn (in_query (awaits_dump frame buf type))) wanted = buffer_at frame buf wanted
buffer (inside turn (in_query (checks_dump frame len buf type))) wanted = buffer_at frame buf wanted
buffer (inside turn (in_query (parses_dump frame len buf type))) wanted = buffer_at frame buf wanted
buffer (inside turn (in_query (frees_queried frame buf))) wanted = buffer_at frame buf wanted
buffer (leaves turn (reads_address frame buf)) wanted = buffer_at frame buf wanted
buffer _ wanted = none

abbrev pub or_else : Option Mem → Option Mem → Option Mem
or_else none other = other
or_else (some buf) other = some buf

-- The live buffers of all threads.
unfoldable pub live : ℕ → (ℕ → Place) → ℕ → Option Mem
live zero places wanted = none
live (suc n) places wanted = or_else (buffer (places n) wanted) (live n places wanted)

-- What may happen next: a thread that is outside calls a function, or a thread takes a step.
pub data Move : Type 0 where
  begins : (thread : ℕ) → Call → Move
  runs : (thread : ℕ) → Move

abbrev pub place : World → ℕ → Place → World
place w i p = record w { places = put i p w.places }

-- A call that returns.
abbrev pub returns : World → ℕ → ℕ → ℤ → World
returns w i turn result = record w {
  places = put i outside w.places;
  returned = (turn, result) ∷ w.returned;
}

-- The mutex is taken by whoever finds it free.
abbrev pub enter : World → ℕ → Call → Run (Unit {0}) → World
enter w i c (done _ s) = record w {
  shared = s;
  places = put i (inside (length w.entered) (first c)) w.places;
  entered = w.entered ++ (c ∷ []);
}
enter w i c _ = w

-- What a step leaves: a thread that waits for a message stays where it is.
abbrev pub step : World → ℕ → ℕ → Run Next → World
step w i turn (done (goes p) s) = record w { shared = s; places = put i (inside turn p) w.places }
step w i turn (done (ends e) s) = record w { shared = s; places = put i (leaves turn e) w.places }
step w i turn (blocked s) = w
step w i turn (fault s) = record w { shared = s; places = put i crashed w.places }
step w i turn (out_of_fuel s) = record w { shared = s; places = put i crashed w.places }

-- The result of `GetInterfaceIP`, read through `addr`.
abbrev pub give : World → ℕ → ℕ → Run ℕ → World
give w i turn (done address s) = returns w i turn (pos address)
give w i turn _ = place w i crashed

module _ (os : Os) (nl : Netlink) where
  -- The next step of a thread, by where it stands.
  unfoldable pub take_step : Place → ℕ → World → World
  take_step outside i w = w
  take_step (waits c) i w = enter w i c (mutex_lock w.shared)
  take_step (inside turn p) i w = step w i turn (advance os nl p w.shared)
  take_step (leaves turn reads_error) i w =
      returns w i turn (if is_zero w.shared.f_err then pos 0 else minus_one)
  take_step (leaves turn (reads_address frame buf)) i w =
      give w i turn (read_result (live w.count w.places) w.shared)
  take_step (leaves turn (gives n)) i w = returns w i turn (pos n)
  take_step crashed i w = w

  abbrev pub call_at : Place → ℕ → Call → World → World
  call_at outside i c w = if ltb i w.count then place w i (waits c) else w
  call_at _ i c w = w

  unfoldable pub move : Move → World → World
  unfolding take_step
  move (begins i c) w = call_at (w.places i) i c w
  move (runs i) w = take_step (w.places i) i w

  unfoldable pub moves : List Move → World → World
  unfolding move
  moves [] w = w
  moves (m ∷ ms) w = moves ms (move m w)

  -- The calls made one after the other, each in one piece.
  unfoldable pub in_turn : List Call → State → State
  in_turn [] s = s
  in_turn (c ∷ cs) s = in_turn cs (state_of (perform_call os nl c s))
