-- ===== src/Traffic/Deadlock.antt =====
-- A registration that fails in one thread stops the calls of all threads that take the mutex.
use manet_testbed.Base.{
  ℕ, Bool, true, false, List, ◌≡◌, refl, sym, ◌∙◌, inl, inr, ◌==◌, ==_iff, Bool-cases, ltb,
}
use manet_testbed.Netlink.{Netlink}
use manet_testbed.Api.{State, Run, done, blocked, fault, out_of_fuel, Os}
use manet_testbed.System.Misread.{read_result}
use manet_testbed.Queue.Handlers.{Netfilter}
use manet_testbed.Interleaving.{
  Call, Point, reads_error, reads_address, gives, Next, goes, ends, advance,
}
use manet_testbed.Interleaving.Schedule.{
  Place, outside, waits, inside, leaves, crashed, World, live, place, put, step, give, take_step,
  call_at, move,
}
use manet_testbed.Interleaving.Serial.{
  IsInside, NoneInside, put-IsInside, put-NoneInside, mutex_lock-cases,
}
use manet_testbed.Traffic.{Step, idle, course}
use manet_testbed.Traffic.Within.{IsKept, course-kept}
use manet_testbed.Traffic.Monitor.{Touched-lock, Monitored, Monitored-IsKept}
use manet_testbed.Traffic.OneInside.{Anything, AnythingWithin, Anything-IsMonitor}
use manet_testbed.Traffic.Failing.{FailsHeld, advance-FailsHeld, IsFailing}
use manet_testbed.Traffic.Stuck.{IsStuck, StuckSince, StuckSince-IsKept}

-- Where a thread's call is about to return a failure, the program is stuck.
abbrev AllFailuresStick : World → Type 0
AllFailuresStick w = (j : ℕ) → IsFailing (w.places j) → IsStuck w

-- A thread that is not inside goes elsewhere outside, to no failure.
put-AllFailuresStick :
    (w : World) (i : ℕ) (p : Place)
    → ¬ IsInside p
    → ¬ IsFailing p
    → AllFailuresStick w
    → AllFailuresStick (place w i p)
put-AllFailuresStick w i p away well h j fails = elim (Bool-cases (j == i)) [
  | inl here ↦ absurd (well (rw here at fails))
  | inr other ↦
      let (held, nobody) = h j (rw other at fails) in
      (held, put-NoneInside i p w.places away nobody)
]

module _ (os : Os) (nl : Netlink) where
  abbrev OneInside : World → Type 0
  OneInside = Monitored os nl (Anything os nl) (AnythingWithin os nl)

  -- While a thread is inside, no call is about to fail.
  none_fails :
      (w : World) (i turn : ℕ) (p : Point)
      → w.places i ≡ inside turn p
      → AllFailuresStick w
      → (j : ℕ) → ¬ IsFailing (w.places j)
  none_fails w i turn p at h j fails = (h j fails).1 i (rw at tt)

  -- The thread inside goes on or leaves.
  from_inside :
      (w : World) (i turn : ℕ) (p : Point) (q : Place) (t : State)
      → w.places i ≡ inside turn p
      → (IsFailing q → IsStuck (record w { shared = t; places = put i q w.places }))
      → AllFailuresStick w
      → AllFailuresStick (record w { shared = t; places = put i q w.places })
  from_inside w i turn p q t at stuck h j fails = elim (Bool-cases (j == i)) [
    | inl here ↦ stuck (rw here at fails)
    | inr other ↦ absurd (none_fails w i turn p at h j (rw other at fails))
  ]

  -- Nobody is inside when the one thread that was has left.
  left_behind :
      (w : World) (i : ℕ) (q : Place)
      → ¬ IsInside q
      → ((j : ℕ) → IsInside (w.places j) → j ≡ i)
      → NoneInside (put i q w.places)
  left_behind w i q away only j in_j =
      let (was, other) = put-IsInside i j q w.places away in_j in
      cc (other, (==_iff j i).1 (only j was))

  step-AllFailuresStick :
      (w : World) (i turn : ℕ) (p : Point) (r : Run Next)
      → w.places i ≡ inside turn p
      → w.shared.lock ≡ true
      → ((j : ℕ) → IsInside (w.places j) → j ≡ i)
      → FailsHeld w.shared r
      → AllFailuresStick w
      → AllFailuresStick (step w i turn r)
  step-AllFailuresStick w i turn p (done (goes q) t) at held only left h =
      from_inside w i turn p (inside turn q) t at (λ f. absurd f) h
  step-AllFailuresStick w i turn p (done (ends reads_error) t) at held only left h =
      from_inside w i turn p (leaves turn reads_error) t at (λ f. absurd f) h
  step-AllFailuresStick w i turn p (done (ends (reads_address frame buf)) t) at held only left h =
      from_inside w i turn p (leaves turn (reads_address frame buf)) t at (λ f. absurd f) h
  step-AllFailuresStick w i turn p (done (ends (gives n)) t) at held only left h =
      from_inside w i turn p (leaves turn (gives n)) t at
        (λ f. (
          elim left [ inl zero_given ↦ absurd (f zero_given) | inr same ↦ same ∙ held ],
          left_behind w i (leaves turn (gives n)) (λ g. g) only,
        ))
        h
  step-AllFailuresStick w i turn p (blocked t) at held only left h = h
  step-AllFailuresStick w i turn p (fault t) at held only left h =
      from_inside w i turn p crashed t at (λ f. absurd f) h
  step-AllFailuresStick w i turn p (out_of_fuel t) at held only left h =
      from_inside w i turn p crashed t at (λ f. absurd f) h

  take_step-AllFailuresStick :
      (w : World) (i : ℕ) (at : Place)
      → w.places i ≡ at
      → OneInside w
      → AllFailuresStick w
      → AllFailuresStick (take_step os nl at i w)
  unfolding take_step
  take_step-AllFailuresStick w i outside e o h = h
  take_step-AllFailuresStick w i crashed e o h = h
  take_step-AllFailuresStick w i (waits c) e o h = elim (mutex_lock-cases w.shared) [
    | inl waiting ↦ rw waiting h
    | inr (free, taken) ↦ rw taken (λ j fails. elim (Bool-cases (j == i)) [
      | inl here ↦ absurd (rw here at fails)
      | inr other ↦ absurd (differ w.shared.lock free (h j (rw other at fails)).0)
    ])
  ]
    where
      differ : (b : Bool) → b ≡ false → b ≡ true → ⊥
      differ b e f = cc
  take_step-AllFailuresStick w i (inside turn p) e (inl (nobody, _)) h = absurd (nobody i (rw e tt))
  take_step-AllFailuresStick w i (inside turn p) e (inr o) h =
      step-AllFailuresStick w i turn p (advance os nl p w.shared) e o.held
        (λ j in_j. o.only j in_j ∙ sym (o.only i (rw e tt))) (advance-FailsHeld os nl p w.shared) h
  take_step-AllFailuresStick w i (leaves turn reads_error) e o h =
      put-AllFailuresStick w i outside (λ g. g) (λ g. g) h
  take_step-AllFailuresStick w i (leaves turn (gives n)) e o h =
      put-AllFailuresStick w i outside (λ g. g) (λ g. g) h
  take_step-AllFailuresStick w i (leaves turn (reads_address frame buf)) e o h =
      given (read_result (live w.count w.places) w.shared)
    where
      given : (r : Run ℕ) → AllFailuresStick (give w i turn r)
      given (done address t) = put-AllFailuresStick w i outside (λ g. g) (λ g. g) h
      given (blocked t) = put-AllFailuresStick w i crashed (λ g. g) (λ g. g) h
      given (fault t) = put-AllFailuresStick w i crashed (λ g. g) (λ g. g) h
      given (out_of_fuel t) = put-AllFailuresStick w i crashed (λ g. g) (λ g. g) h

  call_at-AllFailuresStick :
      (w : World) (i : ℕ) (c : Call) (at : Place)
      → AllFailuresStick w
      → AllFailuresStick (call_at os nl at i c w)
  call_at-AllFailuresStick w i c outside h = elim (Bool-cases (ltb i w.count)) [
    | inl there ↦ rw there (put-AllFailuresStick w i (waits c) (λ g. g) (λ g. g) h)
    | inr nobody ↦ rw nobody h
  ]
  call_at-AllFailuresStick w i c (waits d) h = h
  call_at-AllFailuresStick w i c (inside turn p) h = h
  call_at-AllFailuresStick w i c (leaves turn e) h = h
  call_at-AllFailuresStick w i c crashed h = h

  abbrev Sound : World → Type 0
  Sound w = OneInside w × AllFailuresStick w

  Sound-IsKept : IsKept os nl Sound
  unfolding move
  Sound-IsKept =
      let one =
        Monitored-IsKept os nl (Anything os nl) (AnythingWithin os nl) (Anything-IsMonitor os nl) in
      record {
        by_call =
            λ w i c h. (one.by_call w i c h.0, call_at-AllFailuresStick w i c (w.places i) h.1);
        by_step = λ w i h.
            (one.by_step w i h.0, take_step-AllFailuresStick w i (w.places i) refl h.0 h.1);
        by_touch = λ w t touched h. (
          one.by_touch w t touched h.0,
          λ j fails. (Touched-lock touched ∙ (h.1 j fails).0, (h.1 j fails).1),
        );
        by_crash = λ w i at h.
            (one.by_crash w i at h.0, put-AllFailuresStick w i crashed (λ g. g) (λ g. g) h.1);
      }

  -- Threads that are in no call and have no packet at first make the calls that take the mutex, send,
  -- and handle packets, in any order of their steps. Once the call of one of them is about to return a
  -- result other than 0 that is already made, as a registration that fails does, the mutex is held with
  -- no thread inside, and it stays so whatever steps follow: no further call takes it in any thread.
  pub course-Deadlock :
      (nf : Netfilter) (s : State) (count : ℕ) (ms later : List Step) (i : ℕ)
      → IsFailing ((course os nl nf ms (idle count s)).world.places i)
      → let x = course os nl nf ms (idle count s) in
        let y = course os nl nf later x in
        (y.world.shared.lock ≡ true)
        × NoneInside y.world.places
        × (y.world.entered ≡ x.world.entered)
  course-Deadlock nf s count ms later i fails =
      let x = course os nl nf ms (idle count s) in
      let (_, sticks) =
        course-kept os nl nf Sound Sound-IsKept ms (idle count s)
          (inl ((λ j in_j. in_j), tt), λ j failing. absurd failing) in
      let (held, nobody) = sticks i fails in
      course-kept os nl nf (StuckSince x.world.entered) (StuckSince-IsKept os nl x.world.entered)
        later x (held, nobody, refl)
