-- ===== src/Traffic/Stuck.antt =====
-- While the mutex is held and no thread is inside, no call takes it.
use manet_testbed.Base.{ℕ, true, List, ◌≡◌, refl, ◌∙◌, inl, inr, Bool-cases, ltb}
use manet_testbed.Netlink.{Netlink}
use manet_testbed.Api.{Run, done, blocked, fault, out_of_fuel, Os}
use manet_testbed.System.Misread.{read_result}
use manet_testbed.Interleaving.{Call, reads_error, reads_address, gives}
use manet_testbed.Interleaving.Schedule.{
  Place, outside, waits, inside, leaves, crashed, World, live, place, give, take_step, call_at,
  move,
}
use manet_testbed.Interleaving.Serial.{IsInside, NoneInside, put-NoneInside, mutex_lock-held}
use manet_testbed.Traffic.Within.{IsKept}
use manet_testbed.Traffic.Monitor.{Touched-lock}

-- The mutex is held, and no thread is there to free it.
abbrev pub IsStuck : World → Type 0
IsStuck w = (w.shared.lock ≡ true) × NoneInside w.places

-- Stuck since the calls `cs` took the mutex.
abbrev pub StuckSince : List Call → World → Type 0
StuckSince cs w = (w.shared.lock ≡ true) × NoneInside w.places × (w.entered ≡ cs)

module _ (os : Os) (nl : Netlink) (cs : List Call) where
  put-StuckSince :
      (w : World) (i : ℕ) (p : Place) → ¬ IsInside p → StuckSince cs w → StuckSince cs (place w i p)
  put-StuckSince w i p away (held, nobody, same) =
      (held, put-NoneInside i p w.places away nobody, same)

  take_step-StuckSince :
      (w : World) (i : ℕ) (at : Place)
      → w.places i ≡ at
      → StuckSince cs w
      → StuckSince cs (take_step os nl at i w)
  unfolding take_step
  take_step-StuckSince w i outside e h = h
  take_step-StuckSince w i crashed e h = h
  take_step-StuckSince w i (waits c) e h = rw (mutex_lock-held w.shared h.0) h
  take_step-StuckSince w i (inside turn p) e h = absurd (h.1 i (rw e tt))
  take_step-StuckSince w i (leaves turn reads_error) e h = put-StuckSince w i outside (λ g. g) h
  take_step-StuckSince w i (leaves turn (gives n)) e h = put-StuckSince w i outside (λ g. g) h
  take_step-StuckSince w i (leaves turn (reads_address frame buf)) e h =
      given (read_result (live w.count w.places) w.shared)
    where
      given : (r : Run ℕ) → StuckSince cs (give w i turn r)
      given (done address t) = put-StuckSince w i outside (λ g. g) h
      given (blocked t) = put-StuckSince w i crashed (λ g. g) h
      given (fault t) = put-StuckSince w i crashed (λ g. g) h
      given (out_of_fuel t) = put-StuckSince w i crashed (λ g. g) h

  call_at-StuckSince :
      (w : World) (i : ℕ) (c : Call) (at : Place)
      → StuckSince cs w
      → StuckSince cs (call_at os nl at i c w)
  call_at-StuckSince w i c outside h = elim (Bool-cases (ltb i w.count)) [
    | inl there ↦ rw there (put-StuckSince w i (waits c) (λ g. g) h)
    | inr nobody ↦ rw nobody h
  ]
  call_at-StuckSince w i c (waits d) h = h
  call_at-StuckSince w i c (inside turn p) h = h
  call_at-StuckSince w i c (leaves turn e) h = h
  call_at-StuckSince w i c crashed h = h

  pub StuckSince-IsKept : IsKept os nl (StuckSince cs)
  unfolding move
  StuckSince-IsKept = record {
    by_call = λ w i c h. call_at-StuckSince w i c (w.places i) h;
    by_step = λ w i h. take_step-StuckSince w i (w.places i) refl h;
    by_touch = λ w t touched h. (Touched-lock touched ∙ h.0, h.1, h.2);
    by_crash = λ w i at h. put-StuckSince w i crashed (λ g. g) h;
  }
