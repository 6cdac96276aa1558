-- ===== src/Traffic/Noted.antt =====
-- A noted error, in every course of the program: no step of any thread clears it.
use manet_testbed.Base.{
  repeat, ℕ, suc, is_neg, ℤ, pos, minus_one, u32_max, false, List, ◌∷◌, ◌++◌, ◌≡◌, refl, ap, inl,
  inr, is_zero, Bool-cases,
}
use manet_testbed.Netlink.{Netlink}
use manet_testbed.Api.{State, Run, done, blocked, fault, out_of_fuel, Os, call, ntop}
use manet_testbed.Api.Laws.{Leaves}
use manet_testbed.System.Misread.{read_result}
use manet_testbed.Queue.Handlers.{Netfilter}
use manet_testbed.Interleaving.{
  Ending, reads_error, reads_address, gives, Next, goes, ends, advance,
}
use manet_testbed.Interleaving.Noted.{Noted, advance-Noted}
use manet_testbed.Interleaving.Schedule.{
  Place, outside, waits, inside, leaves, crashed, World, live, step, give, take_step, runs, move,
}
use manet_testbed.Interleaving.Serial.{mutex_lock-cases}
use manet_testbed.Traffic.Invariant.{IsInvariant, Any, course-any}
use manet_testbed.Traffic.{
  SendPoint, reads_broadcast, names_address, reads_text, sends_to, makes_result, step_send, Task,
  Program, Step, send_on, task_on, course,
}
use manet_testbed.Traffic.Within.{
  Touched, reads, writes_text, sends, gives_verdict, IsKept, IsKept-IsInvariant,
}
use manet_testbed.Traffic.Spared.{begins-shared}

-- An error is noted.
abbrev pub IsNoted : World → Type 0
IsNoted w = is_zero w.shared.f_err ≡ false

-- What a call that leaves returns while an error is noted.
abbrev pub outcome : Ending → ℤ
outcome reads_error = minus_one
outcome (reads_address frame buf) = pos u32_max
outcome (gives n) = pos n

-- The sends that returned since `old` have failed.
abbrev pub FailsSince : List ℤ → Program → Type 0
FailsSince old y = (n : ℕ) × (y.sent ≡ repeat n minus_one ++ old)

module _ (os : Os) (nl : Netlink) where
  step-IsNoted :
      (w : World) (i turn : ℕ) (r : Run Next)
      → Leaves (Noted w.shared) r
      → IsNoted w
      → IsNoted (step w i turn r)
  step-IsNoted w i turn (done (goes p) t) h noted = h noted
  step-IsNoted w i turn (done (ends e) t) h noted = h noted
  step-IsNoted w i turn (blocked t) h noted = noted
  step-IsNoted w i turn (fault t) h noted = h noted
  step-IsNoted w i turn (out_of_fuel t) h noted = h noted

  take_step-IsNoted :
      (w : World) (i : ℕ) (at : Place) → IsNoted w → IsNoted (take_step os nl at i w)
  unfolding take_step
  take_step-IsNoted w i outside h = h
  take_step-IsNoted w i crashed h = h
  take_step-IsNoted w i (waits c) h = elim (mutex_lock-cases w.shared) [
    | inl waiting ↦ rw waiting h
    | inr (free, taken) ↦ rw taken h
  ]
  take_step-IsNoted w i (inside turn p) h =
      step-IsNoted w i turn (advance os nl p w.shared) (advance-Noted os nl p w.shared) h
  take_step-IsNoted w i (leaves turn reads_error) h = h
  take_step-IsNoted w i (leaves turn (gives n)) h = h
  take_step-IsNoted w i (leaves turn (reads_address frame buf)) h =
      given (read_result (live w.count w.places) w.shared)
    where
      given : (r : Run ℕ) → IsNoted (give w i turn r)
      given (done address t) = h
      given (blocked t) = h
      given (fault t) = h
      given (out_of_fuel t) = h

  touch-IsNoted :
      (w : World) (t : State) → Touched w.shared t → IsNoted w → IsNoted (record w { shared = t })
  touch-IsNoted w t reads h = h
  touch-IsNoted w t (writes_text text) h = h
  touch-IsNoted w t (sends sock d) h = h
  touch-IsNoted w t (gives_verdict plane id verdict) h = h

  IsNoted-IsKept : IsKept os nl IsNoted
  unfolding move
  IsNoted-IsKept = record {
    by_call = λ w i c h. rw (begins-shared os nl w i c) h;
    by_step = λ w i h. take_step-IsNoted w i (w.places i) h;
    by_touch = touch-IsNoted;
    by_crash = λ w i at h. h;
  }

  leaves-outcome :
      (w : World) (i turn : ℕ) (e : Ending)
      → IsNoted w
      → w.places i ≡ leaves turn e
      → (move os nl (runs i) w).returned ≡ (turn, outcome e) ∷ w.returned
  unfolding move take_step read_result
  leaves-outcome w i turn reads_error noted at = rw (at, noted) refl
  leaves-outcome w i turn (reads_address frame buf) noted at = rw (at, noted) refl
  leaves-outcome w i turn (gives n) noted at = rw at refl

  module _ (nf : Netfilter) where
    send_on-FailsSince :
        (old : List ℤ) (x : Program) (i : ℕ) (p : SendPoint)
        → IsNoted x.world
        → FailsSince old x
        → FailsSince old (send_on i (step_send os p x.world.shared) x)
    unfolding step_send ntop call
    send_on-FailsSince old x i (reads_broadcast msg_buf size) noted h = h
    send_on-FailsSince old x i (names_address a msg_buf size) noted h = h
    send_on-FailsSince old x i (reads_text msg_buf size) noted h = h
    send_on-FailsSince old x i (sends_to a msg_buf size) noted h = h
    send_on-FailsSince old x i (makes_result r) noted (n, h) = (
      suc n,
      rw noted (elim (Bool-cases (is_neg r)) [
        | inl failed ↦ rw failed (ap (λ l. minus_one ∷ l) h)
        | inr fine ↦ rw fine (ap (λ l. minus_one ∷ l) h)
      ]),
    )

    task_on-FailsSince :
        (old : List ℤ) (x : Program) (i : ℕ) (r : Run Task)
        → FailsSince old x
        → FailsSince old (task_on i r x)
    task_on-FailsSince old x i (done task s) h = h
    task_on-FailsSince old x i (blocked s) h = h
    task_on-FailsSince old x i (fault s) h = h
    task_on-FailsSince old x i (out_of_fuel s) h = h

    FailsSince-IsInvariant :
        (old : List ℤ) → IsInvariant os nl nf Any (λ x. IsNoted x.world × FailsSince old x)
    FailsSince-IsInvariant old =
        let still = IsKept-IsInvariant os nl nf IsNoted IsNoted-IsKept in
        record {
          by_call = λ x i c v. (still.by_call x i c v.0, v.1);
          by_departure = λ x i d allowed free v. v;
          by_arrival = λ x i plane packet bs allowed idle v. v;
          by_answer = λ x i ret v. v;
          by_send = λ x i p e v. (still.by_send x i p e v.0, send_on-FailsSince old x i p v.0 v.1);
          by_task = λ x i task e at v.
              (still.by_task x i task e at v.0, task_on-FailsSince old x i _ v.1);
          by_run = λ x i v. (still.by_run x i v.0, v.1);
          by_crash = λ x i at v. v;
        }

    -- Once an error is noted, wherever the threads stand, and whatever steps follow: an error stays
    -- noted; every send that has returned since then has returned -1, in every thread; and where a
    -- thread has freed the mutex and is to return next, a change of a route returns -1,
    -- `GetInterfaceIP` -1 as a `uint32_t`, and a registration the result that it has made.
    pub course-AllFail :
        (ms : List Step) (x : Program)
        → IsNoted x.world
        → let y = course os nl nf ms x in
          IsNoted y.world
          × FailsSince x.sent y
          × ((i turn : ℕ) (e : Ending)
              → y.world.places i ≡ leaves turn e
              → (move os nl (runs i) y.world).returned ≡ (turn, outcome e) ∷ y.world.returned)
    course-AllFail ms x noted =
        let (still, failed) =
          course-any os nl nf _ (FailsSince-IsInvariant x.sent) ms x (noted, (0, refl)) in
        (
          still,
          failed,
          λ i turn e at. leaves-outcome (course os nl nf ms x).world i turn e still at,
        )
