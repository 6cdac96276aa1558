-- ===== src/Traffic/Monitor.antt =====
-- The mutex as a monitor: what holds of the shared state while no thread is inside what the mutex
-- guards, and what holds at each point inside, holds in every course of the program.
use manet_testbed.Base.{
  ℕ, true, List, [], ◌∷◌, ◌++◌, ◌≡◌, refl, sym, ap, ◌∙◌, ◌⊎◌, inl, inr, ◌==◌, ==_iff, ==_self,
  Bool-cases, length, ltb,
}
use manet_testbed.Netlink.{Netlink}
use manet_testbed.Api.{State, Run, done, blocked, fault, out_of_fuel, Os, mutex_lock}
use manet_testbed.System.Misread.{read_result}
use manet_testbed.Queue.Handlers.{Netfilter}
use manet_testbed.Interleaving.{
  Call, Point, Next, goes, ends, reads_error, reads_address, gives, first, advance,
}
use manet_testbed.Interleaving.Schedule.{
  Place, outside, waits, inside, leaves, crashed, World, live, place, put, enter, step, give,
  take_step, call_at, move,
}
use manet_testbed.Interleaving.Still.{Going, SameLock, advance-SameLock}
use manet_testbed.Interleaving.Whole.{locked}
use manet_testbed.Interleaving.Serial.{
  IsInside, NoneInside, put-IsInside, put-NoneInside, mutex_lock-cases, mutex_lock-held,
}
use manet_testbed.Traffic.{Step, idle, course}
use manet_testbed.Traffic.Within.{
  Touched, reads, writes_text, sends, gives_verdict, IsKept, course-kept,
}

pub Touched-lock : {s t : State} → Touched s t → t.lock ≡ s.lock
Touched-lock reads = refl
Touched-lock (writes_text text) = refl
Touched-lock (sends sock d) = refl
Touched-lock (gives_verdict plane id verdict) = refl

-- What a step from a point leaves, by a predicate for each point and one for outside.
abbrev pub Onward : (Point → State → Type 0) → (State → Type 0) → Run Next → Type 0
Onward within outside_of (done (goes q) t) = within q t
Onward within outside_of (done (ends e) t) = outside_of t
Onward within outside_of (blocked t) = Unit {0}
Onward within outside_of (fault t) = outside_of t
Onward within outside_of (out_of_fuel t) = outside_of t

-- A resource invariant: `free` while none is inside, `within` where a thread is at a point inside,
-- both by the calls that have taken the mutex.
pub record IsMonitor (os : Os) (nl : Netlink) (free : State → List Call → Type 0)
    (within : Point → State → List Call → Type 0) : Type 0 where
  pub by_entry :
      (s : State) (cs : List Call) (c : Call)
      → free s cs
      → within (first c) (locked s) (cs ++ (c ∷ []))
  pub by_advance :
      (p : Point) (s : State) (cs : List Call)
      → within p s cs
      → Onward (λ q t. within q t cs) (λ t. free t cs) (advance os nl p s)
  pub touch_free : (s t : State) (cs : List Call) → Touched s t → free s cs → free t cs
  pub touch_within :
      (p : Point) (s t : State) (cs : List Call) → Touched s t → within p s cs → within p t cs

module _ (os : Os) (nl : Netlink) (free : State → List Call → Type 0)
    (within : Point → State → List Call → Type 0) where
  -- One thread is inside.
  pub record Occupied (shared : State) (places : ℕ → Place) (entered : List Call) : Type 0 where
    pub thread : ℕ
    pub turn : ℕ
    pub point : Point
    pub here : places thread ≡ inside turn point
    pub only : (j : ℕ) → IsInside (places j) → j ≡ thread
    pub held : shared.lock ≡ true
    pub holds : within point shared entered

  abbrev pub Monitored : World → Type 0
  Monitored w =
      (NoneInside w.places × free w.shared w.entered) ⊎ Occupied w.shared w.places w.entered

  -- A thread that is not inside goes elsewhere outside.
  put-Monitored :
      (w : World) (i : ℕ) (p : Place)
      → ¬ IsInside p
      → ¬ IsInside (w.places i)
      → Monitored w
      → Monitored (place w i p)
  put-Monitored w i p out before (inl (none, h)) = inl (put-NoneInside i p w.places out none, h)
  put-Monitored w i p out before (inr o) = inr (record {
    thread = o.thread;
    turn = o.turn;
    point = o.point;
    here = elim (Bool-cases (o.thread == i)) [
      | inl same ↦ absurd (before (rw (← (==_iff o.thread i).0 same, o.here) tt))
      | inr other ↦ rw other o.here
    ];
    only = λ j h. o.only j (put-IsInside i j p w.places out h).0;
    held = o.held;
    holds = o.holds;
  })

  module _ (monitor : IsMonitor os nl free within) where
    enter-Monitored :
        (w : World) (i : ℕ) (c : Call) → Monitored w → Monitored (enter w i c (mutex_lock w.shared))
    enter-Monitored w i c (inr o) = rw (mutex_lock-held w.shared o.held) (inr o)
    enter-Monitored w i c (inl (none, h)) = elim (mutex_lock-cases w.shared) [
      | inl waiting ↦ rw waiting (inl (none, h))
      | inr (is_free, taken) ↦ rw taken (
          inr (record {
            thread = i;
            turn = length w.entered;
            point = first c;
            here = rw (==_self i) refl;
            only = λ j in_j. elim (Bool-cases (j == i)) [
              | inl same ↦ (==_iff j i).0 same
              | inr other ↦ absurd (none j (rw other at in_j))
            ];
            held = refl;
            holds = monitor.by_entry w.shared w.entered c h;
          }))
    ]

    -- The thread inside leaves.
    leave-Monitored :
        (w : World) (i : ℕ) (p : Place) (t : State)
        → ¬ IsInside p
        → (o : Occupied w.shared w.places w.entered) → i ≡ o.thread
        → free t w.entered
        → Monitored (record w { shared = t; places = put i p w.places })
    leave-Monitored w i p t out o same h = inl (
      (λ j in_j.
          let (was, other) = put-IsInside i j p w.places out in_j in
          cc (other, (==_iff j i).1 (o.only j was ∙ sym same))),
      h,
    )

    step-Monitored :
        (w : World) (i turn : ℕ) (r : Run Next)
        → (o : Occupied w.shared w.places w.entered) → i ≡ o.thread
        → Onward (λ q t. within q t w.entered) (λ t. free t w.entered) r
        → Going (SameLock w.shared) r
        → Monitored (step w i turn r)
    step-Monitored w i turn (done (goes q) t) o same h lock = inr (record {
      thread = i;
      turn = turn;
      point = q;
      here = rw (==_self i) refl;
      only = λ j in_j. elim (Bool-cases (j == i)) [
        | inl here ↦ (==_iff j i).0 here
        | inr other ↦ o.only j (rw other at in_j) ∙ sym same
      ];
      held = lock ∙ o.held;
      holds = h;
    })
    step-Monitored w i turn (done (ends e) t) o same h lock =
        leave-Monitored w i (leaves turn e) t (λ g. g) o same h
    step-Monitored w i turn (blocked t) o same h lock = inr o
    step-Monitored w i turn (fault t) o same h lock =
        leave-Monitored w i crashed t (λ g. g) o same h
    step-Monitored w i turn (out_of_fuel t) o same h lock =
        leave-Monitored w i crashed t (λ g. g) o same h

    take_step-Monitored :
        (w : World) (i : ℕ) (at : Place)
        → w.places i ≡ at
        → Monitored w
        → Monitored (take_step os nl at i w)
    unfolding take_step
    take_step-Monitored w i outside e h = h
    take_step-Monitored w i crashed e h = h
    take_step-Monitored w i (waits c) e h = enter-Monitored w i c h
    take_step-Monitored w i (inside turn p) e (inl (none, h)) = absurd (none i (rw e tt))
    take_step-Monitored w i (inside turn p) e (inr o) =
        let same : i ≡ o.thread = o.only i (rw e tt) in
        let at_point : p ≡ o.point = cc (e, o.here, ap w.places same) in
        step-Monitored w i turn (advance os nl p w.shared) o same
          (rw at_point (monitor.by_advance o.point w.shared w.entered o.holds))
          (advance-SameLock os nl p w.shared)
    take_step-Monitored w i (leaves turn reads_error) e h =
        put-Monitored w i outside (λ g. g) (λ g. rw e at g) h
    take_step-Monitored w i (leaves turn (gives n)) e h =
        put-Monitored w i outside (λ g. g) (λ g. rw e at g) h
    take_step-Monitored w i (leaves turn (reads_address frame buf)) e h =
        given (read_result (live w.count w.places) w.shared)
      where
        given : (r : Run ℕ) → Monitored (give w i turn r)
        given (done address t) = put-Monitored w i outside (λ g. g) (λ g. rw e at g) h
        given (blocked t) = put-Monitored w i crashed (λ g. g) (λ g. rw e at g) h
        given (fault t) = put-Monitored w i crashed (λ g. g) (λ g. rw e at g) h
        given (out_of_fuel t) = put-Monitored w i crashed (λ g. g) (λ g. rw e at g) h

    call_at-Monitored :
        (w : World) (i : ℕ) (c : Call) (at : Place)
        → w.places i ≡ at
        → Monitored w
        → Monitored (call_at os nl at i c w)
    call_at-Monitored w i c outside e h = elim (Bool-cases (ltb i w.count)) [
      | inl there ↦ rw there (put-Monitored w i (waits c) (λ g. g) (λ g. rw e at g) h)
      | inr nobody ↦ rw nobody h
    ]
    call_at-Monitored w i c (waits d) e h = h
    call_at-Monitored w i c (inside turn p) e h = h
    call_at-Monitored w i c (leaves turn p) e h = h
    call_at-Monitored w i c crashed e h = h

    touch-Monitored :
        (w : World) (t : State)
        → Touched w.shared t
        → Monitored w
        → Monitored (record w { shared = t })
    touch-Monitored w t touched (inl (none, h)) =
        inl (none, monitor.touch_free w.shared t w.entered touched h)
    touch-Monitored w t touched (inr o) = inr (record {
      thread = o.thread;
      turn = o.turn;
      point = o.point;
      here = o.here;
      only = o.only;
      held = Touched-lock touched ∙ o.held;
      holds = monitor.touch_within o.point w.shared t w.entered touched o.holds;
    })

    pub Monitored-IsKept : IsKept os nl Monitored
    unfolding move
    Monitored-IsKept = record {
      by_call = λ w i c h. call_at-Monitored w i c (w.places i) refl h;
      by_step = λ w i h. take_step-Monitored w i (w.places i) refl h;
      by_touch = touch-Monitored;
      by_crash = λ w i at h. put-Monitored w i crashed (λ g. g) (λ g. rw at at g) h;
    }

    -- In every course from a state where the invariant holds and all threads are outside.
    pub course-Monitored :
        (nf : Netfilter) (s : State) (count : ℕ) (ms : List Step)
        → free s []
        → Monitored (course os nl nf ms (idle count s)).world
    course-Monitored nf s count ms h =
        course-kept os nl nf Monitored Monitored-IsKept ms (idle count s)
          (inl ((λ j in_j. in_j), h))
