-- ===== src/Interleaving/Serial.antt =====
-- Where threads stand, beside the calls made in one piece, in the order in which they took the mutex:
-- what holds between any two steps of the threads.
use manet_testbed.Base.{
  ℕ, true, false, List, [], ◌∷◌, ◌++◌, ◌≡◌, refl, sym, ap, ◌∙◌, ◌⊎◌, inl, inr, ◌==◌, ==_iff,
  ==_self, Bool-cases, length,
}
use manet_testbed.Netlink.{Netlink}
use manet_testbed.Api.{State, Run, done, blocked, fault, out_of_fuel, and_then, Os, mutex_lock}
use manet_testbed.System.{state_of}
use manet_testbed.Interleaving.{Call, Point, Next, goes, ends, first, perform_call}
use manet_testbed.Interleaving.Schedule.{
  Place, waits, inside, leaves, crashed, World, put, step, take_step, in_turn,
}
use manet_testbed.Interleaving.Still.{Going, SameLock}
use manet_testbed.Interleaving.Finish.{finish, continue}
use manet_testbed.Interleaving.Whole.{locked, perform_call-finish}

pub mutex_lock-cases :
    (s : State)
    → (mutex_lock s ≡ blocked s) ⊎ ((s.lock ≡ false) × (mutex_lock s ≡ done tt (locked s)))
unfolding mutex_lock
mutex_lock-cases s = elim (Bool-cases s.lock) [
  | inl taken ↦ inl (simp taken)
  | inr free ↦ inr (free, simp free)
]

pub mutex_lock-held : (s : State) → s.lock ≡ true → mutex_lock s ≡ blocked s
unfolding mutex_lock
mutex_lock-held s held = simp held

abbrev pub IsInside : Place → Type 0
IsInside (inside turn p) = Unit {0}
IsInside _ = ⊥

abbrev pub NoneInside : (ℕ → Place) → Type 0
NoneInside places = (j : ℕ) → ¬ IsInside (places j)

pub put-IsInside :
    (i j : ℕ) (p : Place) (places : ℕ → Place)
    → ¬ IsInside p
    → IsInside (put i p places j)
    → IsInside (places j) × ((j == i) ≡ false)
put-IsInside i j p places out h = elim (Bool-cases (j == i)) [
  | inl here ↦ absurd (out (rw here at h))
  | inr other ↦ (rw other at h, other)
]

pub put-NoneInside :
    (i : ℕ) (p : Place) (places : ℕ → Place)
    → ¬ IsInside p
    → NoneInside places
    → NoneInside (put i p places)
put-NoneInside i p places out none j h = none j (put-IsInside i j p places out h).0

module _ (os : Os) (nl : Netlink) where
  pub in_turn-append :
      (cs : List Call) (c : Call) (s : State)
      → in_turn os nl (cs ++ (c ∷ [])) s ≡ state_of (perform_call os nl c (in_turn os nl cs s))
  unfolding in_turn
  in_turn-append [] c s = refl
  in_turn-append (d ∷ cs) c s = in_turn-append cs c _

  -- Each call found the mutex free, in its turn.
  abbrev pub AllFree : List Call → State → Type 0
  AllFree [] s = Unit {0}
  AllFree (c ∷ cs) s = (s.lock ≡ false) × AllFree cs (state_of (perform_call os nl c s))

  AllFree-append :
      (cs : List Call) (c : Call) (s : State)
      → AllFree cs s
      → (in_turn os nl cs s).lock ≡ false
      → AllFree (cs ++ (c ∷ [])) s
  unfolding in_turn
  AllFree-append [] c s h free = (free, tt)
  AllFree-append (d ∷ cs) c s h free = (h.0, AllFree-append cs c _ h.1 free)

  module _ (s : State) where
    -- Nobody is inside, and the calls that were have run in their turn.
    pub record Quiet (shared : State) (places : ℕ → Place) (entered : List Call) : Type 0 where
      pub none_inside : NoneInside places
      pub as_in_turn : shared ≡ in_turn os nl entered s
      pub all_free : AllFree entered s

    -- One thread is inside, for the call that took the mutex last, and what it has left to do is
    -- what is left of that call in its turn.
    pub record Busy (shared : State) (places : ℕ → Place) (entered : List Call) : Type 0 where
      pub thread : ℕ
      pub turn : ℕ
      pub point : Point
      pub before : List Call
      pub last : Call
      pub is_turn : turn ≡ length before
      pub here : places thread ≡ inside turn point
      pub only : (j : ℕ) → IsInside (places j) → j ≡ thread
      pub is_last : entered ≡ before ++ (last ∷ [])
      pub held : shared.lock ≡ true
      pub last_free : (in_turn os nl before s).lock ≡ false
      pub will_be :
          finish os nl point shared ≡ finish os nl (first last) (locked (in_turn os nl before s))
      pub all_free : AllFree entered s

    abbrev pub Serial : World → Type 0
    Serial w = Quiet w.shared w.places w.entered ⊎ Busy w.shared w.places w.entered

    -- The thread inside leaves.
    left_by :
        (w : World) (i : ℕ) (p : Place) (t : State)
        → ¬ IsInside p
        → (b : Busy w.shared w.places w.entered) → i ≡ b.thread
        → t ≡ state_of (finish os nl (first b.last) (locked (in_turn os nl b.before s)))
        → Quiet t (put i p w.places) w.entered
    left_by w i p t out b e left = record {
      none_inside = λ j h.
          let (was, other) = put-IsInside i j p w.places out h in
          cc (other, (==_iff j i).1 (b.only j was ∙ sym e));
      as_in_turn =
          left
          ∙ sym (perform_call-finish os nl b.last (in_turn os nl b.before s) b.last_free)
          ∙ sym (in_turn-append b.before b.last s)
          ∙ ap (λ cs. in_turn os nl cs s) (sym b.is_last);
      all_free = b.all_free;
    }

    Quiet-put :
        {shared : State} {places : ℕ → Place} {entered : List Call} (i : ℕ) (p : Place)
        → ¬ IsInside p
        → Quiet shared places entered
        → Quiet shared (put i p places) entered
    Quiet-put {places} i p out q = record {
      none_inside = put-NoneInside i p places out q.none_inside;
      as_in_turn = q.as_in_turn;
      all_free = q.all_free;
    }

    -- A thread that is not the one inside goes elsewhere.
    Busy-put :
        {shared : State} {places : ℕ → Place} {entered : List Call} (i : ℕ) (p : Place)
        → ¬ IsInside p
        → ¬ IsInside (places i)
        → Busy shared places entered
        → Busy shared (put i p places) entered
    Busy-put {places} i p out before b = record {
      thread = b.thread;
      turn = b.turn;
      point = b.point;
      before = b.before;
      last = b.last;
      is_turn = b.is_turn;
      here = elim (Bool-cases (b.thread == i)) [
        | inl same ↦ absurd (before (rw (← (==_iff b.thread i).0 same, b.here) tt))
        | inr other ↦ rw other b.here
      ];
      only = λ j h. b.only j (put-IsInside i j p places out h).0;
      is_last = b.is_last;
      held = b.held;
      last_free = b.last_free;
      will_be = b.will_be;
      all_free = b.all_free;
    }

    pub Serial-put :
        (w : World) (i : ℕ) (p : Place)
        → ¬ IsInside p
        → ¬ IsInside (w.places i)
        → Serial w
        → Serial (record w { places = put i p w.places })
    Serial-put w i p out before (inl q) = inl (Quiet-put i p out q)
    Serial-put w i p out before (inr b) = inr (Busy-put i p out before b)

    -- A thread that waits for the mutex takes it where it is free.
    pub enter-Serial :
        (w : World) (i : ℕ) (c : Call) → Serial w → Serial (take_step os nl (waits c) i w)
    unfolding take_step
    enter-Serial w i c (inr b) = rw (mutex_lock-held w.shared b.held) (inr b)
    enter-Serial w i c (inl q) = elim (mutex_lock-cases w.shared) [
      | inl waiting ↦ rw waiting (inl q)
      | inr (free, taken) ↦ rw taken (
          inr (record {
            thread = i;
            turn = length w.entered;
            point = first c;
            before = w.entered;
            last = c;
            is_turn = refl;
            here = rw (==_self i) refl;
            only = λ j h. elim (Bool-cases (j == i)) [
              | inl same ↦ (==_iff j i).0 same
              | inr other ↦ absurd (q.none_inside j (rw other at h))
            ];
            is_last = refl;
            held = refl;
            last_free = rw (← q.as_in_turn) free;
            will_be = ap (λ u. finish os nl (first c) (locked u)) q.as_in_turn;
            all_free = AllFree-append w.entered c s q.all_free (rw (← q.as_in_turn) free);
          }))
    ]

    -- What the step of the thread inside leaves.
    pub step-Serial :
        (w : World) (i turn : ℕ) (p : Point) (b : Busy w.shared w.places w.entered) (r : Run Next)
        → i ≡ b.thread
        → turn ≡ b.turn
        → and_then r (continue os nl)
          ≡ finish os nl (first b.last) (locked (in_turn os nl b.before s))
        → Going (SameLock w.shared) r
        → Serial (step w i turn r)
    step-Serial w i turn p b (done (goes p') t) e now left same = inr (record {
      thread = i;
      turn = turn;
      point = p';
      before = b.before;
      last = b.last;
      is_turn = now ∙ b.is_turn;
      here = rw (==_self i) refl;
      only = λ j h. elim (Bool-cases (j == i)) [
        | inl here ↦ (==_iff j i).0 here
        | inr other ↦ b.only j (rw other at h) ∙ sym e
      ];
      is_last = b.is_last;
      held = same ∙ b.held;
      last_free = b.last_free;
      will_be = left;
      all_free = b.all_free;
    })
    step-Serial w i turn p b (done (ends end) t) e now left same =
        inl (left_by w i (leaves turn end) t (λ h. h) b e (ap state_of left))
    step-Serial w i turn p b (blocked t) e now left same = inr b
    step-Serial w i turn p b (fault t) e now left same =
        inl (left_by w i crashed t (λ h. h) b e (ap state_of left))
    step-Serial w i turn p b (out_of_fuel t) e now left same =
        inl (left_by w i crashed t (λ h. h) b e (ap state_of left))
