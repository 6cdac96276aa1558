-- ===== src/Interleaving/Unbroken.antt =====
-- A thread that takes its steps without a break.
use manet_testbed.Base.{
  repeat, ℕ, zero, suc, false, List, [], ◌∷◌, ◌++◌, ◌≡◌, refl, ap, ◌∙◌, ◌==◌, ==_self, Bool-cases,
  inl, inr, length,
}
use manet_testbed.Netlink.{Netlink}
use manet_testbed.Api.{State, done, Os, mutex_lock}
use manet_testbed.Interleaving.{Call, Point, Ending, first, advance}
use manet_testbed.Interleaving.Schedule.{
  Place, waits, inside, leaves, World, put, Move, runs, step, take_step, move, moves,
}
use manet_testbed.Interleaving.Finish.{finish}
use manet_testbed.Interleaving.Ends.{Ends, last, later, finish-Ends}
use manet_testbed.Interleaving.Whole.{locked}
use mathlib.Core.Path.{fun_ext}

pub put-put : (i : ℕ) (p q : Place) (places : ℕ → Place) → put i p (put i q places) ≡ put i p places
put-put i p q places =
    fun_ext λ j. elim (Bool-cases (j == i)) [ inl here ↦ rw here refl | inr other ↦ rw other refl ]

-- The world when a thread has left what the mutex guards.
abbrev left_world : World → ℕ → ℕ → Ending → State → World
left_world w i turn e t = record w { shared = t; places = put i (leaves turn e) w.places }

module _ (os : Os) (nl : Netlink) where
  pub moves-append :
      (ms ns : List Move) (w : World) → moves os nl (ms ++ ns) w ≡ moves os nl ns (moves os nl ms w)
  unfolding moves
  moves-append [] ns w = refl
  moves-append (m ∷ ms) ns w = moves-append ms ns (move os nl m w)

  pub repeat-last :
      (n : ℕ) (m : Move) (w : World)
      → moves os nl (repeat (suc n) m) w ≡ move os nl m (moves os nl (repeat n m) w)
  unfolding moves
  repeat-last zero m w = refl
  repeat-last (suc n) m w = repeat-last n m (move os nl m w)

  move-inside :
      (w : World) (i turn : ℕ) (p : Point)
      → w.places i ≡ inside turn p
      → move os nl (runs i) w ≡ step w i turn (advance os nl p w.shared)
  unfolding move take_step
  move-inside w i turn p at = rw at refl

  alone :
      (w : World) (i turn : ℕ) {p : Point} {s t : State} {e : Ending}
      → Ends os nl p s e t
      → w.places i ≡ inside turn p
      → w.shared ≡ s
      → (n : ℕ) × (moves os nl (repeat n (runs i)) w ≡ left_world w i turn e t)
  unfolding moves
  alone w i turn {p} (last stepped) at now = (1, move-inside w i turn p at ∙ rw (now, stepped) refl)
  alone w i turn {p} {t = t} {e = e} (later {q = q} {u = u} stepped rest) at now =
      let w' : World = record w { shared = u; places = put i (inside turn q) w.places } in
      let (n, there) = alone w' i turn rest (rw (==_self i) refl) refl in
      (
        suc n,
        ap (moves os nl (repeat n (runs i))) (move-inside w i turn p at ∙ rw (now, stepped) refl)
            ∙ there
            ∙ λ k. record w {
              shared = t;
              places = put-put i (leaves turn e) (inside turn q) w.places k;
            },
      )

  -- From where it waits for the mutex.
  pub alone_from_waiting :
      (w : World) (i : ℕ) (c : Call) (e : Ending) (t : State)
      → w.places i ≡ waits c
      → w.shared.lock ≡ false
      → finish os nl (first c) (locked w.shared) ≡ done e t
      → (n : ℕ) × (moves os nl (repeat n (runs i)) w ≡ record w {
        shared = t;
        places = put i (leaves (length w.entered) e) w.places;
        entered = w.entered ++ (c ∷ []);
      })
  unfolding moves move take_step mutex_lock
  alone_from_waiting w i c e t at free ended =
      let w' : World = record w {
        shared = locked w.shared;
        places = put i (inside (length w.entered) (first c)) w.places;
        entered = w.entered ++ (c ∷ []);
      } in
      let (n, there) =
        alone w' i (length w.entered) (finish-Ends os nl (first c) (locked w.shared) e t ended)
          (rw (==_self i) refl) refl in
      (
        suc n,
        ap (moves os nl (repeat n (runs i))) (rw at (simp free)) ∙ there ∙ λ k. record w {
          shared = t;
          places =
              put-put i (leaves (length w.entered) e) (inside (length w.entered) (first c)) w.places
                k;
          entered = w.entered ++ (c ∷ []);
        },
      )
