-- ===== src/Interleaving/Results.antt =====
-- What calls return that run at once, beside what they return in their turn.
pub mod Endings
pub mod Backing
use manet_testbed.Base.{
  ℕ, zero, suc, ℤ, pos, minus_one, is_zero, Bool, true, false, List, [], ◌∷◌, ◌++◌, ◌≡◌, refl, sym,
  ap, ◌∙◌, ◌⊎◌, inl, inr, if◌then◌else◌, ◌==◌, ==_iff, Bool-cases, length, ltb, subst,
}
use manet_testbed.Netlink.{Netlink}
use manet_testbed.Api.{State, Run, and_then, done, blocked, fault, out_of_fuel, Os, mutex_lock}
use manet_testbed.Api.Laws.{Leaves}
use manet_testbed.System.Misread.{read_result}
use manet_testbed.Interleaving.{
  Call, Point, Ending, reads_error, reads_address, gives, Next, goes, ends, first, advance,
}
use manet_testbed.Interleaving.Schedule.{
  Place, outside, waits, inside, leaves, crashed, World, at_rest, put, live, Move, begins, runs,
  step, give, returns, take_step, call_at, move, moves, in_turn,
}
use manet_testbed.Interleaving.Noted.{Noted, advance-Noted}
use manet_testbed.Interleaving.Finish.{finish, continue}
use manet_testbed.Interleaving.Steps.{finish-advance}
use manet_testbed.Interleaving.Whole.{locked}
use manet_testbed.Interleaving.Serial.{Quiet, Busy, Serial, mutex_lock-cases}
use manet_testbed.Interleaving.Order.{move-Serial, at_rest-Serial}
use manet_testbed.Interleaving.Results.Endings.{Backs, Pends, finish-Pends}
use manet_testbed.Interleaving.Results.Backing.{
  Backed, AllBacked, Sound, Backed-last, Pends-mono, moved, returned, enter-Sound,
}

module _ (os : Os) (nl : Netlink) (s : State) where
  -- The thread inside takes a step.
  step-Sound :
      (w : World) (i turn : ℕ) (b : Busy os nl s w.shared w.places w.entered) (r : Run Next)
      → Sound os nl s w
      → turn ≡ b.turn
      → and_then r (continue os nl)
        ≡ finish os nl (first b.last) (locked (in_turn os nl b.before s))
      → Leaves (Noted w.shared) r
      → Sound os nl s (step w i turn r)
  step-Sound w i turn b (done (goes p) t) sound now left noted =
      moved os nl s w i (inside turn p) t sound noted λ turn' e h. cc
  step-Sound w i turn b (done (ends end) t) sound now left noted =
      moved os nl s w i (leaves turn end) t sound noted λ turn' e h.
        let same_end : end ≡ e = cc in
        let same_turn : turn' ≡ length b.before = cc (h, now, b.is_turn) in
        rw (← same_end, same_turn, b.is_last)
          (Pends-mono os nl s end _ _ (Backs os nl b.last (in_turn os nl b.before s)) _ (λ g. g)
            (λ r g. Backed-last os nl b.before b.last s r g)
            (finish-Pends os nl b.last (in_turn os nl b.before s) end t b.last_free (sym left)))
  step-Sound w i turn b (blocked t) sound now left noted = sound
  step-Sound w i turn b (fault t) sound now left noted =
      moved os nl s w i crashed t sound noted λ turn' e h. cc
  step-Sound w i turn b (out_of_fuel t) sound now left noted =
      moved os nl s w i crashed t sound noted λ turn' e h. cc

  take_step-Sound :
      (w : World) (i : ℕ) (at : Place)
      → w.places i ≡ at
      → Serial os nl s w
      → Sound os nl s w
      → Sound os nl s (take_step os nl at i w)
  unfolding take_step
  take_step-Sound w i outside e serial sound = sound
  take_step-Sound w i crashed e serial sound = sound
  take_step-Sound w i (waits c) e serial sound = enter-Sound os nl s w i c sound
  take_step-Sound w i (inside turn p) e (inl q) sound = absurd (q.none_inside i (rw e tt))
  take_step-Sound w i (inside turn p) e (inr b) sound =
      let same : i ≡ b.thread = b.only i (rw e tt) in
      let at_point : p ≡ b.point = cc (e, b.here, ap w.places same) in
      let now : turn ≡ b.turn = cc (e, b.here, ap w.places same) in
      step-Sound w i turn b (advance os nl p w.shared) sound now
        (sym (finish-advance os nl p w.shared) ∙ rw at_point b.will_be)
        (advance-Noted os nl p w.shared)
  take_step-Sound w i (leaves turn reads_error) e serial sound =
      returned os nl s w i turn _ sound (flagged (is_zero w.shared.f_err) refl)
    where
      flagged :
          (ok : Bool)
          → is_zero w.shared.f_err ≡ ok
          → Backed os nl turn w.entered s (if ok then pos 0 else minus_one)
      flagged true fine = (sound.pending i turn reads_error e).1 fine
      flagged false noted = (sound.pending i turn reads_error e).0
  take_step-Sound w i (leaves turn (gives n)) e serial sound =
      returned os nl s w i turn (pos n) sound (sound.pending i turn (gives n) e)
  take_step-Sound w i (leaves turn (reads_address frame buf)) e serial sound =
      given (read_result (live w.count w.places) w.shared)
    where
      lost : Sound os nl s (record w { places = put i crashed w.places })
      lost = moved os nl s w i crashed w.shared sound (λ h. h) λ turn' end h. cc

      given : (r : Run ℕ) → Sound os nl s (give w i turn r)
      given (done address t) =
          returned os nl s w i turn (pos address) sound
            (sound.pending i turn (reads_address frame buf) e (pos address))
      given (blocked t) = lost
      given (fault t) = lost
      given (out_of_fuel t) = lost

  call_at-Sound :
      (w : World) (i : ℕ) (c : Call) (at : Place)
      → Sound os nl s w
      → Sound os nl s (call_at os nl at i c w)
  call_at-Sound w i c outside sound = elim (Bool-cases (ltb i w.count)) [
    | inl there ↦ rw there (moved os nl s w i (waits c) w.shared sound (λ h. h) λ turn e h. cc)
    | inr nobody ↦ rw nobody sound
  ]
  call_at-Sound w i c (waits d) sound = sound
  call_at-Sound w i c (inside turn p) sound = sound
  call_at-Sound w i c (leaves turn p) sound = sound
  call_at-Sound w i c crashed sound = sound

  moves-Sound :
      (ms : List Move) (w : World)
      → Serial os nl s w
      → Sound os nl s w
      → Sound os nl s (moves os nl ms w)
  unfolding moves move
  moves-Sound [] w serial sound = sound
  moves-Sound (begins i c ∷ ms) w serial sound =
      moves-Sound ms _ (move-Serial os nl s (begins i c) w serial)
        (call_at-Sound w i c (w.places i) sound)
  moves-Sound (runs i ∷ ms) w serial sound =
      moves-Sound ms _ (move-Serial os nl s (runs i) w serial)
        (take_step-Sound w i (w.places i) refl serial sound)

  -- Threads that are all outside at first call the functions that take the mutex and take their
  -- steps, in any order. Then where a change of a route has returned 0, the same change made in one
  -- piece in its turn, behind the calls that took the mutex before it, returns 0; and what a
  -- registration has returned it returns there too.
  pub moves-AllBacked :
      (count : ℕ) (ms : List Move)
      → AllBacked os nl
          (moves os nl ms (at_rest count s)).returned
          (moves os nl ms (at_rest count s)).entered
          s
  moves-AllBacked count ms =
      (moves-Sound ms (at_rest count s) (at_rest-Serial os nl s count)
        (record { pending = λ j turn e h. cc; backed = tt })).backed
