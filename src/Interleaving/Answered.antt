-- ===== src/Interleaving/Answered.antt =====
-- A change of a route that waits for the mutex is answered, wherever the other threads stand.
use manet_testbed.Base.{repeat, ℕ, ℤ, Bool, true, false, List, [], ◌∷◌, ◌++◌, ◌≡◌, refl, length}
use manet_testbed.Netlink.{Mem, Netlink, rtm_newroute, rtm_delroute}
use manet_testbed.Api.{State, Reply, Run, done, blocked, fault, out_of_fuel, Os}
use manet_testbed.Api.Laws.{Returns}
use manet_testbed.Route.Outcome.{
  Answered, requested, add_unicast_routing_entry_lem, delete_entry_lem,
}
use manet_testbed.Interleaving.{Call, adding, deleting, perform_call}
use manet_testbed.Interleaving.Schedule.{outside, waits, put, Move, runs}
use manet_testbed.Interleaving.Alone.{reached, alone-returns}

-- An addition or a deletion, and the message that it sends.
abbrev pub change_call : (adds : Bool) → Mem → (dest hop : ℕ) → Call
change_call true = adding
change_call false = deleting

abbrev pub action_of : (adds : Bool) → ℕ
action_of true = rtm_newroute
action_of false = rtm_delroute

Returns-done :
    {A : Type 0} (Q : A → State → Type 0) (r : Run A)
    → Returns Q r
    → (a : A) × (t : State) × (r ≡ done a t) × Q a t
Returns-done Q (done a t) h = (a, t, refl, h)
Returns-done Q (blocked t) h = absurd h
Returns-done Q (fault t) h = absurd h
Returns-done Q (out_of_fuel t) h = absurd h

module _ (os : Os) (nl : Netlink) where
  change-Answered :
      (adds : Bool) (stack : Mem) (dest hop : ℕ) (s : State) (reply : Reply) (rest : List Reply)
      → s.lock ≡ false
      → s.inbox ≡ reply ∷ rest
      → Returns
          (Answered os nl stack (requested os nl stack dest hop (action_of adds) s) s reply rest)
          (perform_call os nl (change_call adds stack dest hop) s)
  unfolding perform_call
  change-Answered true stack = add_unicast_routing_entry_lem os nl stack
  change-Answered false stack = delete_entry_lem os nl stack

  -- Threads that are all outside at first call the functions that take the mutex and take their
  -- steps, in any order, until a thread waits for the mutex, which is free, with a change of a route,
  -- and a reply is at hand. Then finitely many steps more of that thread alone, wherever the others
  -- stand, are enough for it to return, with the other threads where they stood: its one request is
  -- sent and the reply taken, the mutex is free again, and the result is 0 exactly if no error was
  -- noted before, the request was sent and the reply reports no error, and -1 if not.
  pub alone-Answered :
      (s : State) (count : ℕ) (ms : List Move) (i : ℕ) (adds : Bool) (stack : Mem) (dest hop : ℕ)
      (reply : Reply) (rest : List Reply)
      → (reached os nl s count ms).places i ≡ waits (change_call adds stack dest hop)
      → (reached os nl s count ms).shared.lock ≡ false
      → (reached os nl s count ms).shared.inbox ≡ reply ∷ rest
      → let w = reached os nl s count ms in
        (r : ℤ) × (t : State) × Answered os nl stack
          (requested os nl stack dest hop (action_of adds) w.shared)
          w.shared
          reply
          rest
          r
          t
        × ((n : ℕ) × (reached os nl s count (ms ++ repeat n (runs i)) ≡ record w {
          shared = t;
          places = put i outside w.places;
          entered = w.entered ++ (change_call adds stack dest hop ∷ []);
          returned = (length w.entered, r) ∷ w.returned;
        }))
  alone-Answered s count ms i adds stack dest hop reply rest at free queued =
      let w = reached os nl s count ms in
      let (r, t, whole, answered) =
        Returns-done _ (perform_call os nl (change_call adds stack dest hop) w.shared)
          (change-Answered adds stack dest hop w.shared reply rest free queued) in
      (
        r,
        t,
        answered,
        alone-returns os nl s count ms i (change_call adds stack dest hop) r t at free whole,
      )
