-- ===== src/System/Started.antt =====
-- A packet of a plane whose thread was started, after any history.
use manet_testbed.Base.{
  ℕ, ℤ, true, false, Option, none, some, List, ◌≡◌, ◌≢◌, refl, inl, inr, Bool-cases,
}
use manet_testbed.Netlink.{Netlink}
use manet_testbed.Api.{
  State, CallbackFunction, Plane, in_control, in_data, out, for, Run, M, done, blocked, fault,
  out_of_fuel, and_then, Os, call,
}
use manet_testbed.Queue.Handlers.{
  Packet, Netfilter, User, Arguments, with_payload, arguments, is_own_broadcast, set_verdict, ask,
  handle_unless_own, handle_incoming_control, handle_incoming_data, handle_outgoing,
  handle_forwarded, handle,
}
use manet_testbed.Queue.Handlers.Verdicts.{registered}
use manet_testbed.System.{Event, after}
use manet_testbed.System.Calm.{spawned}
use manet_testbed.System.Kept.{HasCallback, Guarded, IsCalmUser}
use manet_testbed.System.Kept.Events.{after-Kept}

-- The run does not read or call through a bad pointer.
abbrev pub IsSound : {A : Type 0} → Run A → Type 0
IsSound (fault s) = ⊥
IsSound _ = Unit {0}

IsSound-bind :
    {A B : Type 0} (r : Run A) (k : A → M B)
    → IsSound r
    → ((a : A) (t : State) → IsSound (k a t))
    → IsSound (and_then r k)
IsSound-bind (done a t) k h next = next a t
IsSound-bind (blocked t) k h next = h
IsSound-bind (fault t) k h next = absurd h
IsSound-bind (out_of_fuel t) k h next = h

module _ (os : Os) (nf : Netfilter) (user : User) where
  ask-IsSound :
      (plane : Plane) (cb : Option CallbackFunction) (id : ℕ) (args : Arguments) (s : State)
      → ((c : CallbackFunction) → IsSound (user c args s))
      → cb ≢ none
      → IsSound (ask os nf user plane cb id args s)
  unfolding ask set_verdict call
  ask-IsSound plane none id args s sound set = absurd (set refl)
  ask-IsSound plane (some c) id args s sound set =
      IsSound-bind (user c args s) _ (sound c) λ ret t. tt

  handle_unless_own-IsSound :
      (plane : Plane) (cb : State → Option CallbackFunction) (id : ℕ) (bs : List ℕ) (s : State)
      → ((c : CallbackFunction) (args : Arguments) → IsSound (user c args s))
      → cb s ≢ none
      → IsSound (handle_unless_own os nf user plane cb id bs s)
  unfolding handle_unless_own set_verdict call
  handle_unless_own-IsSound plane cb id bs s sound set =
      elim (Bool-cases (is_own_broadcast s (arguments nf bs))) [
        | inl own ↦ rw own tt
        | inr other ↦
            rw other (ask-IsSound plane (cb s) id (arguments nf bs) s (λ c. sound c _) set)
      ]

  with_payload-IsSound :
      (bs : Option (List ℕ)) (body : List ℕ → M ℤ) (s : State)
      → bs ≢ none
      → ((b : List ℕ) → IsSound (body b s))
      → IsSound (with_payload bs body s)
  with_payload-IsSound none body s held h = absurd (held refl)
  with_payload-IsSound (some b) body s held h = h b

  handle-IsSound :
      (plane : Plane) (packet : Packet) (s : State)
      → packet.payload ≢ none
      → ((c : CallbackFunction) (args : Arguments) → IsSound (user c args s))
      → registered plane s ≢ none
      → IsSound (handle os nf user plane packet s)
  unfolding handle handle_incoming_control handle_incoming_data handle_outgoing handle_forwarded
  handle-IsSound in_control packet s held sound set =
      with_payload-IsSound packet.payload _ s held
        λ bs. handle_unless_own-IsSound in_control _ _ bs s sound set
  handle-IsSound in_data packet s held sound set =
      with_payload-IsSound packet.payload _ s held
        λ bs. handle_unless_own-IsSound in_data _ _ bs s sound set
  handle-IsSound out packet s held sound set =
      with_payload-IsSound packet.payload _ s held
        λ bs. handle_unless_own-IsSound out _ _ bs s sound set
  handle-IsSound for packet s held sound set =
      with_payload-IsSound packet.payload _ s held
        λ bs. ask-IsSound for s.forwarded _ (arguments nf bs) s (λ c. sound c _) set

  -- The callbacks are calm: they leave the registered callbacks and the threads as they are, and a
  -- noted error noted. No thread is started yet in `s`. Then after any sequence of calls and packets
  -- a packet that has a payload, on a plane whose thread was started by then, is handled without a
  -- call through a null pointer or a read through a bad one, provided the user's callbacks there
  -- make none.
  handle-started :
      (nl : Netlink) (es : List Event) (s : State) (plane : Plane) (packet : Packet)
      → IsCalmUser user
      → ((plane' : Plane) → spawned plane' s.log ≡ false)
      → spawned plane (after os nl nf user es s).log ≡ true
      → packet.payload ≢ none
      → ((c : CallbackFunction) (args : Arguments)
          → IsSound (user c args (after os nl nf user es s)))
      → IsSound (handle os nf user plane packet (after os nl nf user es s))
  handle-started nl es s plane packet calm unstarted started held sound =
      let guarded =
        (after-Kept os nf user calm nl es s).0
          (unset in_control, unset in_data, unset out, unset for) in
      handle-IsSound plane packet _ held sound (at plane _ guarded started)
    where
      unset : (p : Plane) → HasCallback s p
      unset p started' none' = let e = unstarted p in cc

      at : (p : Plane) (u : State) → Guarded u → spawned p u.log ≡ true → registered p u ≢ none
      at in_control u g = g.0
      at in_data u g = g.1
      at out u g = g.2
      at for u g = g.3
