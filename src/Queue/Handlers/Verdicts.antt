-- ===== src/Queue/Handlers/Verdicts.antt =====
-- The verdict on one packet, for each of the four handlers.
use manet_testbed.Base.{
  ℕ, ℤ, Bool, true, false, Option, none, some, List, ◌∷◌, if◌then◌else◌, ◌≡◌, ◌==◌, ◌&&◌, ◌-◌, ◌^◌,
  ◌≤◌, ◌<◌, arith, u8, length, length-drop,
}
use manet_testbed.Api.{
  State, CallbackFunction, Plane, in_control, in_data, out, for, Action, nfq_set_verdict, Run, done,
  fault, Os, call,
}
use manet_testbed.Queue.Handlers.{
  Packet, Netfilter, Arguments, User, nf_drop, nf_accept, ip_udp_hdr_offset, id_of, arguments,
  is_own_broadcast, set_verdict, ask, handle_unless_own, handle_incoming_control,
  handle_incoming_data, handle_outgoing, handle_forwarded, handle,
}

-- The callback of a plane.
abbrev pub registered : Plane → State → Option CallbackFunction
registered in_control s = s.incoming_control
registered in_data s = s.incoming_data
registered out s = s.outgoing
registered for s = s.forwarded

-- The planes that keep own broadcasts from the user.
abbrev pub filters_own : Plane → Bool
filters_own for = false
filters_own _ = true

-- The system calls after a verdict on a packet of a plane.
abbrev pub judged : Plane → Packet → ℕ → List Action → List Action
judged plane packet verdict log = nfq_set_verdict plane (id_of packet) verdict ∷ log

-- The verdict by what a callback returns.
abbrev pub verdict_of : ℕ → ℕ
verdict_of ret = if u8 ret == 0 then nf_drop else nf_accept

-- A run that returns with the verdict on a packet given, in the state `t` but for that call.
abbrev pub judges : Os → Packet → Plane → ℕ → State → Run ℤ
judges os packet plane verdict t =
    let log' = judged plane packet verdict t.log in done (os.result log') (record t { log = log' })

module _ (os : Os) (nf : Netfilter) (user : User) (packet : Packet) (s : State) where
  ask-judges :
      (plane : Plane) (cb : Option CallbackFunction) (args : Arguments) {callback ret : ℕ}
      {t : State}
      → cb ≡ some callback
      → user callback args s ≡ done ret t
      → ask os nf user plane cb (id_of packet) args s ≡ judges os packet plane (verdict_of ret) t
  unfolding ask set_verdict call
  ask-judges plane cb args set returns = rw (set, returns)

  ask-none :
      (plane : Plane) (cb : Option CallbackFunction) (args : Arguments) (id : ℕ)
      → cb ≡ none
      → ask os nf user plane cb id args s ≡ fault s
  unfolding ask
  ask-none plane cb args id unset = rw unset

  module _ (p_data : List ℕ) (held : packet.payload ≡ some p_data) where
    abbrev args : Arguments
    args = arguments nf p_data

    -- A packet that is not kept from the user is given to the plane's callback, and when that
    -- returns, the packet gets one verdict under its own id: NF_DROP if the low byte of what the
    -- callback returned is 0, and NF_ACCEPT if not.
    pub handle_lem :
        (plane : Plane) {callback ret : ℕ} {t : State}
        → (filters_own plane && is_own_broadcast s args) ≡ false
        → registered plane s ≡ some callback
        → user callback args s ≡ done ret t
        → handle os nf user plane packet s ≡ judges os packet plane (verdict_of ret) t
    unfolding handle handle_incoming_control handle_incoming_data handle_outgoing handle_forwarded
        handle_unless_own
    handle_lem in_control shown set returns =
        simp (held, shown) (ask-judges in_control s.incoming_control args set returns)
    handle_lem in_data shown set returns =
        simp (held, shown) (ask-judges in_data s.incoming_data args set returns)
    handle_lem out shown set returns =
        simp (held, shown) (ask-judges out s.outgoing args set returns)
    handle_lem for shown set returns = simp held (ask-judges for s.forwarded args set returns)

    -- An own broadcast that arrives or leaves gets the verdict NF_DROP under its own id, whatever
    -- the callbacks are, and nothing but the verdict happens.
    pub handle-own :
        (plane : Plane)
        → (filters_own plane && is_own_broadcast s args) ≡ true
        → handle os nf user plane packet s ≡ judges os packet plane nf_drop s
    unfolding handle handle_incoming_control handle_incoming_data handle_outgoing handle_unless_own
        set_verdict call
    handle-own in_control own = simp (held, own)
    handle-own in_data own = simp (held, own)
    handle-own out own = simp (held, own)
    handle-own for own = cc

    -- A packet that is not kept from the user is a call through a null pointer where the plane has
    -- no callback.
    pub handle-fault :
        (plane : Plane)
        → (filters_own plane && is_own_broadcast s args) ≡ false
        → registered plane s ≡ none
        → handle os nf user plane packet s ≡ fault s
    unfolding handle handle_incoming_control handle_incoming_data handle_outgoing handle_forwarded
        handle_unless_own
    handle-fault in_control shown unset =
        simp (held, shown) (ask-none in_control s.incoming_control args _ unset)
    handle-fault in_data shown unset =
        simp (held, shown) (ask-none in_data s.incoming_data args _ unset)
    handle-fault out shown unset = simp (held, shown) (ask-none out s.outgoing args _ unset)
    handle-fault for shown unset = simp held (ask-none for s.forwarded args _ unset)

module _ (nf : Netfilter) (p_data : List ℕ) where
  -- For a packet that holds both headers the length given to the callback is that of the payload
  -- given to it.
  pub payload_length-length :
      ip_udp_hdr_offset ≤ length p_data
      → length p_data < 2 ^ 32
      → (arguments nf p_data).payload_length ≡ length (arguments nf p_data).payload
  unfolding arguments
  payload_length-length h small = omega (arith, length-drop 28 p_data)

  -- For a packet that is shorter than the two headers the length given to the callback has wrapped:
  -- it is at least 2 ^ 32 - 28, though the payload is empty.
  pub payload_length-short :
      length p_data < ip_udp_hdr_offset
      → (2 ^ 32 - ip_udp_hdr_offset ≤ (arguments nf p_data).payload_length)
        × (length (arguments nf p_data).payload ≡ 0)
  unfolding arguments
  payload_length-short h = (omega arith, omega (arith, length-drop 28 p_data))
