-- ===== src/Iface/Messages.antt =====
-- `parse_nl_if_msg`: the messages of a reply as the macros find them, and what is kept of them.
use manet_testbed.Base.{
  ℕ, zero, suc, minus_one, Bool, true, false, List, [], ◌++◌, ◌≡◌, ==_self, ◌<◌, arith, ◌==◌, ◌&&◌,
  not, u32, u32_max,
}
use manet_testbed.Netlink.{Mem, Netlink, nlmsg_done, nlmsg_error, rtm_newaddr}
use manet_testbed.Api.{State, done, Os}
use manet_testbed.Iface.{parse_ifa_msg, parse_nl_if_msg_from, parse_nl_if_msg}
use manet_testbed.Iface.Attributes.{Attributes, latest, latest-append, for_each_rattr_lem}

module _ (nl : Netlink) (buf : Mem) where
  open nl use {nlmsg_ok, nlmsg_next, nlmsg_type, nlmsg_data, ifa_index, ifa_rta, ifa_payload}

  -- The test of `for_each_nlmsg`.
  abbrev pub continues : ℕ → ℕ → Bool
  continues p len = nlmsg_ok buf p (u32 len) && not (nlmsg_type buf p == nlmsg_done)

  -- The index of the interface that an address message is about.
  abbrev index_at : ℕ → ℕ
  index_at p = ifa_index buf (nlmsg_data p)

  -- From the message at `p`, with `len` bytes left, the macros step through messages, none of which
  -- is an error, and stop at one of type `kind`. The list holds the attributes of the address
  -- messages about the interface `index`, in order.
  pub data Messages (index : ℕ) : ℕ → ℕ → List ℕ → ℕ → Type 0 where
    stop :
        {p len kind : ℕ}
        → continues p len ≡ false
        → nlmsg_type buf p ≡ kind
        → Messages index p len [] kind
    address :
        {p len kind : ℕ} {here later offsets : List ℕ}
        → continues p len ≡ true
        → (nlmsg_next buf p len).1 < len
        → nlmsg_type buf p ≡ rtm_newaddr
        → index_at p ≡ index
        → Attributes nl buf (ifa_rta (nlmsg_data p)) (ifa_payload buf p) here
        → Messages index (nlmsg_next buf p len).0 (nlmsg_next buf p len).1 later kind
        → offsets ≡ here ++ later
        → Messages index p len offsets kind
    elsewhere :
        {p len kind : ℕ} {later : List ℕ}
        → continues p len ≡ true
        → (nlmsg_next buf p len).1 < len
        → nlmsg_type buf p ≡ rtm_newaddr
        → (index_at p == index) ≡ false
        → (index == 0) ≡ false
        → Messages index (nlmsg_next buf p len).0 (nlmsg_next buf p len).1 later kind
        → Messages index p len later kind
    other :
        {p len kind : ℕ} {later : List ℕ}
        → continues p len ≡ true
        → (nlmsg_next buf p len).1 < len
        → (nlmsg_type buf p == nlmsg_error) ≡ false
        → (nlmsg_type buf p == rtm_newaddr) ≡ false
        → Messages index (nlmsg_next buf p len).0 (nlmsg_next buf p len).1 later kind
        → Messages index p len later kind

  module _ (os : Os) (type index : ℕ) where
    -- The loop keeps the last attribute asked for of the messages about the interface, and returns
    -- the type of the message that it stops at.
    parse_nl_if_msg_from_lem :
        (rounds : ℕ) {p len kind : ℕ} {offsets : List ℕ}
        → Messages index p len offsets kind
        → (s : State) → len < rounds
        → os.if_nametoindex s.log s.interface_name ≡ index
        → parse_nl_if_msg_from os nl rounds buf type p len s
          ≡ done kind (record s { addr = latest nl buf type s.frame s.addr offsets })
    unfolding parse_nl_if_msg_from parse_ifa_msg
    parse_nl_if_msg_from_lem zero m s h e = absurd (omega arith)
    parse_nl_if_msg_from_lem (suc rounds) (stop halt k) s h e = rw (halt, k)
    parse_nl_if_msg_from_lem (suc rounds) {p} (address {here} {later} go less new same atts ms all)
          s h e =
        rw
          (
            all,
            latest-append nl buf type s.frame here s.addr later,
            go,
            new,
            same,
            e,
            ==_self index,
          )
          (rw (for_each_rattr_lem nl buf (suc (ifa_payload buf p)) type atts s (omega arith))
            (parse_nl_if_msg_from_lem rounds ms _ (omega arith) e))
    parse_nl_if_msg_from_lem (suc rounds) (elsewhere go less new apart named later) s h e =
        rw (go, new, e, apart, named) (parse_nl_if_msg_from_lem rounds later s (omega arith) e)
    parse_nl_if_msg_from_lem (suc rounds) (other go less fine old later) s h e =
        rw (go, fine, old) (parse_nl_if_msg_from_lem rounds later s (omega arith) e)

    -- `parse_nl_if_msg` of a reply whose messages are no errors returns the type of the message that
    -- ends them, and leaves `addr` at the data of the last attribute asked for, of the messages
    -- about the interface. Nothing else changes.
    pub parse_nl_if_msg_lem :
        {len kind : ℕ} {offsets : List ℕ}
        → Messages index 0 len offsets kind
        → (s : State) → os.if_nametoindex s.log s.interface_name ≡ index
        → parse_nl_if_msg os nl buf len type s
          ≡ done kind (record s { addr = latest nl buf type s.frame s.addr offsets })
    unfolding parse_nl_if_msg
    parse_nl_if_msg_lem {len} m s e = parse_nl_if_msg_from_lem (suc len) m s (omega arith) e

  -- On an error message `parse_nl_if_msg` notes the error and returns -1 as a `uint32_t`.
  pub parse_nl_if_msg-error :
      (os : Os) (type len : ℕ) (s : State)
      → continues 0 len ≡ true
      → nlmsg_type buf 0 ≡ nlmsg_error
      → parse_nl_if_msg os nl buf len type s ≡ done u32_max (record s { f_err = minus_one })
  unfolding parse_nl_if_msg parse_nl_if_msg_from
  parse_nl_if_msg-error os type len s go e = rw (go, e)
