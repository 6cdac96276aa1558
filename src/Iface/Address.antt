-- ===== src/Iface/Address.antt =====
-- `GetInterfaceIP`: the address that a dump of replies ends with, and the ways to get none.
use manet_testbed.Base.{
  ℕ, String, minus_one, is_neg, is_zero, Bool, true, false, Option, List, [], ◌∷◌, ◌≡◌, ◌≢◌, ap,
  inl, inr, refl, ==_self, ==_iff, Bool-cases, ◌+◌, ◌==◌, ◌&&◌, not, take, length,
}
use manet_testbed.Netlink.{Mem, Netlink, overlay, load_u32, nlmsg_done, nlmsg_error, af_inet}
use manet_testbed.Api.{
  State, getaddr, Action, sendmsg, Reply, message, Pointer, null, into, done, blocked, fault, Os,
  buflen, call, check, get_msg, mutex_lock, mutex_unlock,
}
use manet_testbed.Iface.{
  form_getaddr, get_ip, receive_all, load_addr, get_interface_ip, query_interface, name_after,
}
use manet_testbed.Iface.Attributes.{latest}
use manet_testbed.Iface.Messages.{Messages, continues, parse_nl_if_msg_lem, parse_nl_if_msg-error}

-- Whether the `do` loop goes on after this type.
abbrev pub repeats : ℕ → Bool
repeats kind = not (kind == nlmsg_done) && not (kind == nlmsg_error)

module _ (nl : Netlink) (type index frame : ℕ) where
  -- The kernel's replies, received over one another into a buffer: none has an error message, and
  -- the last of the dump is the first that stops at a message of type NLMSG_DONE. `addr` is at the
  -- end what `final` says, `buf` what the buffer then holds, and `rest` has not been received.
  pub data Dump : Mem → Pointer → List Reply → Mem → Pointer → List Reply → Type 0 where
    last :
        {stack : Mem} {addr final : Pointer} {bs : List ℕ} {rest : List Reply} {offsets : List ℕ}
        → Messages nl
            (overlay (take buflen bs) stack)
            index
            0
            (length (take buflen bs))
            offsets
            nlmsg_done
        → final ≡ latest nl (overlay (take buflen bs) stack) type frame addr offsets
        → Dump stack addr (message bs ∷ rest) (overlay (take buflen bs) stack) final rest
    more :
        {stack buf : Mem} {addr final : Pointer} {bs : List ℕ} {later rest : List Reply}
        {offsets : List ℕ} {kind : ℕ}
        → Messages nl
            (overlay (take buflen bs) stack)
            index
            0
            (length (take buflen bs))
            offsets
            kind
        → repeats kind ≡ true
        → Dump
            (overlay (take buflen bs) stack)
            (latest nl (overlay (take buflen bs) stack) type frame addr offsets)
            later
            buf
            final
            rest
        → Dump stack addr (message bs ∷ later) buf final rest

load_addr-fault :
    (buf : Mem) (final : Pointer) (s : State)
    → ((offset : ℕ) → final ≢ into s.frame offset)
    → load_addr buf (record s { addr = final }) ≡ fault (record s { addr = final })
unfolding load_addr
load_addr-fault buf null s h = refl
load_addr-fault buf (into frame offset) s h = elim (Bool-cases (frame == s.frame)) [
  | inl here ↦ absurd (h offset (ap (λ (n : ℕ). into n offset) ((==_iff frame s.frame).0 here)))
  | inr gone ↦ rw gone
]

module _ (os : Os) (nl : Netlink) where
  -- The system calls after the request for the addresses is sent.
  abbrev pub asked : State → List Action
  asked s = sendmsg s.fd (getaddr (form_getaddr nl af_inet)) ∷ s.log

  -- The call, from the state that its first three statements leave.
  abbrev pub entered : Option String → State → State
  entered interface s = record s {
    lock = true;
    frame = s.frame + 1;
    interface_name = name_after interface s.interface_name;
    log = asked s;
  }

module _ (os : Os) (nl : Netlink) (type index : ℕ) where
  receive_all_lem :
      (s : State) {stack buf : Mem} {addr final : Pointer} {replies rest : List Reply}
      → Dump nl type index s.frame stack addr replies buf final rest
      → (queued : List Reply) → os.if_nametoindex s.log s.interface_name ≡ index
      → receive_all os nl replies stack type (record s { addr = addr; inbox = queued })
        ≡ done buf (record s { addr = final; inbox = rest })
  unfolding receive_all get_msg check
  receive_all_lem s (last {addr} {rest} m e) queued i =
      rw (parse_nl_if_msg_lem nl _ os type index m (record s { addr = addr; inbox = rest }) i, e)
  receive_all_lem s (more {addr} {later} m go d) queued i =
      rw (parse_nl_if_msg_lem nl _ os type index m (record s { addr = addr; inbox = later }) i, go)
        (receive_all_lem s d later i)

  module _ (stack : Mem) (interface : Option String) (s : State) (free : s.lock ≡ false)
      (sent : is_neg (os.result (asked os nl s)) ≡ false)
      (known : os.if_nametoindex (asked os nl s) (name_after interface s.interface_name)
        ≡ index) where
    -- The part that holds the mutex.
    pub query_interface_lem :
        {buf : Mem} {final : Pointer} {rest : List Reply}
        → Dump nl type index (s.frame + 1) stack s.addr s.inbox buf final rest
        → is_zero s.f_err ≡ true
        → query_interface os nl stack interface type s
          ≡ done buf
              (record (entered os nl interface s) { lock = false; addr = final; inbox = rest })
    unfolding query_interface mutex_lock mutex_unlock get_ip call check
    query_interface_lem d fine =
        rw (free, sent) (rw (receive_all_lem (entered os nl interface s) d s.inbox known) refl)

    -- With the mutex free, no error noted before, the request sent, and replies that dump the
    -- addresses without an error, `GetInterfaceIP` returns the address at the last attribute asked
    -- for, as the buffer holds it when all replies are received; the mutex is free again.
    pub get_interface_ip_lem :
        {buf : Mem} {offset : ℕ} {rest : List Reply}
        → is_zero s.f_err ≡ true
        → Dump nl type index (s.frame + 1) stack s.addr s.inbox buf (into (s.frame + 1) offset) rest
        → get_interface_ip os nl stack interface type s
          ≡ done (load_u32 buf offset) (record (entered os nl interface s) {
            lock = false;
            addr = into (s.frame + 1) offset;
            inbox = rest;
          })
    unfolding get_interface_ip query_interface mutex_lock mutex_unlock get_ip call check load_addr
    get_interface_ip_lem fine d =
        rw (free, sent)
          (rw (receive_all_lem (entered os nl interface s) d s.inbox known)
            (rw (fine, ==_self (s.frame + 1))))

    -- With the mutex free, no error noted before, the request sent, and replies that dump the
    -- addresses without an error, but with no attribute asked for among theirs, so that `addr` is
    -- null or left from an earlier call, `GetInterfaceIP` reads through it.
    pub get_interface_ip-fault :
        {buf : Mem} {final : Pointer} {rest : List Reply}
        → is_zero s.f_err ≡ true
        → Dump nl type index (s.frame + 1) stack s.addr s.inbox buf final rest
        → ((offset : ℕ) → final ≢ into (s.frame + 1) offset)
        → get_interface_ip os nl stack interface type s
          ≡ fault (record (entered os nl interface s) { lock = false; addr = final; inbox = rest })
    unfolding get_interface_ip query_interface mutex_lock mutex_unlock get_ip call check
    get_interface_ip-fault {buf} {final} {rest} fine d none_here =
        rw (free, sent)
          (rw (receive_all_lem (entered os nl interface s) d s.inbox known) (
            rw fine (
              load_addr-fault buf final
                (record (entered os nl interface s) { lock = false; inbox = rest }) none_here)))

  -- With the mutex free, the request sent, and an error message for the only reply,
  -- `GetInterfaceIP` waits for ever for another reply, and holds the mutex while it waits.
  pub get_interface_ip-blocked :
      (stack : Mem) (interface : Option String) (s : State) (bs : List ℕ)
      → s.lock ≡ false
      → is_neg (os.result (asked os nl s)) ≡ false
      → s.inbox ≡ message bs ∷ []
      → continues nl (overlay (take buflen bs) stack) 0 (length (take buflen bs)) ≡ true
      → nl.nlmsg_type (overlay (take buflen bs) stack) 0 ≡ nlmsg_error
      → get_interface_ip os nl stack interface type s
        ≡ blocked (record (entered os nl interface s) { f_err = minus_one; inbox = [] })
  unfolding get_interface_ip query_interface mutex_lock get_ip call check receive_all get_msg
  get_interface_ip-blocked stack interface s bs free sent queued go error =
      rw (free, sent, queued)
        (rw (parse_nl_if_msg-error nl (overlay (take buflen bs) stack) os type _ _ go error))
