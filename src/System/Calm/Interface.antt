-- ===== src/System/Calm/Interface.antt =====
-- `GetInterfaceIP`: it leaves the callbacks and the threads alone, and a noted error noted.
use manet_testbed.Base.{
  ℕ, zero, suc, String, Option, List, [], ◌∷◌, refl, ◌==◌, ◌&&◌, not, to_size, inl, inr, is_zero,
  u32, Bool-cases, arith, if◌then◌else◌,
}
use manet_testbed.Netlink.{Mem, load_u32, Netlink, nlmsg_error, nlmsg_done, rtm_newaddr}
use manet_testbed.Api.{
  State, Reply, Pointer, null, into, done, fault, Os, call, check, get_msg, mutex_lock,
  mutex_unlock,
}
use manet_testbed.Api.Laws.{Leaves}
use manet_testbed.Iface.{
  for_each_rattr, get_ip, parse_ifa_msg, parse_nl_if_msg_from, parse_nl_if_msg, receive_all,
  load_addr, get_interface_ip, query_interface,
}
use manet_testbed.System.Calm.{Calm, edited, bind, lock-Calm, get_msg-Calm}

module _ (nl : Netlink) (buf : Mem) (type : ℕ) where
  for_each_rattr-Calm :
      (rounds rta len : ℕ) (s t : State)
      → Calm s t
      → Leaves (Calm s) (for_each_rattr nl rounds buf type rta len t)
  unfolding for_each_rattr
  for_each_rattr-Calm zero rta len s t c = c
  for_each_rattr-Calm (suc rounds) rta len s t c = elim (Bool-cases (nl.rta_ok buf rta len)) [
    | inl go ↦ rw go (
        for_each_rattr-Calm rounds _ _ s _
          (edited c (refl, refl, refl, refl, λ plane. refl, λ h. h)))
    | inr stop ↦ rw stop c
  ]

  module _ (os : Os) where
    parse_ifa_msg-Calm :
        (ifa rta len : ℕ) (s t : State)
        → Calm s t
        → Leaves (Calm s) (parse_ifa_msg os nl buf ifa rta len type t)
    unfolding parse_ifa_msg
    parse_ifa_msg-Calm ifa rta len s t c =
        elim (Bool-cases (nl.ifa_index buf ifa == os.if_nametoindex t.log t.interface_name)) [
          | inl ours ↦ rw ours (for_each_rattr-Calm (suc len) rta len s t c)
          | inr other ↦
              rw other (elim (Bool-cases (os.if_nametoindex t.log t.interface_name == 0)) [
                | inl unknown ↦
                    rw unknown (edited c (refl, refl, refl, refl, λ plane. refl, λ h. refl))
                | inr known ↦ rw known c
              ])
        ]

    pub parse_nl_if_msg_from-Calm :
        (rounds p len : ℕ) (s t : State)
        → Calm s t
        → Leaves (Calm s) (parse_nl_if_msg_from os nl rounds buf type p len t)
    unfolding parse_nl_if_msg_from
    parse_nl_if_msg_from-Calm zero p len s t c = c
    parse_nl_if_msg_from-Calm (suc rounds) p len s t c =
        elim (Bool-cases (nl.nlmsg_ok buf p (u32 len) && not (nl.nlmsg_type buf p == nlmsg_done))) [
          | inr stop ↦ rw stop c
          | inl go ↦ rw go (elim (Bool-cases (nl.nlmsg_type buf p == nlmsg_error)) [
            | inl error ↦ rw error (edited c (refl, refl, refl, refl, λ plane. refl, λ h. refl))
            | inr fine ↦ rw fine (elim (Bool-cases (nl.nlmsg_type buf p == rtm_newaddr)) [
              | inl address ↦ rw address (
                  bind s _ _ (parse_ifa_msg-Calm _ _ _ s t c)
                    λ _ u d. parse_nl_if_msg_from-Calm rounds _ _ s u d)
              | inr other ↦ rw other (parse_nl_if_msg_from-Calm rounds _ _ s t c)
            ])
          ])
        ]

module _ (os : Os) (nl : Netlink) where
  pub receive_all-Calm :
      (inbox : List Reply) (buf : Mem) (type : ℕ) (s t : State)
      → Calm s t
      → Leaves (Calm s) (receive_all os nl inbox buf type t)
  unfolding receive_all check parse_nl_if_msg
  receive_all-Calm [] buf type s t c = edited c (refl, refl, refl, refl, λ plane. refl, λ h. h)
  receive_all-Calm (reply ∷ rest) buf type s t c =
      bind s (get_msg buf _) _
        (get_msg-Calm s _ buf (edited c (refl, refl, refl, refl, λ plane. refl, λ h. h)))
        λ (len, buf') u d.
          bind s (parse_nl_if_msg_from os nl _ buf' type 0 (to_size len) _) _
            (parse_nl_if_msg_from-Calm nl buf' type os _ _ _ s _
              (edited d (refl, refl, refl, refl, λ plane. refl, λ h. ground arith)))
            λ kind v e. elim (Bool-cases (not (kind == nlmsg_done) && not (kind == nlmsg_error))) [
              | inl more ↦ rw more (receive_all-Calm rest buf' type s v e)
              | inr last ↦ rw last e
            ]

  load_addr-Calm : (buf : Mem) (s t : State) → Calm s t → Leaves (Calm s) (load_addr buf t)
  unfolding load_addr
  load_addr-Calm buf s t c = pointed t.addr
    where
      pointed :
          (p : Pointer)
          → Leaves (Calm s) (elim p [
            | null ↦ fault t
            | into frame offset ↦ if frame == t.frame then done (load_u32 buf offset) t else fault t
          ])
      pointed null = c
      pointed (into frame offset) = elim (Bool-cases (frame == t.frame)) [
        | inl here ↦ rw here c
        | inr gone ↦ rw gone c
      ]

  pub query_interface-Calm :
      (stack : Mem) (interface : Option String) (type : ℕ) (s : State)
      → Leaves (Calm s) (query_interface os nl stack interface type s)
  unfolding query_interface get_ip call check mutex_unlock
  query_interface-Calm stack interface type s = bind s (mutex_lock s) _ (lock-Calm s) λ _ t c.
      bind s (receive_all os nl t.inbox stack type _) _
        (receive_all-Calm t.inbox stack type s _
          (edited c (refl, refl, refl, refl, λ plane. refl, λ h. ground arith)))
        λ buf u d. edited d (refl, refl, refl, refl, λ plane. refl, λ h. h)

  pub get_interface_ip-Calm :
      (stack : Mem) (interface : Option String) (type : ℕ) (s : State)
      → Leaves (Calm s) (get_interface_ip os nl stack interface type s)
  unfolding get_interface_ip
  get_interface_ip-Calm stack interface type s =
      bind s (query_interface os nl stack interface type s) _
        (query_interface-Calm stack interface type s)
        λ buf u d. elim (Bool-cases (is_zero u.f_err)) [
          | inl fine ↦ rw fine (load_addr-Calm buf s u d)
          | inr noted ↦ rw noted d
        ]
