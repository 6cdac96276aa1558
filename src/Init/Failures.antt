-- ===== src/Init/Failures.antt =====
-- `InitializeAPI` where the kernel gives no address of one kind or the other: the interface has none,
-- or the request is refused.
use manet_testbed.Base.{
  ℕ, pos, minus_one, is_neg, is_zero, true, false, none, List, [], ◌∷◌, ◌≡◌, ◌≢◌, refl, ◌+◌, take,
  length,
}
use manet_testbed.Netlink.{Mem, Netlink, overlay, nlmsg_error}
use manet_testbed.Api.{
  State, Reply, message, Pointer, into, M, Run, blocked, fault, and_then, Os, buflen, call, check,
}
use manet_testbed.Iface.{initialize_if, open_netlink, get_interface_ip, name_after}
use manet_testbed.Iface.Address.{
  Dump, asked, entered, get_interface_ip-fault, get_interface_ip-blocked,
}
use manet_testbed.Iface.Messages.{continues}
use manet_testbed.Init.{initialize_api}
use manet_testbed.Init.Outcome.{Query, query_lem, socketed, halfway}

module _ (os : Os) (nl : Netlink) where
  -- A query of a kind where the kernel's replies, free of errors, leave `addr` outside the buffer of
  -- this call, since no attribute in them is asked for.
  pub record Missing (stack : Mem) (type : ℕ) (s : State) (final : Pointer) (rest : List Reply)
      : Type 0 where
    pub index : ℕ
    pub buf : Mem
    pub is_sent : is_neg (os.result (asked os nl s)) ≡ false
    pub is_known : os.if_nametoindex (asked os nl s) (name_after none s.interface_name) ≡ index
    pub dump : Dump nl type index (s.frame + 1) stack s.addr s.inbox buf final rest
    pub elsewhere : (offset : ℕ) → final ≢ into (s.frame + 1) offset

  -- A query whose only reply begins with an error message.
  pub record Refused (stack : Mem) (s : State) : Type 0 where
    pub bs : List ℕ
    pub is_sent : is_neg (os.result (asked os nl s)) ≡ false
    pub only : s.inbox ≡ message bs ∷ []
    pub is_ok : continues nl (overlay (take buflen bs) stack) 0 (length (take buflen bs)) ≡ true
    pub is_error : nl.nlmsg_type (overlay (take buflen bs) stack) 0 ≡ nlmsg_error

  -- What the two kinds of query leave.
  abbrev pub missed : Pointer → List Reply → State → State
  missed final rest s = record (entered os nl none s) { lock = false; addr = final; inbox = rest }

  abbrev pub waiting : State → State
  waiting s = record (entered os nl none s) { f_err = minus_one; inbox = [] }

  -- A query that gives no address, and how it ends: it reads through `addr`, or waits for ever.
  pub data Unanswered (stack : Mem) (type : ℕ) (s : State) : Type 0 where
    missing :
        {final : Pointer} {rest : List Reply}
        → Missing stack type s final rest
        → Unanswered stack type s
    refused : Refused stack s → Unanswered stack type s

  abbrev pub query_stop :
      {A : Type 0} {stack : Mem} {type : ℕ} {s : State} → Unanswered stack type s → Run A
  query_stop {s} (missing {final} {rest} m) = fault (missed final rest s)
  query_stop {s} (refused r) = blocked (waiting s)

  -- Nothing comes after it.
  and_then-query_stop :
      {A B : Type 0} {stack : Mem} {type : ℕ} {s : State} (u : Unanswered stack type s)
      (k : A → M B)
      → and_then (query_stop u) k ≡ query_stop u
  and_then-query_stop (missing m) k = refl
  and_then-query_stop (refused r) k = refl

  get_interface_ip-Unanswered :
      (stack : Mem) (type : ℕ) (s : State)
      → s.lock ≡ false
      → is_zero s.f_err ≡ true
      → (u : Unanswered stack type s) → get_interface_ip os nl stack none type s ≡ query_stop u
  get_interface_ip-Unanswered stack type s free fine (missing m) =
      get_interface_ip-fault os nl type m.index stack none s free m.is_sent m.is_known fine m.dump
        m.elsewhere
  get_interface_ip-Unanswered stack type s free fine (refused r) =
      get_interface_ip-blocked os nl type 0 stack none s r.bs free r.is_sent r.only r.is_ok
        r.is_error

  -- An initialisation where the query for the node's address, or the one for the broadcast address
  -- behind it, gives none.
  pub data Unlocated (stack1 stack2 : Mem) (s : State) : Type 0 where
    no_address : Unanswered stack1 0 (socketed os nl s) → Unlocated stack1 stack2 s
    no_broadcast :
        {local offset : ℕ} {rest : List Reply}
        → Query os nl stack1 0 (socketed os nl s) local offset rest
        → Unanswered stack2 1 (halfway os nl s local offset rest)
        → Unlocated stack1 stack2 s

  abbrev pub stop :
      {A : Type 0} {stack1 stack2 : Mem} {s : State} → Unlocated stack1 stack2 s → Run A
  stop (no_address u) = query_stop u
  stop (no_broadcast q u) = query_stop u

  module _ (stack1 stack2 : Mem) (s : State) (free : s.lock ≡ false) (fine : is_zero s.f_err ≡ true)
      (closed : s.fd ≡ pos 0) (opens : is_neg (socketed os nl s).fd ≡ false) where
    initialize_if-Unlocated :
        (u : Unlocated stack1 stack2 s) → initialize_if os nl stack1 stack2 s ≡ stop u
    unfolding initialize_if open_netlink call check
    initialize_if-Unlocated (no_address u) =
        rw (closed, opens)
          (rw (get_interface_ip-Unanswered stack1 0 (socketed os nl s) free fine u)
            (and_then-query_stop u _))
    initialize_if-Unlocated (no_broadcast q u) =
        rw (closed, opens)
          (rw (query_lem os nl stack1 0 (socketed os nl s) free fine q) (
            rw (get_interface_ip-Unanswered stack2 1 (halfway os nl s _ _ _) refl fine u)
              (and_then-query_stop u _)))

    -- `InitializeAPI`, as the program starts and with a netlink socket that opens, returns nothing
    -- where the kernel gives no address of one of the kinds. Where its replies are free of errors and
    -- leave `addr` outside the buffer of the query, the query reads through `addr`, with the mutex
    -- free and nothing behind it done. Where its only reply begins with an error message, the query
    -- waits for ever for another, with the mutex held and an error noted. The query is the first one,
    -- or the second where the first has found the node's address.
    pub initialize_api-Unlocated :
        (u : Unlocated stack1 stack2 s) → initialize_api os nl stack1 stack2 s ≡ stop u
    unfolding initialize_api
    initialize_api-Unlocated (no_address u) =
        rw (initialize_if-Unlocated (no_address u)) (and_then-query_stop u _)
    initialize_api-Unlocated (no_broadcast q u) =
        rw (initialize_if-Unlocated (no_broadcast q u)) (and_then-query_stop u _)
