-- ===== src/Init/Outcome.antt =====
-- What `InitializeIF` and `InitializeAPI` return and leave behind, where the kernel dumps both
-- addresses.
use manet_testbed.Base.{
  ℕ, ℤ, pos, minus_one, is_neg, is_zero, Bool, true, false, none, List, ◌∷◌, ◌≡◌, refl,
  if◌then◌else◌, ◌+◌, ◌==◌, ◌&&◌, ◌||◌, not, arith,
}
use manet_testbed.Netlink.{
  Mem, Netlink, load_u32, af_inet, af_netlink, sock_raw, netlink_route, ipproto_udp, sock_dgram,
  sol_socket, so_broadcast,
}
use manet_testbed.Api.{
  State, Action, socket, setsockopt, system, Reply, into, done, Os, call, check,
}
use manet_testbed.Api.Laws.{Returns}
use manet_testbed.Iface.{initialize_if, open_netlink, get_interface_ip, name_after}
use manet_testbed.Iface.Address.{Dump, asked, entered, get_interface_ip_lem}
use manet_testbed.Route.{initialize_route}
use manet_testbed.Send.{initialize_send}
use manet_testbed.Queue.Register.{initialize_queue, flush_rules, enable_forwarding, disable_ipv6}
use manet_testbed.Init.{initialize_api}

module _ (os : Os) (nl : Netlink) where
  -- The netlink socket is opened.
  abbrev pub socketed : State → State
  socketed s =
      let log' = socket af_netlink sock_raw netlink_route ∷ s.log in
      record s { fd = os.result log'; log = log' }

  -- What a query for an address of the interface leaves: the address is at `offset`.
  abbrev pub queried : ℕ → List Reply → State → State
  queried offset rest s = record (entered os nl none s) {
    lock = false;
    addr = into (s.frame + 1) offset;
    inbox = rest;
  }

  -- A query of a kind, with the kernel's replies to it: `address` is what it finds.
  pub record Query (stack : Mem) (type : ℕ) (s : State) (address offset : ℕ) (rest : List Reply)
      : Type 0 where
    pub index : ℕ
    pub buf : Mem
    pub is_sent : is_neg (os.result (asked os nl s)) ≡ false
    pub is_known : os.if_nametoindex (asked os nl s) (name_after none s.interface_name) ≡ index
    pub dump :
        Dump nl type index (s.frame + 1) stack s.addr s.inbox buf (into (s.frame + 1) offset) rest
    pub found : load_u32 buf offset ≡ address

  pub query_lem :
      (stack : Mem) (type : ℕ) (s : State) {address offset : ℕ} {rest : List Reply}
      → s.lock ≡ false
      → is_zero s.f_err ≡ true
      → Query stack type s address offset rest
      → get_interface_ip os nl stack none type s ≡ done address (queried offset rest s)
  query_lem stack type s free fine q = rw (
    get_interface_ip_lem os nl type q.index stack none s free q.is_sent q.is_known fine q.dump,
    q.found,
  )

  -- After the first query.
  abbrev pub halfway : State → (local offset : ℕ) → List Reply → State
  halfway s local offset rest = record (queried offset rest (socketed s)) { local_ip = local }

  module _ (s : State) (local offset1 : ℕ) (rest1 : List Reply) (broadcast offset2 : ℕ)
      (rest2 : List Reply) where
    -- After the second.
    abbrev pub located : State
    located = record (queried offset2 rest2 (halfway s local offset1 rest1)) {
      broadcast_ip = broadcast;
    }

    -- The system calls when a UDP socket is opened, when broadcasts are asked for on it, and when the
    -- three commands of the queues have run.
    abbrev pub udp_opened : List Action
    udp_opened = socket af_inet sock_dgram ipproto_udp ∷ located.log

    abbrev pub broadcasts_allowed : List Action
    broadcasts_allowed = setsockopt (os.result udp_opened) sol_socket so_broadcast 1 ∷ udp_opened

    abbrev pub commanded : List Action
    commanded =
        system disable_ipv6 ∷ system enable_forwarding ∷ system flush_rules ∷ broadcasts_allowed

    -- Both addresses were found, broadcasts are allowed, and the last command succeeded.
    abbrev pub succeeds : Bool
    succeeds =
        (not (local == 0) && not (broadcast == 0))
        && (not (is_neg (os.result broadcasts_allowed)) && not (is_neg (os.result commanded)))

    -- How `InitializeAPI` ends.
    abbrev pub Initialized : ℤ → State → Type 0
    Initialized r t =
        (r ≡ (if succeeds then pos 0 else minus_one))
        × (is_zero t.f_err ≡ succeeds)
        × (t.lock ≡ false)
        × (t.local_ip ≡ local)
        × (t.broadcast_ip ≡ broadcast)
        × (t.sock ≡ os.result udp_opened)
        × (t.outgoing ≡ none)
        × (t.forwarded ≡ none)
        × (t.incoming_control ≡ none)
        × (t.incoming_data ≡ none)
        × (t.inbox ≡ rest2)
        × (t.log ≡ commanded)

    module _ (stack1 stack2 : Mem) (free : s.lock ≡ false) (fine : is_zero s.f_err ≡ true)
        (closed : s.fd ≡ pos 0) (opens : is_neg (socketed s).fd ≡ false)
        (first : Query stack1 0 (socketed s) local offset1 rest1)
        (second : Query stack2 1 (halfway s local offset1 rest1) broadcast offset2 rest2) where
      initialize_if_lem :
          initialize_if os nl stack1 stack2 s
          ≡ done (if (local == 0) || ((broadcast == 0) || false) then minus_one else pos 0) located
      unfolding initialize_if open_netlink call check
      initialize_if_lem =
          rw (closed, opens)
            (rw (query_lem stack1 0 (socketed s) free fine first) (
              rw (query_lem stack2 1 (halfway s local offset1 rest1) refl fine second)
                (rw fine refl)))

      -- `InitializeAPI`, as the program starts, with a netlink socket that opens and a kernel that
      -- dumps an address of both kinds, returns: it keeps both addresses and the UDP socket, clears
      -- the callbacks, leaves the mutex free and runs the three commands. The result is 0, and no
      -- error noted, exactly if neither address is 0, broadcasts are allowed on the UDP socket and
      -- the last command succeeds; otherwise it is -1 and an error is noted.
      pub initialize_api_lem : Returns Initialized (initialize_api os nl stack1 stack2 s)
      unfolding initialize_api check initialize_route initialize_send initialize_queue call
      initialize_api_lem = rw initialize_if_lem (ground arith)
