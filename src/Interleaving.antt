-- ===== src/Interleaving.antt =====
-- Calls of the API from several threads, a step at a time: the functions of src/api_if.c,
-- src/api_route.c and src/api_queue.c that take the mutex, cut where they touch what threads share.
-- The parsing of one netlink message is one step.
pub mod Schedule
pub mod Still
pub mod Noted
pub mod Finish
pub mod Steps
pub mod Whole
pub mod Serial
pub mod Order
pub mod Ends
pub mod Unbroken
pub mod Reads
pub mod Numbers
pub mod Reached
pub mod Alone
pub mod Answered
pub mod Misreport
pub mod Results
use manet_testbed.Base.{
  ℕ, String, ℤ, pos, u32_max, Bool, Option, none, some, if◌then◌else◌, ◌+◌, ◌==◌, ◌&&◌, not,
  to_size,
}
use manet_testbed.Netlink.{
  Mem, Netlink, nlmsg_error, nlmsg_done, rtm_newroute, rtm_delroute, af_inet,
}
use manet_testbed.Api.{
  CallbackFunction, system, in_control, in_data, out, for, M, pure, gets, modify, ◌>>=◌, ◌>>◌, Os,
  call, check, get_msg, mutex_lock, mutex_unlock,
}
use manet_testbed.Iface.{get_ip, parse_nl_if_msg, name_after, get_interface_ip}
use manet_testbed.Route.{
  form_request, parse_nl_route_msg, note_error, add_unicast_routing_entry, delete_entry,
}
use manet_testbed.Queue.Register.{
  queue_control, queue_data, accept_control, queue_outgoing, drop_control, queue_forwarded,
  start_thread,
}
use manet_testbed.Queue.Register.Outcomes.{Registration, incoming, outgoing, forward, register}

-- The calls that take the mutex. `stack` is what the uninitialised `buf` of the call holds.
pub data Call : Type 0 where
  adding deleting : (stack : Mem) (dest_address next_hop : ℕ) → Call
  getting : (stack : Mem) (interface : Option String) (type : ℕ) → Call
  registering : Registration → Call

-- Where a thread stands with the mutex held, and the local variables that are live there: what it
-- does next. First in `AddUnicastRoutingEntry` and `DeleteEntry`.
pub data RoutePoint : Type 0 where
  asks_route : (stack : Mem) (dest_address next_hop action : ℕ) → RoutePoint
  checks_request : (sent : ℤ) (stack : Mem) → RoutePoint
  awaits_answer : (stack : Mem) → RoutePoint
  checks_answer notes_answer : (len : ℤ) (buf : Mem) → RoutePoint
  frees_changed : RoutePoint

-- In `GetInterfaceIP`, the `frame`-th call of it.
pub data QueryPoint : Type 0 where
  enters : (stack : Mem) (interface : Option String) (type : ℕ) → QueryPoint
  sets_name : (frame : ℕ) (stack : Mem) (interface : Option String) (type : ℕ) → QueryPoint
  asks_address : (frame : ℕ) (stack : Mem) (type : ℕ) → QueryPoint
  checks_sent : (frame : ℕ) (sent : ℤ) (stack : Mem) (type : ℕ) → QueryPoint
  awaits_dump : (frame : ℕ) (buf : Mem) (type : ℕ) → QueryPoint
  checks_dump parses_dump : (frame : ℕ) (len : ℤ) (buf : Mem) (type : ℕ) → QueryPoint
  frees_queried : (frame : ℕ) (buf : Mem) → QueryPoint

-- In the registrations.
pub data RegisterPoint : Type 0 where
  filters_first filters_rest : Registration → RegisterPoint
  keeps_control :
      (control_cb : CallbackFunction) (data_cb : Option CallbackFunction) → RegisterPoint
  starts_control : (data_cb : Option CallbackFunction) → RegisterPoint
  keeps_data keeps_outgoing keeps_forwarded : (cb : CallbackFunction) → RegisterPoint
  starts_data starts_outgoing starts_forwarded frees_registered : RegisterPoint

pub data Point : Type 0 where
  in_route : RoutePoint → Point
  in_query : QueryPoint → Point
  in_registration : RegisterPoint → Point

-- What a call still does when it has left the part that the mutex guards: it makes its result from
-- the error flag, or from `addr` too, or the result is made.
pub data Ending : Type 0 where
  reads_error : Ending
  reads_address : (frame : ℕ) (buf : Mem) → Ending
  gives : ℕ → Ending

pub data Next : Type 0 where
  goes : Point → Next
  ends : Ending → Next

-- The first step behind `pthread_mutex_lock`.
unfoldable pub first : Call → Point
first (adding stack dest hop) = in_route (asks_route stack dest hop rtm_newroute)
first (deleting stack dest hop) = in_route (asks_route stack dest hop rtm_delroute)
first (getting stack interface type) = in_query (enters stack interface type)
first (registering g) = in_registration (filters_first g)

-- The rules that each registration sets up.
abbrev pub first_rule : Registration → String
first_rule (incoming c d) = queue_control
first_rule (outgoing cb) = accept_control
first_rule (forward cb) = drop_control

abbrev pub second_rule : Registration → String
second_rule (incoming c d) = queue_data
second_rule (outgoing cb) = queue_outgoing
second_rule (forward cb) = queue_forwarded

-- Where `RegisterIncomingCallback` goes on to its second callback, and each registration to its
-- first. A null callback for one plane is refused, with the mutex held.
abbrev pub to_data : Option CallbackFunction → Next
to_data none = goes (in_registration frees_registered)
to_data (some callback) = goes (in_registration (keeps_data callback))

abbrev pub to_callback : Registration → Next
to_callback (incoming none d) = to_data d
to_callback (incoming (some callback) d) = goes (in_registration (keeps_control callback d))
to_callback (outgoing none) = ends (gives u32_max)
to_callback (outgoing (some callback)) = goes (in_registration (keeps_outgoing callback))
to_callback (forward none) = ends (gives u32_max)
to_callback (forward (some callback)) = goes (in_registration (keeps_forwarded callback))

-- Whether the loop of `GetInterfaceIP` goes round again.
abbrev pub is_unfinished : ℕ → Bool
is_unfinished kind = not (kind == nlmsg_done) && not (kind == nlmsg_error)

module _ (os : Os) (nl : Netlink) where
  -- One step of a change of a route.
  unfoldable pub step_route : RoutePoint → M Next
  step_route (asks_route stack dest hop action) = do
    sent ← form_request os nl af_inet dest hop action
    pure (goes (in_route (checks_request sent stack)))
  step_route (checks_request sent stack) = do
    check sent
    pure (goes (in_route (awaits_answer stack)))
  step_route (awaits_answer stack) = do
    (len, buf) ← get_msg stack
    pure (goes (in_route (checks_answer len buf)))
  step_route (checks_answer len buf) = do check len; pure (goes (in_route (notes_answer len buf)))
  step_route (notes_answer len buf) = do
    if parse_nl_route_msg nl buf (to_size len) == nlmsg_error
        then note_error os nl (nl.nlmsgerr_error buf (nl.nlmsg_data 0))
        else pure tt
    pure (goes (in_route frees_changed))
  step_route frees_changed = do mutex_unlock; pure (ends reads_error)

  -- One step of `GetInterfaceIP`.
  unfoldable pub step_query : QueryPoint → M Next
  step_query (enters stack interface type) = do
    modify (λ s. record s { frame = s.frame + 1 })
    frame ← gets (λ s. s.frame)
    pure (goes (in_query (sets_name frame stack interface type)))
  step_query (sets_name frame stack interface type) = do
    modify (λ s. record s { interface_name = name_after interface s.interface_name })
    pure (goes (in_query (asks_address frame stack type)))
  step_query (asks_address frame stack type) = do
    sent ← get_ip os nl af_inet
    pure (goes (in_query (checks_sent frame sent stack type)))
  step_query (checks_sent frame sent stack type) = do
    check sent
    pure (goes (in_query (awaits_dump frame stack type)))
  step_query (awaits_dump frame buf type) = do
    (len, buf') ← get_msg buf
    pure (goes (in_query (checks_dump frame len buf' type)))
  step_query (checks_dump frame len buf type) = do
    check len
    pure (goes (in_query (parses_dump frame len buf type)))
  step_query (parses_dump frame len buf type) = do
    kind ← parse_nl_if_msg os nl buf (to_size len) type
    pure (
        if is_unfinished kind
        then goes (in_query (awaits_dump frame buf type))
        else goes (in_query (frees_queried frame buf)))
  step_query (frees_queried frame buf) = do mutex_unlock; pure (ends (reads_address frame buf))

  -- One step of a registration.
  unfoldable pub step_registration : RegisterPoint → M Next
  step_registration (filters_first g) = do
    call os (system (first_rule g))
    pure (goes (in_registration (filters_rest g)))
  step_registration (filters_rest g) = do call os (system (second_rule g)); pure (to_callback g)
  step_registration (keeps_control callback d) = do
    modify (λ s. record s { incoming_control = some callback })
    pure (goes (in_registration (starts_control d)))
  step_registration (starts_control d) = do
    failed ← start_thread os in_control (λ t s. record s { in_thread_control = t })
    pure (if failed then ends (gives u32_max) else to_data d)
  step_registration (keeps_data callback) = do
    modify (λ s. record s { incoming_data = some callback })
    pure (goes (in_registration starts_data))
  step_registration starts_data = do
    failed ← start_thread os in_data (λ t s. record s { in_thread_data = t })
    pure (if failed then ends (gives u32_max) else goes (in_registration frees_registered))
  step_registration (keeps_outgoing callback) = do
    modify (λ s. record s { outgoing = some callback })
    pure (goes (in_registration starts_outgoing))
  step_registration starts_outgoing = do
    failed ← start_thread os out (λ t s. record s { out_thread = t })
    pure (if failed then ends (gives u32_max) else goes (in_registration frees_registered))
  step_registration (keeps_forwarded callback) = do
    modify (λ s. record s { forwarded = some callback })
    pure (goes (in_registration starts_forwarded))
  step_registration starts_forwarded = do
    failed ← start_thread os for (λ t s. record s { out_thread = t })
    pure (if failed then ends (gives u32_max) else goes (in_registration frees_registered))
  step_registration frees_registered = do mutex_unlock; pure (ends (gives 0))

  -- One step of a thread that holds the mutex.
  unfoldable pub advance : Point → M Next
  unfolding step_route step_query step_registration
  advance (in_route p) = step_route p
  advance (in_query p) = step_query p
  advance (in_registration p) = step_registration p

  -- The call as the function that it is, in one piece; a `uint32_t` result as an integer.
  unfoldable pub perform_call : Call → M ℤ
  perform_call (adding stack dest hop) = add_unicast_routing_entry os nl stack dest hop
  perform_call (deleting stack dest hop) = delete_entry os nl stack dest hop
  perform_call (getting stack interface type) = do
    address ← get_interface_ip os nl stack interface type
    pure (pos address)
  perform_call (registering g) = do r ← register os g; pure (pos r)
