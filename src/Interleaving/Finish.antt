-- ===== src/Interleaving/Finish.antt =====
-- What a thread still does with the mutex held, from where it stands: the steps of a call put
-- together again.
use manet_testbed.Base.{ℕ, u32_max, Bool, Option, none, some, if◌then◌else◌, ◌==◌, ◌+◌, to_size}
use manet_testbed.Netlink.{Mem, Netlink, nlmsg_error, af_inet}
use manet_testbed.Api.{
  CallbackFunction, system, in_control, in_data, out, for, M, pure, gets, modify, ◌>>=◌, ◌>>◌, Os,
  call, check, get_msg, mutex_unlock,
}
use manet_testbed.Iface.{get_ip, parse_nl_if_msg, receive_all, name_after}
use manet_testbed.Route.{form_request, parse_nl_route_msg, note_error}
use manet_testbed.Queue.Register.{start_thread}
use manet_testbed.Queue.Register.Outcomes.{Registration}
use manet_testbed.Interleaving.{
  in_route, in_query, in_registration, Point, asks_route, checks_request, awaits_answer,
  checks_answer, notes_answer, enters, sets_name, asks_address, checks_sent, awaits_dump,
  checks_dump, parses_dump, frees_queried, filters_first, filters_rest, keeps_control,
  starts_control, keeps_data, keeps_outgoing, keeps_forwarded, starts_data, starts_outgoing,
  starts_forwarded, frees_registered, frees_changed, Ending, reads_error, reads_address, gives,
  Next, goes, ends, first_rule, second_rule, is_unfinished,
}

-- From the release of the mutex.
abbrev pub released : Ending → M Ending
released e = do mutex_unlock; pure e

module _ (os : Os) (nl : Netlink) where
  -- A change of a route, from each of its steps on.
  abbrev pub note_answer : ℕ → Mem → M (Unit {0})
  note_answer len buf =
      if parse_nl_route_msg nl buf len == nlmsg_error
      then note_error os nl (nl.nlmsgerr_error buf (nl.nlmsg_data 0))
      else pure tt

  abbrev pub answer_noted : ℕ → Mem → M Ending
  answer_noted len buf = do note_answer len buf; released reads_error

  abbrev answer_awaited : Mem → M Ending
  answer_awaited stack = do (len, buf) ← get_msg stack; check len; answer_noted (to_size len) buf

  -- `GetInterfaceIP`, from each of its steps on. The loop goes over the replies still held.
  abbrev pub dump_awaited : ℕ → Mem → ℕ → M Ending
  dump_awaited frame buf type = do
    inbox ← gets (λ s. s.inbox)
    buf' ← receive_all os nl inbox buf type
    released (reads_address frame buf')

  abbrev pub dump_parsed : ℕ → ℕ → Mem → ℕ → M Ending
  dump_parsed frame len buf type = do
    kind ← parse_nl_if_msg os nl buf len type
    if is_unfinished kind then dump_awaited frame buf type else released (reads_address frame buf)

  abbrev address_asked : ℕ → Mem → ℕ → M Ending
  address_asked frame stack type = do
    sent ← get_ip os nl af_inet
    check sent
    dump_awaited frame stack type

  -- A registration, from each of its steps on.
  abbrev started : M Bool → M Ending → M Ending
  started start rest = do has_failed ← start; if has_failed then pure (gives u32_max) else rest

  abbrev data_started : M Ending
  data_started =
      started (start_thread os in_data (λ t s. record s { in_thread_data = t }))
        (released (gives 0))

  abbrev pub data_given : Option CallbackFunction → M Ending
  data_given none = released (gives 0)
  data_given (some callback) = do
    modify (λ s. record s { incoming_data = some callback })
    data_started

  abbrev control_started : Option CallbackFunction → M Ending
  control_started d =
      started (start_thread os in_control (λ t s. record s { in_thread_control = t }))
        (data_given d)

  abbrev outgoing_started : M Ending
  outgoing_started =
      started (start_thread os out (λ t s. record s { out_thread = t })) (released (gives 0))

  abbrev forwarded_started : M Ending
  forwarded_started =
      started (start_thread os for (λ t s. record s { out_thread = t })) (released (gives 0))

  abbrev pub callback_given : Registration → M Ending
  callback_given (Registration.incoming none d) = data_given d
  callback_given (Registration.incoming (some callback) d) = do
    modify (λ s. record s { incoming_control = some callback })
    control_started d
  callback_given (Registration.outgoing none) = pure (gives u32_max)
  callback_given (Registration.outgoing (some callback)) = do
    modify (λ s. record s { outgoing = some callback })
    outgoing_started
  callback_given (Registration.forward none) = pure (gives u32_max)
  callback_given (Registration.forward (some callback)) = do
    modify (λ s. record s { forwarded = some callback })
    forwarded_started

  -- All that is left to do with the mutex held.
  unfoldable pub finish : Point → M Ending
  finish (in_route (asks_route stack dest hop action)) = do
    sent ← form_request os nl af_inet dest hop action
    check sent
    answer_awaited stack
  finish (in_route (checks_request sent stack)) = do check sent; answer_awaited stack
  finish (in_route (awaits_answer stack)) = answer_awaited stack
  finish (in_route (checks_answer len buf)) = do check len; answer_noted (to_size len) buf
  finish (in_route (notes_answer len buf)) = answer_noted (to_size len) buf
  finish (in_route frees_changed) = released reads_error
  finish (in_query (enters stack interface type)) = do
    modify (λ s. record s { frame = s.frame + 1 })
    modify (λ s. record s { interface_name = name_after interface s.interface_name })
    frame ← gets (λ s. s.frame)
    address_asked frame stack type
  finish (in_query (sets_name frame stack interface type)) = do
    modify (λ s. record s { interface_name = name_after interface s.interface_name })
    address_asked frame stack type
  finish (in_query (asks_address frame stack type)) = address_asked frame stack type
  finish (in_query (checks_sent frame sent stack type)) = do
    check sent
    dump_awaited frame stack type
  finish (in_query (awaits_dump frame buf type)) = dump_awaited frame buf type
  finish (in_query (checks_dump frame len buf type)) = do
    check len
    dump_parsed frame (to_size len) buf type
  finish (in_query (parses_dump frame len buf type)) = dump_parsed frame (to_size len) buf type
  finish (in_query (frees_queried frame buf)) = released (reads_address frame buf)
  finish (in_registration (filters_first g)) = do
    call os (system (first_rule g))
    call os (system (second_rule g))
    callback_given g
  finish (in_registration (filters_rest g)) = do call os (system (second_rule g)); callback_given g
  finish (in_registration (keeps_control callback d)) = do
    modify (λ s. record s { incoming_control = some callback })
    control_started d
  finish (in_registration (starts_control d)) = control_started d
  finish (in_registration (keeps_data callback)) = data_given (some callback)
  finish (in_registration starts_data) = data_started
  finish (in_registration (keeps_outgoing callback)) =
      callback_given (Registration.outgoing (some callback))
  finish (in_registration starts_outgoing) = outgoing_started
  finish (in_registration (keeps_forwarded callback)) =
      callback_given (Registration.forward (some callback))
  finish (in_registration starts_forwarded) = forwarded_started
  finish (in_registration frees_registered) = released (gives 0)

  abbrev pub continue : Next → M Ending
  continue (goes p) = finish p
  continue (ends e) = pure e
