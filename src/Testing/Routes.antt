-- ===== src/Testing/Routes.antt =====
-- Routes.
use manet_testbed.Base.{
  ℕ, pos, minus_one, Option, none, some, List, [], ◌∷◌, ◌≡◌, refl, true, false, u8, if◌then◌else◌,
  ◌==◌, Bool-cases, ==_iff, inl, inr, ap,
}
use manet_testbed.Netlink.{
  rtm_newroute, rt_table_main, rtprot_static, rt_scope_universe, rtn_unicast,
}
use manet_testbed.Api.{State, Reply, message, call, check, get_msg, mutex_lock, mutex_unlock}
use manet_testbed.Api.Laws.{Returns}
use manet_testbed.Route.{
  form_route, wlan0_index, form_request, parse_nl_route_msg, note_error, change_route,
  add_unicast_routing_entry, delete_entry,
}
use manet_testbed.Route.Request.{Change, decode, decode-form_route}
use manet_testbed.Route.Outcome.{Answered, requested, add_unicast_routing_entry_lem}
use manet_testbed.Route.Kernel.{
  Table, put, Kernel, IsDocumented, Operation, add, delete, kernel_table,
}
use manet_testbed.Route.Table.{perform_all, AreTrue, PerformedAll, perform_all_lem}
use manet_testbed.Testing.World.{linux, world, zeros, opened, node}

-- An error message with error 0, the kernel's acknowledgement, and one with error -3.
abbrev pub ack : Reply
ack = message (
    36 ∷ 0 ∷ 0 ∷ 0 ∷ 2 ∷ 0 ∷ 0 ∷ 0 ∷ 0 ∷ 0 ∷ 0 ∷ 0 ∷ 0 ∷ 0 ∷ 0 ∷ 0 ∷ 0 ∷ 0 ∷ 0 ∷ 0 ∷ 0 ∷ 0 ∷ 0 ∷ 0
    ∷ 0 ∷ 0 ∷ 0 ∷ 0 ∷ 0 ∷ 0 ∷ 0 ∷ 0 ∷ 0 ∷ 0 ∷ 0 ∷ 0 ∷ [])

abbrev pub no_such_route : Reply
no_such_route = message (
    36 ∷ 0 ∷ 0 ∷ 0 ∷ 2 ∷ 0 ∷ 0 ∷ 0 ∷ 0 ∷ 0 ∷ 0 ∷ 0 ∷ 0 ∷ 0 ∷ 0 ∷ 0 ∷ 253 ∷ 255 ∷ 255 ∷ 255 ∷ 0 ∷ 0
    ∷ 0 ∷ 0 ∷ 0 ∷ 0 ∷ 0 ∷ 0 ∷ 0 ∷ 0 ∷ 0 ∷ 0 ∷ 0 ∷ 0 ∷ 0 ∷ 0 ∷ [])

add_runs :
    Returns
      (λ r t. (r ≡ pos 0) × (t.lock ≡ false))
      (add_unicast_routing_entry world linux zeros node 9 (opened (ack ∷ [])))
unfolding add_unicast_routing_entry change_route form_request note_error parse_nl_route_msg call
    check get_msg mutex_lock mutex_unlock
add_runs = (refl, refl)

delete_runs :
    Returns
      (λ r t. (r ≡ minus_one) × (t.f_err ≡ pos 1))
      (delete_entry world linux zeros node 9 (opened (no_such_route ∷ [])))
unfolding delete_entry change_route form_request note_error parse_nl_route_msg call check get_msg
    mutex_lock mutex_unlock
delete_runs = (refl, refl)

decode-form_route_example :
    decode linux (form_route linux 2 node 9 rtm_newroute)
    ≡ some (record {
      kind = u8 rtm_newroute;
      is_request = true;
      wants_ack = true;
      replaces = true;
      creates = true;
      family = 2;
      table = rt_table_main;
      protocol = rtprot_static;
      scope = rt_scope_universe;
      route_type = rtn_unicast;
      prefix = 32;
      destination = node;
      device = wlan0_index;
      gateway = 9;
    })
decode-form_route_example = decode-form_route linux 2 node 9 rtm_newroute

abbrev asked_once : State
asked_once = opened (ack ∷ [])

add_unicast_routing_entry_lem_example :
    Returns
      (Answered world linux zeros
        (requested world linux zeros node 9 rtm_newroute asked_once)
        asked_once
        ack
        [])
      (add_unicast_routing_entry world linux zeros node 9 asked_once)
add_unicast_routing_entry_lem_example =
    add_unicast_routing_entry_lem world linux zeros node 9 asked_once ack [] refl refl

abbrev pub no_routes : Table
no_routes d = none

-- A kernel that adds every route, and deletes those that are there.
abbrev removed : Change → Table → Option ℕ → Option Table
removed c table none = none
removed c table (some gateway) =
    if gateway == c.gateway then some (put c.destination none table) else none

abbrev pub kernel : Kernel
kernel = record {
  decide = λ c table.
      if c.kind == rtm_newroute
      then some (put c.destination (some c.gateway) table)
      else removed c table (table c.destination);
}

removed_lem :
    (c : Change) (table after : Table) (there : Option ℕ)
    → removed c table there ≡ some after
    → (there ≡ some c.gateway) × (after ≡ put c.destination none table)
removed_lem c table after none e = cc
removed_lem c table after (some gateway) e = elim (Bool-cases (gateway == c.gateway)) [
  | inl same ↦ (ap some ((==_iff gateway c.gateway).0 same), (let put_there = rw same at e in cc))
  | inr other ↦ (let refused = rw other at e in cc)
]

pub kernel-IsDocumented : IsDocumented kernel
kernel-IsDocumented = record {
  adds = λ c table after about replaces creates e. (let put_there = rw about.0 at e in cc);
  deletes =
      λ c table after about e. removed_lem c table after (table c.destination) (rw about.0 at e);
}

-- The second is refused: there is no such route.
abbrev changes : List Operation
changes = add node 9 ∷ delete 5 6 ∷ add 5 6 ∷ []

abbrev replies : List Reply
replies = ack ∷ no_such_route ∷ ack ∷ []

replies-AreTrue :
    AreTrue world linux zeros kernel kernel-IsDocumented no_routes (pos 3) changes replies []
unfolding kernel_table decode form_route parse_nl_route_msg
replies-AreTrue = ((λ sent. refl), ((λ sent. refl), ((λ sent. refl), tt)))

perform_all_lem_example :
    Returns
      (PerformedAll world linux zeros kernel kernel-IsDocumented no_routes changes (opened replies))
      (perform_all world linux zeros changes (opened replies))
perform_all_lem_example =
    perform_all_lem world linux zeros kernel kernel-IsDocumented no_routes changes replies
      (opened replies) refl (refl, refl) replies-AreTrue
