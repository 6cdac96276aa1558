-- ===== src/Testing/Start.antt =====
-- The initialisation of the API.
use manet_testbed.Base.{ℕ, none, some, List, [], ◌∷◌, refl, arith, take, ◌≡◌}
use manet_testbed.Netlink.{Mem, overlay}
use manet_testbed.Api.{into, done, fault, State, Reply, message, buflen, initial}
use manet_testbed.Api.Laws.{Returns}
use manet_testbed.Iface.{is_wanted, query_interface}
use manet_testbed.Iface.Attributes.{Attributes, end, next}
use manet_testbed.Iface.Messages.{Messages, stop, address}
use manet_testbed.Iface.Address.{last, more}
use manet_testbed.Init.{initialize_api}
use manet_testbed.Init.Outcome.{Query, socketed, halfway, Initialized, initialize_api_lem}
use manet_testbed.Init.Failures.{Missing, missing, no_broadcast, missed, initialize_api-Unlocated}
use manet_testbed.System.Misread.{Asks, asked_for, read_result, overlap-misread}
use manet_testbed.Testing.World.{linux, world, zeros, node, everyone}

-- A message with the address and the broadcast address of interface 3, and the end of a dump.
abbrev both_addresses : List ℕ
both_addresses =
    40 ∷ 0 ∷ 0 ∷ 0 ∷ 20 ∷ 0 ∷ 0 ∷ 0 ∷ 0 ∷ 0 ∷ 0 ∷ 0 ∷ 0 ∷ 0 ∷ 0 ∷ 0 ∷ 2 ∷ 24 ∷ 0 ∷ 0 ∷ 3 ∷ 0 ∷ 0 ∷ 0
    ∷ 8 ∷ 0 ∷ 1 ∷ 0 ∷ 192 ∷ 168 ∷ 1 ∷ 7 ∷ 8 ∷ 0 ∷ 4 ∷ 0 ∷ 192 ∷ 168 ∷ 1 ∷ 255 ∷ []

abbrev end_of_dump : List ℕ
end_of_dump = 20 ∷ 0 ∷ 0 ∷ 0 ∷ 3 ∷ 0 ∷ 0 ∷ 0 ∷ 0 ∷ 0 ∷ 0 ∷ 0 ∷ 0 ∷ 0 ∷ 0 ∷ 0 ∷ 0 ∷ 0 ∷ 0 ∷ 0 ∷ []

abbrev one_dump : List Reply
one_dump = message both_addresses ∷ message end_of_dump ∷ []

abbrev loading : State
loading = initial (message both_addresses ∷ message end_of_dump ∷ one_dump)

-- The buffer, on a stack of zeros, after each message.
abbrev with_addresses : Mem
with_addresses = overlay (take buflen both_addresses) zeros

abbrev with_end : Mem
with_end = overlay (take buflen end_of_dump) with_addresses

walked : Attributes linux with_addresses 24 16 (24 ∷ 32 ∷ [])
walked = next refl (omega arith) (next refl (omega arith) (end refl))

one_message : Messages linux with_addresses 3 0 40 (24 ∷ 32 ∷ []) 0
one_message = address refl (omega arith) refl refl walked (stop refl refl) refl

no_message : Messages linux with_end 3 0 20 [] 3
no_message = stop refl refl

asked_first : Query world linux zeros 0 (socketed world linux loading) node 28 one_dump
unfolding is_wanted
asked_first = record {
  index = 3;
  buf = with_end;
  is_sent = refl;
  is_known = refl;
  dump = more one_message refl (last no_message refl);
  found = refl;
}

asked_second :
    Query world linux zeros 1 (halfway world linux loading node 28 one_dump) everyone 36 []
unfolding is_wanted
asked_second = record {
  index = 3;
  buf = with_end;
  is_sent = refl;
  is_known = refl;
  dump = more one_message refl (last no_message refl);
  found = refl;
}

initialize_api_lem_example :
    Returns
      (Initialized world linux loading node 28 one_dump everyone 36 [])
      (initialize_api world linux zeros zeros loading)
initialize_api_lem_example =
    initialize_api_lem world linux loading node 28 one_dump everyone 36 [] zeros zeros refl refl
      refl refl asked_first asked_second

-- Two threads ask, one for the interface by its name and one with a null pointer.
asks_first : Asks world linux (some "wlan0") zeros 0 (socketed world linux loading) node 28 one_dump
unfolding is_wanted
asks_first = record {
  index = 3;
  buf = with_end;
  is_sent = refl;
  is_known = refl;
  dump = more one_message refl (last no_message refl);
  found = refl;
}

abbrev queried_once : State
queried_once = asked_for world linux (some "wlan0") 28 one_dump (socketed world linux loading)

asks_again : Asks world linux none zeros 1 queried_once everyone 36 []
unfolding is_wanted
asks_again = record {
  index = 3;
  buf = with_end;
  is_sent = refl;
  is_known = refl;
  dump = more one_message refl (last no_message refl);
  found = refl;
}

abbrev queried_twice : State
queried_twice = asked_for world linux none 36 [] queried_once

-- The call for the node's own address returns the broadcast address.
overlap-misread_example :
    (query_interface world linux zeros (some "wlan0") 0 (socketed world linux loading)
      ≡ done with_end queried_once)
    × (query_interface world linux zeros none 1 queried_once ≡ done with_end queried_twice)
    × (read_result (λ frame. some with_end) queried_twice ≡ done everyone queried_twice)
    × (read_result (λ frame. none) queried_twice ≡ fault queried_twice)
unfolding asks_first asks_again
overlap-misread_example =
    overlap-misread world linux (some "wlan0") none zeros zeros 0 1 (socketed world linux loading)
      refl refl asks_first asks_again (λ frame. some with_end) (λ frame. none) refl refl

-- An interface that has an address and no broadcast address.
abbrev unlocated : State
unlocated = initial (message both_addresses ∷ message end_of_dump ∷ message end_of_dump ∷ [])

abbrev end_alone : List Reply
end_alone = message end_of_dump ∷ []

abbrev only_end : Mem
only_end = overlay (take buflen end_of_dump) zeros

nothing : Messages linux only_end 3 0 20 [] 3
nothing = stop refl refl

abbrev half : State
half = halfway world linux unlocated node 28 end_alone

found_first : Query world linux zeros 0 (socketed world linux unlocated) node 28 end_alone
unfolding is_wanted
found_first = record {
  index = 3;
  buf = with_end;
  is_sent = refl;
  is_known = refl;
  dump = more one_message refl (last no_message refl);
  found = refl;
}

half-Missing : Missing world linux zeros 1 half (into 1 28) []
half-Missing = record {
  index = 3;
  buf = only_end;
  is_sent = refl;
  is_known = refl;
  dump = last nothing refl;
  elsewhere = λ offset e. grind arith;
}

-- The second query reads through the pointer that the first one left.
initialize_api-Unlocated_example :
    initialize_api world linux zeros zeros unlocated
    ≡ fault (missed world linux (into 1 28) [] half)
initialize_api-Unlocated_example =
    initialize_api-Unlocated world linux zeros zeros unlocated refl refl refl refl
      (no_broadcast found_first (missing half-Missing))
