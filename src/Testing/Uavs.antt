-- ===== src/Testing/Uavs.antt =====
-- The simulation of UAVs on a small ns-3: a socket has room for 3000 bytes, and each packet has 1000.
use manet_testbed.Base.{ℕ, suc, ℤ, pos, take, List, [], ◌∷◌, ◌++◌, ◌-◌, ◌≡◌, ◌≤◌, refl, arith}
use manet_testbed.UavRouting.Ns3.{
  decimal, destroy, Call, Ns3, get_node, get_mobility_model, get_tx_available, send,
}
use manet_testbed.UavRouting.Laws.{Returned}
use manet_testbed.UavRouting.Transfer.{write_loop, write_size}
use manet_testbed.UavRouting.Transfer.Progress.{IsSocket, Filled, write_loop-Filled}
use manet_testbed.UavRouting.Transfer.Counters.{
  Event, accepts, receives, has_space, Holds, AllBehind, Counted, session,
}
use manet_testbed.UavRouting.Transfer.Counters.Session.{session-Counted, session-AllBehind}
use manet_testbed.UavRouting.Main.{main, create_devices, run_simulation}
use manet_testbed.UavRouting.Outcome.{Sim, call, object, number, double}
use manet_testbed.UavRouting.Connections.{setup_on_off, start_client, setup_connection_on_off}
use manet_testbed.UavRouting.Setup.{
  deref, set_positions, set_velocities, choose_protocol, setup_routing_protocol, mobility_models,
  setup_wifi_phy, setup_ip, n_wifi, setup_mobility,
}
use manet_testbed.UavRouting.Setup.Mobility.{IsFleet, placed, chain, setup_mobility-chain}

-- The bytes that a call takes from a buffer.
abbrev taken_by : Call → ℕ
taken_by (send socket offset size) = size
taken_by _ = 0

abbrev room : List Call → ℕ
room [] = 3000
room (c ∷ log) = room log - taken_by c

abbrev given : Call → ℕ
given (get_node nodes index) = suc index
given (get_mobility_model node) = node
given _ = 1

abbrev counted : Call → List Call → ℤ
counted (get_tx_available socket) log = pos (room log)
counted (send socket offset size) log = pos size
counted _ log = pos 1

abbrev small : Ns3
small = record {
  object = λ log. elim log [ [] ↦ 1 | c ∷ log ↦ given c ];
  number = λ log. elim log [ [] ↦ pos 1 | c ∷ log ↦ counted c log ];
  double = λ log. decimal 5 1;
  packet_size = λ p. 1000;
  text_of_double = λ d. "10";
  text_of_int = λ n. "11";
  toascii = λ n. n;
}

room-le : (log : List Call) → room log ≤ 3000
room-le [] = omega arith
room-le (c ∷ log) = omega (arith, room-le log)

small-IsSocket : (socket : ℕ) → IsSocket small socket room
small-IsSocket socket = record {
  fits = λ log. omega (arith, room-le log);
  available = λ log. refl;
  asked = λ log. omega arith;
  accepted = λ log offset size h. refl;
  taken = λ log offset size h. omega arith;
}

small-IsFleet : (nodes : ℕ) → IsFleet small nodes (λ i. i) (λ i. i)
small-IsFleet nodes = record {
  got = λ log i. refl;
  modelled = λ log i. refl;
  allocated = λ log t x y z. (0, refl);
}

abbrev quiet : Sim
quiet = record {
  current_tx_bytes = 0;
  current_rx_bytes = 0;
  packets_received = 0;
  data_bytes = [];
  log = [];
}

-- Near the end of the file, with all of it sent already.
abbrev nearly : Sim
nearly = record quiet { current_tx_bytes = 1000000; current_rx_bytes = 999000 }

write_loop-Filled_example :
    Returned
      (λ _ t. Filled small 4 room (small-IsSocket 4) nearly t)
      (write_loop small 3001 4 nearly)
write_loop-Filled_example =
    write_loop-Filled small 4 room (small-IsSocket 4) 3001 nearly (omega arith) refl (omega arith)

quiet-Counted : Counted small quiet
quiet-Counted = record { packets = refl; received = refl; sent = refl }

abbrev upcalls : List Event
upcalls = accepts 4 ∷ has_space 5 ∷ receives 4 ∷ receives 4 ∷ has_space 5 ∷ []

session-Counted_example : Holds (Counted small) (session small 10 upcalls quiet)
session-Counted_example = session-Counted small 10 upcalls quiet quiet-Counted

session-AllBehind_example : Holds (λ t. AllBehind write_size t.log) (session small 10 upcalls quiet)
session-AllBehind_example = session-AllBehind small 10 upcalls quiet quiet-Counted tt

setup_mobility-chain_example :
    Returned
      (λ _ t. placed t.log ≡ chain (λ i. i) n_wifi ++ [])
      (setup_mobility small (decimal 10000 0) (decimal 100 0) (decimal 0 0) 1 5 quiet)
setup_mobility-chain_example =
    setup_mobility-chain small 1 (λ i. i) (λ i. i) (small-IsFleet 1) (decimal 10000 0)
      (decimal 100 0) (decimal 0 0) 5 quiet

-- The run of `main` returns, and ends with the destruction of the simulator.
main_runs : Returned (λ _ t. take 1 t.log ≡ destroy ∷ []) (main small quiet)
unfolding main create_devices setup_wifi_phy setup_ip setup_mobility mobility_models set_positions
    set_velocities setup_routing_protocol choose_protocol deref setup_connection_on_off setup_on_off
    start_client run_simulation object number double call
main_runs = refl
