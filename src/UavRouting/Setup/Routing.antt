-- ===== src/UavRouting/Setup/Routing.antt =====
-- `setupRoutingProtocol` for each number of a protocol.
use manet_testbed.Base.{ℕ, List, ◌∷◌, ◌≡◌, ◌==◌, arith, if◌then◌else◌, leb, ◌&&◌}
use manet_testbed.UavRouting.Ns3.{
  Protocol, olsr, aodv, dsdv, Call, add_routing, set_routing_helper, install_all, install_stack,
  install_dsr,
}
use manet_testbed.UavRouting.Outcome.{Sim, returned, aborted, call}
use manet_testbed.UavRouting.Setup.{choose_protocol, setup_routing_protocol}

-- The protocol of a number from 1 to 3.
abbrev pub numbered : ℕ → Protocol
numbered protocol = if protocol == 1 then olsr else if protocol == 2 then aodv else dsdv

-- The calls that install a protocol, the newest first.
abbrev pub installation : (protocol nodes : ℕ) → List Call → List Call
installation protocol nodes log =
    if protocol == 4
    then install_dsr nodes ∷ install_stack nodes ∷ log
    else install_all ∷ set_routing_helper ∷ add_routing (numbered protocol) 100 ∷ log

-- For 1, 2 and 3 `setupRoutingProtocol` installs the stack on all nodes with OLSR, AODV or DSDV at
-- priority 100; for 4 it installs the bare stack and then DSR on the nodes given; for any other
-- number it ends the program and installs nothing.
pub setup_routing_protocol_lem :
    (protocol nodes : ℕ) (s : Sim)
    → setup_routing_protocol protocol nodes s ≡ (
        if leb 1 protocol && leb protocol 4
        then returned tt (record s { log = installation protocol nodes s.log })
        else aborted s)
unfolding setup_routing_protocol choose_protocol call
setup_routing_protocol_lem protocol nodes s = ground arith
