-- ===== src/UavRouting/Main.antt =====
-- `main` of the simulation.
use Prim.Native.String.{◌++◌}
use manet_testbed.Base.{ℕ, zero, suc, String, List, [], ◌∷◌, ◌+◌, ◌%◌}
use manet_testbed.UavRouting.Ns3.{
  Double, decimal, string_value, Ns3, enable_metadata, parse_command_line, create_nodes,
  set_standard, set_remote_station_manager, set_default, set_mac_type, install_wifi,
  enable_pcap_all, enable_ascii_all, enable_mobility_ascii_all, create_animation,
  install_flow_monitor, stop_at, run, serialize_flow_monitor, destroy,
}
use manet_testbed.UavRouting.Outcome.{M, pure, ◌>>=◌, ◌>>◌, modify, call, object}
use manet_testbed.UavRouting.Setup.{
  n_wifi, deref, setup_mobility, setup_routing_protocol, setup_wifi_phy, setup_ip,
}
use manet_testbed.UavRouting.Transfer.{port, write_size}
use manet_testbed.UavRouting.Connections.{setup_connection_on_off}

-- The variables of `main`.
abbrev pub n_sinks : ℕ
n_sinks = 1

abbrev pub txp : Double
txp = decimal 75 1

abbrev pub total_time : Double
total_time = decimal 30 0

abbrev pub phy_mode : String
phy_mode = "DsssRate11Mbps"

module _ (ns3 : Ns3) where
  abbrev pub tr_name : String
  tr_name = "traceFiles/testUAV" ++ (ns3.text_of_int n_wifi ++ ("Con" ++ ns3.text_of_int n_sinks))

  -- The loop over `data`, from byte `i` on, for `count` bytes. The loop writes every byte.
  unfoldable pub fill_data : ℕ → ℕ → List ℕ
  fill_data i zero = []
  fill_data i (suc count) = ns3.toascii (97 + i % 26) ∷ fill_data (suc i) count

  -- The nodes with their devices.
  unfoldable pub create_devices : M (ℕ × ℕ)
  create_devices = do
    adhoc_nodes ← object ns3 (create_nodes n_wifi)
    call (set_standard "WIFI_STANDARD_80211n")
    call (set_remote_station_manager "ns3::ConstantRateWifiManager" phy_mode phy_mode)
    setup_wifi_phy ns3 txp
    call (set_default "ns3::WifiRemoteStationManager::NonUnicastMode" (string_value phy_mode))
    call (set_mac_type "ns3::AdhocWifiMac")
    adhoc_devices ← object ns3 (install_wifi adhoc_nodes)
    pure (adhoc_nodes, adhoc_devices)

  -- The traces, the run and its end.
  unfoldable pub run_simulation : M (Unit {0})
  run_simulation = do
    call (enable_pcap_all tr_name)
    call (enable_ascii_all (tr_name ++ ".tr"))
    call (enable_mobility_ascii_all (tr_name ++ ".mob"))
    call (create_animation (tr_name ++ ".xml") 2000000)
    monitor ← object ns3 install_flow_monitor
    call (stop_at total_time)
    call run
    flowmon ← deref monitor
    call (serialize_flow_monitor flowmon (tr_name ++ ".flowmon"))
    call destroy

  -- The body of the loop over the sinks is commented out. No callback of the program's is set when
  -- the simulator runs, so none is called.
  unfoldable pub main : M (Unit {0})
  main = do
    call enable_metadata
    call parse_command_line
    modify (λ s. record s { data_bytes = fill_data 0 write_size })
    (adhoc_nodes, adhoc_devices) ← create_devices
    setup_mobility ns3 (decimal 10000 0) (decimal 100 0) (decimal 0 0) adhoc_nodes 5
    setup_routing_protocol 2 adhoc_nodes
    adhoc_interfaces ← setup_ip ns3 adhoc_devices
    setup_connection_on_off ns3 0 4 total_time port adhoc_interfaces adhoc_nodes
    run_simulation
