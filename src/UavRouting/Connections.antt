-- ===== src/UavRouting/Connections.antt =====
-- The three ways in which the simulation connects a source to a destination.
use manet_testbed.Base.{ℕ, String}
use manet_testbed.UavRouting.Ns3.{
  Double, decimal, string_value, type_id_value, address_value, accept, write_until_buffer_full,
  cwnd_tracer, Ns3, get_node, get_address, create_on_off, set_on_off, install_on_off, create_sink,
  install_sink, start_applications, stop_applications, create_uniform_random, draw_uniform,
  lookup_type, set_config, set_default, connect_trace, tcp_socket_factory, create_socket, bind,
  bind_any, connect, listen, set_send_callback, set_accept_callback,
}
use manet_testbed.UavRouting.Outcome.{M, pure, ◌>>=◌, ◌>>◌, call, object, double}
use manet_testbed.UavRouting.Setup.{deref}
use manet_testbed.UavRouting.Transfer.{tx_available, write_loop}

abbrev pub rate : String
rate = "2200000bps"

-- `Ipv4Address::GetAny ()`
abbrev pub any_address : ℕ
any_address = 0

-- The On and Off times of the helper `onoff1`.
unfoldable pub setup_on_off : (packet_size : String) → M (Unit {0})
setup_on_off packet_size = do
  call (set_default "ns3::OnOffApplication::PacketSize" (string_value packet_size))
  call (set_default "ns3::OnOffApplication::DataRate" (string_value rate))
  call (create_on_off "ns3::TcpSocketFactory")
  call (set_on_off "OnTime" (string_value "ns3::ConstantRandomVariable[Constant=1.0]"))
  call (set_on_off "OffTime" (string_value "ns3::ConstantRandomVariable[Constant=0.0]"))

module _ (ns3 : Ns3) where
  -- The client on the source: it starts within the first second and stops at `total_time`.
  unfoldable pub start_client :
      (source destination : ℕ) → Double → (port adhoc_interfaces adhoc_nodes : ℕ) → M (Unit {0})
  start_client source destination total_time port adhoc_interfaces adhoc_nodes = do
    remote ← object ns3 (get_address adhoc_interfaces destination)
    call (set_on_off "Remote" (address_value remote port))
    node ← object ns3 (get_node adhoc_nodes source)
    apps ← object ns3 (install_on_off node)
    variable ← object ns3 create_uniform_random
    var ← deref variable
    start ← double ns3 (draw_uniform var (decimal 0 1) (decimal 10 1))
    call (start_applications apps start)
    call (stop_applications apps total_time)

  -- The socket on the destination. The type is set for the whole simulation.
  unfoldable pub create_sink_socket : (destination adhoc_nodes port : ℕ) → M ℕ
  create_sink_socket destination adhoc_nodes port = do
    tid ← object ns3 (lookup_type "ns3::TcpNewReno")
    call (set_config "/NodeList/*/$ns3::TcpL4Protocol/SocketType" (type_id_value tid))
    node ← object ns3 (get_node adhoc_nodes destination)
    factory ← object ns3 tcp_socket_factory
    socket ← object ns3 (create_socket node factory)
    sink_socket ← deref socket
    call (bind sink_socket any_address port)
    pure sink_socket

  unfoldable pub setup_connection_on_off_socket :
      (source destination : ℕ) → Double → (port adhoc_interfaces adhoc_nodes : ℕ) → M (Unit {0})
  setup_connection_on_off_socket source destination total_time port adhoc_interfaces adhoc_nodes =
      do
        call (set_default "ns3::TcpL4Protocol::SocketType" (string_value "ns3::TcpNewReno"))
        setup_on_off "536"
        start_client source destination total_time port adhoc_interfaces adhoc_nodes
        sink_socket ← create_sink_socket destination adhoc_nodes port
        call (set_accept_callback sink_socket accept)
        call (listen sink_socket)

  -- `rounds` bounds the loop of `WriteUntilBufferFull`, which is called at the end.
  unfoldable pub setup_connection_socket :
      (rounds source destination : ℕ)
      → Double
      → (port adhoc_interfaces adhoc_nodes : ℕ) → M (Unit {0})
  setup_connection_socket rounds source destination total_time port adhoc_interfaces adhoc_nodes =
      do
        sink_socket ← create_sink_socket destination adhoc_nodes port
        call (listen sink_socket)
        call (set_accept_callback sink_socket accept)
        node ← object ns3 (get_node adhoc_nodes source)
        factory ← object ns3 tcp_socket_factory
        socket ← object ns3 (create_socket node factory)
        local_socket ← deref socket
        call (bind_any local_socket)
        call (
            connect_trace "/NodeList/*/$ns3::TcpL4Protocol/SocketList/0/CongestionWindow"
              cwnd_tracer)
        remote ← object ns3 (get_address adhoc_interfaces destination)
        call (connect local_socket remote port)
        call (set_send_callback local_socket write_until_buffer_full)
        tx_space ← tx_available ns3 local_socket
        write_loop ns3 rounds local_socket

  unfoldable pub setup_connection_on_off :
      (source destination : ℕ) → Double → (port adhoc_interfaces adhoc_nodes : ℕ) → M (Unit {0})
  setup_connection_on_off source destination total_time port adhoc_interfaces adhoc_nodes = do
    setup_on_off "1448"
    call (create_sink "ns3::TcpSocketFactory" port)
    node ← object ns3 (get_node adhoc_nodes destination)
    sink_apps ← object ns3 (install_sink node)
    call (start_applications sink_apps (decimal 0 1))
    call (stop_applications sink_apps total_time)
    start_client source destination total_time port adhoc_interfaces adhoc_nodes
