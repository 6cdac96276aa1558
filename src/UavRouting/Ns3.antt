-- ===== src/UavRouting/Ns3.antt =====
-- The simulator ns-3 and the C++ library, as AODVtcpImplementaion.cc calls them.
use manet_testbed.Base.{ℕ, String, ℤ, List}

-- A `double` constant by its decimal: `digits` with `places` of them after the point.
pub data Double : Type 0 where
  decimal : (digits places : ℕ) → Double

pub record Vector : Type 0 where
  pub x : Double
  pub y : Double
  pub z : Double

-- The program's own functions, as it hands them to ns-3.
pub data Callback : Type 0 where
  accept receive_packet write_until_buffer_full cwnd_tracer : Callback

-- The value of an attribute or of a default.
pub data Value : Type 0 where
  string_value : String → Value
  double_value : Double → Value
  type_id_value : (type_id : ℕ) → Value
  address_value : (address port : ℕ) → Value

-- The routing protocols' helpers.
pub data Protocol : Type 0 where
  olsr aodv dsdv : Protocol

-- A call of ns-3. Each local object of the program's that ns-3 changes is named by its call. An
-- object that ns-3 gives out is a number, 0 for a null pointer.
pub data Call : Type 0 where
  -- the nodes, their devices and their mobility
  enable_metadata : Call
  parse_command_line : Call
  create_nodes : (count : ℕ) → Call
  set_standard : String → Call
  set_remote_station_manager : (name data_mode control_mode : String) → Call
  set_default : (path : String) → Value → Call
  set_mac_type : String → Call
  install_wifi : (nodes : ℕ) → Call
  set_propagation_delay add_propagation_loss : String → Call
  create_channel : Call
  set_channel : (channel : ℕ) → Call
  set_wifi_phy : (attribute : String) → Double → Call
  create_position_allocator : (type_id x y z : String) → Call
  assign_allocator_streams : (allocator : ℕ) (stream : ℤ) → Call
  set_mobility_model : String → Call
  install_mobility : (nodes : ℕ) → Call
  get_node : (nodes index : ℕ) → Call
  get_mobility_model : (node : ℕ) → Call
  set_position : (model : ℕ) → Vector → Call
  set_velocity_and_acceleration : (model : ℕ) → Vector → Vector → Call
  assign_mobility_streams : (nodes : ℕ) (stream : ℤ) → Call
  -- the stack and its addresses
  add_routing : Protocol → (priority : ℕ) → Call
  set_routing_helper : Call
  install_all : Call
  install_stack : (nodes : ℕ) → Call
  install_dsr : (nodes : ℕ) → Call
  set_base : (network mask : String) → Call
  assign_addresses : (devices : ℕ) → Call
  get_address : (interfaces index : ℕ) → Call
  -- applications
  create_on_off : (factory : String) → Call
  set_on_off : (attribute : String) → Value → Call
  install_on_off : (node : ℕ) → Call
  create_sink : (factory : String) → (port : ℕ) → Call
  install_sink : (node : ℕ) → Call
  start_applications stop_applications : (applications : ℕ) → Double → Call
  create_uniform_random : Call
  draw_uniform : (variable : ℕ) → (low high : Double) → Call
  -- sockets
  lookup_type : String → Call
  set_config : (path : String) → Value → Call
  connect_trace : (path : String) → Callback → Call
  tcp_socket_factory : Call
  create_socket : (node factory : ℕ) → Call
  bind : (socket address port : ℕ) → Call
  bind_any : (socket : ℕ) → Call
  connect : (socket address port : ℕ) → Call
  listen : (socket : ℕ) → Call
  set_recv_callback set_send_callback set_accept_callback : (socket : ℕ) → Callback → Call
  recv : (socket : ℕ) → Call
  get_tx_available : (socket : ℕ) → Call
  -- `size` bytes from `offset` of the array `data`
  send : (socket offset size : ℕ) → Call
  remove_tos_tag remove_ttl_tag : (packet : ℕ) → Call
  -- traces and the run
  enable_pcap_all enable_ascii_all enable_mobility_ascii_all : (name : String) → Call
  create_animation : (name : String) → (max_packets : ℕ) → Call
  install_flow_monitor : Call
  stop_at : Double → Call
  run : Call
  serialize_flow_monitor : (monitor : ℕ) → (name : String) → Call
  destroy : Call

-- What ns-3 and the C++ library give back. A result may depend on all calls before it: the list of
-- calls is the newest first, and its head is the call in question.
pub record Ns3 : Type 0 where
  -- an object or an address
  pub object : List Call → ℕ
  -- an `int` or a `uint32_t`
  pub number : List Call → ℤ
  pub double : List Call → Double
  -- `GetSize` of a packet
  pub packet_size : ℕ → ℕ
  -- a stream's `<<`
  pub text_of_double : Double → String
  pub text_of_int : ℕ → String
  pub toascii : ℕ → ℕ
