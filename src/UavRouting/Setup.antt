-- ===== src/UavRouting/Setup.antt =====
-- How the simulation sets up radio, mobility, routing and addresses.
pub mod Mobility
pub mod Routing
use Prim.Native.String.{◌++◌}
use manet_testbed.Base.{
  ℕ, zero, suc, String, ℤ, pos, negsuc, Bool, true, false, List, [], ◌∷◌, if◌then◌else◌, ◌+◌, ltb,
  ◌==◌, get_or,
}
use manet_testbed.UavRouting.Ns3.{
  Double, decimal, Vector, Value, double_value, Protocol, olsr, aodv, dsdv, Call, Ns3,
  set_propagation_delay, add_propagation_loss, set_default, create_channel, set_channel,
  set_wifi_phy, create_position_allocator, assign_allocator_streams, set_mobility_model,
  install_mobility, get_node, get_mobility_model, set_position, set_velocity_and_acceleration,
  assign_mobility_streams, add_routing, set_routing_helper, install_all, install_stack, install_dsr,
  set_base, assign_addresses,
}
use manet_testbed.UavRouting.Outcome.{
  Sim, Outcome, returned, aborted, crashed, exhausted, M, pure, and_then, ◌>>=◌, ◌>>◌, gets, modify,
  call, object, number,
}

abbrev pub n_wifi : ℕ
n_wifi = 11

-- A pointer that is followed.
unfoldable pub deref : ℕ → M ℕ
deref zero = crashed
deref (suc p) = pure (suc p)

-- The point at `metres` on the x axis.
abbrev pub on_axis : ℕ → Vector
on_axis metres = record { x = decimal metres 0; y = decimal 0 0; z = decimal 0 0 }

-- node1_Position to node11_Position
abbrev pub node_positions : List Vector
node_positions =
    on_axis 0
    ∷ on_axis 100
    ∷ on_axis 200
    ∷ on_axis 300
    ∷ on_axis 400
    ∷ on_axis 500
    ∷ on_axis 600
    ∷ on_axis 700
    ∷ on_axis 800
    ∷ on_axis 900
    ∷ on_axis 1000
    ∷ []

-- node1_Vel to node4_Vel
abbrev pub node_velocities : List Vector
node_velocities = on_axis 0 ∷ on_axis 0 ∷ on_axis 0 ∷ on_axis 0 ∷ []

-- `streamIndex += n`, from 1.
abbrev pub next_stream : ℤ → ℤ
next_stream (pos n) = pos (1 + n)
next_stream (negsuc zero) = pos 0
next_stream (negsuc (suc n)) = negsuc n

-- `m[i]->SetPosition`, from the i-th on. Behind its end the array holds no pointer.
unfoldable pub set_positions : List ℕ → ℕ → List Vector → M (Unit {0})
set_positions m i [] = pure tt
set_positions m i (position ∷ positions) = do
  model ← deref (get_or m i 0)
  call (set_position model position)
  set_positions m (suc i) positions

-- `m[i]->SetVelocityAndAcceleration`
unfoldable pub set_velocities : List ℕ → ℕ → List Vector → M (Unit {0})
set_velocities m i [] = pure tt
set_velocities m i (velocity ∷ velocities) = do
  model ← deref (get_or m i 0)
  call (set_velocity_and_acceleration model (on_axis 0) velocity)
  set_velocities m (suc i) velocities

-- The first `switch`: what is added to the list of protocols.
unfoldable pub choose_protocol : ℕ → M (Unit {0})
choose_protocol protocol =
    if protocol == 1
    then call (add_routing olsr 100)
    else if protocol == 2
    then call (add_routing aodv 100)
    else if protocol == 3
    then call (add_routing dsdv 100)
    else if protocol == 4
    then pure tt
    else aborted

unfoldable pub setup_routing_protocol : (protocol adhoc_nodes : ℕ) → M (Unit {0})
setup_routing_protocol protocol adhoc_nodes = do
  choose_protocol protocol
  if ltb protocol 4
      then (do call set_routing_helper; call install_all)
      else if protocol == 4
      then (do call (install_stack adhoc_nodes); call (install_dsr adhoc_nodes))
      else pure tt

module _ (ns3 : Ns3) where
  abbrev pub uniform : Double → String
  uniform max = "ns3::UniformRandomVariable[Min=0.0|Max=" ++ (ns3.text_of_double max ++ "]")

  -- The loop that fills `m`, from node `i` on, for `count` nodes.
  unfoldable pub mobility_models : ℕ → ℕ → ℕ → M (List ℕ)
  mobility_models nodes i zero = pure []
  mobility_models nodes i (suc count) = do
    node ← object ns3 (get_node nodes i)
    node' ← deref node
    model ← object ns3 (get_mobility_model node')
    models ← mobility_models nodes (suc i) count
    pure (model ∷ models)

  -- The `switch` over `mobility_model` is commented out in the source but for one case, so the
  -- parameter is not used; nor are the texts made for the other cases.
  unfoldable pub setup_mobility :
      Double → Double → Double → (adhoc_nodes mobility_model : ℕ) → M (Unit {0})
  setup_mobility x y z adhoc_nodes mobility_model = do
    allocator ← object ns3 (
        create_position_allocator "ns3::RandomBoxPositionAllocator" (uniform x) (uniform y)
          (uniform z))
    position_allocator ← deref allocator
    streams ← number ns3 (assign_allocator_streams position_allocator (pos 1))
    call (set_mobility_model "ns3::ConstantAccelerationMobilityModel")
    call (install_mobility adhoc_nodes)
    m ← mobility_models adhoc_nodes 0 n_wifi
    set_positions m 0 node_positions
    set_velocities m 0 node_velocities
    call (assign_mobility_streams adhoc_nodes (next_stream streams))

  unfoldable pub setup_wifi_phy : Double → M (Unit {0})
  setup_wifi_phy txp = do
    call (set_propagation_delay "ns3::ConstantSpeedPropagationDelayModel")
    call (add_propagation_loss "ns3::TwoRayGroundPropagationLossModel")
    call (
        set_default "ns3::TwoRayGroundPropagationLossModel::HeightAboveZ"
          (double_value (decimal 15 1)))
    channel ← object ns3 create_channel
    call (set_channel channel)
    call (set_wifi_phy "TxPowerStart" txp)
    call (set_wifi_phy "TxPowerEnd" txp)

  unfoldable pub setup_ip : ℕ → M ℕ
  setup_ip adhoc_devices = do
    call (set_base "10.1.1.0" "255.255.255.0")
    object ns3 (assign_addresses adhoc_devices)
