-- ===== src/UavRouting/Setup/Mobility.antt =====
-- Where `setupMobility` puts the nodes.
use manet_testbed.Base.{ℕ, zero, suc, String, pos, List, [], ◌∷◌, ◌++◌, ◌*◌, ◌≡◌, refl}
use manet_testbed.UavRouting.Ns3.{
  Double, Vector, Call, Ns3, create_position_allocator, assign_allocator_streams,
  set_mobility_model, install_mobility, get_node, get_mobility_model, set_position,
  set_velocity_and_acceleration, assign_mobility_streams,
}
use manet_testbed.UavRouting.Outcome.{Sim, returned, call, object, number}
use manet_testbed.UavRouting.Laws.{Returned}
use manet_testbed.UavRouting.Setup.{
  n_wifi, deref, on_axis, set_positions, set_velocities, uniform, mobility_models, setup_mobility,
  next_stream,
}

-- The nodes of a container as ns-3 documents it: `Get` gives the same node each time, and a node the
-- same mobility model; none of the pointers is null, nor is a new position allocator.
pub record IsFleet (ns3 : Ns3) (nodes : ℕ) (node model : ℕ → ℕ) : Type 0 where
  pub got : (log : List Call) (i : ℕ) → ns3.object (get_node nodes i ∷ log) ≡ suc (node i)
  pub modelled :
      (log : List Call) (i : ℕ)
      → ns3.object (get_mobility_model (suc (node i)) ∷ log) ≡ suc (model i)
  pub allocated :
      (log : List Call) (type_id x y z : String)
      → (k : ℕ) × (ns3.object (create_position_allocator type_id x y z ∷ log) ≡ suc k)

-- The positions set, the newest first.
abbrev pub placed : List Call → List (ℕ × Vector)
placed [] = []
placed (set_position model position ∷ log) = (model, position) ∷ placed log
placed (_ ∷ log) = placed log

-- Node 0 at the origin, and each 100 m further than the one before: the first `count`, the last one
-- first.
abbrev pub chain : (ℕ → ℕ) → ℕ → List (ℕ × Vector)
chain model zero = []
chain model (suc k) = (suc (model k), on_axis (100 * k)) ∷ chain model k

module _ (ns3 : Ns3) (nodes : ℕ) (node model : ℕ → ℕ) (fleet : IsFleet ns3 nodes node model) where
  abbrev models_from : ℕ → ℕ → List ℕ
  models_from i zero = []
  models_from i (suc count) = suc (model i) ∷ models_from (suc i) count

  -- The calls that look `count` nodes up from node `i` on, after `log`.
  abbrev pub looked_up : ℕ → ℕ → List Call → List Call
  looked_up i zero log = log
  looked_up i (suc count) log =
      looked_up (suc i) count (get_mobility_model (suc (node i)) ∷ get_node nodes i ∷ log)

  mobility_models_lem :
      (i count : ℕ) (s : Sim)
      → mobility_models ns3 nodes i count s
        ≡ returned (models_from i count) (record s { log = looked_up i count s.log })
  unfolding mobility_models object deref
  mobility_models_lem i zero s = refl
  mobility_models_lem i (suc count) s = rw (fleet.got s.log i) (
      rw (fleet.modelled (get_node nodes i ∷ s.log) i) (
        rw
          (mobility_models_lem (suc i) count
            (record s { log = get_mobility_model (suc (node i)) ∷ get_node nodes i ∷ s.log }))
          refl))

  abbrev pub allocation : Double → Double → Double → Call
  allocation x y z =
      create_position_allocator "ns3::RandomBoxPositionAllocator" (uniform ns3 x) (uniform ns3 y)
        (uniform ns3 z)

  -- The calls that place the first `count` nodes and set the first `count` velocities to 0.
  abbrev pub placing : ℕ → List Call → List Call
  placing zero log = log
  placing (suc k) log = set_position (suc (model k)) (on_axis (100 * k)) ∷ placing k log

  abbrev pub halting : ℕ → List Call → List Call
  halting zero log = log
  halting (suc k) log =
      set_velocity_and_acceleration (suc (model k)) (on_axis 0) (on_axis 0) ∷ halting k log

  -- The log after `setupMobility`, for the position allocator that it is given.
  abbrev pub moved : Double → Double → Double → ℕ → List Call → List Call
  moved x y z allocator log =
      let log' = assign_allocator_streams allocator (pos 1) ∷ allocation x y z ∷ log in
      let installed =
        install_mobility nodes
        ∷ set_mobility_model "ns3::ConstantAccelerationMobilityModel"
        ∷ log' in
      assign_mobility_streams nodes (next_stream (ns3.number log'))
      ∷ halting 4 (placing n_wifi (looked_up 0 n_wifi installed))

  pub setup_mobility_lem :
      (x y z : Double) (mobility_model : ℕ) (s : Sim) (k : ℕ)
      → ns3.object (allocation x y z ∷ s.log) ≡ suc k
      → setup_mobility ns3 x y z nodes mobility_model s
        ≡ returned tt (record s { log = moved x y z (suc k) s.log })
  unfolding setup_mobility set_positions set_velocities deref object number call
  setup_mobility_lem x y z mobility_model s k e = rw e (
      rw
        (mobility_models_lem 0 n_wifi (record s {
          log =
              install_mobility nodes
              ∷ set_mobility_model "ns3::ConstantAccelerationMobilityModel"
              ∷ assign_allocator_streams (suc k) (pos 1)
              ∷ allocation x y z
              ∷ s.log;
        }))
        refl)

  -- A position allocator that is not null.
  pub new_allocator :
      (x y z : Double) (log : List Call) → (k : ℕ) × (ns3.object (allocation x y z ∷ log) ≡ suc k)
  new_allocator x y z log =
      fleet.allocated log "ns3::RandomBoxPositionAllocator" (uniform ns3 x) (uniform ns3 y)
        (uniform ns3 z)

  -- Where ns-3 gives the same 11 nodes and models each time, and no null pointer, `setupMobility`
  -- returns, whatever the area and the mobility model asked for. The positions that it sets are
  -- those of the 11 nodes, in order: node k on the x axis at 100 * k m.
  pub setup_mobility-chain :
      (x y z : Double) (mobility_model : ℕ) (s : Sim)
      → Returned
          (λ _ t. placed t.log ≡ chain model n_wifi ++ placed s.log)
          (setup_mobility ns3 x y z nodes mobility_model s)
  setup_mobility-chain x y z mobility_model s =
      let (k, e) = new_allocator x y z s.log in
      rw (setup_mobility_lem x y z mobility_model s k e) refl
