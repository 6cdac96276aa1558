-- ===== src/UavRouting.antt =====
-- AODVtcpImplementaion.cc: a simulation of a chain of UAVs in ns-3 that sends TCP traffic over it.
pub mod Ns3
pub mod Outcome
pub mod Laws
pub mod Transfer
pub mod Setup
pub mod Connections
pub mod Main
