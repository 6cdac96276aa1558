-- ===== src/Testing.antt =====
-- Runs of the model at concrete inputs, and the theorems at inputs that meet their hypotheses. The
-- system that they run on is in `World`.
mod World
mod Routes
mod Threads
mod Sends
mod Addresses
mod Packets
mod Start
mod Traffic
mod Registrations
mod Unbroken
mod Uavs
