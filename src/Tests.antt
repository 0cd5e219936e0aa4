-- ===== src/Tests.antt =====
-- Runs of the modelled code on concrete modems, which show that the hypotheses of the theorems hold.
pub mod Fixtures
mod Sockets
mod Events
mod Delivery
mod Reception
mod Methods
mod Mqtt
mod Files
mod Setup
mod Timer
mod Store
mod Buffers
mod Clients
mod Commands
mod Task
