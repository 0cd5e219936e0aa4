-- ===== src/Driver.antt =====
-- class BG96 (BG96/BG96.cpp): a module for each group of its methods.
pub mod Commands
pub mod Sockets
pub mod Errors
pub mod Files
pub mod Tls
pub mod Mqtt
pub mod Power
pub mod Network
pub mod Info
pub mod Connect
pub mod Methods
