-- ===== src/Ipc.antt =====
-- The pipe between the overlay and the driver.
pub mod Client
pub mod Server
pub mod Handshake
mod Tests
