-- ===== src/Captions.antt =====
-- The captions module: the gate of its host, and its publisher to the OSC router, of
-- modules/captions/src/host.
pub mod Publisher
pub mod Config
pub mod Gate
pub mod Poller
mod Tests
