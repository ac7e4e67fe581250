-- ===== src/Osc.antt =====
-- modules/oscrouter/src/driver/OscWire.h and OscWire.cpp.
pub mod Packet
pub mod Reader
pub mod Bundle
pub mod Pattern
mod Tests
