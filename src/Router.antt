-- ===== src/Router.antt =====
-- modules/oscrouter/src/driver: the router's route table, send queue, statistics segment and driver
-- module.
pub mod Table
pub mod Queue
pub mod Stats
pub mod Driver
mod Tests
