-- ===== src/InputHealth.antt =====
-- The input health module: the store of compensations of the driver, and the statistics of the
-- components of the devices, from the driver to the overlay.
pub mod Compensation
pub mod Stats
pub mod Publisher
pub mod Registry
pub mod Buttons
mod Tests
