-- ===== src/Bundle/RoundTrip.antt =====
-- What the bundle writer wrote is what the bundle reader reads.
pub mod Kept
pub mod Entries
pub mod Written
pub mod Headers
pub mod Stored
pub mod Steps
pub mod Loops
pub mod Packs
pub mod Bundles
