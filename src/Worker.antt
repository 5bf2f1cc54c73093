-- ===== src/Worker.antt =====
-- apps/eddn-worker/src: the EDDN messages on their way into the tables.
pub mod Enums
pub mod Values
pub mod Services
pub mod Messages
pub mod Factions
pub mod Stations
pub mod Systems
pub mod Links
pub mod Powerplay
