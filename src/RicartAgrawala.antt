-- ===== src/RicartAgrawala.antt =====
-- ricart_agrawala: distributed mutual exclusion by timestamps.
pub mod Utils
pub mod Message
pub mod Queue
pub mod Counter
pub mod Process
pub mod Handling
pub mod System
pub mod Shared
pub mod Register
pub mod Main
pub mod CriticalRegion
pub mod Tests
