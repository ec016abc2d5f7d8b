-- ===== src/Bots.antt =====
-- The bots of the server (fpsgame/aiman.h): their slots, their owners, and the balance of teams.
pub mod Member
pub mod Assign
pub mod Teams
pub mod Roster
pub mod Ticks
pub mod Samples
mod Tests
