-- ===== src/Admission.antt =====
-- Who may be on the server (fpsgame/server.cpp): bans, kicks for team kills, and the door. Times are
-- milliseconds of the server's clock, addresses are 32-bit numbers.
pub mod Bans
pub mod Teamkills
pub mod Door
mod Tests
