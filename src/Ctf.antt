-- ===== src/Ctf.antt =====
-- The server's capture-the-flag modes (fpsgame/ctf.h under SERVMODE): ctf, protect and hold.
pub mod Flag
pub mod State
pub mod Play
pub mod Setup
pub mod Parse
mod Tests
