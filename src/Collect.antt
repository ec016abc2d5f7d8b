-- ===== src/Collect.antt =====
-- The server's skull collecting modes (fpsgame/collect.h under SERVMODE).
pub mod Token
pub mod State
pub mod Play
pub mod Parse
mod Tests
