-- ===== src/Capture.antt =====
-- The server's capture modes (fpsgame/capture.h under SERVMODE).
pub mod Base
pub mod State
pub mod Play
pub mod Clock
pub mod Parse
mod Tests
