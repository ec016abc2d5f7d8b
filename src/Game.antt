-- ===== src/Game.antt =====
-- What the server's game modes share (fpsgame/game.h and the client record of fpsgame/server.cpp).
pub mod Names
pub mod Modes
pub mod Items
pub mod Random
pub mod Geometry
pub mod Player
pub mod World
pub mod ReadVec
pub mod Samples
mod Tests
