-- ===== src/Wire.antt =====
-- The byte level of the network protocol: `databuf` of shared/tools.h and the integer and text
-- encodings of shared/tools.cpp.
pub mod Buffer
pub mod Ints
pub mod Text
mod Tests
