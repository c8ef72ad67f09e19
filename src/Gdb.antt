-- ===== src/Gdb.antt =====
-- The debug stub: templates/rosco_m68k/common/libs/src/gdb.
pub mod Hex
pub mod Packet
pub mod Signal
pub mod State
pub mod Frames
pub mod Command
pub mod Support
