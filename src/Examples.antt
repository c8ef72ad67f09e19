-- ===== src/Examples.antt =====
-- The theorems at concrete inputs, and runs of the modelled code.
mod CstdlibNumbers
mod GdbPackets
mod Devices
mod Allocator
mod Transfer
mod HexLoading
mod Settings
mod Editing
