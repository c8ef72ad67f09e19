-- ===== src/Cstdlib.antt =====
-- The C library of the target: templates/rosco_m68k/common/libs/src/cstdlib.
pub mod Ctype
pub mod Str
pub mod Stdlib
