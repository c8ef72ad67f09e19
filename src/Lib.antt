-- ===== src/Lib.antt =====
-- rosco: the C code that the command line tool builds into programs for the rosco_m68k board, and
-- the two protocols by which the tool loads a program into a board.
--
-- The tool installs, under templates/rosco_m68k/common/libs/src, a set of small C libraries that
-- every program is linked with: a C library (cstdlib), line input and hexadecimal output on top of
-- the firmware (machine/basicio.c), terminal sequences (vterm), a remote stub for gdb (gdb), the
-- start-up code (start_serial/kinit.c), access to flash chips (sst_flash) and SD cards
-- (sdfat/sdcard.c), and the heap functions (shmall/rosco_m68k.cpp). The tool itself sends a
-- program with the Kermit protocol (src/kermit.rs) or as Intel HEX records (src/ihex.rs), by
-- settings that it folds together from two files (src/config.rs) and edits on request
-- (src/settings.rs). This library models that code and states what makes each part correct. Paths
-- that do not begin with src are relative to templates/rosco_m68k/common/libs/src.
--
-- Prelude: the names that all files share; Prelude/Tests, Lists, Int and Bits hold Boolean
--   tests, lists, signed integers and bit masks over the native numbers.
-- Memory: memory as a function from addresses to bytes, texts closed by a null byte, and frames
--   of writes.
-- Cstdlib/Ctype: cstdlib/ctype.c. Cstdlib/Str: cstdlib/string.c and cstdlib/strings.c, with
--   proofs in Search, Compare, Copy and Concat. Cstdlib/Stdlib: cstdlib/stdlib.c, with proofs in
--   Digits, Print, Fold, Parse and RoundTrip.
-- Gdb: gdb/m68k-stub.c and gdb/gdb-support.c. Hex is the conversion of bytes, Packet getpacket
--   and putpacket, Signal computeSignal, State the variables of the stub, Frames the exception
--   frames, returnFromException and set_debug_traps, Command the loop of handle_exception, Support
--   the rest of gdb/gdb-support.c.
-- Vterm: vterm/vterm.c; Build, Commands and Colours are about what is joined and sent, Cursor is
--   vt_get_cursor_pos and what rests on it.
-- Kinit: start_serial/kinit.c. Basicio: machine/basicio.c, cstdlib/fgets.c and printf/putchar.c.
--   Flash: sst_flash/sst.c. Sdcard: sdfat/sdcard.c.
-- Alloc: shmall/rosco_m68k.cpp. Clear, Ranges and Copy are about mem_clear and mem_copy, Heap
--   has malloc, free, calloc and realloc with the heap of heap.c as a parameter, and Heap/Laws
--   what they rely on of it.
-- Kermit: src/kermit.rs. Port is reading, Transfer sending; Packets and Quoting are the round
--   trips and Ambiguity a limit of quoting, Retries and Recovery are about one packet, Chunks,
--   Delivery, Body and Session about what a whole transfer writes, Willing and Success about a
--   receiver that acknowledges every packet.
-- Ihex: src/ihex.rs. Loader is a loader of Intel HEX records, Records the records of a program,
--   Console sending them, Answers and Delivery what is sent; Program is the dialogue of
--   send_program, Hearing is what was read, Typing and Starting what was written for each outcome,
--   Chunks and Words are about a text that arrives in pieces, Willing about a monitor that goes
--   along.
-- Config: src/config.rs; Merge is about two tables, Layering about the two files and the
--   defaults of a board; Edit is src/settings.rs, Set and Unset say what a file reads behind these
--   commands and Prune that dropping empty sections changes no setting. Ansi: strip_ansi of
--   src/emulator.rs.
-- Examples: the theorems at concrete inputs.
--
-- The parts interact as the code does: vterm joins texts with strncat and reads numbers with atoi,
-- fgets stands on readline, and the stub copies its answers with the routines of Hex and Packet.
-- Definitions keep the names of the C functions, in lower case with underscores.
--
-- Pointers are natural numbers, and an address is not wrapped at 2^32. Bytes are natural numbers;
-- char is signed where the code compares or extends it. Words keep their wrap-around written out.
-- A loop over memory that the code ends by what it finds there runs on fuel, and none means that
-- the fuel ran out; each theorem about such a loop names fuel that is enough, one more than the
-- length of the text in most cases. utoa runs 32 rounds, which a 32-bit number in base 2 needs;
-- the stub's numbers are read with the size of its buffer as fuel, and its answers are sent with
-- 2^33. calloc and realloc run the memory routines on the number of bytes and the alignment, and
-- send_file reads its data with the number of bytes as fuel, since a packet takes one byte at
-- least; its model has an error for fuel that ran out, and the theorem about it says that this is
-- never the result. Loops that wait for input are recursion on the list of what arrives, and none
-- means that they wait for more.
--
-- A serial port, the clock and the flag that cancels a transfer are one list of what each round of
-- reading meets; behind its end nothing arrives until the deadline has passed. Writing fails when
-- a number of writes has been done. The alignment of a long is a parameter, as compilers for the
-- m68k differ in it, and the heap promises that blocks do not overlap, that a block keeps its size
-- and that the others stay as they are.
--
-- Devices and firmware are outside of the code: what is written to the line, the flash chip or the
-- console is a list, what is read is another, and the SD driver and the handlers that the stub did
-- not install are parameters. A bus error is a predicate on addresses. The memory that the
-- commands of gdb read and write is apart from the stub's own buffers, registers and frames. What
-- longjmp undoes is the rest of the command.
--
-- Not modelled: the assembly parts, debug output, abort, the copies of other projects (libm,
-- printf/printf.c, sdfat/fat_io_lib, shmall/heap.c and shmall/llist.c), and the rest of the tool,
-- which runs compilers, reads settings and talks to the terminal.
mod Prelude
pub mod Memory
pub mod Cstdlib
pub mod Gdb
pub mod Vterm
pub mod Kinit
pub mod Basicio
pub mod Flash
pub mod Sdcard
pub mod Alloc
pub mod Kermit
pub mod Ihex
pub mod Config
pub mod Ansi
mod Examples
