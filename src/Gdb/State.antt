-- ===== src/Gdb/State.antt =====
-- m68k-stub.c: the state of the stub. Registers are bytes, most significant first, as gdb reads them.
use rosco_cli.Prelude.{ℕ, ◌+◌, ◌*◌, ◌/◌, ◌%◌, Bool, ◌==◌, if◌then◌else◌}
use rosco_cli.Memory.{Mem, poke}

-- What a vector of the exception table points to.
pub data Handler : Type 0 where
  unset catch_exception handle_buserror debug_level7 : Handler

-- struct FrameStruct, without what only the assembly code reads
pub record Frame : Type 0 where
  pub previous : ℕ
  pub exception_pc : ℕ
  pub exception_vector : ℕ
  pub frame_size : ℕ
  pub sr : ℕ
  pub pc : ℕ
  pub format : ℕ
  pub fsave_header : ℕ

pub record Stub : Type 0 where
  pub registers : Mem
  pub memory : Mem
  -- remcomInBuffer and remcomOutBuffer, from address 0 on
  pub in_buffer : Mem
  pub out_buffer : Mem
  pub remote_debug : Bool
  pub vectors : ℕ → Handler
  pub frames : ℕ → Frame
  pub last_frame : ℕ

-- enum regnames
abbrev pub reg_ps : ℕ
reg_ps = 16

abbrev pub reg_pc : ℕ
reg_pc = 17

abbrev pub numregbytes : ℕ
numregbytes = 180

unfoldable pub get_register : Mem → ℕ → ℕ
get_register m r = ((m (4 * r) * 256 + m (4 * r + 1)) * 256 + m (4 * r + 2)) * 256 + m (4 * r + 3)

unfoldable pub set_register : Mem → ℕ → ℕ → Mem
set_register m r v =
    poke
      (poke (poke (poke m (4 * r) (v / 0x100_0000 % 256)) (4 * r + 1) (v / 0x1_0000 % 256))
        (4 * r + 2) (v / 256 % 256))
      (4 * r + 3) (v % 256)

-- exceptionHandler, of gdb-support.c
unfoldable pub exception_handler : ℕ → Handler → Stub → Stub
exception_handler n handler s = record s { vectors = λ v. if v == n then handler else s.vectors v }

unfoldable pub set_frame : ℕ → Frame → Stub → Stub
set_frame p f s = record s { frames = λ q. if q == p then f else s.frames q }
