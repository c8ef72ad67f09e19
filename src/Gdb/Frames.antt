-- ===== src/Gdb/Frames.antt =====
-- m68k-stub.c: exception frames, the way back to the program, and the installation of the stub.
pub mod Laws
pub mod Traps
use rosco_cli.Prelude.{
  ℕ, zero, suc, ◌+◌, ◌-◌, ◌*◌, ◌/◌, ◌%◌, Bool, true, false, ◌||◌, ◌&&◌, not, List, Option, none,
  some, ◌==◌, ltb, if◌then◌else◌, ◌>>=◌, u32_mod,
}
use rosco_cli.Memory.{Mem}
use rosco_cli.Gdb.State.{
  Stub, Frame, Handler, unset, catch_exception, handle_buserror, debug_level7, reg_ps, reg_pc,
  get_register, set_register, exception_handler, set_frame,
}

-- where the compiler puts `gdbFrameStack`, and `sizeof (Frame)`
pub record Layout : Type 0 where
  pub frame_stack : ℕ
  pub frame_bytes : ℕ

-- pointers are 32 bits wide
abbrev pub sub32 : ℕ → ℕ → ℕ
sub32 a b = (a + u32_mod - b) % u32_mod

unfoldable pub initialize_remcom_error_frame : Layout → Stub → Stub
unfolding set_frame
initialize_remcom_error_frame l s =
    let last = sub32 (l.frame_stack + 4 * 499) l.frame_bytes in
    set_frame last (record (s.frames last) { previous = last }) (record s { last_frame = last })

-- the frame with what the program is to find in `sr` and `pc`
unfoldable pub load_frame : ℕ → Stub → Stub
unfolding set_frame
load_frame p s =
    set_frame p
      (record (s.frames p) {
        sr = get_register s.registers reg_ps % 0x1_0000;
        pc = get_register s.registers reg_pc;
      })
      (record s { last_frame = p })

-- returnFromException: `none` is the null frame; the result says whether the way back leads to supervisor mode
unfoldable pub return_from_exception : Option ℕ → Stub → Stub × Bool
unfolding load_frame set_frame
return_from_exception none s =
    let p = s.last_frame in
    let s' =
      set_frame p (record (s.frames p) { frame_size = 4; format = 0; fsave_header = 0xffff_ffff })
        s in
    (load_frame p s', get_register s.registers reg_ps / 0x2000 % 2 == 1)
return_from_exception (some p) s =
    (load_frame p s, get_register s.registers reg_ps / 0x2000 % 2 == 1)

-- a breakpoint's saved pc may be two behind
unfoldable pub matches : Frame → ℕ → Bool
matches fr new_pc =
    fr.exception_pc == new_pc
    || ((fr.exception_vector == 33 || fr.exception_vector == 47)
        && fr.exception_pc == (new_pc + 2) % u32_mod)

-- `while (frame) …`; the outer `none` means that the fuel ran out
unfoldable pub find_frame : ℕ → (ℕ → Frame) → (new_pc frame : ℕ) → Option (Option ℕ)
find_frame zero frames new_pc frame = none
find_frame (suc f) frames new_pc frame =
    let rest = find_frame f frames new_pc (frames frame).previous in
    if frame == 0
    then some none
    else if matches (frames frame) new_pc
    then some (some frame)
    else if frame == (frames frame).previous
    then some none
    else rest

-- the frame that is made up where none was found
unfoldable pub new_frame : Layout → Stub → Stub
unfolding initialize_remcom_error_frame set_frame
new_frame l s =
    let frame = sub32 s.last_frame l.frame_bytes in
    let s' =
      if ltb (sub32 frame (2 * l.frame_bytes)) l.frame_stack
      then initialize_remcom_error_frame l s
      else s in
    let frame' =
      if ltb (sub32 frame (2 * l.frame_bytes)) l.frame_stack then s'.last_frame else frame in
    set_frame frame' (record (s'.frames frame') { previous = s'.last_frame })
      (record s' { last_frame = frame' })

-- Trace, level 7 and breakpoints are the stub's own; any other exception goes to the old hook too.
abbrev pub own_vector : ℕ → Bool
own_vector v = v == 9 || v == 31 || v == 33 || v == 47

-- `(*oldExceptionHook)(vector)`, code that the stub did not install
abbrev pub Hook : Type 0
Hook = Option (ℕ → Stub → Stub)

abbrev pub call_hook : Hook → ℕ → Stub → Stub
call_hook none v s = s
call_hook (some h) v s = h v s

-- from the search for the frame to the jump
unfoldable pub leave : Layout → Hook → Option ℕ → Stub → Stub × Bool
leave l hook none s = return_from_exception none (new_frame l s)
leave l hook (some p) s =
    if own_vector (s.frames p).exception_vector
    then return_from_exception (some p) s
    else let s' = call_hook hook (s.frames p).exception_vector s in
      if get_register s'.registers reg_pc == (s'.frames p).exception_pc
      then return_from_exception (some p) s'
      else return_from_exception none s'

-- the trace bit
unfoldable pub set_trace : Bool → Stub → Stub
set_trace stepping s =
    let ps = get_register s.registers reg_ps % 0x8000 in
    record s { registers = set_register s.registers reg_ps (if stepping then ps + 0x8000 else ps) }

-- the commands `c` and `s` with their parameter, if there is one
unfoldable pub resume : ℕ → Layout → Hook → Bool → Option ℕ → Stub → Option (Stub × Bool)
resume f l hook stepping addr s =
    let s1 : Stub = elim addr [
      | none ↦ s
      | some a ↦ record s { registers = set_register s.registers reg_pc a }
    ] in
    let s2 = set_trace stepping s1 in
    do
      found ← find_frame f s2.frames (get_register s1.registers reg_pc) s2.last_frame
      some (leave l hook found s2)

-- for (exception = from; exception < from + n; exception++) exceptionHandler(exception, catchException)
unfoldable pub catch_range : (n from : ℕ) → Stub → Stub
unfolding exception_handler
catch_range zero from s = s
catch_range (suc n) from s = catch_range n (from + 1) (exception_handler from catch_exception s)

-- the values that `exceptionHook` and `oldExceptionHook` take
pub data HookName : Type 0 where
  no_hook user_hook remcom_handler : HookName

pub record Hooks : Type 0 where
  pub exception_hook : HookName
  pub old_exception_hook : HookName
  pub initialized : Bool

unfoldable pub install_hook : Hooks → Hooks
install_hook h = elim h.old_exception_hook [
  | remcom_handler ↦ record h { initialized = true }
  | _ ↦ record {
    exception_hook = remcom_handler;
    old_exception_hook = h.exception_hook;
    initialized = true;
  }
]

unfoldable pub set_debug_traps : Layout → Stub → Hooks → Stub × Hooks
set_debug_traps l s h =
    let s1 = catch_range 22 2 (initialize_remcom_error_frame l s) in
    let s2 = exception_handler 31 debug_level7 s1 in
    let s3 = exception_handler 47 catch_exception (exception_handler 33 catch_exception s2) in
    (catch_range 7 48 s3, install_hook h)
