-- ===== src/Gdb/Support.antt =====
-- gdb-support.c: the start of the stub, and the characters that it reads and sends. The firmware's device
-- calls and the UART's ring buffer are outside of this code: what they answer is an argument.
use rosco_cli.Prelude.{
  ℕ, ◌%◌, ◌≡◌, List, [], ◌∷◌, ◌++◌, Bool, true, false, Option, none, some, ltb, if◌then◌else◌, not,
  ◌&&◌, arith, Bool-cases, inl, inr, ◌==◌, leb,
}
use rosco_cli.Gdb.State.{Stub, catch_exception, debug_level7}
use rosco_cli.Gdb.Frames.{Layout, Hooks, set_debug_traps}
use rosco_cli.Gdb.Frames.Traps.{is_caught, set_debug_traps-vectors}

-- what mcCheckDeviceSupport, mcGetDeviceCount and mcGetDevice (1, …) answer
pub record Firmware : Type 0 where
  pub device_support : Bool
  pub device_count : ℕ
  pub second_device : Bool

-- The vector table is at the base that mcGetVecBase gives, which is the table of `Stub`.
unfoldable pub start_debugger : Layout → Firmware → Stub → Hooks → Stub × Hooks × Bool
start_debugger l fw s h =
    let s0 : Stub = record s { remote_debug = false } in
    let started = set_debug_traps l s0 h in
    if not fw.device_support
    then (s0, h, false)
    else if ltb fw.device_count 2
    then (s0, h, false)
    else if not fw.second_device
    then (s0, h, false)
    else (started.0, started.1, true)

-- A character from the ring buffer if it has one, otherwise one from the device: the character and what is left of both.
unfoldable pub get_debug_char : (buffered device : List ℕ) → Option (ℕ × List ℕ × List ℕ)
get_debug_char (c ∷ buffered) device = some (c, buffered, device)
get_debug_char [] [] = none
get_debug_char [] (c ∷ device) = some (c, [], device)

-- what goes to the device
unfoldable pub put_debug_char : ℕ → List ℕ → List ℕ
put_debug_char chr sent = sent ++ (chr % 256) ∷ []

-- the vectors of a stub that was started, or that was not
abbrev pub can_start : Firmware → Bool
can_start fw = fw.device_support && (leb 2 fw.device_count && fw.second_device)

-- start_debugger succeeds exactly when the firmware supports devices and has a second one, which it hands out; then it installs the stub's vectors, and otherwise it leaves every vector and the hooks.
pub start_debugger-vectors :
    (l : Layout) (fw : Firmware) (s : Stub) (h : Hooks) (v : ℕ)
    → ((start_debugger l fw s h).2 ≡ can_start fw)
      × ((start_debugger l fw s h).0.vectors v ≡ (
          if can_start fw && is_caught v
          then catch_exception
          else if can_start fw && (v == 31)
          then debug_level7
          else s.vectors v))
unfolding start_debugger
start_debugger-vectors l fw s h v =
    let on = (set_debug_traps-vectors l (record s { remote_debug = false }) h v).0 in
    elim (Bool-cases fw.device_support) [
      | inr lacking ↦ (rw lacking, rw lacking)
      | inl some_support ↦ elim (Bool-cases (ltb fw.device_count 2)) [
        | inl few ↦
            let e : leb 2 fw.device_count ≡ false = ground arith in
            (rw (some_support, few, e), rw (some_support, few, e))
        | inr enough ↦
            let e : leb 2 fw.device_count ≡ true = ground arith in
            elim (Bool-cases fw.second_device) [
              | inl given ↦
                  (rw (some_support, enough, e, given), rw (some_support, enough, e, given) on)
              | inr refused ↦
                  (rw (some_support, enough, e, refused), rw (some_support, enough, e, refused))
            ]
      ]
    ]
