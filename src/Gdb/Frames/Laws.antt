-- ===== src/Gdb/Frames/Laws.antt =====
-- m68k-stub.c: the way back to the program, and the vectors that the stub takes.
use rosco_cli.Prelude.{
  ℕ, zero, suc, ◌+◌, ◌/◌, ◌%◌, ◌<◌, ◌≡◌, ◌≢◌, refl, arith, Bool, true, Option, none, some, ◌==◌,
  if◌then◌else◌, Bool-cases, inl, inr, ◌∙◌, ap, u32_mod,
}
use rosco_cli.Memory.{Mem, poke}
use rosco_cli.Gdb.State.{Stub, Frame, reg_ps, reg_pc, get_register, set_register, set_frame}
use rosco_cli.Gdb.Frames.{
  Layout, Hook, call_hook, own_vector, initialize_remcom_error_frame, load_frame,
  return_from_exception, matches, find_frame, new_frame, leave, set_trace, resume,
}

get_register-set_register :
    (m : Mem) (r v : ℕ) → v < u32_mod → get_register (set_register m r v) r ≡ v
unfolding get_register set_register poke
get_register-set_register m r v h = ground arith

-- The frame that the assembly code will load says what the registers say, and the mode is that of PS.
pub record IsLoaded (s : Stub) (super : Bool) : Type 0 where
  pub pc : (s.frames s.last_frame).pc ≡ get_register s.registers reg_pc
  pub sr : (s.frames s.last_frame).sr ≡ get_register s.registers reg_ps % 0x1_0000
  pub mode : super ≡ (get_register s.registers reg_ps / 0x2000 % 2 == 1)

return_from_exception-IsLoaded :
    (p : Option ℕ) (s : Stub) → IsLoaded (return_from_exception p s).0 (return_from_exception p s).1
unfolding return_from_exception load_frame set_frame
return_from_exception-IsLoaded none s = record {
  pc = ground arith;
  sr = ground arith;
  mode = ground arith;
}
return_from_exception-IsLoaded (some p) s = record {
  pc = ground arith;
  sr = ground arith;
  mode = ground arith;
}

leave-IsLoaded :
    (l : Layout) (hook : Hook) (found : Option ℕ) (s : Stub)
    → IsLoaded (leave l hook found s).0 (leave l hook found s).1
unfolding leave
leave-IsLoaded l hook none s = return_from_exception-IsLoaded none (new_frame l s)
leave-IsLoaded l hook (some p) s =
    let s' = call_hook hook (s.frames p).exception_vector s in
    elim (Bool-cases (own_vector (s.frames p).exception_vector)) [
      | inl own ↦ rw own (return_from_exception-IsLoaded (some p) s)
      | inr other ↦
          elim (Bool-cases (get_register s'.registers reg_pc == (s'.frames p).exception_pc)) [
            | inl same ↦ rw (other, same) (return_from_exception-IsLoaded (some p) s')
            | inr moved ↦ rw (other, moved) (return_from_exception-IsLoaded none s')
          ]
    ]

-- From `p` the `previous` pointers lead to a frame that points to itself, in `k` steps.
pub data Chain (frames : ℕ → Frame) : ℕ → ℕ → Type 0 where
  last : {p : ℕ} → (frames p).previous ≡ p → Chain frames p 0
  link : {p k : ℕ} → Chain frames (frames p).previous k → Chain frames p (suc k)

-- What the search found: a frame that matches, or none.
abbrev pub Found : (ℕ → Frame) → ℕ → Option ℕ → Type 0
Found frames new_pc none = Unit
Found frames new_pc (some p) = (p ≢ 0) × (matches (frames p) new_pc ≡ true)

find_frame-Found :
    (f : ℕ) (frames : ℕ → Frame) (new_pc : ℕ) {p k : ℕ}
    → Chain frames p k
    → k < f
    → (found : Option ℕ) × (find_frame f frames new_pc p ≡ some found) × Found frames new_pc found
unfolding find_frame
find_frame-Found zero frames new_pc c lt = absurd (omega arith)
find_frame-Found (suc f) frames new_pc (last {p} e) lt = elim (Bool-cases (p == 0)) [
  | inl null ↦ (none, rw null, tt)
  | inr real ↦ elim (Bool-cases (matches (frames p) new_pc)) [
    | inl hit ↦ (some p, rw (real, hit), (ground arith, hit))
    | inr miss ↦ (none, ground arith, tt)
  ]
]
find_frame-Found (suc f) frames new_pc (link {p} c) lt =
    let (found, run, ok) = find_frame-Found f frames new_pc c (omega arith) in
    elim (Bool-cases (p == 0)) [
      | inl null ↦ (none, rw null, tt)
      | inr real ↦ elim (Bool-cases (matches (frames p) new_pc)) [
        | inl hit ↦ (some p, rw (real, hit), (ground arith, hit))
        | inr miss ↦ elim (Bool-cases (p == (frames p).previous)) [
          | inl end ↦ (none, rw (real, miss, end), tt)
          | inr more ↦ (found, rw (real, miss, more) run, ok)
        ]
      ]
    ]

abbrev pub wanted : Option ℕ → ℕ → ℕ
wanted none pc = pc
wanted (some a) pc = a

-- What `c` or `s` leaves: a loaded frame, the wanted pc, and the trace bit exactly when stepping.
pub record Resumed (s s' : Stub) (stepping super : Bool) (addr : Option ℕ) : Type 0 where
  pub loaded : IsLoaded s' super
  pub new_pc : get_register s'.registers reg_pc ≡ wanted addr (get_register s.registers reg_pc)
  pub trace :
      get_register s'.registers reg_ps
      ≡ get_register s.registers reg_ps % 0x8000 + (if stepping then 0x8000 else 0)

set_trace_ps :
    (stepping : Bool) (s : Stub)
    → get_register (set_trace stepping s).registers reg_ps
      ≡ get_register s.registers reg_ps % 0x8000 + (if stepping then 0x8000 else 0)
unfolding set_trace
set_trace_ps stepping s =
    let ps = get_register s.registers reg_ps % 0x8000 in
    get_register-set_register s.registers reg_ps (if stepping then ps + 0x8000 else ps)
      (ground arith)
    ∙ ground arith

set_trace_pc :
    (stepping : Bool) (s : Stub)
    → get_register (set_trace stepping s).registers reg_pc ≡ get_register s.registers reg_pc
unfolding set_trace get_register set_register poke
set_trace_pc stepping s = ground arith

-- With no old hook the registers stay as they are on the way out.
leave-registers :
    (l : Layout) (found : Option ℕ) (s : Stub) → (leave l none found s).0.registers ≡ s.registers
unfolding leave return_from_exception load_frame set_frame new_frame initialize_remcom_error_frame
leave-registers l none s = ground arith
leave-registers l (some p) s = ground arith

with_pc : Option ℕ → Stub → Stub
with_pc none s = s
with_pc (some a) s = record s { registers = set_register s.registers reg_pc a }

with_pc-ps :
    (addr : Option ℕ) (s : Stub)
    → get_register (with_pc addr s).registers reg_ps ≡ get_register s.registers reg_ps
unfolding with_pc get_register set_register poke
with_pc-ps none s = refl
with_pc-ps (some a) s = ground arith

-- An address has 32 bits.
abbrev pub Fits : Option ℕ → Type 0
Fits none = Unit
Fits (some a) = a < u32_mod

with_pc-pc :
    (addr : Option ℕ) (s : Stub)
    → Fits addr
    → get_register (with_pc addr s).registers reg_pc ≡ wanted addr (get_register s.registers reg_pc)
unfolding with_pc
with_pc-pc none s h = refl
with_pc-pc (some a) s h = get_register-set_register s.registers reg_pc a h

leave-Resumed :
    (l : Layout) (stepping : Bool) (addr found : Option ℕ) (s : Stub)
    → Fits addr
    → Resumed s
        (leave l none found (set_trace stepping (with_pc addr s))).0
        stepping
        (leave l none found (set_trace stepping (with_pc addr s))).1
        addr
leave-Resumed l stepping addr found s h =
    let s1 = with_pc addr s in
    let s2 = set_trace stepping s1 in
    let kept = leave-registers l found s2 in
    record {
      loaded = leave-IsLoaded l none found s2;
      new_pc = rw kept (set_trace_pc stepping s1 ∙ with_pc-pc addr s h);
      trace = rw kept (
          set_trace_ps stepping s1
          ∙ ap (λ k. k % 0x8000 + (if stepping then 0x8000 else 0)) (with_pc-ps addr s));
    }

resume-with_pc :
    (f : ℕ) (l : Layout) (stepping : Bool) (addr found : Option ℕ) (s : Stub)
    → find_frame f s.frames (get_register (with_pc addr s).registers reg_pc) s.last_frame
      ≡ some found
    → resume f l none stepping addr s
      ≡ some (leave l none found (set_trace stepping (with_pc addr s)))
unfolding resume with_pc set_trace
resume-with_pc f l stepping none found s h = rw h
resume-with_pc f l stepping (some a) found s h = rw h

-- `c` and `s` end if the exception frames form a chain, with fuel above its length. With no older handler installed the frame that is loaded then has the pc and status of the registers, the pc is the parameter or as it was, and the trace bit is set exactly when stepping.
pub resume-Resumed :
    (f : ℕ) (l : Layout) (stepping : Bool) (addr : Option ℕ) (s : Stub) (k : ℕ)
    → Chain s.frames s.last_frame k
    → k < f
    → Fits addr
    → (s' : Stub) × (super : Bool) × (resume f l none stepping addr s ≡ some (s', super))
      × Resumed s s' stepping super addr
resume-Resumed f l stepping addr s k c lt h =
    let (found, run, _) =
      find_frame-Found f s.frames (get_register (with_pc addr s).registers reg_pc) c lt in
    let r = leave l none found (set_trace stepping (with_pc addr s)) in
    (
      r.0,
      r.1,
      resume-with_pc f l stepping addr found s run,
      leave-Resumed l stepping addr found s h,
    )
