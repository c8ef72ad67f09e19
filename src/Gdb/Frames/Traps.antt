-- ===== src/Gdb/Frames/Traps.antt =====
-- m68k-stub.c: the vectors and the hook that set_debug_traps installs.
use rosco_cli.Prelude.{
  ℕ, zero, suc, ◌+◌, ◌≡◌, refl, arith, Bool, ◌||◌, ◌&&◌, ◌==◌, leb, if◌then◌else◌, ltb,
}
use rosco_cli.Gdb.State.{Stub, catch_exception, debug_level7, exception_handler, set_frame}
use rosco_cli.Gdb.Frames.{
  Layout, initialize_remcom_error_frame, catch_range, set_debug_traps, Hooks,
}

catch_range-vectors :
    (n from : ℕ) (s : Stub) (v : ℕ)
    → (catch_range n from s).vectors v
      ≡ (if leb from v && ltb v (from + n) then catch_exception else s.vectors v)
unfolding catch_range exception_handler
catch_range-vectors zero from s v = ground arith
catch_range-vectors (suc n) from s v =
    ground (arith, catch_range-vectors n (from + 1) (exception_handler from catch_exception s) v)

-- the vectors that lead to catchException
abbrev pub is_caught : ℕ → Bool
is_caught v = (leb 2 v && leb v 23) || v == 33 || v == 47 || (leb 48 v && leb v 54)

catch_range-frames :
    (n from : ℕ) (s : Stub)
    → ((catch_range n from s).frames ≡ s.frames)
      × ((catch_range n from s).last_frame ≡ s.last_frame)
unfolding catch_range exception_handler
catch_range-frames zero from s = (refl, refl)
catch_range-frames (suc n) from s =
    catch_range-frames n (from + 1) (exception_handler from catch_exception s)

-- the stub before the last round of vectors
middle : Layout → Stub → Stub
middle l s = exception_handler 47 catch_exception (
    exception_handler 33 catch_exception
      (exception_handler 31 debug_level7 (catch_range 22 2 (initialize_remcom_error_frame l s))))

middle-vectors :
    (l : Layout) (s : Stub) (v : ℕ)
    → (middle l s).vectors v ≡ (
        if (leb 2 v && leb v 23) || v == 33 || v == 47
        then catch_exception
        else if v == 31
        then debug_level7
        else s.vectors v)
unfolding middle exception_handler initialize_remcom_error_frame set_frame
middle-vectors l s v =
    ground (arith, catch_range-vectors 22 2 (initialize_remcom_error_frame l s) v)

middle-last :
    (l : Layout) (s : Stub)
    → ((middle l s).frames (middle l s).last_frame).previous ≡ (middle l s).last_frame
unfolding middle exception_handler initialize_remcom_error_frame set_frame
middle-last l s =
    let (frames, last) = catch_range-frames 22 2 (initialize_remcom_error_frame l s) in
    rw (frames, last) (ground arith)

-- set_debug_traps points the vectors 2 to 23, 33 and 47 to 54 to catchException and vector 31 to debug_level7, leaves every other vector, and makes the last frame the end of the chain.
pub set_debug_traps-vectors :
    (l : Layout) (s : Stub) (h : Hooks) (v : ℕ)
    → ((set_debug_traps l s h).0.vectors v
        ≡ (if is_caught v then catch_exception else if v == 31 then debug_level7 else s.vectors v))
      × (((set_debug_traps l s h).0.frames (set_debug_traps l s h).0.last_frame).previous
          ≡ (set_debug_traps l s h).0.last_frame)
unfolding set_debug_traps middle
set_debug_traps-vectors l s h v =
    let (frames, last) = catch_range-frames 7 48 (middle l s) in
    (
      ground (arith, catch_range-vectors 7 48 (middle l s) v, middle-vectors l s v),
      rw (frames, last) (middle-last l s),
    )
