-- ===== src/Kinit.antt =====
-- kinit.c: clearing .bss before main, and the functions to be called at exit.
-- A function and its argument are numbers, addresses; what __cxa_finalize calls is the list of the
-- pairs in the order of the calls. The functions registered are not under this repository's control:
-- one that itself registers another is not modelled.
pub mod Laws
use rosco_cli.Prelude.{
  ℕ, zero, suc, ◌+◌, ◌-◌, ◌%◌, ◌<◌, ◌≤◌, List, [], ◌∷◌, Bool, true, false, not, ◌&&◌, ◌||◌, ◌==◌,
  ltb, if◌then◌else◌, length, arith, Option, none, some,
}
use rosco_cli.Memory.{Mem, poke}

abbrev pub max_cxa_atexits : ℕ
max_cxa_atexits = 1024

-- `*dst++ = 0`, four bytes
unfoldable pub clear_word : Mem → ℕ → Mem
clear_word m a = poke (poke (poke (poke m a 0) (a + 1) 0) (a + 2) 0) (a + 3) 0

-- the loop of __kinit, on fuel
unfoldable pub clear_loop : ℕ → Mem → (dst bss_end : ℕ) → Option Mem
clear_loop zero m dst bss_end = none
clear_loop (suc f) m dst bss_end =
    let rest = clear_loop f (clear_word m dst) (dst + 4) bss_end in
    if ltb dst bss_end then rest else some m

unfoldable pub kinit : ℕ → Mem → (bss_start bss_end : ℕ) → Option Mem
kinit f m bss_start bss_end = clear_loop f m bss_start bss_end

-- cxa_atexit_entry; `finished` is the field `done`
pub record Entry : Type 0 where
  pub func : ℕ
  pub ptr : ℕ
  pub dso_handle : ℕ
  pub finished : Bool

-- The used part of cxa_atexits, the entry registered last at the front; its length is cxa_atexit_count.
abbrev pub Entries : Type 0
Entries = List Entry

-- the new table and the result
unfoldable pub cxa_atexit : Entries → (f p d : ℕ) → Entries × ℕ
cxa_atexit entries f p d =
    if length entries == max_cxa_atexits
    then (entries, 1)
    else (record { func = f; ptr = p; dso_handle = d; finished = false } ∷ entries, 0)

-- the test of __cxa_finalize
unfoldable pub selected : ℕ → Entry → Bool
selected dso_handle e = (dso_handle == 0 || dso_handle == e.dso_handle) && not e.finished

unfoldable pub mark_done : Entry → Entry
mark_done e = record { func = e.func; ptr = e.ptr; dso_handle = e.dso_handle; finished = true }

-- The loop from the last entry down: the table that it leaves and the calls.
unfoldable pub cxa_finalize : Entries → ℕ → Entries × List (ℕ × ℕ)
cxa_finalize [] dso_handle = ([], [])
cxa_finalize (e ∷ entries) dso_handle =
    let (left, calls) = cxa_finalize entries dso_handle in
    if selected dso_handle e
    then (mark_done e ∷ left, (e.func, e.ptr) ∷ calls)
    else (e ∷ left, calls)
