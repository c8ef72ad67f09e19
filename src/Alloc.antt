-- ===== src/Alloc.antt =====
-- rosco_m68k.cpp of shmall: malloc, free, calloc, realloc and the C++ operators on top of a heap, and
-- the routines that clear and copy memory four bytes at a time, as they are built for the m68k.
-- The heap itself is outside of this code: its routines are a parameter.
pub mod Clear
pub mod Ranges
pub mod Copy
pub mod Heap
use rosco_cli.Prelude.{
  ℕ, zero, suc, ◌+◌, ◌-◌, ◌*◌, ◌/◌, ◌%◌, Option, none, some, ◌==◌, ltb, leb, if◌then◌else◌, ◌>>=◌,
  u32_mod, ◌&&◌, ◌||◌, not,
}
use rosco_cli.Memory.{Mem, poke}

abbrev pub platform_threshold : ℕ
platform_threshold = 16

-- the `for` loop at platform_done
unfoldable pub clear_bytes : Mem → (bdst count_left : ℕ) → Mem
clear_bytes m bdst zero = m
clear_bytes m bdst (suc n) = clear_bytes (poke m bdst 0) (bdst + 1) n

-- `clr.l (bdst)+`, `n` times: dbf goes round until the counter is -1, so `n` is the counter and one
unfoldable pub clear_longs : Mem → (bdst n : ℕ) → Mem
clear_longs m bdst zero = m
clear_longs m bdst (suc n) =
    clear_longs (poke (poke (poke (poke m bdst 0) (bdst + 1) 0) (bdst + 2) 0) (bdst + 3) 0)
      (bdst + 4) n

-- the longs that one round of the fast loop does, whose counter has 16 bits
unfoldable pub chunks_to_loop : (count_left : ℕ) → ℕ
chunks_to_loop count_left = (count_left / 4 - 1) % 0x1_0000 + 1

-- what a loop over chunks leaves: memory, the pointer and the bytes left
pub record Clearing : Type 0 where
  pub memory : Mem
  pub bdst : ℕ
  pub count_left : ℕ

-- `while ((uintptr_t) bdst % alignof (chunk_type))`, on fuel
unfoldable pub clear_misaligned : (f align : ℕ) → Clearing → Option Clearing
clear_misaligned zero align c = none
clear_misaligned (suc f) align c =
    let rest = clear_misaligned f align (record {
      memory = poke c.memory c.bdst 0;
      bdst = c.bdst + 1;
      count_left = c.count_left - 1;
    }) in
    if c.bdst % align == 0 then some c else rest

-- `while (count_left >= sizeof (chunk_type))`, on fuel
unfoldable pub clear_chunks : ℕ → Clearing → Option Clearing
clear_chunks zero c = none
clear_chunks (suc f) c =
    let n = chunks_to_loop c.count_left in
    let rest = clear_chunks f (record {
      memory = clear_longs c.memory c.bdst n;
      bdst = c.bdst + 4 * n;
      count_left = c.count_left - 4 * n;
    }) in
    if ltb c.count_left 4 then some c else rest

unfoldable pub mem_clear : (f align : ℕ) → Mem → (dst count : ℕ) → Option Mem
mem_clear f align m dst count =
    if ltb count platform_threshold then some (clear_bytes m dst count) else do
      a ← clear_misaligned f align (record { memory = m; bdst = dst; count_left = count })
      c ← clear_chunks f a
      some (clear_bytes c.memory c.bdst c.count_left)

-- the `for` loop of mem_copy
unfoldable pub copy_bytes : Mem → (bdst bsrc count_left : ℕ) → Mem
copy_bytes m bdst bsrc zero = m
copy_bytes m bdst bsrc (suc n) = copy_bytes (poke m bdst (m bsrc)) (bdst + 1) (bsrc + 1) n

-- `move.l (bsrc)+, (bdst)+`: four bytes are read before they are written
unfoldable pub copy_long : Mem → (bdst bsrc : ℕ) → Mem
copy_long m bdst bsrc =
    poke (poke (poke (poke m bdst (m bsrc)) (bdst + 1) (m (bsrc + 1))) (bdst + 2) (m (bsrc + 2)))
      (bdst + 3) (m (bsrc + 3))

unfoldable pub copy_longs : Mem → (bdst bsrc n : ℕ) → Mem
copy_longs m bdst bsrc zero = m
copy_longs m bdst bsrc (suc n) = copy_longs (copy_long m bdst bsrc) (bdst + 4) (bsrc + 4) n

pub record Copying : Type 0 where
  pub memory : Mem
  pub bdst : ℕ
  pub bsrc : ℕ
  pub count_left : ℕ

unfoldable pub copy_misaligned : (f align : ℕ) → Copying → Option Copying
copy_misaligned zero align c = none
copy_misaligned (suc f) align c =
    let rest = copy_misaligned f align (record {
      memory = poke c.memory c.bdst (c.memory c.bsrc);
      bdst = c.bdst + 1;
      bsrc = c.bsrc + 1;
      count_left = c.count_left - 1;
    }) in
    if c.bdst % align == 0 && c.bsrc % align == 0 then some c else rest

unfoldable pub copy_chunks : ℕ → Copying → Option Copying
copy_chunks zero c = none
copy_chunks (suc f) c =
    let n = chunks_to_loop c.count_left in
    let rest = copy_chunks f (record {
      memory = copy_longs c.memory c.bdst c.bsrc n;
      bdst = c.bdst + 4 * n;
      bsrc = c.bsrc + 4 * n;
      count_left = c.count_left - 4 * n;
    }) in
    if ltb c.count_left 4 then some c else rest

unfoldable pub mem_copy : (f align : ℕ) → Mem → (dst src count : ℕ) → Option Mem
mem_copy f align m dst src count =
    if ltb count platform_threshold || not (dst % align == src % align)
    then some (copy_bytes m dst src count)
    else do
      a ←
          copy_misaligned f align
            (record { memory = m; bdst = dst; bsrc = src; count_left = count })
      c ← copy_chunks f a
      some (copy_bytes c.memory c.bdst c.bsrc c.count_left)
