-- ===== src/Alloc/Heap.antt =====
-- rosco_m68k.cpp: what a program calls, on top of the heap of heap.c, which is a copy of another project.
pub mod Laws
pub mod Calloc
pub mod Realloc
use rosco_cli.Prelude.{
  ℕ, zero, suc, ◌*◌, ◌%◌, ◌-◌, ◌+◌, Option, some, none, ◌==◌, ltb, if◌then◌else◌, ◌>>=◌, u32_mod,
  ◌&&◌, ◌||◌, not, ◌/◌, min,
}
use rosco_cli.Memory.{Mem, poke}
use rosco_cli.Alloc.{mem_clear, mem_copy}

-- The routines of heap.c. A heap is the address of its heap_t; nodes and bins lie in memory. The null
-- pointer is 0. `get_size` reads the size in the header of a block.
pub record HeapLib : Type 0 where
  pub init_heap : (heap : ℕ) → Mem → (start size : ℕ) → Mem
  pub heap_alloc : (heap : ℕ) → Mem → (size : ℕ) → Mem × ℕ
  pub heap_free : (heap : ℕ) → Mem → (ptr : ℕ) → Mem
  pub get_size : Mem → (ptr : ℕ) → ℕ

-- memory and the static variable current_heap
pub record Heaps : Type 0 where
  pub memory : Mem
  pub current_heap : ℕ

-- 32 bits, the high byte first
unfoldable pub store_u32 : Mem → (p v : ℕ) → Mem
store_u32 m p v =
    poke
      (poke (poke (poke m p (v / 0x100_0000 % 256)) (p + 1) (v / 0x1_0000 % 256)) (p + 2)
        (v / 256 % 256))
      (p + 3) (v % 256)

abbrev pub bin_count : ℕ
bin_count = 9

abbrev pub default_stack_size : ℕ
default_stack_size = 32768

-- Where the statics lie (bins and __ROSCO_DEFAULT_HEAP), and the extern symbols of the linker.
pub record Statics : Type 0 where
  pub bins : ℕ
  pub default_heap : ℕ
  pub sdb_mem_size : ℕ
  pub end_address : ℕ

-- the `for` loop over the bins, from `i` on: bins[i].head, and the pointer to it in the heap_t, behind
-- its two longs
unfoldable pub init_bins : Statics → Mem → (left i : ℕ) → Mem
init_bins st m zero i = m
init_bins st m (suc left) i =
    init_bins st
      (store_u32 (store_u32 m (st.bins + 4 * i) 0) (st.default_heap + 8 + 4 * i) (st.bins + 4 * i))
      left (i + 1)

-- The type of the alignment that is tested for is `chunk_type`: `align`.
module _ (lib : HeapLib) (st : Statics) (align : ℕ) where
  -- `_SDB_MEM_SIZE - stacksize - heapstart` on uint32_t
  unfoldable pub heap_size : (stacksize : ℕ) → ℕ
  heap_size stacksize = (st.sdb_mem_size + 2 * u32_mod - stacksize - st.end_address) % u32_mod

  unfoldable pub init_malloc_with_stacksize : Mem → (stacksize : ℕ) → Mem
  init_malloc_with_stacksize m stacksize =
      lib.init_heap st.default_heap (init_bins st m bin_count 0) st.end_address
        (heap_size stacksize)

  -- __init_default_heap
  unfoldable pub init_default_heap : Heaps → Heaps
  init_default_heap s = record {
    memory = init_malloc_with_stacksize s.memory default_stack_size;
    current_heap = st.default_heap;
  }

  unfoldable pub rh_switch_heap : Heaps → (heap : ℕ) → Heaps
  rh_switch_heap s heap = record { memory = s.memory; current_heap = heap }

  unfoldable pub rh_default_heap : Heaps → Heaps
  rh_default_heap s = record { memory = s.memory; current_heap = st.default_heap }

  unfoldable pub malloc : Heaps → (size : ℕ) → Heaps × ℕ
  malloc s size =
      let (m, p) = lib.heap_alloc s.current_heap s.memory size in
      (record { memory = m; current_heap = s.current_heap }, p)

  unfoldable pub free : Heaps → (ptr : ℕ) → Heaps
  free s ptr = if ptr == 0 then s else record {
    memory = lib.heap_free s.current_heap s.memory ptr;
    current_heap = s.current_heap;
  }

  -- The fuel of the two memory routines is above what they take.
  unfoldable pub calloc : Heaps → (num size : ℕ) → Option (Heaps × ℕ)
  calloc s num size =
      let total = (num * size) % u32_mod in
      let (s1, mem) = malloc s total in
      if not (mem == 0) && ltb 0 total
      then (mem_clear (total + align + 1) align s1.memory mem total
          >>= (λ m. some (record { memory = m; current_heap = s1.current_heap }, mem)))
      else some (s1, mem)

  unfoldable pub realloc : Heaps → (ptr new_size : ℕ) → Option (Heaps × ℕ)
  realloc s ptr new_size =
      let (s1, new_ptr) = malloc s new_size in
      let copy_size = min (lib.get_size s1.memory ptr) new_size in
      if not (ptr == 0) && (not (new_ptr == 0) && ltb 0 new_size)
      then (mem_copy (copy_size + align + 1) align s1.memory new_ptr ptr copy_size >>= (λ m.
          some (free (record { memory = m; current_heap = s1.current_heap }) ptr, new_ptr)))
      else some (s1, new_ptr)

  unfoldable pub operator_new : Heaps → (count : ℕ) → Heaps × ℕ
  operator_new s count = malloc s count

  unfoldable pub operator_delete : Heaps → (ptr : ℕ) → Heaps
  operator_delete s ptr = free s ptr
