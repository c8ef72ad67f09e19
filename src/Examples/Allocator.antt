-- ===== src/Examples/Allocator.antt =====
-- Examples for the models of rosco_m68k.cpp, and a heap that gives out one block behind another.
use rosco_cli.Prelude.{
  ℕ, ◌+◌, ◌-◌, ◌%◌, ◌<◌, ◌≤◌, ◌≡◌, refl, ◌⊎◌, inr, List, [], ◌∷◌, ◌++◌, arith, All, some, ◌==◌,
  if◌then◌else◌, ◌∙◌,
}
use rosco_cli.Memory.{Mem, SameAt, SameOutside, Apart, poke}
use rosco_cli.Cstdlib.Str.{memcpy}
use rosco_cli.Alloc.{mem_copy}
use rosco_cli.Alloc.Copy.{mem_copy-memcpy}
use rosco_cli.Alloc.Heap.{HeapLib, Heaps, Statics, calloc, realloc}
use rosco_cli.Alloc.Heap.Laws.{Block, Refused, Given, HeapLaws, Kept, All-middle}
use rosco_cli.Alloc.Heap.Calloc.{calloc-Zeroed}
use rosco_cli.Alloc.Heap.Realloc.{realloc-Resized, Resized}

-- the address behind the last block stands at the address of the heap, the size of a block in front of it
abbrev bump : HeapLib
bump = record {
  init_heap = λ heap m start size. poke m heap start;
  heap_alloc = λ heap m n. (poke (poke m (m heap) n) heap (m heap + 1 + n), m heap + 1);
  heap_free = λ heap m p. m;
  get_size = λ m p. m (p - 1);
}

abbrev Off : (b d : Block) → Type 0
Off b d = Apart (b.start - 1) (b.size + 1) (d.start - 1) (d.size + 1)

record Placed (heap : ℕ) (m : Mem) (b : Block) : Type 0 where
  header : m (b.start - 1) ≡ b.size
  low : heap + 2 ≤ b.start
  high : b.start + b.size ≤ m heap

abbrev Sound : ℕ → Mem → List Block → Type 0
Sound heap m [] = heap < m heap
Sound heap m (b ∷ bs) = Placed heap m b × All (Off b) bs × Sound heap m bs

Sound-Placed :
    (heap : ℕ) (m : Mem) (a : List Block) (b : Block) (c : List Block)
    → Sound heap m (a ++ b ∷ c)
    → Placed heap m b
Sound-Placed heap m [] b c (h, off, rest) = h
Sound-Placed heap m (d ∷ a) b c (h, off, rest) = Sound-Placed heap m a b c rest

Sound-remove :
    (heap : ℕ) (m : Mem) (a : List Block) (b : Block) (c : List Block)
    → Sound heap m (a ++ b ∷ c)
    → Sound heap m (a ++ c)
Sound-remove heap m [] b c (h, off, rest) = rest
Sound-remove heap m (d ∷ a) b c (h, off, rest) =
    (h, (All-middle (Off d) a b c off).1, Sound-remove heap m a b c rest)

Sound-heap : (heap : ℕ) (m : Mem) (bs : List Block) → Sound heap m bs → heap < m heap
Sound-heap heap m [] h = h
Sound-heap heap m (b ∷ bs) (h, off, rest) = Sound-heap heap m bs rest

-- Writing into a block that is off the others leaves them placed.
Sound-write :
    (heap : ℕ) (m m' : Mem) (b : Block) (bs : List Block)
    → heap + 2 ≤ b.start
    → SameOutside m m' b.start b.size
    → All (Off b) bs
    → Sound heap m bs
    → Sound heap m' bs
Sound-write heap m m' b [] low same off h = ground (arith, same heap)
Sound-write heap m m' b (d ∷ bs) low same (o, off) (h, off', rest) = (
  record {
    header = same (d.start - 1) (omega (arith, o, h.low)) ∙ h.header;
    low = h.low;
    high = omega (arith, same heap (omega arith), h.high);
  },
  off',
  Sound-write heap m m' b bs low same off rest,
)

no_change : (m : Mem) (bs : List Block) → All (λ b. SameAt m m b.start b.size) bs
no_change m [] = tt
no_change m (b ∷ bs) = ((λ x lo hi. refl), no_change m bs)

-- A new block behind all the others.
bump-alloc :
    (heap : ℕ) (m : Mem) (n e : ℕ) (bs : List Block)
    → e ≡ m heap
    → Sound heap m bs
    → Sound heap (poke (poke m e n) heap (e + 1 + n)) bs
      × All (Off (record { start = e + 1; size = n })) bs
      × All (Kept m (poke (poke m e n) heap (e + 1 + n)) (record { start = e + 1; size = n })) bs
unfolding poke
bump-alloc heap m n e [] eq h = (ground arith, tt, tt)
bump-alloc heap m n e (b ∷ bs) eq (h, off, rest) =
    let (sound, offs, kept) = bump-alloc heap m n e bs eq rest in
    (
      (
        record {
          header = ground (arith, h.low, h.high, h.header);
          low = h.low;
          high = ground (arith, h.high);
        },
        off,
        sound,
      ),
      (omega (arith, h.low, h.high), offs),
      (
        record { same = λ x lo hi. ground (arith, h.low, h.high); apart = omega (arith, h.high) },
        kept,
      ),
    )

bump-HeapLaws : HeapLaws bump Sound
unfolding poke
bump-HeapLaws = record {
  alloc_law = λ heap m n bs sound.
      let (sound', offs, kept) = bump-alloc heap m n (m heap) bs refl sound in
      let up = Sound-heap heap m bs sound in
      inr (record {
        size = n;
        pointer = omega arith;
        enough = omega arith;
        sound = (
          record { header = ground arith; low = omega arith; high = ground arith },
          offs,
          sound',
        );
        kept = kept;
      });
  size_law = λ heap m a b c sound. (Sound-Placed heap m a b c sound).header;
  write_law = λ heap m m' b bs sound same.
      let h = sound.0 in
      (
        record {
          header = same (b.start - 1) (omega (arith, h.low)) ∙ h.header;
          low = h.low;
          high = omega (arith, same heap (omega (arith, h.low)), h.high);
        },
        sound.1,
        Sound-write heap m m' b bs h.low same sound.1 sound.2,
      );
  free_law = λ heap m a b c sound. (Sound-remove heap m a b c sound, no_change m (a ++ c));
}

-- a heap at 0x100 that gave out eight bytes at 0x201 and three at 0x20A
abbrev memory : Mem
memory x = if x == 0x100 then 0x20D else if x == 0x200 then 8 else if x == 0x209 then 3 else x % 256

abbrev first : Block
first = record { start = 0x201; size = 8 }

abbrev second : Block
second = record { start = 0x20A; size = 3 }

abbrev blocks : List Block
blocks = second ∷ first ∷ []

memory-Sound : Sound 0x100 memory blocks
memory-Sound = (
  record { header = refl; low = omega arith; high = omega arith },
  (omega arith, tt),
  (record { header = refl; low = omega arith; high = omega arith }, tt, omega arith),
)

abbrev statics : Statics
statics = record {
  bins = 0x40;
  default_heap = 0x100;
  sdb_mem_size = 0x10_0000;
  end_address = 0x8000;
}

abbrev heaps : Heaps
heaps = record { memory = memory; current_heap = 0x100 }

mem_copy-memcpy_example :
    (m' : Mem) × (mem_copy 30 2 memory 0x301 0x201 20 ≡ some m')
    × ((x : ℕ) → m' x ≡ (memcpy memory 0x301 0x201 20).0 x)
mem_copy-memcpy_example =
    mem_copy-memcpy 30 2 memory 0x301 0x201 20 (omega arith) (omega arith) (omega arith)
      (omega arith)

calloc-Zeroed_example :
    (s' : Heaps) × (p : ℕ) × (calloc bump statics 2 heaps 5 6 ≡ some (s', p))
    × (Refused (Sound 0x100) memory s'.memory p blocks
        ⊎ (Given (Sound 0x100) memory s'.memory p 30 blocks
            × ((x : ℕ) → p ≤ x → x < p + 30 → s'.memory x ≡ 0)))
calloc-Zeroed_example =
    calloc-Zeroed bump statics 2 Sound bump-HeapLaws heaps blocks 5 6 (omega arith) (omega arith)
      memory-Sound

realloc-Resized_example :
    (s' : Heaps) × (p : ℕ) × (realloc bump statics 2 heaps 0x201 20 ≡ some (s', p))
    × (Refused (Sound 0x100) memory s'.memory p blocks
        ⊎ Resized (Sound 0x100) memory s'.memory p 20 first (second ∷ []))
realloc-Resized_example =
    realloc-Resized bump statics 2 Sound bump-HeapLaws heaps (second ∷ []) first [] 20 (omega arith)
      (omega arith) memory-Sound (λ e. omega arith) (omega arith)

-- 0x8000_0001 elements of two bytes get the block of one element: the product wraps.
overflow_blocks : calloc bump statics 2 heaps 0x8000_0001 2 ≡ calloc bump statics 2 heaps 1 2
unfolding calloc
overflow_blocks = refl
