-- ===== src/Alloc/Heap/Laws.antt =====
-- rosco_m68k.cpp: what it relies on of heap.c, and what follows for malloc and free.
use rosco_cli.Prelude.{ℕ, ◌≤◌, ◌≡◌, ◌≢◌, ◌⊎◌, List, [], ◌∷◌, ◌++◌, arith, All, ◌∙◌}
use rosco_cli.Memory.{Mem, SameAt, SameOutside, Apart}
use rosco_cli.Alloc.Heap.{HeapLib}

-- a block that the heap gave out: its address and the size in its header
pub record Block : Type 0 where
  pub start : ℕ
  pub size : ℕ

-- A block is the same in both memories, and shares no byte with the block `new`.
pub record Kept (m m' : Mem) (new b : Block) : Type 0 where
  pub same : SameAt m m' b.start b.size
  pub apart : Apart new.start new.size b.start b.size

-- What heap_alloc promises: it returns null and leaves the blocks as they are, or a block of at least
-- that size which shares no byte with the others.
pub record Refused (valid : Mem → List Block → Type 0) (m m' : Mem) (p : ℕ) (bs : List Block)
    : Type 0 where
  pub null : p ≡ 0
  pub sound : valid m' bs
  pub same : All (λ b. SameAt m m' b.start b.size) bs

pub record Given (valid : Mem → List Block → Type 0) (m m' : Mem) (p n : ℕ) (bs : List Block)
    : Type 0 where
  pub size : ℕ
  pub pointer : p ≢ 0
  pub enough : n ≤ size
  pub sound : valid m' (record { start = p; size = size } ∷ bs)
  pub kept : All (Kept m m' (record { start = p; size = size })) bs

-- The documented behaviour of the heap: `valid heap m bs` says that `bs` are the blocks which `heap`
-- has given out and not got back, and that its own data in `m` is sound.
pub record HeapLaws (lib : HeapLib) (valid : ℕ → Mem → List Block → Type 0) : Type 1 where
  pub alloc_law :
      (heap : ℕ) (m : Mem) (n : ℕ) (bs : List Block)
      → valid heap m bs
      → Refused (valid heap) m (lib.heap_alloc heap m n).0 (lib.heap_alloc heap m n).1 bs
        ⊎ Given (valid heap) m (lib.heap_alloc heap m n).0 (lib.heap_alloc heap m n).1 n bs
  pub size_law :
      (heap : ℕ) (m : Mem) (a : List Block) (b : Block) (c : List Block)
      → valid heap m (a ++ b ∷ c)
      → lib.get_size m b.start ≡ b.size
  -- a program may write to all bytes of a block
  pub write_law :
      (heap : ℕ) (m m' : Mem) (b : Block) (bs : List Block)
      → valid heap m (b ∷ bs)
      → SameOutside m m' b.start b.size
      → valid heap m' (b ∷ bs)
  pub free_law :
      (heap : ℕ) (m : Mem) (a : List Block) (b : Block) (c : List Block)
      → valid heap m (a ++ b ∷ c)
      → valid heap (lib.heap_free heap m b.start) (a ++ c)
        × All (λ d. SameAt m (lib.heap_free heap m b.start) d.start d.size) (a ++ c)

pub All-middle :
    (P : Block → Type 0) (a : List Block) (b : Block) (c : List Block)
    → All P (a ++ b ∷ c)
    → P b × All P (a ++ c)
All-middle P [] b c (h, hs) = (h, hs)
All-middle P (d ∷ a) b c (h, hs) = let (hb, rest) = All-middle P a b c hs in (hb, (h, rest))

-- The other blocks do not change when the new block is written to.
pub Kept-write :
    (m m1 m2 : Mem) (new : Block) (bs : List Block)
    → All (Kept m m1 new) bs
    → SameOutside m1 m2 new.start new.size
    → All (Kept m m2 new) bs
Kept-write m m1 m2 new [] h same = tt
Kept-write m m1 m2 new (b ∷ bs) (k, h) same = (
  record { same = λ x lo hi. same x (omega (arith, k.apart)) ∙ k.same x lo hi; apart = k.apart },
  Kept-write m m1 m2 new bs h same,
)

-- The blocks that are kept while a new one is written to are still the same when a later step leaves them.
pub Kept-then :
    (m m1 m2 : Mem) (new : Block) (bs : List Block)
    → All (Kept m m1 new) bs
    → All (λ b. SameAt m1 m2 b.start b.size) bs
    → All (λ b. SameAt m m2 b.start b.size) bs
Kept-then m m1 m2 new [] h g = tt
Kept-then m m1 m2 new (b ∷ bs) (k, h) (e, g) =
    ((λ x lo hi. e x lo hi ∙ k.same x lo hi), Kept-then m m1 m2 new bs h g)
