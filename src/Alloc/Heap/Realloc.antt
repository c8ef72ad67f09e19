-- ===== src/Alloc/Heap/Realloc.antt =====
-- rosco_m68k.cpp: realloc, and the operators new and delete together.
use rosco_cli.Prelude.{
  ℕ, ◌+◌, ◌-◌, ◌<◌, ◌≤◌, ◌≡◌, ◌≢◌, refl, ◌⊎◌, inl, inr, List, ◌∷◌, ◌++◌, arith, some, ◌==◌, true,
  false, ltb, not, ◌&&◌, All, min, ◌∙◌,
}
use rosco_cli.Memory.{Mem, SameAt, SameOutside, Apart}
use rosco_cli.Alloc.{platform_threshold}
use rosco_cli.Alloc.Copy.{mem_copy-Copies}
use rosco_cli.Alloc.Heap.{HeapLib, Heaps, Statics, malloc, free, realloc}
use rosco_cli.Alloc.Heap.Laws.{Block, Refused, HeapLaws, Kept, Kept-write, Kept-then, All-middle}

-- What a successful realloc of the block `old` leaves: a block of at least `n` bytes in its stead, which
-- begins with the bytes of `old`, and the other blocks `others` as they were.
pub record Resized (valid : Mem → List Block → Type 0) (m m' : Mem) (p n : ℕ) (old : Block)
    (others : List Block) : Type 0 where
  pub size : ℕ
  pub pointer : p ≢ 0
  pub enough : n ≤ size
  pub sound : valid m' (record { start = p; size = size } ∷ others)
  pub bytes : (x : ℕ) → p ≤ x → x < p + min old.size n → m' x ≡ m (old.start + (x - p))
  pub same : All (λ b. SameAt m m' b.start b.size) others

-- realloc of a block to a size that is not zero ends. It returns null and changes no block, or it returns a block of that size at least which begins with the bytes of the old one, as many as fit; the old block is given back and the other blocks are as they were.
pub realloc-Resized :
    (lib : HeapLib) (st : Statics) (align : ℕ) (valid : ℕ → Mem → List Block → Type 0)
    → HeapLaws lib valid
    → (s : Heaps) (a : List Block) (old : Block) (c : List Block) (n : ℕ) → 0 < align
    → align ≤ platform_threshold
    → valid s.current_heap s.memory (a ++ old ∷ c)
    → old.start ≢ 0
    → 0 < n
    → (s' : Heaps) × (p : ℕ) × (realloc lib st align s old.start n ≡ some (s', p))
      × (Refused (valid s.current_heap) s.memory s'.memory p (a ++ old ∷ c)
          ⊎ Resized (valid s.current_heap) s.memory s'.memory p n old (a ++ c))
unfolding realloc malloc free
realloc-Resized lib st align valid laws s a old c n pos le sound not_null some_bytes =
    let heap = s.current_heap in
    let (m1, p) = lib.heap_alloc heap s.memory n in
    elim (laws.alloc_law heap s.memory n (a ++ old ∷ c) sound) [
      | inl r ↦
          let e : (not (old.start == 0) && (not (p == 0) && ltb 0 n)) ≡ false =
            ground (arith, r.null) in
          (record { memory = m1; current_heap = heap }, p, rw e refl, inl r)
      | inr g ↦
          let new : Block = record { start = p; size = g.size } in
          let size : lib.get_size m1 old.start ≡ old.size =
            laws.size_law heap m1 (new ∷ a) old c g.sound in
          let k = min (lib.get_size m1 old.start) n in
          let (kept, others) = All-middle (Kept s.memory m1 new) a old c g.kept in
          let apart : Apart p k old.start k = omega (arith, g.enough, size, kept.apart) in
          let (m2, run, copy) =
            mem_copy-Copies (k + align + 1) align m1 p old.start k pos le (omega arith) apart in
          let frame : SameOutside m1 m2 p g.size =
            λ x out. copy.frame x (omega (arith, g.enough)) in
          let (sound3, same3) =
            laws.free_law heap m2 (new ∷ a) old c
              (laws.write_law heap m1 m2 new (a ++ old ∷ c) g.sound frame) in
          let e : (not (old.start == 0) && (not (p == 0) && ltb 0 n)) ≡ true =
            ground (arith, g.pointer) in
          let e0 : (old.start == 0) ≡ false = ground arith in
          (
            record { memory = lib.heap_free heap m2 old.start; current_heap = heap },
            p,
            rw e (rw run (rw e0 refl)),
            inr (record {
              size = g.size;
              pointer = g.pointer;
              enough = g.enough;
              sound = sound3;
              bytes = λ x lo hi.
                  same3.0 x lo (omega (arith, g.enough))
                  ∙ copy.bytes x lo (omega (arith, size))
                  ∙ kept.same (old.start + (x - p)) (omega arith) (omega arith);
              same =
                  Kept-then s.memory m2 _ new (a ++ c)
                    (Kept-write s.memory m1 m2 new (a ++ c) others frame) same3.1;
            }),
          )
    ]
