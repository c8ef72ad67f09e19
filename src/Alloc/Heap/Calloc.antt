-- ===== src/Alloc/Heap/Calloc.antt =====
-- rosco_m68k.cpp: calloc.
use rosco_cli.Prelude.{
  ℕ, ◌+◌, ◌*◌, ◌%◌, ◌<◌, ◌≤◌, ◌≡◌, refl, ◌⊎◌, inl, inr, List, arith, some, ◌==◌, u32_mod, false,
  true, Bool-cases, ltb, not, ◌&&◌,
}
use rosco_cli.Memory.{Mem}
use rosco_cli.Alloc.{platform_threshold}
use rosco_cli.Alloc.Clear.{mem_clear-Zeroed}
use rosco_cli.Alloc.Heap.{HeapLib, Heaps, Statics, malloc, calloc}
use rosco_cli.Alloc.Heap.Laws.{Block, Refused, Given, HeapLaws, Kept-write}

-- calloc ends. It returns null and changes no block, or it returns a block that shares no byte with the others, which are as they were, and whose first `num * size` bytes, counted on 32 bits, are zero.
pub calloc-Zeroed :
    (lib : HeapLib) (st : Statics) (align : ℕ) (valid : ℕ → Mem → List Block → Type 0)
    → HeapLaws lib valid
    → (s : Heaps) (bs : List Block) (num size : ℕ) → 0 < align
    → align ≤ platform_threshold
    → valid s.current_heap s.memory bs
    → (s' : Heaps) × (p : ℕ) × (calloc lib st align s num size ≡ some (s', p))
      × (Refused (valid s.current_heap) s.memory s'.memory p bs
          ⊎ (Given (valid s.current_heap) s.memory s'.memory p (num * size % u32_mod) bs
              × ((x : ℕ) → p ≤ x → x < p + num * size % u32_mod → s'.memory x ≡ 0)))
unfolding calloc malloc
calloc-Zeroed lib st align valid laws s bs num size pos le sound =
    let total = (num * size) % u32_mod in
    let (m1, p) = lib.heap_alloc s.current_heap s.memory total in
    elim (laws.alloc_law s.current_heap s.memory total bs sound) [
      | inl r ↦ (
        record { memory = m1; current_heap = s.current_heap },
        p,
        (let e : (not (p == 0) && ltb 0 total) ≡ false = ground (arith, r.null) in rw e refl),
        inl r,
      )
      | inr g ↦
          let new : Block = record { start = p; size = g.size } in
          let (m2, run, z) =
            mem_clear-Zeroed (total + align + 1) align m1 p total pos le (omega arith) in
          elim (Bool-cases (ltb 0 total)) [
            | inl some_bytes ↦ (
              record { memory = m2; current_heap = s.current_heap },
              p,
              (let e : (not (p == 0) && ltb 0 total) ≡ true = ground (arith, g.pointer) in
                  rw e (rw run refl)),
              inr (
                record {
                  size = g.size;
                  pointer = g.pointer;
                  enough = g.enough;
                  sound =
                      laws.write_law s.current_heap m1 m2 new bs g.sound
                        (λ x out. z.frame x (omega (arith, g.enough)));
                  kept =
                      Kept-write s.memory m1 m2 new bs g.kept
                        (λ x out. z.frame x (omega (arith, g.enough)));
                },
                z.zeros,
              ),
            )
            | inr no_bytes ↦ (
              record { memory = m1; current_heap = s.current_heap },
              p,
              (let e : (not (p == 0) && ltb 0 total) ≡ false = ground arith in rw e refl),
              inr (g, λ x lo hi. absurd (ground arith)),
            )
          ]
    ]
