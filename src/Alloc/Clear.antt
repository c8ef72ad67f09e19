-- ===== src/Alloc/Clear.antt =====
-- rosco_m68k.cpp: what clearing memory leaves.
use rosco_cli.Prelude.{
  ℕ, zero, suc, ◌+◌, ◌-◌, ◌*◌, ◌%◌, ◌<◌, ◌≤◌, ◌≡◌, refl, some, arith, ◌==◌, ltb, if◌then◌else◌, inl,
  inr, Bool-cases, ◌∙◌, sym, ap, subst,
}
use native.Mathlib.Nat.{mod-lt, mod-add-mod, mod_self}
use rosco_cli.Memory.{Mem, SameOutside, poke}
use rosco_cli.Alloc.{
  clear_bytes, clear_longs, chunks_to_loop, Clearing, clear_misaligned, clear_chunks, mem_clear,
  platform_threshold,
}

-- The `n` bytes at `p` are zero, and no other byte has changed.
pub record Zeroed (m m' : Mem) (p n : ℕ) : Type 0 where
  pub zeros : (x : ℕ) → p ≤ x → x < p + n → m' x ≡ 0
  pub frame : SameOutside m m' p n

pub Zeroed-empty : (m : Mem) (p : ℕ) → Zeroed m m p 0
Zeroed-empty m p = record { zeros = λ x lo hi. absurd (omega arith); frame = λ x out. refl }

-- One range behind another, cleared in this order.
pub Zeroed-compose :
    (m m1 m2 : Mem) (p n k q t : ℕ)
    → Zeroed m m1 p n
    → Zeroed m1 m2 q k
    → q ≡ p + n
    → t ≡ n + k
    → Zeroed m m2 p t
Zeroed-compose m m1 m2 p n k q t a b eq et = record {
  zeros = λ x lo hi. elim (Bool-cases (ltb x (p + n))) [
    | inl early ↦ ground (arith, a.zeros x, b.frame x)
    | inr late ↦ ground (arith, b.zeros x)
  ];
  frame = λ x out. ground (arith, a.frame x, b.frame x);
}

Zeroed-poke : (m : Mem) (p : ℕ) → Zeroed m (poke m p 0) p 1
unfolding poke
Zeroed-poke m p = record { zeros = λ x lo hi. ground arith; frame = λ x out. ground arith }

pub clear_bytes-Zeroed : (m : Mem) (p n : ℕ) → Zeroed m (clear_bytes m p n) p n
unfolding clear_bytes
clear_bytes-Zeroed m p zero = Zeroed-empty m p
clear_bytes-Zeroed m p (suc n) =
    Zeroed-compose m (poke m p 0) _ p 1 n (p + 1) (suc n) (Zeroed-poke m p)
      (clear_bytes-Zeroed (poke m p 0) (p + 1) n) refl (omega arith)

clear_long-Zeroed :
    (m : Mem) (p : ℕ) → Zeroed m (poke (poke (poke (poke m p 0) (p + 1) 0) (p + 2) 0) (p + 3) 0) p 4
unfolding poke
clear_long-Zeroed m p = record { zeros = λ x lo hi. ground arith; frame = λ x out. ground arith }

pub clear_longs-Zeroed : (m : Mem) (p n : ℕ) → Zeroed m (clear_longs m p n) p (4 * n)
unfolding clear_longs
clear_longs-Zeroed m p zero = Zeroed-empty m p
clear_longs-Zeroed m p (suc n) =
    let m1 = poke (poke (poke (poke m p 0) (p + 1) 0) (p + 2) 0) (p + 3) 0 in
    Zeroed-compose m m1 (clear_longs m1 (p + 4) n) p 4 (4 * n) (p + 4) (4 * suc n)
      (clear_long-Zeroed m p) (clear_longs-Zeroed m1 (p + 4) n) refl (omega arith)

-- What a part of the routine has done: it cleared the first `n` bytes and moved on behind them.
record Cleared (c c' : Clearing) (n : ℕ) : Type 0 where
  memory : Zeroed c.memory c'.memory c.bdst n
  bdst : c'.bdst ≡ c.bdst + n
  count_left : c'.count_left + n ≡ c.count_left

Cleared-compose :
    (c c1 c2 : Clearing) (n k : ℕ) → Cleared c c1 n → Cleared c1 c2 k → Cleared c c2 (n + k)
Cleared-compose c c1 c2 n k a b = record {
  memory =
      Zeroed-compose c.memory c1.memory c2.memory c.bdst n k c1.bdst (n + k) a.memory b.memory
        a.bdst refl;
  bdst = omega (arith, a.bdst, b.bdst);
  count_left = omega (arith, a.count_left, b.count_left);
}

Cleared-empty : (c : Clearing) → Cleared c c 0
Cleared-empty c = record {
  memory = Zeroed-empty c.memory c.bdst;
  bdst = omega arith;
  count_left = omega arith;
}

pub chunks_to_loop_bounds : (n : ℕ) → 4 ≤ n → (4 * chunks_to_loop n ≤ n) × (0 < chunks_to_loop n)
unfolding chunks_to_loop
chunks_to_loop_bounds n le = (omega arith, omega arith)

-- The next aligned address is less than an alignment ahead.
pub aligned_ahead : (align d : ℕ) → 0 < align → (k : ℕ) × (k < align) × ((d + k) % align ≡ 0)
aligned_ahead align d pos = elim (Bool-cases (d % align == 0)) [
  | inl at ↦ (0, pos, ground arith)
  | inr off ↦
      let r = d % align in
      let small : r < align = mod-lt d pos in
      let whole : r + (align - r) ≡ align = omega arith in
      (
        align - r,
        ground arith,
        sym (mod-add-mod d align (align - r)) ∙ ap (λ x. x % align) whole ∙ mod_self align,
      )
]

-- With an aligned address `k` bytes ahead, the byte loop ends at it or before it.
clear_misaligned-Cleared :
    (f align k : ℕ) (c : Clearing)
    → k < f
    → k ≤ c.count_left
    → (c.bdst + k) % align ≡ 0
    → (c' : Clearing) × (n : ℕ) × (clear_misaligned f align c ≡ some c') × Cleared c c' n
unfolding clear_misaligned
clear_misaligned-Cleared zero align k c lt le e = absurd (omega arith)
clear_misaligned-Cleared (suc f) align zero c lt le e = (c, 0, ground arith, Cleared-empty c)
clear_misaligned-Cleared (suc f) align (suc k) c lt le e =
    let c1 : Clearing = record {
      memory = poke c.memory c.bdst 0;
      bdst = c.bdst + 1;
      count_left = c.count_left - 1;
    } in
    let e1 : (c1.bdst + k) % align ≡ 0 = subst (λ x. x % align ≡ 0) (omega arith) e in
    let (c', n, run, done) = clear_misaligned-Cleared f align k c1 (omega arith) (omega arith) e1 in
    let first : Cleared c c1 1 = record {
      memory = Zeroed-poke c.memory c.bdst;
      bdst = refl;
      count_left = omega arith;
    } in
    elim (Bool-cases (c.bdst % align == 0)) [
      | inl at ↦
          (c, 0, ap (λ t. if t then some c else clear_misaligned f align c1) at, Cleared-empty c)
      | inr off ↦ (
        c',
        1 + n,
        ap (λ t. if t then some c else clear_misaligned f align c1) off ∙ run,
        Cleared-compose c c1 c' 1 n first done,
      )
    ]

-- The loop over longs leaves less than a long.
clear_chunks-Cleared :
    (f : ℕ) (c : Clearing)
    → c.count_left < f
    → (c' : Clearing) × (n : ℕ) × (clear_chunks f c ≡ some c') × Cleared c c' n
unfolding clear_chunks
clear_chunks-Cleared zero c lt = absurd (omega arith)
clear_chunks-Cleared (suc f) c lt = elim (Bool-cases (ltb c.count_left 4)) [
  | inl done ↦ (c, 0, ground arith, Cleared-empty c)
  | inr more ↦
      let n = chunks_to_loop c.count_left in
      let (small, pos) = chunks_to_loop_bounds c.count_left (ground arith) in
      let c1 : Clearing = record {
        memory = clear_longs c.memory c.bdst n;
        bdst = c.bdst + 4 * n;
        count_left = c.count_left - 4 * n;
      } in
      let (c', k, run, done) = clear_chunks-Cleared f c1 (omega arith) in
      let first : Cleared c c1 (4 * n) = record {
        memory = clear_longs-Zeroed c.memory c.bdst n;
        bdst = refl;
        count_left = omega arith;
      } in
      (
        c',
        4 * n + k,
        ap (λ t. if t then some c else clear_chunks f c1) more ∙ run,
        Cleared-compose c c1 c' (4 * n) k first done,
      )
]

pub mem_clear-Zeroed :
    (f align : ℕ) (m : Mem) (d n : ℕ)
    → 0 < align
    → align ≤ platform_threshold
    → n + align < f
    → (m' : Mem) × (mem_clear f align m d n ≡ some m') × Zeroed m m' d n
unfolding mem_clear
mem_clear-Zeroed f align m d n pos le lt = elim (Bool-cases (ltb n platform_threshold)) [
  | inl few ↦ (clear_bytes m d n, rw few refl, clear_bytes-Zeroed m d n)
  | inr many ↦
      let c : Clearing = record { memory = m; bdst = d; count_left = n } in
      let (k, near, aligned) = aligned_ahead align d pos in
      let (c1, a, run1, one) =
        clear_misaligned-Cleared f align k c (omega arith) (ground arith) aligned in
      let (c2, b, run2, two) = clear_chunks-Cleared f c1 (omega (arith, one.count_left)) in
      let both = Cleared-compose c c1 c2 a b one two in
      (
        clear_bytes c2.memory c2.bdst c2.count_left,
        rw many (rw run1 (rw run2 refl)),
        Zeroed-compose m c2.memory _ d (a + b) c2.count_left c2.bdst n both.memory
            (clear_bytes-Zeroed c2.memory c2.bdst c2.count_left) both.bdst
            (omega (arith, both.count_left)),
      )
]
