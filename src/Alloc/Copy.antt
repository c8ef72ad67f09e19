-- ===== src/Alloc/Copy.antt =====
-- rosco_m68k.cpp: copying memory against memcpy of string.c.
use rosco_cli.Prelude.{
  ℕ, zero, suc, ◌+◌, ◌-◌, ◌*◌, ◌%◌, ◌<◌, ◌≤◌, ◌≡◌, refl, some, arith, ◌==◌, ltb, if◌then◌else◌, inl,
  inr, Bool-cases, ◌∙◌, sym, ap, subst, ◌&&◌, ◌||◌, not,
}
use native.Mathlib.Nat.{mod-add-mod}
use rosco_cli.Memory.{Mem, Apart, poke}
use rosco_cli.Cstdlib.Str.{memcpy}
use rosco_cli.Cstdlib.Str.Copy.{memcpy-frame, memcpy-copies}
use rosco_cli.Alloc.{
  copy_bytes, copy_longs, chunks_to_loop, Copying, copy_misaligned, copy_chunks, mem_copy,
  platform_threshold,
}
use rosco_cli.Alloc.Clear.{aligned_ahead, chunks_to_loop_bounds}
use rosco_cli.Alloc.Ranges.{
  Copies, Copies-empty, Copies-compose, Copies-poke, copy_bytes-Copies, copy_longs-Copies,
}

-- What a part of the routine has done: it copied the first `n` bytes and moved on behind them.
record Copied (c c' : Copying) (n : ℕ) : Type 0 where
  memory : Copies c.memory c'.memory c.bdst c.bsrc n
  bdst : c'.bdst ≡ c.bdst + n
  bsrc : c'.bsrc ≡ c.bsrc + n
  count_left : c'.count_left + n ≡ c.count_left

-- the two ranges that are left to copy share no byte
abbrev Sound : Copying → Type 0
Sound c = Apart c.bdst c.count_left c.bsrc c.count_left

Copied-Sound : (c c' : Copying) (n : ℕ) → Copied c c' n → Sound c → Sound c'
Copied-Sound c c' n a sound = omega (arith, a.bdst, a.bsrc, a.count_left)

Copied-compose :
    (c c1 c2 : Copying) (n k : ℕ) → Sound c → Copied c c1 n → Copied c1 c2 k → Copied c c2 (n + k)
Copied-compose c c1 c2 n k sound a b = record {
  memory =
      Copies-compose c.memory c1.memory c2.memory c.bdst c.bsrc n k c1.bdst c1.bsrc (n + k) a.memory
        b.memory a.bdst a.bsrc refl (omega (arith, a.count_left, b.count_left));
  bdst = omega (arith, a.bdst, b.bdst);
  bsrc = omega (arith, a.bsrc, b.bsrc);
  count_left = omega (arith, a.count_left, b.count_left);
}

Copied-empty : (c : Copying) → Copied c c 0
Copied-empty c = record {
  memory = Copies-empty c.memory c.bdst c.bsrc;
  bdst = omega arith;
  bsrc = omega arith;
  count_left = omega arith;
}

-- With aligned addresses `k` bytes ahead, the byte loop ends at them or before them.
copy_misaligned-Copied :
    (f align k : ℕ) (c : Copying)
    → k < f
    → k ≤ c.count_left
    → (c.bdst + k) % align ≡ 0
    → (c.bsrc + k) % align ≡ 0
    → Sound c
    → (c' : Copying) × (n : ℕ) × (copy_misaligned f align c ≡ some c') × Copied c c' n
unfolding copy_misaligned
copy_misaligned-Copied zero align k c lt le ed es sound = absurd (omega arith)
copy_misaligned-Copied (suc f) align zero c lt le ed es sound = (c, 0, ground arith, Copied-empty c)
copy_misaligned-Copied (suc f) align (suc k) c lt le ed es sound =
    let c1 : Copying = record {
      memory = poke c.memory c.bdst (c.memory c.bsrc);
      bdst = c.bdst + 1;
      bsrc = c.bsrc + 1;
      count_left = c.count_left - 1;
    } in
    let first : Copied c c1 1 = record {
      memory = Copies-poke c.memory c.bdst c.bsrc;
      bdst = refl;
      bsrc = refl;
      count_left = omega arith;
    } in
    let (c', n, run, done) =
      copy_misaligned-Copied f align k c1 (omega arith) (omega arith)
        (subst (λ x. x % align ≡ 0) (omega arith) ed) (subst (λ x. x % align ≡ 0) (omega arith) es)
        (Copied-Sound c c1 1 first sound) in
    elim (Bool-cases (c.bdst % align == 0 && c.bsrc % align == 0)) [
      | inl at ↦
          (c, 0, ap (λ t. if t then some c else copy_misaligned f align c1) at, Copied-empty c)
      | inr off ↦ (
        c',
        1 + n,
        ap (λ t. if t then some c else copy_misaligned f align c1) off ∙ run,
        Copied-compose c c1 c' 1 n sound first done,
      )
    ]

-- The loop over longs leaves less than a long.
copy_chunks-Copied :
    (f : ℕ) (c : Copying)
    → c.count_left < f
    → Sound c
    → (c' : Copying) × (n : ℕ) × (copy_chunks f c ≡ some c') × Copied c c' n
unfolding copy_chunks
copy_chunks-Copied zero c lt sound = absurd (omega arith)
copy_chunks-Copied (suc f) c lt sound = elim (Bool-cases (ltb c.count_left 4)) [
  | inl done ↦ (c, 0, ground arith, Copied-empty c)
  | inr more ↦
      let n = chunks_to_loop c.count_left in
      let (small, pos) = chunks_to_loop_bounds c.count_left (ground arith) in
      let c1 : Copying = record {
        memory = copy_longs c.memory c.bdst c.bsrc n;
        bdst = c.bdst + 4 * n;
        bsrc = c.bsrc + 4 * n;
        count_left = c.count_left - 4 * n;
      } in
      let first : Copied c c1 (4 * n) = record {
        memory = copy_longs-Copies c.memory c.bdst c.bsrc n (omega arith);
        bdst = refl;
        bsrc = refl;
        count_left = omega arith;
      } in
      let (c', k, run, done) =
        copy_chunks-Copied f c1 (omega arith) (Copied-Sound c c1 (4 * n) first sound) in
      (
        c',
        4 * n + k,
        ap (λ t. if t then some c else copy_chunks f c1) more ∙ run,
        Copied-compose c c1 c' (4 * n) k sound first done,
      )
]

-- With one offset from alignment, what aligns the one address aligns the other.
both_aligned : (align d s k : ℕ) → d % align ≡ s % align → (d + k) % align ≡ 0 → (s + k) % align ≡ 0
both_aligned align d s k same e =
    sym (mod-add-mod s align k) ∙ ap (λ x. (x + k) % align) (sym same) ∙ mod-add-mod d align k ∙ e

pub mem_copy-Copies :
    (f align : ℕ) (m : Mem) (d s n : ℕ)
    → 0 < align
    → align ≤ platform_threshold
    → n + align < f
    → Apart d n s n
    → (m' : Mem) × (mem_copy f align m d s n ≡ some m') × Copies m m' d s n
unfolding mem_copy
mem_copy-Copies f align m d s n pos le lt apart =
    elim (Bool-cases (ltb n platform_threshold || not (d % align == s % align))) [
      | inl slow ↦ (copy_bytes m d s n, rw slow refl, copy_bytes-Copies m d s n apart)
      | inr fast ↦
          let c : Copying = record { memory = m; bdst = d; bsrc = s; count_left = n } in
          let (k, near, ed) = aligned_ahead align d pos in
          let (c1, a, run1, one) =
            copy_misaligned-Copied f align k c (omega arith) (ground arith) ed
              (both_aligned align d s k (ground arith) ed) apart in
          let sound = Copied-Sound c c1 a one apart in
          let (c2, b, run2, two) = copy_chunks-Copied f c1 (omega (arith, one.count_left)) sound in
          let both = Copied-compose c c1 c2 a b apart one two in
          let e : n ≡ a + b + c2.count_left = omega (arith, both.count_left) in
          (
            copy_bytes c2.memory c2.bdst c2.bsrc c2.count_left,
            rw fast (rw run1 (rw run2 refl)),
            Copies-compose m c2.memory _ d s (a + b) c2.count_left c2.bdst c2.bsrc n both.memory
                (copy_bytes-Copies c2.memory c2.bdst c2.bsrc c2.count_left
                  (Copied-Sound c1 c2 b two sound))
                both.bdst both.bsrc e apart,
          )
    ]

-- Two memories that have copied the same bytes are the same.
Copies-unique :
    (m m1 m2 : Mem) (d s n : ℕ) → Copies m m1 d s n → Copies m m2 d s n → (x : ℕ) → m1 x ≡ m2 x
Copies-unique m m1 m2 d s n a b x = elim (Bool-cases (ltb x d || not (ltb x (d + n)))) [
  | inl out ↦ ground (arith, a.frame x, b.frame x)
  | inr within ↦
      a.bytes x (ground arith) (ground arith) ∙ sym (b.bytes x (ground arith) (ground arith))
]

-- mem_copy ends, and each byte of memory is then the one that memcpy leaves there, whatever the two addresses are, if the ranges share no byte, the alignment is not above the threshold and the fuel is above the number of bytes and the alignment together.
pub mem_copy-memcpy :
    (f align : ℕ) (m : Mem) (d s n : ℕ)
    → 0 < align
    → align ≤ platform_threshold
    → n + align < f
    → Apart d n s n
    → (m' : Mem) × (mem_copy f align m d s n ≡ some m') × ((x : ℕ) → m' x ≡ (memcpy m d s n).0 x)
mem_copy-memcpy f align m d s n pos le lt apart =
    let (m', run, copies) = mem_copy-Copies f align m d s n pos le lt apart in
    (
      m',
      run,
      Copies-unique m m' (memcpy m d s n).0 d s n copies
          (record { bytes = memcpy-copies m d s n apart; frame = memcpy-frame m d s n }),
    )
