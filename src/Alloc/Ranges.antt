-- ===== src/Alloc/Ranges.antt =====
-- rosco_m68k.cpp: what copying bytes and longs leaves.
use rosco_cli.Prelude.{
  ℕ, zero, suc, ◌+◌, ◌-◌, ◌*◌, ◌<◌, ◌≤◌, ◌≡◌, refl, arith, ltb, inl, inr, Bool-cases, ◌∙◌, subst,
}
use rosco_cli.Memory.{Mem, SameOutside, Apart, poke}
use rosco_cli.Alloc.{copy_bytes, copy_long, copy_longs}

-- The `n` bytes at `d` are those that were at `s`, and no other byte has changed.
pub record Copies (m m' : Mem) (d s n : ℕ) : Type 0 where
  pub bytes : (x : ℕ) → d ≤ x → x < d + n → m' x ≡ m (s + (x - d))
  pub frame : SameOutside m m' d n

pub Copies-empty : (m : Mem) (d s : ℕ) → Copies m m d s 0
Copies-empty m d s = record { bytes = λ x lo hi. absurd (omega arith); frame = λ x out. refl }

-- One range behind another, copied in this order.
pub Copies-compose :
    (m m1 m2 : Mem) (d s n k d' s' t : ℕ)
    → Copies m m1 d s n
    → Copies m1 m2 d' s' k
    → d' ≡ d + n
    → s' ≡ s + n
    → t ≡ n + k
    → Apart d t s t
    → Copies m m2 d s t
Copies-compose m m1 m2 d s n k d' s' t a b ed es et apart = record {
  bytes = λ x lo hi. elim (Bool-cases (ltb x (d + n))) [
    | inl early ↦ ground (arith, a.bytes x, b.frame x)
    | inr late ↦
        let e : s' + (x - d') ≡ s + (x - d) = ground arith in
        b.bytes x (ground arith) (ground arith) ∙ rw e (a.frame (s + (x - d)) (ground arith))
  ];
  frame = λ x out. ground (arith, a.frame x, b.frame x);
}

pub Copies-poke : (m : Mem) (d s : ℕ) → Copies m (poke m d (m s)) d s 1
unfolding poke
Copies-poke m d s = record {
  bytes = λ x lo hi. let e : x ≡ d = omega arith in rw e (ground arith);
  frame = λ x out. ground arith;
}

copy_long_at : (m : Mem) (d s i : ℕ) → i < 4 → copy_long m d s (d + i) ≡ m (s + i)
unfolding copy_long poke
copy_long_at m d s zero lt = ground arith
copy_long_at m d s (suc zero) lt = ground arith
copy_long_at m d s (suc (suc zero)) lt = ground arith
copy_long_at m d s (suc (suc (suc zero))) lt = ground arith
copy_long_at m d s (suc (suc (suc (suc i)))) lt = absurd (omega arith)

copy_long-Copies : (m : Mem) (d s : ℕ) → Copies m (copy_long m d s) d s 4
unfolding copy_long poke
copy_long-Copies m d s = record {
  bytes = λ x lo hi.
      subst (λ y. copy_long m d s y ≡ m (s + (x - d))) (omega arith)
        (copy_long_at m d s (x - d) (omega arith));
  frame = λ x out. ground arith;
}

pub copy_bytes-Copies : (m : Mem) (d s n : ℕ) → Apart d n s n → Copies m (copy_bytes m d s n) d s n
unfolding copy_bytes
copy_bytes-Copies m d s zero apart = Copies-empty m d s
copy_bytes-Copies m d s (suc n) apart =
    let m1 = poke m d (m s) in
    Copies-compose m m1 (copy_bytes m1 (d + 1) (s + 1) n) d s 1 n (d + 1) (s + 1) (suc n)
      (Copies-poke m d s) (copy_bytes-Copies m1 (d + 1) (s + 1) n (omega arith)) refl refl
      (omega arith) apart

pub copy_longs-Copies :
    (m : Mem) (d s n : ℕ) → Apart d (4 * n) s (4 * n) → Copies m (copy_longs m d s n) d s (4 * n)
unfolding copy_longs
copy_longs-Copies m d s zero apart = Copies-empty m d s
copy_longs-Copies m d s (suc n) apart =
    let m1 = copy_long m d s in
    Copies-compose m m1 (copy_longs m1 (d + 4) (s + 4) n) d s 4 (4 * n) (d + 4) (s + 4) (4 * suc n)
      (copy_long-Copies m d s) (copy_longs-Copies m1 (d + 4) (s + 4) n (omega arith)) refl refl
      (omega arith) apart
