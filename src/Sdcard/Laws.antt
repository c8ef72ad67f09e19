-- ===== src/Sdcard/Laws.antt =====
-- sdcard.c: the size is the capacity that the card's register states, and the sectors come to their places.
use native.Mathlib.Nat.{div-div-eq-div-mul, pow-suc, pow-le-pow_right, mul-le-mul, mul_assoc}
use rosco_cli.Prelude.{
  if◌then◌else◌, ◌==◌, ◌⊎◌, inl, inr, ℕ, zero, suc, ◌+◌, ◌-◌, ◌*◌, ◌/◌, ◌%◌, ◌^◌, ◌<◌, ◌≤◌, ◌≡◌,
  refl, Bool, Option, none, some, bit_or-fields, u32_mod, arith, ◌∙◌, ap, sym, subst,
}
use rosco_cli.Memory.{Mem, SameOutside}
use rosco_cli.Sdcard.{
  Csd, csd_ver, v1_read_bl_len, v1_c_size, v1_c_size_mult, v2_c_size, sd_get_size, fat_media_read,
}

-- The register as one number of 128 bits, its first byte the highest.
abbrev pub register : ℕ → Csd → ℕ
register zero csd = 0
register (suc k) csd = register k csd * 256 + csd k

-- `n` bits of a number from bit `lo` on
abbrev pub bits : (v lo n : ℕ) → ℕ
bits v lo n = v / 2 ^ lo % 2 ^ n

abbrev pub IsCsd : Csd → Type 0
IsCsd csd = (i : ℕ) → csd i < 256

-- The first `k` bytes are what is left of `k + j` bytes without the last `j`.
register_high :
    (csd : Csd) → IsCsd csd → (k j : ℕ) → register (k + j) csd / 256 ^ j ≡ register k csd
register_high csd h k zero = let e : k + 0 ≡ k = omega arith in rw e (omega arith)
register_high csd h k (suc j) =
    let e : k + suc j ≡ suc (k + j) = omega arith in
    let low : (register (k + j) csd * 256 + csd (k + j)) / 256 ≡ register (k + j) csd =
      omega (arith, h (k + j)) in
    let split : 256 ^ suc j ≡ 256 * 256 ^ j = omega (arith, pow-suc 256 j) in
    rw (e, split)
      (sym (div-div-eq-div-mul (register (k + j) csd * 256 + csd (k + j)) 256 (256 ^ j))
        ∙ rw low (register_high csd h k j))

-- Bits that lie in the first `k` bytes.
bits_from :
    (csd : Csd)
    → IsCsd csd
    → (k j m n : ℕ) → register (k + j) csd / (256 ^ j * m) % n ≡ register k csd / m % n
bits_from csd h k j m n =
    sym (ap (λ v. v % n) (div-div-eq-div-mul (register (k + j) csd) (256 ^ j) m))
    ∙ ap (λ v. v / m % n) (register_high csd h k j)

v1_c_size-bits : (csd : Csd) → IsCsd csd → v1_c_size csd ≡ bits (register 16 csd) 62 12
unfolding v1_c_size
v1_c_size-bits csd h =
    let h8 = h 8 in
    let h7 = h 7 in
    let e1 = bit_or-fields 10 (csd 6 % 4) (csd 7 * 2 ^ 2) (omega arith) in
    let again : csd 6 % 4 * 2 ^ 10 + csd 7 * 2 ^ 2 ≡ (csd 6 % 4 * 2 ^ 8 + csd 7) * 2 ^ 2 =
      omega arith in
    let e2 = bit_or-fields 2 (csd 6 % 4 * 2 ^ 8 + csd 7) (csd 8 / 64) (omega arith) in
    rw (e1, again, e2) (omega (arith, h 6, bits_from csd h 9 7 (2 ^ 6) (2 ^ 12)))

v1_c_size_mult-bits : (csd : Csd) → IsCsd csd → v1_c_size_mult csd ≡ bits (register 16 csd) 47 3
unfolding v1_c_size_mult
v1_c_size_mult-bits csd h =
    let h10 = h 10 in
    let e = bit_or-fields 1 (csd 9 % 4) (csd 10 / 128) (omega arith) in
    rw e (omega (arith, h 9, bits_from csd h 11 5 (2 ^ 7) (2 ^ 3)))

v1_read_bl_len-bits : (csd : Csd) → IsCsd csd → v1_read_bl_len csd ≡ bits (register 16 csd) 80 4
unfolding v1_read_bl_len
v1_read_bl_len-bits csd h = omega (arith, bits_from csd h 6 10 1 (2 ^ 4))

v2_c_size-bits : (csd : Csd) → IsCsd csd → v2_c_size csd ≡ bits (register 16 csd) 48 22
unfolding v2_c_size
v2_c_size-bits csd h =
    let h8 = h 8 in
    let h9 = h 9 in
    let e1 = bit_or-fields 16 (csd 7 % 64) (csd 8 * 2 ^ 8) (omega arith) in
    let again : csd 7 % 64 * 2 ^ 16 + csd 8 * 2 ^ 8 ≡ (csd 7 % 64 * 2 ^ 8 + csd 8) * 2 ^ 8 =
      omega arith in
    let e2 = bit_or-fields 8 (csd 7 % 64 * 2 ^ 8 + csd 8) (csd 9) (omega arith) in
    rw (e1, again, e2) (omega (arith, h 7, bits_from csd h 10 6 1 (2 ^ 22)))

-- the capacity in bytes that a register of version 1 states
abbrev pub capacity1 : ℕ → ℕ
capacity1 v = (bits v 62 12 + 1) * 2 ^ (bits v 47 3 + 2) * 2 ^ bits v 80 4

abbrev pub capacity2 : ℕ → ℕ
capacity2 v = (bits v 48 22 + 1) * (512 * 1024)

two_pow_add : (a b : ℕ) → 2 ^ (a + b) ≡ 2 ^ a * 2 ^ b
two_pow_add a zero = let e : a + 0 ≡ a = omega arith in rw e (omega arith)
two_pow_add a (suc b) =
    let e : a + suc b ≡ suc (a + b) = omega arith in
    rw (e, pow-suc 2 (a + b), pow-suc 2 b, two_pow_add a b) (grind arith)

-- the shift of version 1 in bytes, for block lengths of 512 to 2048
shifted :
    (c mult len : ℕ)
    → c < 2 ^ 12
    → mult < 8
    → 9 ≤ len
    → len ≤ 11
    → (c + 1) * 2 ^ (mult + len - 7) % u32_mod * 512 ≡ (c + 1) * 2 ^ (mult + 2) * 2 ^ len
shifted c mult len hc hm lo hi =
    let top : 2 ^ (mult + len - 7) ≤ 2 ^ 11 =
      pow-le-pow_right {n = 2} (omega arith) {j = 11} (omega arith) in
    let product : (c + 1) * 2 ^ (mult + len - 7) ≤ 2 ^ 12 * 2 ^ 11 =
      mul-le-mul {n₂ = 2 ^ 12} (omega arith) top in
    let small : (c + 1) * 2 ^ (mult + len - 7) % u32_mod ≡ (c + 1) * 2 ^ (mult + len - 7) =
      omega (arith, product) in
    let nine : 2 ^ (mult + len - 7) * 512 ≡ 2 ^ (mult + 2) * 2 ^ len =
      sym (two_pow_add (mult + len - 7) 9)
      ∙ ap (λ n. 2 ^ n) (omega arith)
      ∙ two_pow_add (mult + 2) len in
    rw small (
      mul_assoc (c + 1) (2 ^ (mult + len - 7)) 512
      ∙ ap (λ n. (c + 1) * n) nine
      ∙ sym (mul_assoc (c + 1) (2 ^ (mult + 2)) (2 ^ len)))

-- the capacity in bytes by the register's version
abbrev pub capacity : ℕ → ℕ
capacity v = if bits v 126 2 == 0 then capacity1 v else capacity2 v

-- Version 1 with a block length of 512 to 2048 bytes, or version 2 with any C_SIZE but the largest.
abbrev pub IsSupported : ℕ → Type 0
IsSupported v =
    ((bits v 126 2 ≡ 0) × (9 ≤ bits v 80 4) × (bits v 80 4 ≤ 11))
    ⊎ ((bits v 126 2 ≡ 1) × (bits v 48 22 < 2 ^ 22 - 1))

-- SD_get_size gives the number of blocks of 512 bytes in the capacity that the card's 128-bit register states, for registers of version 1 with block lengths of 512 to 2048 bytes and of version 2 with any C_SIZE but the largest.
pub sd_get_size-capacity :
    (csd : Csd)
    → IsCsd csd
    → IsSupported (register 16 csd)
    → (s : ℕ) × (sd_get_size (some csd) ≡ some s) × (s * 512 ≡ capacity (register 16 csd))
unfolding sd_get_size
sd_get_size-capacity csd h supported =
    let version : csd_ver csd ≡ bits (register 16 csd) 126 2 =
      omega (arith, h 0, bits_from csd h 1 15 (2 ^ 6) (2 ^ 2)) in
    let c = v1_c_size-bits csd h in
    let mult = v1_c_size_mult-bits csd h in
    let len = v1_read_bl_len-bits csd h in
    elim supported [
      | inl (v, lo, hi) ↦ (
        (v1_c_size csd + 1) * 2 ^ (v1_c_size_mult csd + v1_read_bl_len csd - 7) % u32_mod,
        ground arith,
        rw (v, sym c, sym mult, sym len)
            (shifted (v1_c_size csd) (v1_c_size_mult csd) (v1_read_bl_len csd) (omega arith)
              (omega arith) (omega arith) (omega arith)),
      )
      | inr (v, small) ↦ (
        (v2_c_size csd + 1) * 2 ^ 10 % u32_mod,
        ground arith,
        rw v (omega (arith, v2_c_size-bits csd h)),
      )
    ]

-- How a driver reads a card: a block of 512 bytes at the place asked for, or a failure.
abbrev pub Reads : {D : Type 0} → (D → ℕ → ℕ → Mem → Option Mem) → D → (ℕ → ℕ → ℕ) → Type 0
Reads read d disk =
    (block buffer : ℕ) (m m' : Mem)
    → read d block buffer m ≡ some m'
    → ((j : ℕ) → j < 512 → m' (buffer + j) ≡ disk block j) × SameOutside m m' buffer 512

-- Sector `sector + i` lies at `buffer + 512 * i` for each `i` below `n`, and all else is as it was in `m`.
abbrev pub Sectors : (ℕ → ℕ → ℕ) → (sector buffer n : ℕ) → Mem → Mem → Type 0
Sectors disk sector buffer n m m' =
    ((i j : ℕ) → i < n → j < 512 → m' (buffer + 512 * i + j) ≡ disk (sector + i) j)
    × SameOutside m m' buffer (512 * n)

-- one sector before others
Sectors-suc :
    (disk : ℕ → ℕ → ℕ) (sector buffer n : ℕ) (m m1 m' : Mem)
    → ((j : ℕ) → j < 512 → m1 (buffer + j) ≡ disk sector j)
    → SameOutside m m1 buffer 512
    → Sectors disk (sector + 1) (buffer + 512) n m1 m'
    → Sectors disk sector buffer (suc n) m m'
Sectors-suc disk sector buffer n m m1 m' block frame (rest, same) =
    (at, λ x out. same x (omega arith) ∙ frame x (omega arith))
  where
    at : (i j : ℕ) → i < suc n → j < 512 → m' (buffer + 512 * i + j) ≡ disk (sector + i) j
    at zero j hi hj =
        same (buffer + 512 * 0 + j) (omega arith)
        ∙ subst (λ a. m1 a ≡ disk (sector + 0) j) (omega arith)
            (block j hj ∙ ap (λ b. disk b j) (omega arith))
    at (suc i) j hi hj =
        subst (λ a. m' a ≡ disk (sector + suc i) j) (omega arith)
          (rest i j (omega arith) hj ∙ ap (λ b. disk b j) (omega arith))

-- When FAT_media_read reports success, sector `sector + i` of the card lies at `buffer + 512 * i` for each `i` below the count, and no byte outside these sectors' places has changed. The sectors' numbers fit a word.
pub fat_media_read-Sectors :
    {D : Type 0}
    → (read : D → ℕ → ℕ → Mem → Option Mem) (write : D → ℕ → ℕ → Mem → D × Bool) (d : D)
      (disk : ℕ → ℕ → ℕ)
    → Reads read d disk
    → (sector buffer n : ℕ) (m : Mem) → sector + n ≤ u32_mod
    → (fat_media_read read write d sector buffer n m).1 ≡ 1
    → Sectors disk sector buffer n m (fat_media_read read write d sector buffer n m).0
unfolding fat_media_read
fat_media_read-Sectors read write d disk reads sector buffer zero m fits ok =
    ((λ i j hi hj. absurd (omega arith)), λ x out. refl)
fat_media_read-Sectors {D} read write d disk reads sector buffer (suc n) m fits ok =
    go (read d (sector % u32_mod) buffer m) refl ok (λ m' done.
      fat_media_read-Sectors read write d disk reads (sector + 1) (buffer + 512) n m' (omega arith)
        done)
  where
    after : Option Mem → Mem × ℕ
    after none = (m, 0)
    after (some m') = fat_media_read read write d (sector + 1) (buffer + 512) n m'

    go :
        (r : Option Mem)
        → read d (sector % u32_mod) buffer m ≡ r
        → (after r).1 ≡ 1
        → ((m' : Mem)
            → (fat_media_read read write d (sector + 1) (buffer + 512) n m').1 ≡ 1
            → Sectors disk
                (sector + 1)
                (buffer + 512)
                n
                m'
                (fat_media_read read write d (sector + 1) (buffer + 512) n m').0)
        → Sectors disk sector buffer (suc n) m (after r).0
    go none e done ih = absurd (omega arith)
    go (some m') e done ih =
        let word : sector % u32_mod ≡ sector = omega arith in
        let (block, frame) = reads (sector % u32_mod) buffer m m' e in
        Sectors-suc disk sector buffer n m m'
          (fat_media_read read write d (sector + 1) (buffer + 512) n m').0
          (λ j hj. block j hj ∙ ap (λ b. disk b j) word) frame (ih m' done)
