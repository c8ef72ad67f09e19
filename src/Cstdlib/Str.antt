-- ===== src/Cstdlib/Str.antt =====
-- string.c and strings.c over byte-addressed memory. A loop that ends at a null byte runs on fuel, and `none` means that the fuel ran out; a loop that counts `n` down recurs on `n`. A pointer result that may
-- be NULL is an `Option`. An `int c` that is used as a byte is given by its bit pattern. Plain `char` is signed.
pub mod Search
pub mod Compare
pub mod Copy
pub mod Concat
use rosco_cli.Prelude.{
  ℕ, zero, suc, ◌+◌, ◌-◌, ◌%◌, Bool, true, false, Option, none, some, ◌==◌, if◌then◌else◌, ◌>>=◌, ℤ,
  pos, negsuc, is_zero, signed8, ◌-ℤ◌, sub_ℕ,
}
use rosco_cli.Memory.{Mem, poke}
use rosco_cli.Cstdlib.Ctype.{tolower}

-- memchr: the first of `n` bytes that equals the `int` with bit pattern `c`
unfoldable pub memchr : Mem → ℕ → ℕ → ℕ → Option ℕ
memchr m s c zero = none
memchr m s c (suc n) = if m s == c then some s else memchr m (s + 1) c n

-- memcpy returns the moved `tbuf`
unfoldable pub memcpy : Mem → (s1 s2 n : ℕ) → Mem × ℕ
memcpy m s1 s2 zero = (m, s1)
memcpy m s1 s2 (suc n) = memcpy (poke m s1 (m s2)) (s1 + 1) (s2 + 1) n

unfoldable pub memset_loop : Mem → (buf c n : ℕ) → Mem
memset_loop m buf c zero = m
memset_loop m buf c (suc n) = memset_loop (poke m buf (c % 256)) (buf + 1) c n

unfoldable pub memset : Mem → (s c n : ℕ) → Mem × ℕ
unfolding memset_loop
memset m s c n = (memset_loop m s c n, s)

unfoldable pub strchr : ℕ → Mem → (s c : ℕ) → Option (Option ℕ)
strchr zero m s c = none
strchr (suc f) m s c =
    let rest = strchr f m (s + 1) c in
    if m s == c % 256 then some (some s) else if m s == 0 then some none else rest

unfoldable pub strcmp : ℕ → Mem → (s1 s2 : ℕ) → Option ℤ
unfolding ◌-ℤ◌ signed8
strcmp zero m s1 s2 = none
strcmp (suc f) m s1 s2 =
    let rest = strcmp f m (s1 + 1) (s2 + 1) in
    if m s1 == 0
    then if m s2 == 0 then some (pos 0) else some (negsuc 0)
    else if m s2 == 0
    then some (pos 1)
    else if m s1 == m s2
    then rest
    else some (signed8 (m s1) -ℤ signed8 (m s2))

unfoldable pub strcpy_loop : ℕ → Mem → (d s : ℕ) → Option Mem
strcpy_loop zero m d s = none
strcpy_loop (suc f) m d s =
    let m' = poke m d (m s) in
    let rest = strcpy_loop f m' (d + 1) (s + 1) in if m s == 0 then some m' else rest

unfoldable pub strcpy : ℕ → Mem → (s1 s2 : ℕ) → Option (Mem × ℕ)
unfolding strcpy_loop
strcpy f m s1 s2 = do m' ← strcpy_loop f m s1 s2; some (m', s1)

-- `s[i]` for i = 0, 1, …
strlen_loop : ℕ → Mem → (s i : ℕ) → Option ℕ
strlen_loop zero m s i = none
strlen_loop (suc f) m s i =
    let rest = strlen_loop f m s (i + 1) in if m (s + i) == 0 then some i else rest

unfoldable pub strlen : ℕ → Mem → ℕ → Option ℕ
unfolding strlen_loop
strlen f m s = strlen_loop f m s 0

strncmp_loop : Mem → (p1 p2 n : ℕ) → ℤ → ℤ
strncmp_loop m p1 p2 zero result = result
strncmp_loop m p1 p2 (suc n) result =
    let r = sub_ℕ (m p1) (m p2) in
    let rest = strncmp_loop m (p1 + 1) (p2 + 1) n r in
    if is_zero r then (if m p1 == 0 then r else rest) else r

unfoldable pub strncmp : Mem → (s1 s2 n : ℕ) → ℤ
unfolding strncmp_loop
strncmp m s1 s2 n = if s1 == s2 then pos 0 else strncmp_loop m s1 s2 n (pos 0)

unfoldable pub strnlen : Mem → (s maxlen : ℕ) → ℕ
unfolding memchr
strnlen m s maxlen = elim (memchr m s 0 maxlen) [ none ↦ maxlen | some p ↦ p - s ]

unfoldable pub strncpy : Mem → (s1 s2 n : ℕ) → Mem × ℕ
unfolding strnlen memset memcpy
strncpy m s1 s2 n =
    let size = strnlen m s2 n in
    let m' = if size == n then m else (memset m (s1 + size) 0 (n - size)).0 in memcpy m' s1 s2 size

strrchr_loop : ℕ → Mem → (s c : ℕ) → Option ℕ → Option (Option ℕ)
strrchr_loop zero m s c ret = none
strrchr_loop (suc f) m s c ret =
    let ret' = if m s == c % 256 then some s else ret in
    let rest = strrchr_loop f m (s + 1) c ret' in if m s == 0 then some ret' else rest

unfoldable pub strrchr : ℕ → Mem → (s c : ℕ) → Option (Option ℕ)
unfolding strrchr_loop
strrchr f m s c = strrchr_loop f m s c none

-- `while (*s1) s1++;`
unfoldable pub seek_end : ℕ → Mem → ℕ → Option ℕ
seek_end zero m s = none
seek_end (suc f) m s = let rest = seek_end f m (s + 1) in if m s == 0 then some s else rest

unfoldable pub strncat_loop : Mem → (d s n : ℕ) → Mem
strncat_loop m d s zero = m
strncat_loop m d s (suc n) =
    let m1 = poke m d (m s) in
    let m2 = if n == 0 then poke m1 (d + 1) 0 else m1 in
    let rest = strncat_loop m2 (d + 1) (s + 1) n in if m s == 0 then m1 else rest

unfoldable pub strncat : ℕ → Mem → (s1 s2 n : ℕ) → Option (Mem × ℕ)
unfolding seek_end strncat_loop
strncat f m s1 s2 n = do d ← seek_end f m s1; some (strncat_loop m d s2 n, s1)

unfoldable pub strcat : ℕ → Mem → (s1 s2 : ℕ) → Option (Mem × ℕ)
unfolding seek_end strcpy_loop
strcat f m s1 s2 = do d ← seek_end f m s1; m' ← strcpy_loop f m d s2; some (m', s1)

-- strings.c
lower : Mem → ℕ → ℤ
unfolding tolower
lower m p = tolower (pos (m p))

strcasecmp_loop : ℕ → Mem → (p1 p2 : ℕ) → Option ℤ
unfolding lower ◌-ℤ◌
strcasecmp_loop zero m p1 p2 = none
strcasecmp_loop (suc f) m p1 p2 =
    let result = lower m p1 -ℤ lower m p2 in
    let rest = strcasecmp_loop f m (p1 + 1) (p2 + 1) in
    if is_zero result then (if m p1 == 0 then some result else rest) else some result

unfoldable pub strcasecmp : ℕ → Mem → (s1 s2 : ℕ) → Option ℤ
unfolding strcasecmp_loop
strcasecmp f m s1 s2 = if s1 == s2 then some (pos 0) else strcasecmp_loop f m s1 s2

strncasecmp_loop : Mem → (p1 p2 n : ℕ) → ℤ → ℤ
unfolding lower ◌-ℤ◌
strncasecmp_loop m p1 p2 zero result = result
strncasecmp_loop m p1 p2 (suc n) result =
    let r = lower m p1 -ℤ lower m p2 in
    let rest = strncasecmp_loop m (p1 + 1) (p2 + 1) n r in
    if is_zero r then (if m p1 == 0 then r else rest) else r

unfoldable pub strncasecmp : Mem → (s1 s2 n : ℕ) → ℤ
unfolding strncasecmp_loop
strncasecmp m s1 s2 n = if s1 == s2 then pos 0 else strncasecmp_loop m s1 s2 n (pos 0)
