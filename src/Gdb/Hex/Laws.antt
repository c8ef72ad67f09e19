-- ===== src/Gdb/Hex/Laws.antt =====
-- m68k-stub.c: bytes written in hex are read back, and hexToInt reads a numeral modulo 2^32.
use rosco_cli.Prelude.{
  ℕ, zero, suc, ◌+◌, ◌*◌, ◌/◌, ◌%◌, ◌<◌, ◌≡◌, ◌≢◌, refl, List, [], ◌∷◌, arith, length, some, pos,
  negsuc, u32_mod, ◌∙◌, ap, All, ap₂,
}
use rosco_cli.Memory.{Mem, poke, Holds, SameOutside, poke_self, poke_ne, IsStr, IsStr-Holds}
use rosco_cli.Gdb.Hex.{hexchar, hex, hex_byte, mem2hex, hex2mem, hex_to_int_loop, hex_to_int}
use rosco_cli.Cstdlib.Stdlib.Digits.{from_digits}

pub hex-hexchar : (d : ℕ) → d < 16 → hex (hexchar d) ≡ pos d
unfolding hex hexchar
hex-hexchar d h = ground arith

pub hex_byte-hexchar : (c : ℕ) → c < 256 → hex_byte (hexchar (c / 16)) (hexchar (c % 16)) ≡ c
unfolding hex_byte
hex_byte-hexchar c h =
    rw (hex-hexchar (c / 16) (omega arith), hex-hexchar (c % 16) (omega arith)) (omega arith)

pub mem2hex-frame :
    (src : Mem) (mem : ℕ) (dst : Mem) (buf n : ℕ)
    → SameOutside dst (mem2hex src mem dst buf n).0 buf (2 * n + 1)
unfolding mem2hex poke
mem2hex-frame src mem dst buf zero x out = ground arith
mem2hex-frame src mem dst buf (suc n) x out =
    let ch = src mem in
    ground (
      arith,
      mem2hex-frame src (mem + 1)
          (poke (poke dst buf (hexchar (ch / 16))) (buf + 1) (hexchar (ch % 16))) (buf + 2) n x,
    )

-- two lower-case hex digits for each byte
abbrev pub hex_text : List ℕ → List ℕ
hex_text [] = []
hex_text (b ∷ bs) = hexchar (b / 16) ∷ hexchar (b % 16) ∷ hex_text bs

pub hexchar-ne_null : (d : ℕ) → hexchar d ≢ 0
unfolding hexchar
hexchar-ne_null d = ground arith

-- mem2hex leaves the hex digits of the bytes as text, returns its end, and changes nothing else in the buffer.
pub mem2hex-text :
    (src : Mem) (mem : ℕ) (dst : Mem) (buf : ℕ) (bs : List ℕ)
    → Holds src mem bs
    → IsStr (mem2hex src mem dst buf (length bs)).0 buf (hex_text bs)
      × ((mem2hex src mem dst buf (length bs)).1 ≡ buf + 2 * length bs)
      × SameOutside dst (mem2hex src mem dst buf (length bs)).0 buf (2 * length bs + 1)
unfolding mem2hex
mem2hex-text src mem dst buf [] h =
    (poke_self dst buf 0, omega arith, mem2hex-frame src mem dst buf 0)
mem2hex-text src mem dst buf (b ∷ bs) (e, h) =
    let d1 = poke dst buf (hexchar (src mem / 16)) in
    let d2 = poke d1 (buf + 1) (hexchar (src mem % 16)) in
    let (text, end, frame) = mem2hex-text src (mem + 1) d2 (buf + 2) bs h in
    let second : buf + 1 + 1 ≡ buf + 2 = omega arith in
    (
      (
        frame buf (omega arith)
            ∙ poke_ne d1 (buf + 1) (hexchar (src mem % 16)) buf (omega arith)
            ∙ poke_self dst buf (hexchar (src mem / 16))
            ∙ ap (λ k. hexchar (k / 16)) e,
        hexchar-ne_null (b / 16),
        (
          frame (buf + 1) (omega arith)
              ∙ poke_self d1 (buf + 1) (hexchar (src mem % 16))
              ∙ ap (λ k. hexchar (k % 16)) e,
          hexchar-ne_null (b % 16),
          rw second text,
        ),
      ),
      omega arith,
      mem2hex-frame src mem dst buf (suc (length bs)),
    )

pub hex2mem-frame :
    (src : Mem) (buf : ℕ) (dst : Mem) (mem n : ℕ)
    → SameOutside dst (hex2mem src buf dst mem n).0 mem n
unfolding hex2mem poke
hex2mem-frame src buf dst mem zero x out = refl
hex2mem-frame src buf dst mem (suc n) x out = ground (
  arith,
  hex2mem-frame src (buf + 2) (poke dst mem (hex_byte (src buf) (src (buf + 1)))) (mem + 1) n x,
)

-- hex2mem turns the hex digits of bytes back into the bytes.
pub hex2mem-Holds :
    (src : Mem) (buf : ℕ) (dst : Mem) (mem : ℕ) (bs : List ℕ)
    → Holds src buf (hex_text bs)
    → All (λ b. b < 256) bs
    → Holds (hex2mem src buf dst mem (length bs)).0 mem bs
unfolding hex2mem
hex2mem-Holds src buf dst mem [] h small = tt
hex2mem-Holds src buf dst mem (b ∷ bs) (e, (e', h)) (hb, small) =
    let v = hex_byte (src buf) (src (buf + 1)) in
    let second : buf + 1 + 1 ≡ buf + 2 = omega arith in
    (
      hex2mem-frame src (buf + 2) (poke dst mem v) (mem + 1) (length bs) mem (omega arith)
          ∙ poke_self dst mem v
          ∙ ap₂ hex_byte e e'
          ∙ hex_byte-hexchar b hb,
      hex2mem-Holds src (buf + 2) (poke dst mem v) (mem + 1) bs (rw second at h) small,
    )

-- Bytes that mem2hex writes to a buffer are put back by hex2mem, wherever it is told to.
pub hex2mem-mem2hex :
    (src : Mem) (mem : ℕ) (dst : Mem) (buf : ℕ) (dst' : Mem) (mem' : ℕ) (bs : List ℕ)
    → Holds src mem bs
    → All (λ b. b < 256) bs
    → Holds (hex2mem (mem2hex src mem dst buf (length bs)).0 buf dst' mem' (length bs)).0 mem' bs
hex2mem-mem2hex src mem dst buf dst' mem' bs h small =
    let (text, end, frame) = mem2hex-text src mem dst buf bs h in
    hex2mem-Holds _ buf dst' mem' bs (IsStr-Holds _ buf (hex_text bs) text) small

-- The digits `cs` are hex digits with the values `ds`.
abbrev pub SpellsHex : List ℕ → List ℕ → Type 0
SpellsHex [] [] = Unit
SpellsHex [] (d ∷ ds) = ⊥
SpellsHex (c ∷ cs) [] = ⊥
SpellsHex (c ∷ cs) (d ∷ ds) = (hex c ≡ pos d) × SpellsHex cs ds

pub hex-lt : (c d : ℕ) → hex c ≡ pos d → (d < 16) × (c ≢ 0)
unfolding hex
hex-lt c d h = (ground arith, ground arith)

from_digits-mod :
    (v w : ℕ) (ds : List ℕ)
    → v % u32_mod ≡ w % u32_mod
    → from_digits 16 v ds % u32_mod ≡ from_digits 16 w ds % u32_mod
from_digits-mod v w [] h = h
from_digits-mod v w (d ∷ ds) h = from_digits-mod (v * 16 + d) (w * 16 + d) ds (omega arith)

hex_to_int_loop-digits :
    (f : ℕ) (m : Mem) (p n v : ℕ) (cs ds : List ℕ)
    → Holds m p cs
    → SpellsHex cs ds
    → hex (m (p + length cs)) ≡ negsuc 0
    → length cs < f
    → v < u32_mod
    → hex_to_int_loop f m p n v
      ≡ some (record {
        num_chars = n + length cs;
        value = from_digits 16 v ds % u32_mod;
        ptr = p + length cs;
      })
unfolding hex_to_int_loop
hex_to_int_loop-digits zero m p n v cs ds h sp st lt hv = absurd (omega arith)
hex_to_int_loop-digits (suc f) m p n v [] [] h sp st lt hv = ground arith
hex_to_int_loop-digits (suc f) m p n v [] (d ∷ ds) h sp st lt hv = elim sp [ ]
hex_to_int_loop-digits (suc f) m p n v (c ∷ cs) [] h sp st lt hv = elim sp [ ]
hex_to_int_loop-digits (suc f) m p n v (c ∷ cs) (d ∷ ds) (e, h) (hd, sp) st lt hv =
    let (small, ne) = hex-lt c d hd in
    let v' = v * 16 % u32_mod + d in
    let st' : hex (m (p + 1 + length cs)) ≡ negsuc 0 = ground arith in
    let ih =
      hex_to_int_loop-digits f m (p + 1) (n + 1) v' cs ds h sp st' (omega arith) (omega arith) in
    ground (arith, ih, from_digits-mod v' (v * 16 + d) ds (omega arith))

-- hexToInt takes the longest run of hex digits as a number modulo 2^32 and stops behind it; the fuel is above the number of digits.
pub hex_to_int-from_digits :
    (f : ℕ) (m : Mem) (p : ℕ) (cs ds : List ℕ)
    → Holds m p cs
    → SpellsHex cs ds
    → hex (m (p + length cs)) ≡ negsuc 0
    → length cs < f
    → hex_to_int f m p
      ≡ some (record {
        num_chars = length cs;
        value = from_digits 16 0 ds % u32_mod;
        ptr = p + length cs;
      })
unfolding hex_to_int
hex_to_int-from_digits f m p cs ds h sp st lt =
    hex_to_int_loop-digits f m p 0 0 cs ds h sp st lt (omega arith) ∙ ground arith
