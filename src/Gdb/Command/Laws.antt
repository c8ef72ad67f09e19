-- ===== src/Gdb/Command/Laws.antt =====
-- m68k-stub.c: the commands `m` and `M`, on every branch.
use rosco_cli.Prelude.{
  [], take, length-take, subst, ℕ, zero, suc, ◌+◌, ◌%◌, ◌<◌, ◌≤◌, ◌≡◌, ◌≢◌, refl, List, ◌∷◌, ◌++◌,
  arith, length, Bool, false, Option, none, some, ◌==◌, if◌then◌else◌, Bool-cases, inl, inr, ◌∙◌,
  ap, All, u32_mod, negsuc, codes, sym, ==_refl,
}
use rosco_cli.Memory.{
  Mem, IsStr, Holds, IsStr-Holds, IsStr-split, IsStr-end, SameOutside, store, store-IsStr,
}
use rosco_cli.Cstdlib.Stdlib.Digits.{from_digits}
use rosco_cli.Gdb.Hex.{hex, hex_to_int, hex2mem}
use rosco_cli.Gdb.Hex.Laws.{
  SpellsHex, hex_to_int-from_digits, hex_text, mem2hex-text, hex2mem-Holds, hex2mem-frame,
}
use rosco_cli.Gdb.Packet.{bufmax}
use rosco_cli.Gdb.State.{Stub, catch_exception, handle_buserror, exception_handler}
use rosco_cli.Gdb.Command.{
  rounds, reachable, parse_range, read_memory, write_memory, read_range, write_range,
}

read_range-vectors :
    (faults : ℕ → Bool) (range : Option (ℕ × ℕ × ℕ)) (s : Stub) (v : ℕ)
    → v ≢ 2
    → (read_range faults range s).vectors v ≡ s.vectors v
unfolding read_range exception_handler
read_range-vectors faults none s v h = refl
read_range-vectors faults (some (addr, len, end)) s v h = ground arith

write_range-vectors :
    (faults : ℕ → Bool) (range : Option (ℕ × ℕ × ℕ)) (s : Stub) (v : ℕ)
    → v ≢ 2
    → (write_range faults range s).vectors v ≡ s.vectors v
unfolding write_range exception_handler
write_range-vectors faults none s v h = refl
write_range-vectors faults (some (addr, len, end)) s v h = ground arith

-- The commands `m` and `M` leave the bus error vector at the stub's own handler, whatever was asked for and whether or not an access failed, and touch no other vector.
pub bus_vector_restored :
    (faults : ℕ → Bool) (ptr : ℕ) (s : Stub) (v : ℕ)
    → ((read_memory faults ptr s).vectors v ≡ (if v == 2 then catch_exception else s.vectors v))
      × ((write_memory faults ptr s).vectors v ≡ (if v == 2 then catch_exception else s.vectors v))
unfolding read_memory write_memory exception_handler
bus_vector_restored faults ptr s v =
    let armed = exception_handler 2 handle_buserror s in
    let range = parse_range s.in_buffer ptr in
    (
      ground (arith, read_range-vectors faults range armed v),
      ground (arith, write_range-vectors faults range armed v),
    )

-- `cs` is a number in hex with the value `v`, of fewer digits than a packet holds.
pub record IsHex (cs : List ℕ) (v : ℕ) : Type 0 where
  pub digits : List ℕ
  pub spelled : SpellsHex cs digits
  pub some_digit : 0 < length cs
  pub short : length cs < bufmax
  pub value : from_digits 16 0 digits % u32_mod ≡ v

hex_to_int-IsHex :
    (m : Mem) (p : ℕ) (cs : List ℕ) (v : ℕ)
    → IsHex cs v
    → Holds m p cs
    → hex (m (p + length cs)) ≡ negsuc 0
    → hex_to_int bufmax m p
      ≡ some (record { num_chars = length cs; value = v; ptr = p + length cs })
hex_to_int-IsHex m p cs v n h st =
    hex_to_int-from_digits bufmax m p cs n.digits h n.spelled st n.short
    ∙ ap (λ k. some (record { num_chars = length cs; value = k; ptr = p + length cs })) n.value

hex-stops : (hex 0 ≡ negsuc 0) × (hex b',' ≡ negsuc 0) × (hex b':' ≡ negsuc 0)
unfolding hex
hex-stops = (refl, refl, refl)

-- The text `acs,ncs` at `ptr`, followed by a byte that is no hex digit, is read as its two numbers.
parse_range-IsHex :
    (m : Mem) (ptr : ℕ) (acs ncs : List ℕ) (addr n : ℕ)
    → IsHex acs addr
    → IsHex ncs n
    → Holds m ptr acs
    → m (ptr + length acs) ≡ b','
    → Holds m (ptr + length acs + 1) ncs
    → hex (m (ptr + length acs + 1 + length ncs)) ≡ negsuc 0
    → parse_range m ptr ≡ some (addr, n, ptr + length acs + 1 + length ncs)
unfolding parse_range
parse_range-IsHex m ptr acs ncs addr n a b ha comma hn st =
    let first = hex_to_int-IsHex m ptr acs addr a ha (rw comma (hex-stops.1)) in
    let second = hex_to_int-IsHex m (ptr + length acs + 1) ncs n b hn st in
    rw first (ground (arith, a.some_digit, b.some_digit, second))

all_reachable :
    (faults : ℕ → Bool) (addr n : ℕ)
    → ((x : ℕ) → addr ≤ x → x < addr + n → faults x ≡ false)
    → reachable faults addr n ≡ n
unfolding reachable
all_reachable faults addr zero ok = refl
all_reachable faults addr (suc n) ok = ground (
  arith,
  ok addr,
  all_reachable faults (addr + 1) n (λ x lo hi. ok x (omega arith) (omega arith)),
)

-- `m` with an address and a length, both in hex, answers with the bytes there in hex and changes nothing in memory, if no byte there faults and the length is below 2^31.
pub read_memory-hex_text :
    (faults : ℕ → Bool) (ptr : ℕ) (s : Stub) (acs ncs bs : List ℕ) (addr n : ℕ)
    → IsStr s.in_buffer ptr (acs ++ b',' ∷ ncs)
    → IsHex acs addr
    → IsHex ncs n
    → n < 0x8000_0000
    → length bs ≡ n
    → Holds s.memory addr bs
    → ((x : ℕ) → addr ≤ x → x < addr + n → faults x ≡ false)
    → IsStr (read_memory faults ptr s).out_buffer 0 (hex_text bs)
      × ((read_memory faults ptr s).memory ≡ s.memory)
unfolding read_memory read_range exception_handler
read_memory-hex_text faults ptr s acs ncs bs addr n text a b small count held ok =
    let (ha, (comma, _, hn)) = IsStr-split s.in_buffer ptr acs (b',' ∷ ncs) text in
    let end = IsStr-end s.in_buffer (ptr + length acs + 1) ncs hn in
    let parsed =
      parse_range-IsHex s.in_buffer ptr acs ncs addr n a b ha comma
        (IsStr-Holds s.in_buffer (ptr + length acs + 1) ncs hn) (rw end (hex-stops.0)) in
    let reach = all_reachable faults addr n ok in
    let whole : rounds n ≡ n = ground arith in
    let (answer, _, _) = mem2hex-text s.memory addr s.out_buffer 0 bs held in
    rw (parsed, whole, reach, sym count, ==_refl) (answer, refl)

reachable-le : (faults : ℕ → Bool) (addr n : ℕ) → reachable faults addr n ≤ n
unfolding reachable
reachable-le faults addr zero = omega arith
reachable-le faults addr (suc n) = ground (arith, reachable-le faults (addr + 1) n)

ok-IsStr : (m : Mem) → IsStr (store m 0 (codes "OK")) 0 (codes "OK")
ok-IsStr m = store-IsStr m 0 (codes "OK") (omega arith)

e03-IsStr : (m : Mem) → IsStr (store m 0 (codes "E03")) 0 (codes "E03")
e03-IsStr m = store-IsStr m 0 (codes "E03") (omega arith)

-- What `M` leaves: its answer, the bytes before the first fault in place, and no other byte changed.
pub record WriteResult (faults : ℕ → Bool) (s s' : Stub) (addr : ℕ) (bs : List ℕ) : Type 0 where
  pub answer :
      IsStr s'.out_buffer 0
        (if reachable faults addr (length bs) == length bs then codes "OK" else codes "E03")
  pub written : Holds s'.memory addr (take (reachable faults addr (length bs)) bs)
  pub frame : SameOutside s.memory s'.memory addr (reachable faults addr (length bs))

take-hex_text :
    (m : Mem) (p k : ℕ) (bs : List ℕ) → Holds m p (hex_text bs) → Holds m p (hex_text (take k bs))
take-hex_text m p zero bs h = tt
take-hex_text m p (suc k) [] h = tt
take-hex_text m p (suc k) (b ∷ bs) (e, (e', h)) = (e, (e', take-hex_text m (p + 1 + 1) k bs h))

All-take : (k : ℕ) (bs : List ℕ) → All (λ b. b < 256) bs → All (λ b. b < 256) (take k bs)
All-take zero bs h = tt
All-take (suc k) [] h = tt
All-take (suc k) (b ∷ bs) (hb, h) = (hb, All-take k bs h)

-- the bytes before the first fault
hex2mem-prefix :
    (src : Mem) (buf : ℕ) (dst : Mem) (mem k : ℕ) (bs : List ℕ)
    → Holds src buf (hex_text bs)
    → All (λ b. b < 256) bs
    → k ≤ length bs
    → Holds (hex2mem src buf dst mem k).0 mem (take k bs)
hex2mem-prefix src buf dst mem k bs h small le =
    let e : length (take k bs) ≡ k = omega (arith, length-take k bs) in
    subst (λ n. Holds (hex2mem src buf dst mem n).0 mem (take k bs)) e
      (hex2mem-Holds src buf dst mem (take k bs) (take-hex_text src buf k bs h)
        (All-take k bs small))

write_range_lem :
    (faults : ℕ → Bool) (s : Stub) (addr end : ℕ) (bs : List ℕ)
    → s.in_buffer end ≡ b':'
    → Holds s.in_buffer (end + 1) (hex_text bs)
    → All (λ b. b < 256) bs
    → length bs < 0x8000_0000
    → WriteResult faults s (write_range faults (some (addr, length bs, end)) s) addr bs
unfolding write_range exception_handler
write_range_lem faults s addr end bs colon text bytes small =
    let n = length bs in
    let k = reachable faults addr n in
    let whole : rounds n ≡ n = ground arith in
    let held =
      hex2mem-prefix s.in_buffer (end + 1) s.memory addr k bs text bytes
        (reachable-le faults addr n) in
    let same = hex2mem-frame s.in_buffer (end + 1) s.memory addr k in
    elim (Bool-cases (k == n)) [
      | inl all ↦
          rw (colon, whole, all)
            (record { answer = rw all (ok-IsStr s.out_buffer); written = held; frame = same })
      | inr part ↦
          rw (colon, whole, part)
            (record { answer = rw part (e03-IsStr s.out_buffer); written = held; frame = same })
    ]

-- `M` with an address, a length and that many bytes in hex writes the bytes before the first one that faults and changes no other, and answers OK if none faults and E03 otherwise. The length is below 2^31.
pub write_memory-WriteResult :
    (faults : ℕ → Bool) (ptr : ℕ) (s : Stub) (acs ncs bs : List ℕ) (addr : ℕ)
    → IsStr s.in_buffer ptr (acs ++ b',' ∷ (ncs ++ b':' ∷ hex_text bs))
    → IsHex acs addr
    → IsHex ncs (length bs)
    → All (λ b. b < 256) bs
    → length bs < 0x8000_0000
    → WriteResult faults s (write_memory faults ptr s) addr bs
unfolding write_memory exception_handler
write_memory-WriteResult faults ptr s acs ncs bs addr text a b bytes small =
    let (ha, (comma, _, rest)) =
      IsStr-split s.in_buffer ptr acs (b',' ∷ (ncs ++ b':' ∷ hex_text bs)) text in
    let (hn, (colon, _, body)) =
      IsStr-split s.in_buffer (ptr + length acs + 1) ncs (b':' ∷ hex_text bs) rest in
    let end = ptr + length acs + 1 + length ncs in
    let parsed =
      parse_range-IsHex s.in_buffer ptr acs ncs addr (length bs) a b ha comma hn
        (rw colon (hex-stops.2)) in
    let armed = exception_handler 2 handle_buserror s in
    let r =
      write_range_lem faults armed addr end bs colon
        (IsStr-Holds s.in_buffer (end + 1) (hex_text bs) body) bytes small in
    rw parsed (record { answer = r.answer; written = r.written; frame = r.frame })
