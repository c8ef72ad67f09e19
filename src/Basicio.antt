-- ===== src/Basicio.antt =====
-- basicio.c, fgets.c and putchar.c: line input with editing, and small output routines on top of the
-- firmware. What mcInputchar returns is a list of characters; a routine that waits for more than it has
-- is `none`. What goes to mcPrint and mcPrintln is a list of calls.
pub mod Readline
pub mod Print
use rosco_cli.Prelude.{
  ℕ, zero, suc, ◌+◌, ◌-◌, ◌/◌, ◌%◌, ◌^◌, List, [], ◌∷◌, ◌++◌, Option, none, some, ◌==◌, ltb,
  if◌then◌else◌, ◌>>=◌, ◌||◌, ◌&&◌, bit_and,
}
use rosco_cli.Memory.{Mem, poke}

-- mcPrint and mcPrintln of a text
pub data Call : Type 0 where
  print : List ℕ → Call
  println : List ℕ → Call

-- a text of one character, in a buffer of two
abbrev pub one_char : ℕ → List ℕ
one_char c = if c == 0 then [] else c ∷ []

abbrev pub backspace : List ℕ
backspace = 0x08 ∷ 0x20 ∷ 0x08 ∷ []

-- memory, the result, the calls, and the characters that are left
pub record Read : Type 0 where
  pub memory : Mem
  pub result : ℕ
  pub calls : List Call
  pub input : List ℕ

abbrev pub before : Call → Option Read → Option Read
before call none = none
before call (some r) =
    some (record { memory = r.memory; result = r.result; calls = call ∷ r.calls; input = r.input })

-- behind the loop
abbrev pub full : Mem → (buf buf_size : ℕ) → List ℕ → Option Read
full m buf buf_size input = some (record {
  memory = poke m (buf + buf_size - 1) 0;
  result = buf_size;
  calls = [];
  input = input;
})

-- the loop of readline; `i` is a byte
unfoldable pub readline_loop : Mem → (buf buf_size i : ℕ) → List ℕ → Option Read
readline_loop m buf buf_size i [] = if ltb (i + 1) buf_size then none else full m buf buf_size []
readline_loop m buf buf_size i (c ∷ input) =
    let m1 = poke m (buf + i) c in
    let erased = readline_loop (poke m1 (buf + i - 1) 0) buf buf_size (i - 1) input in
    let ignored = readline_loop m1 buf buf_size i input in
    let typed = readline_loop (poke m1 (buf + i) c) buf buf_size ((i + 1) % 256) input in
    if ltb (i + 1) buf_size
    then (if c == 0x08 || c == 0x7F
        then (if ltb 0 i then before (print backspace) erased else ignored)
        else if c == 0x0A
        then ignored
        else if c == 0x0D
        then some (record {
          memory = poke m1 (buf + i) 0;
          result = i;
          calls = println [] ∷ [];
          input = input;
        })
        else before (print (one_char c)) typed)
    else full m buf buf_size (c ∷ input)

unfoldable pub readline : Mem → (buf buf_size : ℕ) → List ℕ → Option Read
readline m buf buf_size input = readline_loop m buf buf_size 0 input

-- fgets returns `buf`; the stream is ignored
unfoldable pub fgets : Mem → (buf n : ℕ) → List ℕ → Option Read
fgets m buf n input = do
  r ← readline m buf n input
  let len = r.result
  let m' =
      if ltb 0 len && ltb (len + 1) n
      then poke (poke r.memory (buf + len) b'\n') (buf + len + 1) 0
      else r.memory
  some (record { memory = m'; result = buf; calls = r.calls; input = r.input })

-- _putchar of printf
unfoldable pub putchar : ℕ → List Call
putchar chr =
    let out = print (one_char chr) ∷ [] in if chr == b'\n' then print (b'\r' ∷ []) ∷ out else out

-- the switch of print_digit
unfoldable pub digit_text : ℕ → ℕ
digit_text d = if ltb d 10 then b'0' + d else b'A' + (d - 10)

unfoldable pub print_digit : ℕ → Call
print_digit digit = print (digit_text (bit_and digit 0xF) ∷ [])

unfoldable pub printuint : ℕ → List Call
printuint num =
    print_digit (bit_and num 0xF000_0000 / 2 ^ 28)
    ∷ print_digit (bit_and num 0xF00_0000 / 2 ^ 24)
    ∷ print_digit (bit_and num 0xF0_0000 / 2 ^ 20)
    ∷ print_digit (bit_and num 0xF_0000 / 2 ^ 16)
    ∷ print_digit (bit_and num 0xF000 / 2 ^ 12)
    ∷ print_digit (bit_and num 0xF00 / 2 ^ 8)
    ∷ print_digit (bit_and num 0xF0 / 2 ^ 4)
    ∷ print_digit (bit_and num 0xF)
    ∷ []

unfoldable pub printushort : ℕ → List Call
printushort num =
    print_digit (bit_and num 0xF000 / 2 ^ 12)
    ∷ print_digit (bit_and num 0xF00 / 2 ^ 8)
    ∷ print_digit (bit_and num 0xF0 / 2 ^ 4)
    ∷ print_digit (bit_and num 0xF)
    ∷ []

unfoldable pub printuchar : ℕ → List Call
printuchar num = print_digit (bit_and num 0xF0 / 2 ^ 4) ∷ print_digit (bit_and num 0xF) ∷ []
