-- ===== src/Ihex.antt =====
-- src/ihex.rs: Intel HEX records for a program, and sending them to the monitor of a board.
pub mod Loader
pub mod Records
pub mod Console
pub mod Answers
pub mod Delivery
pub mod Program
pub mod Hearing
pub mod Typing
pub mod Starting
pub mod Chunks
pub mod Words
pub mod Willing
use rosco_cli.Prelude.{
  ℕ, zero, suc, ◌+◌, ◌-◌, ◌*◌, ◌/◌, ◌%◌, Bool, true, false, ◌||◌, Option, none, some, ◌==◌, ltb,
  if◌then◌else◌, List, [], ◌∷◌, ◌++◌, length, take, drop,
}

abbrev pub record_length : ℕ
record_length = 16

-- `{:02X}` and `{:04X}`
unfoldable pub hex_digit : ℕ → ℕ
hex_digit d = if ltb d 10 then 0x30 + d else 0x37 + d

unfoldable pub hex2 : ℕ → List ℕ
hex2 v = hex_digit (v / 16) ∷ hex_digit (v % 16) ∷ []

unfoldable pub hex4 : ℕ → List ℕ
hex4 v =
    hex_digit (v / 4096)
    ∷ hex_digit (v / 256 % 16)
    ∷ hex_digit (v / 16 % 16)
    ∷ hex_digit (v % 16)
    ∷ []

-- `for byte in data`
unfoldable pub push_bytes : (line : List ℕ) → List ℕ → List ℕ
push_bytes line [] = line
push_bytes line (b ∷ bs) = push_bytes (line ++ hex2 b) bs

-- `fold(0_u8, u8::wrapping_add)`
unfoldable pub fold_u8 : (sum : ℕ) → List ℕ → ℕ
fold_u8 sum [] = sum
fold_u8 sum (b ∷ bs) = fold_u8 ((sum + b) % 256) bs

unfoldable pub checksum : (address kind : ℕ) → List ℕ → ℕ
checksum address kind bytes =
    ((((length bytes % 256 + address / 256 % 256) % 256 + address % 256) % 256 + kind) % 256
      + fold_u8 0 bytes)
    % 256

-- The data has 255 bytes at most.
unfoldable pub record_line : (address kind : ℕ) → List ℕ → List ℕ
record_line address kind bytes =
    let line = 0x3A ∷ hex2 (length bytes) ++ hex4 address ++ hex2 kind in
    push_bytes line bytes ++ hex2 ((256 - checksum address kind bytes) % 256)

unfoldable pub end_of_file : List ℕ
end_of_file = record_line 0 1 []

-- `chunks(RECORD_LENGTH)`, on fuel: the number of bytes is enough
unfoldable pub chunks : (f : ℕ) → List ℕ → List (List ℕ)
chunks f [] = []
chunks zero (b ∷ bs) = []
chunks (suc f) (b ∷ bs) = take record_length (b ∷ bs) ∷ chunks f (drop record_length (b ∷ bs))

-- `enumerate().map(..)`
unfoldable pub records_from : (load_address index : ℕ) → List (List ℕ) → List (List ℕ)
records_from load_address index [] = []
records_from load_address index (chunk ∷ more) =
    record_line ((load_address + index * record_length % 0x1_0000) % 0x1_0000) 0 chunk
    ∷ records_from load_address (index + 1) more

-- `none` is the error that the program does not fit in memory
unfoldable pub records : List ℕ → (load_address : ℕ) → Option (List (List ℕ))
records bytes load_address =
    if ltb 0x1_0000 (load_address + length bytes)
    then none
    else some (records_from load_address 0 (chunks (length bytes) bytes))
