-- ===== src/Flash/Laws.antt =====
-- sst.c: the bus cycles of each operation, and when it is over.
use rosco_cli.Prelude.{
  ℕ, ◌+◌, ◌*◌, ◌%◌, ◌^◌, ◌<◌, ◌≡◌, ◌≢◌, List, [], ◌∷◌, ◌++◌, true, some, bit_and, bit_or,
  bit_or-fields, arith, u32_mod, ◌∙◌,
}
use rosco_cli.Flash.{
  Bus, write, read, wait_loop, wait, unlock, sst_command, command_code, sst_sector_erase,
  sst_chip_erase, sst_write_byte, sst_get_device_info,
}

-- the toggle bit
abbrev pub toggle : ℕ → ℕ
toggle v = bit_and v 0x40

-- The toggle bit changes with every answer, `last` before the first.
abbrev pub Toggling : ℕ → List ℕ → Type 0
Toggling last [] = Unit
Toggling last (v ∷ vs) = (toggle v ≢ last) × Toggling (toggle v) vs

abbrev pub last_toggle : ℕ → List ℕ → ℕ
last_toggle last [] = last
last_toggle last (v ∷ vs) = last_toggle (toggle v) vs

wait_loop-settles :
    (last : ℕ) (vs : List ℕ) (v : ℕ) (rest : List ℕ)
    → Toggling last vs
    → toggle v ≡ last_toggle last vs
    → wait_loop last (vs ++ v ∷ rest) ≡ some rest
unfolding wait_loop
wait_loop-settles last [] v rest h e = ground arith
wait_loop-settles last (w ∷ vs) v rest (ne, h) e =
    ground (arith, wait_loop-settles (toggle w) vs v rest h e)

-- The answers of a chip that is busy for a while: one, those that toggle, and one that does not.
abbrev pub Settles : List ℕ → List ℕ → Type 0
Settles answers rest =
    (v0 : ℕ) × (vs : List ℕ) × (v : ℕ) × (answers ≡ v0 ∷ (vs ++ v ∷ rest))
    × Toggling (toggle v0) vs
    × (toggle v ≡ last_toggle (toggle v0) vs)

wait-Settles :
    (bus : Bus) (rest : List ℕ)
    → Settles bus.reads rest
    → wait bus ≡ some (record bus { reads = rest })
unfolding wait read
wait-Settles bus rest (v0, vs, v, e, h, same) =
    rw (e, wait_loop-settles (toggle v0) vs v rest h same)

-- The cycles on the bus for cycles of the chip, whose address lines start at the second line of the bus.
abbrev pub cycles : (base : ℕ) → List (ℕ × ℕ) → List (ℕ × ℕ) → List (ℕ × ℕ)
cycles base [] old = old
cycles base ((a, d) ∷ more) old = cycles base more ((base + a * 2, d) ∷ old)

-- the command sequences of the chip
abbrev pub program_cycles : (a d : ℕ) → List (ℕ × ℕ)
program_cycles a d = (0x5555, 0xAA) ∷ (0x2AAA, 0x55) ∷ (0x5555, 0xA0) ∷ (a, d) ∷ []

abbrev pub erase_cycles : (a code : ℕ) → List (ℕ × ℕ)
erase_cycles a code =
    (0x5555, 0xAA)
    ∷ (0x2AAA, 0x55)
    ∷ (0x5555, 0x80)
    ∷ (0x5555, 0xAA)
    ∷ (0x2AAA, 0x55)
    ∷ (a, code)
    ∷ []

abbrev pub identify_cycles : List (ℕ × ℕ)
identify_cycles = (0x5555, 0xAA) ∷ (0x2AAA, 0x55) ∷ (0x5555, 0x90) ∷ []

abbrev pub leave_cycles : List (ℕ × ℕ)
leave_cycles = (0x5555, 0xAA) ∷ (0x2AAA, 0x55) ∷ (0x5555, 0xF0) ∷ []

module _ (q : ℕ) (bus : Bus) where
  -- With the chip at a multiple of 2 to the 20th, each operation sends the chip's command sequence and ends with the first answer whose toggle bit is that of the answer before. Programming takes a byte address of the chip and a sector erase the number of a sector of 0x1000 bytes.
  pub sst_operations-cycles :
      (a d : ℕ) (sector : ℕ) (rest : List ℕ)
      → a < 2 ^ 19
      → sector < 2 ^ 7
      → Settles bus.reads rest
      → (sst_write_byte (q * 2 ^ 20) a d bus
          ≡ some (
            record { writes = cycles (q * 2 ^ 20) (program_cycles a d) bus.writes; reads = rest },
            true,
          ))
        × (sst_sector_erase (q * 2 ^ 20) sector bus
            ≡ some (
              record {
                writes = cycles (q * 2 ^ 20) (erase_cycles (sector * 0x1000) 0x30) bus.writes;
                reads = rest;
              },
              true,
            ))
        × (sst_chip_erase (q * 2 ^ 20) bus
            ≡ some (
              record {
                writes = cycles (q * 2 ^ 20) (erase_cycles 0x5555 0x10) bus.writes;
                reads = rest;
              },
              true,
            ))
  unfolding sst_write_byte sst_sector_erase sst_chip_erase sst_command unlock write command_code
  sst_operations-cycles a d sector rest ha hs settles =
      let base = q * 2 ^ 20 in
      let a1 = bit_or-fields 20 q (0x5555 * 2) (omega arith) in
      let a2 = bit_or-fields 20 q (0x2AAA * 2) (omega arith) in
      let small : a * 2 % u32_mod ≡ a * 2 = omega arith in
      let data_addr : bit_or base (a * 2 % u32_mod) ≡ base + a * 2 =
        rw small (bit_or-fields 20 q (a * 2) (omega arith)) in
      let sector_addr : bit_or base (sector * 2 ^ 13) ≡ base + sector * 0x1000 * 2 =
        bit_or-fields 20 q (sector * 2 ^ 13) (omega arith) ∙ omega arith in
      let w = λ (ws : List (ℕ × ℕ)).
        wait-Settles (record { writes = ws; reads = bus.reads }) rest settles in
      (rw (a1, a2, data_addr, w), rw (a1, a2, sector_addr, w), rw (a1, a2, w))

  -- The identification enters the chip's identification mode, takes two answers as manufacturer and device without waiting, and leaves the mode.
  pub sst_get_device_info-cycles :
      (manufacturer device : ℕ) (rest : List ℕ)
      → bus.reads ≡ manufacturer ∷ device ∷ rest
      → sst_get_device_info (q * 2 ^ 20) bus
        ≡ some (
          record {
            writes =
                cycles (q * 2 ^ 20) leave_cycles (cycles (q * 2 ^ 20) identify_cycles bus.writes);
            reads = rest;
          },
          record { manufacturer = manufacturer; device = device },
        )
  unfolding sst_get_device_info sst_command unlock write command_code read
  sst_get_device_info-cycles manufacturer device rest e =
      let a1 = bit_or-fields 20 q (0x5555 * 2) (omega arith) in
      let a2 = bit_or-fields 20 q (0x2AAA * 2) (omega arith) in rw (a1, a2, e)
