-- ===== src/Flash.antt =====
-- sst.c: commands to the SST39SF0x0 flash chip. The chip is outside of this code: what is written to the
-- bus is recorded, the newest write first, and what the chip answers to reads is a list.
-- An operation that polls the chip for more answers than there are is `none`.
pub mod Laws
use rosco_cli.Prelude.{
  ℕ, zero, suc, ◌+◌, ◌*◌, ◌%◌, ◌^◌, List, [], ◌∷◌, ◌++◌, Bool, true, false, Option, none, some,
  ◌==◌, if◌then◌else◌, ◌>>=◌, bit_and, bit_or, codes, u32_mod,
}

pub record Bus : Type 0 where
  pub writes : List (ℕ × ℕ)
  pub reads : List ℕ

-- SST_COMMAND
pub data Command : Type 0 where
  byteprog erase identer idexit : Command

unfoldable pub command_code : Command → ℕ
command_code byteprog = 0xA0
command_code erase = 0x80
command_code identer = 0x90
command_code idexit = 0xF0

abbrev pub sst_unlock_a1 : ℕ
sst_unlock_a1 = 0x5555 * 2

abbrev pub sst_unlock_a2 : ℕ
sst_unlock_a2 = 0x2AAA * 2

unfoldable pub write : (addr data_byte : ℕ) → Bus → Bus
write addr data_byte bus = record bus { writes = (addr, data_byte) ∷ bus.writes }

-- one read, from whichever address: the next answer
unfoldable pub read : Bus → Option (ℕ × Bus)
read bus = elim bus.reads [ [] ↦ none | v ∷ vs ↦ some (v, record bus { reads = vs }) ]

unfoldable pub wait_loop : (last : ℕ) → List ℕ → Option (List ℕ)
wait_loop last [] = none
wait_loop last (v ∷ vs) =
    let this = bit_and v 0x40 in
    let rest = wait_loop this vs in if this == last then some vs else rest

unfoldable pub wait : Bus → Option Bus
wait bus = do
  (v, bus') ← read bus
  vs ← wait_loop (bit_and v 0x40) bus'.reads
  some (record bus' { reads = vs })

unfoldable pub unlock : ℕ → Bus → Bus
unlock rom_base bus =
    write (bit_or rom_base sst_unlock_a2) 0x55 (write (bit_or rom_base sst_unlock_a1) 0xAA bus)

-- the result is always true
unfoldable pub sst_command : ℕ → Command → Bus → Bus × Bool
sst_command rom_base command bus =
    (write (bit_or rom_base sst_unlock_a1) (command_code command) (unlock rom_base bus), true)

unfoldable pub sst_sector_erase : (rom_base sector : ℕ) → Bus → Option (Bus × Bool)
sst_sector_erase rom_base sector bus =
    let (bus1, ok) = sst_command rom_base erase bus in
    let rest = do
      bus2 ← wait (write (bit_or rom_base (sector * 2 ^ 13)) 0x30 (unlock rom_base bus1))
      some (bus2, true)
    in if ok then rest else some (bus1, false)

unfoldable pub sst_chip_erase : ℕ → Bus → Option (Bus × Bool)
sst_chip_erase rom_base bus =
    let (bus1, ok) = sst_command rom_base erase bus in
    let rest = do
      bus2 ← wait (write (bit_or rom_base sst_unlock_a1) 0x10 (unlock rom_base bus1))
      some (bus2, true)
    in if ok then rest else some (bus1, false)

unfoldable pub sst_write_byte : (rom_base byte_addr data_byte : ℕ) → Bus → Option (Bus × Bool)
sst_write_byte rom_base byte_addr data_byte bus =
    let (bus1, ok) = sst_command rom_base byteprog bus in
    let rest = do
      bus2 ← wait (write (bit_or rom_base (byte_addr * 2 % u32_mod)) data_byte bus1)
      some (bus2, true)
    in if ok then rest else some (bus1, false)

pub record DeviceId : Type 0 where
  pub manufacturer : ℕ
  pub device : ℕ

unfoldable pub sst_get_device_info : ℕ → Bus → Option (Bus × DeviceId)
sst_get_device_info rom_base bus = do
  (manufacturer, bus1) ← read (sst_command rom_base identer bus).0
  (device, bus2) ← read bus1
  some (
    (sst_command rom_base idexit bus2).0,
    record { manufacturer = manufacturer; device = device },
  )

unfoldable pub sst_get_manufacturer_name : DeviceId → List ℕ
sst_get_manufacturer_name sst = if sst.manufacturer == 0xBF then codes "SST" else codes "???"

unfoldable pub sst_get_device_name : DeviceId → List ℕ
sst_get_device_name sst =
    if sst.device == 0xB5
    then codes "SST39SF010A"
    else if sst.device == 0xB6
    then codes "SST39SF020A"
    else if sst.device == 0xB7
    then codes "SST39SF040 "
    else codes " <Unknown> "
