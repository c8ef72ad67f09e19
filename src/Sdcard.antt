-- ===== src/Sdcard.antt =====
-- sdcard.c: the size of an SD card, and the sectors that the FAT library reads and writes.
-- The SD driver and the FAT library are outside of this code: the driver's routines are parameters.
pub mod Laws
use rosco_cli.Prelude.{
  ℕ, zero, suc, ◌+◌, ◌-◌, ◌*◌, ◌/◌, ◌%◌, ◌^◌, Bool, true, false, Option, none, some, ◌==◌, ltb,
  if◌then◌else◌, ◌>>=◌, bit_or, u32_mod,
}
use rosco_cli.Memory.{Mem}

-- The 16 bytes of the register, byte 0 first. The compiler puts bit fields from the highest bit of a byte down.
abbrev pub Csd : Type 0
Csd = ℕ → ℕ

abbrev pub csd_ver : Csd → ℕ
csd_ver csd = csd 0 / 64

-- SDCard_CSD1
unfoldable pub v1_read_bl_len : Csd → ℕ
v1_read_bl_len csd = csd 5 % 16

unfoldable pub v1_c_size : Csd → ℕ
v1_c_size csd = bit_or (bit_or (csd 6 % 4 * 2 ^ 10) (csd 7 * 2 ^ 2)) (csd 8 / 64) % 0x1_0000

unfoldable pub v1_c_size_mult : Csd → ℕ
v1_c_size_mult csd = bit_or (csd 9 % 4 * 2 ^ 1) (csd 10 / 128) % 256

-- SDCard_CSD2
unfoldable pub v2_c_size : Csd → ℕ
v2_c_size csd = bit_or (bit_or (csd 7 % 64 * 2 ^ 16) (csd 8 * 2 ^ 8)) (csd 9)

-- SD_get_size of what SD_read_register gave, if it gave anything; `none` is a shift by a negative count
unfoldable pub sd_get_size : Option Csd → Option ℕ
sd_get_size none = some 0
sd_get_size (some csd) =
    let shift = v1_c_size_mult csd + v1_read_bl_len csd in
    if csd_ver csd == 0
    then if ltb shift 7 then none else some ((v1_c_size csd + 1) * 2 ^ (shift - 7) % u32_mod)
    else if csd_ver csd == 1
    then some ((v2_c_size csd + 1) * 2 ^ 10 % u32_mod)
    else some 0

-- SD_read_block and SD_write_block, of a card with the state `D`; `none` is a failure
module _ {D : Type 0} (sd_read_block : D → ℕ → ℕ → Mem → Option Mem)
    (sd_write_block : D → ℕ → ℕ → Mem → D × Bool) where
  -- the loop of FAT_media_read from `sector + i` on, with memory and the result
  unfoldable pub fat_media_read : D → (sector buffer sector_count : ℕ) → Mem → Mem × ℕ
  fat_media_read d sector buffer zero m = (m, 1)
  fat_media_read d sector buffer (suc n) m = elim (sd_read_block d (sector % u32_mod) buffer m) [
    | none ↦ (m, 0)
    | some m' ↦ fat_media_read d (sector + 1) (buffer + 512) n m'
  ]

  unfoldable pub fat_media_write : D → (sector buffer sector_count : ℕ) → Mem → D × ℕ
  fat_media_write d sector buffer zero m = (d, 1)
  fat_media_write d sector buffer (suc n) m =
      let (d', ok) = sd_write_block d (sector % u32_mod) buffer m in
      let rest = fat_media_write d' (sector + 1) (buffer + 512) n m in if ok then rest else (d', 0)

-- SD_FAT_initialize: whether the card is ready (SD_initialize gave SD_INIT_OK), and what fl_attach_media answers
unfoldable pub sd_fat_initialize : (sd_init_ok fat_init_ok : Bool) → Bool
sd_fat_initialize false fat_init_ok = false
sd_fat_initialize true fat_init_ok = fat_init_ok
