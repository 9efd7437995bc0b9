-- ===== src/Fs/Fat.antt =====
-- kern/fs/fat32.cpp, the file system on the card, with kern/fs/fat32.hpp: the one sector that
-- TFInfo keeps in memory, and the file allocation table behind it. The card is a function from
-- sectors to their bytes, of which the first 512 count; the path that a sector takes to it
-- (vfsdread(), DeviceFS::read()) changes only its number, by `device_sector`. read_sector() and
-- write_sector() return 0, so the return codes of tf_fetch() and tf_store() are left out.
pub mod Cache
pub mod Table
pub mod Chain
pub mod Search
pub mod Seek
pub mod Read
pub mod Entries
pub mod Names
use page_fault_os_for_risc_v.Prelude.{
  ℕ, ◌+◌, ◌-◌, ◌*◌, ◌/◌, ◌%◌, ◌^◌, Bool, true, false, not, ltb, ◌==◌, if◌then◌else◌,
}

abbrev pub Sector : Type 0
Sector = ℕ → ℕ

-- The members of TFInfo that the code reads, but the type, which is TF_TYPE_FAT32 for every volume.
-- `sectorFlags` has one flag, TF_FLAG_DIRTY.
pub record TfInfo : Type 0 where
  pub sectors_per_cluster : ℕ
  pub first_data_sector : ℕ
  pub total_sectors : ℕ
  pub reserved_sectors : ℕ
  pub current_sector : ℕ
  pub dirty : Bool
  pub buffer : Sector

pub record Fat : Type 0 where
  pub info : TfInfo
  pub card : ℕ → Sector

-- `sector * 512` wraps as a uint32 and is passed as `int offset`; `offset / 512` is made a uint32.
unfoldable pub device_sector : ℕ → ℕ
device_sector sector =
    let offset = sector * 512 % 2 ^ 32 in
    if ltb offset (2 ^ 31) then offset / 512 else (offset / 512 + 2 ^ 32 - 2 ^ 23) % 2 ^ 32

abbrev pub read_sector : Fat → ℕ → Sector
read_sector f sector = f.card (device_sector sector)

abbrev pub put_sector : (ℕ → Sector) → ℕ → Sector → ℕ → Sector
put_sector card k b j = if j == k then b else card j

unfoldable pub write_sector : Sector → ℕ → Fat → Fat
write_sector b sector f = record f { card = put_sector f.card (device_sector sector) b }

unfoldable pub tf_store : Fat → Fat
unfolding write_sector
tf_store f =
    write_sector f.info.buffer f.info.current_sector
      (record f { info = record f.info { dirty = false } })

abbrev pub load_sector : ℕ → Fat → Fat
load_sector sector f = record f {
  info = record f.info { buffer = read_sector f sector; current_sector = sector };
}

-- A sector in memory that is marked is written before it is replaced.
unfoldable pub flushed : Fat → Fat
unfolding tf_store
flushed f = if f.info.dirty then tf_store f else f

-- The sector that is in memory already is not read again.
unfoldable pub tf_fetch : ℕ → Fat → Fat
unfolding flushed
tf_fetch sector f = if sector == f.info.current_sector then f else load_sector sector (flushed f)

-- *(uint32 *)&b[o]
unfoldable pub get_u32 : Sector → ℕ → ℕ
get_u32 b o = b o + 2 ^ 8 * b (o + 1) + 2 ^ 16 * b (o + 2) + 2 ^ 24 * b (o + 3)

unfoldable pub put_u32 : Sector → (o v : ℕ) → Sector
put_u32 b o v i =
    if i == o
    then v % 2 ^ 8
    else if i == o + 1
    then v / 2 ^ 8 % 2 ^ 8
    else if i == o + 2
    then v / 2 ^ 16 % 2 ^ 8
    else if i == o + 3
    then v / 2 ^ 24 % 2 ^ 8
    else b i

-- uint32 offset = cluster * 4, and the sector of the table that holds it
abbrev pub entry_offset : ℕ → ℕ
entry_offset cluster = cluster * 4 % 2 ^ 32

abbrev pub entry_sector : Fat → ℕ → ℕ
entry_sector f cluster = (f.info.reserved_sectors + entry_offset cluster / 512) % 2 ^ 32

unfoldable pub tf_get_fat_entry : ℕ → Fat → ℕ × Fat
tf_get_fat_entry cluster f =
    let g = tf_fetch (entry_sector f cluster) f in
    (get_u32 g.info.buffer (entry_offset cluster % 512), g)

-- The sector is marked for writing only if the entry changes.
unfoldable pub tf_set_fat_entry : (cluster value : ℕ) → Fat → Fat
tf_set_fat_entry cluster value f =
    let g = tf_fetch (entry_sector f cluster) f in
    let o = entry_offset cluster % 512 in
    if get_u32 g.info.buffer o == value
    then g
    else record g { info = record g.info { dirty = true; buffer = put_u32 g.info.buffer o value } }

unfoldable pub tf_first_sector : Fat → ℕ → ℕ
tf_first_sector f cluster =
    ((cluster + 2 ^ 32 - 2) * f.info.sectors_per_cluster + f.info.first_data_sector) % 2 ^ 32
