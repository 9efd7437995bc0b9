-- ===== src/Tests/Volumes.antt =====
-- A small volume of the FAT file system, and a long name.
use page_fault_os_for_risc_v.Prelude.{
  ◌^◌, ◌<◌, ℕ, ◌+◌, ◌-◌, ◌≡◌, ◌==◌, ◌&&◌, true, false, some, none, if◌then◌else◌, leb, ltb, refl,
  arith,
}
use page_fault_os_for_risc_v.Libs.CString.{Bytes}
use page_fault_os_for_risc_v.Fs.Fat.{
  Fat, Sector, get_u32, put_u32, tf_fetch, tf_first_sector, tf_set_fat_entry,
}
use page_fault_os_for_risc_v.Fs.Fat.Cache.{IsCached, contents, tf_fetch-contents}
use page_fault_os_for_risc_v.Fs.Fat.Table.{fat_entry, tf_set_fat_entry_lem}
use page_fault_os_for_risc_v.Fs.Fat.Search.{
  is_free, Found, Same, Finds, tf_find_free_cluster, tf_find_free_cluster_from,
  tf_find_free_cluster_lowest, tf_find_free_cluster_from-Finds,
}
use page_fault_os_for_risc_v.Fs.Fat.Chain.{
  tf_free_clusterchain, Cleared, freed, second, tf_free_clusterchain_lem,
}
use page_fault_os_for_risc_v.Fs.Fat.Seek.{TfFile}
use page_fault_os_for_risc_v.Fs.Fat.Seek.Laws.{nth}
use page_fault_os_for_risc_v.Fs.Fat.Names.{LfnEntry, tf_create_lfn_entry, copylfn, name_start}
use page_fault_os_for_risc_v.Fs.Fat.Names.Roundtrip.{
  IsName, entry, shown, copylfn-tf_create_lfn_entry,
}
use page_fault_os_for_risc_v.Fs.Fat.Read.{Got, sector_of, tf_fread}
use page_fault_os_for_risc_v.Fs.Fat.Read.Place.{Stands, byte_at}
use page_fault_os_for_risc_v.Fs.Fat.Read.Laws.{tf_fread_lem}

-- The chain 3, 4, 5 and the root directory in cluster 2; cluster 6 is the first free one.
abbrev table : Sector
table =
    put_u32
      (put_u32
        (put_u32 (put_u32 (put_u32 (put_u32 (λ i. 0) 0 0x0ffffff8) 4 0x0fffffff) 8 0x0fffffff) 12 4)
        16 5)
      20 0x0fffffff

abbrev volume : Fat
volume = record {
  info = record {
    sectors_per_cluster = 1;
    first_data_sector = 40;
    total_sectors = 1000;
    reserved_sectors = 32;
    current_sector = 0xffffffff;
    dirty = false;
    buffer = λ i. 0;
  };
  card = λ s. if s == 32 then table else (λ i. 0);
}

volume-IsCached : IsCached volume
volume-IsCached = record { clean = λ d l. absurd (omega arith); marked = λ d. cc }

tf_fetch-contents_example : contents (tf_fetch 33 volume) 32 ≡ contents volume 32
tf_fetch-contents_example =
    tf_fetch-contents volume volume-IsCached 33 (omega arith) 32 (omega arith)

tf_set_fat_entry_lem_example :
    fat_entry (tf_set_fat_entry 5 6 volume) 4 ≡ (if 4 == 5 then 6 else fat_entry volume 4)
tf_set_fat_entry_lem_example =
    tf_set_fat_entry_lem volume volume-IsCached 5 6 (omega arith) (omega arith) 4 (omega arith)

tf_find_free_cluster_lowest_example :
    Found volume 0 1000 (tf_find_free_cluster volume).0
    × Same volume (tf_find_free_cluster volume).1
tf_find_free_cluster_lowest_example =
    tf_find_free_cluster_lowest volume volume-IsCached (omega arith) (omega arith)

cluster_6_free : is_free (fat_entry volume 6) ≡ true
unfolding fat_entry get_u32 put_u32
cluster_6_free = refl

tf_find_free_cluster_from-Finds_run : Finds volume (tf_find_free_cluster_from 7 volume)
tf_find_free_cluster_from-Finds_run =
    tf_find_free_cluster_from-Finds volume volume-IsCached (omega arith) (omega arith) 7
      (omega arith) 6 (omega arith) cluster_6_free

tf_free_clusterchain_lem_example :
    (g : Fat) × (tf_free_clusterchain 3 3 volume ≡ some g)
    × Cleared (freed 3 (fat_entry volume 3) (second volume 3 (fat_entry volume 3))) volume g
tf_free_clusterchain_lem_example =
    tf_free_clusterchain_lem 0 3 volume volume-IsCached (omega arith) (omega arith)

-- Of the clusters 3, 4 and 5 the middle one is not freed.
freed_clusters : (freed 3 (fat_entry volume 3) (second volume 3 (fat_entry volume 3)) 4 ≡ false)
unfolding fat_entry get_u32 put_u32
freed_clusters = refl

-- A file of three sectors, at its start.
abbrev handle : TfFile
handle = record {
  parent_start_cluster = 2;
  start_cluster = 3;
  current_cluster_idx = 0;
  current_cluster = 3;
  current_byte = 0;
  pos = 0;
  is_dirty = false;
  is_open = true;
  size_changed = false;
  is_root = false;
  attributes = 0x20;
  size = 1500;
}

handle-Stands : Stands volume handle
unfolding nth
handle-Stands = record { index = refl; cluster = refl; byte = refl; links = tt }

first_sector : sector_of volume handle < 2 ^ 22
unfolding tf_first_sector
first_sector = omega arith

tf_fread_lem_example :
    (got : Got) × (tf_fread (λ d. 0) 32 handle volume ≡ some got)
    × (got.count ≡ 32)
    × ((j : ℕ) → j < 32 → got.bytes j ≡ byte_at volume 3 (0 + j))
    × (got.file.pos ≡ 32)
    × Stands volume got.file
    × Same volume got.fat
tf_fread_lem_example =
    tf_fread_lem volume volume-IsCached (omega arith) handle handle-Stands (omega arith) (λ d. 0) 31
      (omega arith) (omega arith) (omega arith) (omega arith) first_sector tt

-- The name "abc" at address 100.
abbrev text : Bytes
text a = if a == 100 then b'a' else if a == 101 then b'b' else if a == 102 then b'c' else 0

text-IsName : IsName text 100 4
text-IsName = record {
  positive = omega arith;
  ends = λ j e. ground arith;
  goes_on = λ j l. ground arith;
  bytes = λ a. ground arith;
}

abbrev new_entry : LfnEntry
new_entry = record {
  sequence_number = 0x41;
  name1 = λ i. 0;
  attributes = 0;
  reserved = 0;
  checksum = 0;
  name2 = λ i. 0;
  first_cluster = 0;
  name3 = λ i. 0;
}

copylfn-tf_create_lfn_entry_example :
    ((copylfn (λ a. 0) (entry text 100 4 text-IsName new_entry) 200).0
      ≡ shown text 100 4 text-IsName new_entry)
    × ((x : ℕ)
        → (copylfn (λ a. 0) (entry text 100 4 text-IsName new_entry) 200).1 x ≡ (
            if leb (name_start 200 (entry text 100 4 text-IsName new_entry)) x
              && ltb x (
                  name_start 200 (entry text 100 4 text-IsName new_entry)
                  + shown text 100 4 text-IsName new_entry)
            then text (100 + (x - name_start 200 (entry text 100 4 text-IsName new_entry)))
            else 0))
    × ((tf_create_lfn_entry text 100 new_entry).1 ≡ (if leb 4 14 then none else some (100 + 13)))
copylfn-tf_create_lfn_entry_example =
    copylfn-tf_create_lfn_entry text 100 4 text-IsName new_entry (λ a. 0) 200
