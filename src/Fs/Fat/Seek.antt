-- ===== src/Fs/Fat/Seek.antt =====
-- tf_fseek() and tf_unsafe_fseek() of kern/fs/fat32.cpp, for `base + offset` not below zero.
-- `short currentByte` is its bit pattern; the name of the file is left out of TFFile.
pub mod Laws
use page_fault_os_for_risc_v.Prelude.{
  ℕ, zero, suc, ◌+◌, ◌-◌, ◌*◌, ◌/◌, ◌%◌, ◌^◌, Bool, ◌==◌, not, ◌&&◌, if◌then◌else◌, true, false,
  ltb, leb,
}
use page_fault_os_for_risc_v.Fs.Fat.{Fat, TfInfo, tf_get_fat_entry, tf_set_fat_entry}
use page_fault_os_for_risc_v.Fs.Fat.Search.{tf_find_free_cluster_from}
use page_fault_os_for_risc_v.Fs.Fat.Chain.{eoc32}

-- The bits of `flags` by name.
pub record TfFile : Type 0 where
  pub parent_start_cluster : ℕ
  pub start_cluster : ℕ
  pub current_cluster_idx : ℕ
  pub current_cluster : ℕ
  pub current_byte : ℕ
  pub pos : ℕ
  pub is_dirty : Bool
  pub is_open : Bool
  pub size_changed : Bool
  pub is_root : Bool
  pub attributes : ℕ
  pub size : ℕ

unfoldable pub extend : ℕ → Fat → ℕ × Fat
extend c f =
    let (new, g) = tf_find_free_cluster_from c f in
    (new, tf_set_fat_entry new eoc32 (tf_set_fat_entry c new g))

-- The next cluster of the chain; where the chain ends it is made longer by a free cluster.
unfoldable pub next_cluster : ℕ → Fat → ℕ × Fat
next_cluster c f =
    let (temp, g) = tf_get_fat_entry c f in
    if temp % 2 ^ 28 == eoc32 then (extend c g) else (temp, g)

pub data Sought : Type 0 where
  found : Sought
  invalid_seek : Sought

-- while (cluster_idx > 0): the seek is given up at a cluster that ends a chain, with steps left.
unfoldable pub follow : (steps c : ℕ) → Fat → Sought × ℕ × Fat
follow zero c f = (Sought.found, c, f)
follow (suc n) c f =
    let (d, g) = next_cluster c f in
    let rest = follow n d g in if leb eoc32 d && ltb 0 n then (Sought.invalid_seek, d, g) else rest

abbrev pub cluster_size : Fat → ℕ
cluster_size f = f.info.sectors_per_cluster * 512

-- A seek to the end makes the file one byte longer.
abbrev pub grown : ℕ → TfFile → TfFile
grown pos fp = if pos == fp.size then record fp { size = fp.size + 1; size_changed = true } else fp

abbrev pub settled : (pos : ℕ) → Fat → TfFile → TfFile
settled pos f fp = record fp { current_byte = pos % cluster_size f; pos = pos }

-- A cluster after the current one is reached from there, any other from the start of the file.
abbrev pub route : ℕ → TfFile → ℕ × ℕ
route idx fp =
    if ltb fp.current_cluster_idx idx
    then (idx - fp.current_cluster_idx, fp.current_cluster)
    else (idx, fp.start_cluster)

abbrev pub arrived : Sought → (pos : ℕ) → Fat → TfFile → Sought × TfFile
arrived Sought.found pos f fp = (Sought.found, settled pos f fp)
arrived Sought.invalid_seek pos f fp = (Sought.invalid_seek, fp)

unfoldable pub move_to : (pos : ℕ) → TfFile → Fat → Sought × TfFile × Fat
move_to pos fp f =
    let idx = pos / cluster_size f in
    if idx == fp.current_cluster_idx
    then (Sought.found, settled pos f fp, f)
    else let (steps, c) = route idx fp in
      let (r, d, g) = follow steps c f in
      let (r', fp') =
        arrived r pos f (record fp { current_cluster_idx = idx; current_cluster = d }) in
      (r', fp', g)

unfoldable pub tf_unsafe_fseek : (pos : ℕ) → TfFile → Fat → Sought × TfFile × Fat
unfolding move_to
tf_unsafe_fseek pos fp f =
    if ltb fp.size pos then (Sought.invalid_seek, fp, f) else move_to pos (grown pos fp) f

unfoldable pub tf_fseek : (pos : ℕ) → TfFile → Fat → Sought × TfFile × Fat
tf_fseek pos fp f =
    if leb fp.size pos then (Sought.invalid_seek, fp, f) else tf_unsafe_fseek pos fp f
