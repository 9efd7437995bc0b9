-- ===== src/Fs/Fat/Read.antt =====
-- tf_fread() of kern/fs/fat32.cpp into a variable of the kernel, whose bytes are a function.
pub mod Place
pub mod Laws
use page_fault_os_for_risc_v.Prelude.{
  ℕ, zero, suc, ◌+◌, ◌-◌, ◌/◌, ◌%◌, ◌^◌, Bool, true, false, ◌&&◌, not, Option, none, some, ltb, leb,
  ◌==◌, if◌then◌else◌,
}
use page_fault_os_for_risc_v.Fs.Fat.{Fat, Sector, tf_fetch, tf_first_sector}
use page_fault_os_for_risc_v.Fs.Fat.Seek.{TfFile, Sought, tf_fseek}

-- The bytes that were read, the handle and the volume.
pub record Got : Type 0 where
  pub count : ℕ
  pub bytes : ℕ → ℕ
  pub file : TfFile
  pub fat : Fat

-- The short `currentByte`, given by its bit pattern, is negative.
abbrev pub is_negative : TfFile → Bool
is_negative fp = leb (2 ^ 15) fp.current_byte

-- fp->currentByte / 512 as an unsigned int, and how much fp->currentByte % 512 is below or above 0.
abbrev pub byte_sectors : TfFile → ℕ
byte_sectors fp =
    if is_negative fp
    then (2 ^ 32 - (2 ^ 16 - fp.current_byte) / 512) % 2 ^ 32
    else fp.current_byte / 512

abbrev pub byte_rest : TfFile → ℕ
byte_rest fp = if is_negative fp then (2 ^ 16 - fp.current_byte) % 512 else fp.current_byte % 512

-- tf_first_sector(fp->currentCluster) + (fp->currentByte / 512)
abbrev pub sector_of : Fat → TfFile → ℕ
sector_of f fp = (tf_first_sector f fp.current_cluster + byte_sectors fp) % 2 ^ 32

-- BFSIZE - (fp->currentByte % 512)
abbrev pub left_of : TfFile → ℕ
left_of fp = if is_negative fp then 512 + byte_rest fp else 512 - byte_rest fp

-- &tf_info.buffer[fp->currentByte % 512]: the byte `j` from there, of `before` where the place is before
-- the buffer.
abbrev pub from_buffer : (before : ℕ → ℕ) → TfFile → Sector → ℕ → ℕ
from_buffer before fp b j =
    if not (is_negative fp)
    then b (byte_rest fp + j)
    else if ltb j (byte_rest fp)
    then before (byte_rest fp - j)
    else b (j - byte_rest fp)

abbrev pub smaller : ℕ → ℕ → ℕ
smaller a b = if ltb b a then b else a

-- size_t x: what is left of the sector, at most what is left of the file and of the request.
abbrev pub chunk : TfFile → (size : ℕ) → ℕ
chunk fp size = smaller (smaller (left_of fp) ((fp.size + 2 ^ 32 - fp.pos) % 2 ^ 32)) size

-- memmove() of `x` bytes behind the first `n`.
abbrev pub append : (ℕ → ℕ) → (n x : ℕ) → (src : ℕ → ℕ) → ℕ → ℕ
append bytes n x src j = if leb n j && ltb j (n + x) then src (j - n) else bytes j

-- A seek that fails ends the loop with what was read.
abbrev pub stop_or : Sought → Got → Option Got → Option Got
stop_or Sought.found g rest = rest
stop_or Sought.invalid_seek g rest = some g

unfoldable pub tf_fread_loop :
    (before : ℕ → ℕ) → (fuel size n : ℕ) → (bytes : ℕ → ℕ) → TfFile → Fat → Option Got
tf_fread_loop before zero size n bytes fp f = none
tf_fread_loop before (suc fuel) size n bytes fp f =
    let g = tf_fetch (sector_of f fp) f in
    let x = chunk fp size in
    let more = append bytes n x (from_buffer before fp g.info.buffer) in
    let (r, fp', h) = tf_fseek (fp.pos + x) fp g in
    let rest = tf_fread_loop before fuel (size - x) (n + x) more fp' h in
    if size == 0
    then some (record { count = n; bytes = bytes; file = fp; fat = f })
    else stop_or r (record { count = n + x; bytes = more; file = fp'; fat = h }) rest

-- Each round but the last reads a byte or ends at the end of the file. `before d` is the byte that stands
-- `d` bytes before the buffer.
unfoldable pub tf_fread : (before : ℕ → ℕ) → (size : ℕ) → TfFile → Fat → Option Got
unfolding tf_fread_loop
tf_fread before size fp f = tf_fread_loop before (suc size) size 0 (λ j. 0) fp f
