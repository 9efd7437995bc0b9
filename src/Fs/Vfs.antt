-- ===== src/Fs/Vfs.antt =====
-- kern/fs/vfs.cpp: absolute paths, and the file system that a path belongs to. A path is an array of
-- MAXPATH characters; a longer one overruns the arrays of the code and is not modelled.
pub mod Lookup
pub mod Handles
pub mod Calls
pub mod Paths
pub mod Mounts
use page_fault_os_for_risc_v.Prelude.{
  ℕ, zero, suc, ◌+◌, ◌-◌, Bool, true, false, not, ◌&&◌, Option, none, some, ltb, leb, ◌==◌,
  if◌then◌else◌,
}
use page_fault_os_for_risc_v.Kernel.{Mount, Proc, Kernel}
use page_fault_os_for_risc_v.Kernel.Run.{Cmd, pure, ◌>>=◌, ◌>>◌, gets}
use page_fault_os_for_risc_v.Sync.Spinlock.{acquire, release}
use page_fault_os_for_risc_v.Proc.{maxpath, get_proc, proc_lock, curproc, deref}

-- NFILESYSTEM
abbrev pub nfilesystem : ℕ
nfilesystem = 5

abbrev pub PathName : Type 0
PathName = ℕ → ℕ

-- strlen() of an array of MAXPATH characters
unfoldable pub length_from : (rounds i : ℕ) → PathName → ℕ
length_from zero i p = i
length_from (suc n) i p = let rest = length_from n (i + 1) p in if p i == 0 then i else rest

unfoldable pub length : PathName → ℕ
unfolding length_from
length p = length_from maxpath 0 p

-- memset() of the target, then memcpy() of the characters
abbrev pub clip : PathName → PathName
clip p i = if ltb i (length p) then p i else 0

abbrev pub join : PathName → PathName → PathName
join p q i =
    if ltb i (length p) then p i else if ltb i (length p + length q) then q (i - length p) else 0

-- oldpath, without a leading "./"
abbrev pub strip : PathName → PathName
strip p = if (p 0 == b'.') && (p 1 == b'/') then (λ i. p (i + 2)) else p

unfoldable pub get_ab_path : PathName → Cmd Kernel PathName
get_ab_path path = do
  p ← curproc
  if strip path 0 == b'/' then pure (clip (strip path)) else do
    q ← curproc
    deref q λ i. do
      acquire (proc_lock i)
      r ← curproc
      deref p λ j. do
        c ← get_proc j
        deref r λ l. do release (proc_lock l); pure (join c.work_dir (strip path))

-- The loop over the characters of a mount point: its test looks at character `slot` of the path, the number
-- of the mount point in the table, and not at `j`.
unfoldable pub match_from : (rounds j slot : ℕ) → (mount_pos path : PathName) → Bool
match_from zero j slot m p = true
match_from (suc n) j slot m p =
    let rest = match_from n (j + 1) slot m p in
    if not (m j == 0) && not (p slot == 0) then (if m j == p j then rest else false) else true

-- bestMatch and bestLength
pub record Best : Type 0 where
  pub slot : ℕ
  pub len : ℕ

-- One round of the loop over the table, at entry `i`.
unfoldable pub better : PathName → (i : ℕ) → Option Mount → Best → Best
unfolding match_from
better p i none b = b
better p i (some m) b =
    if match_from maxpath 0 i m.mount_pos p && ltb b.len (length m.mount_pos)
    then record { slot = i; len = length m.mount_pos }
    else b

unfoldable pub best_from : (rounds slot : ℕ) → (ℕ → Option Mount) → PathName → Best → Best
unfolding better
best_from zero i t p b = b
best_from (suc n) i t p b = best_from n (i + 1) t p (better p i (t i) b)

-- The null pointer, where nothing matches and slot 0 is empty, is `none`.
unfoldable pub find_fs : PathName → (ℕ → Option Mount) → Option Mount
unfolding best_from
find_fs p t = t (best_from nfilesystem 0 t p (record { slot = 0; len = 0 })).slot

unfoldable pub vfsget_fs : PathName → Kernel → Option Mount
unfolding find_fs
vfsget_fs p k = find_fs p k.mounted
