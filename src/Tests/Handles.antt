-- ===== src/Tests/Handles.antt =====
-- Runs of the virtual file system, over file systems that refuse every path, or that write to the memory.
use page_fault_os_for_risc_v.Prelude.{
  [], ◌∷◌, inr, Bool-cases, Bool, suc, inl, ℕ, ◌+◌, ◌-◌, ◌^◌, ◌%◌, ◌≤◌, ◌<◌, ◌≡◌, ◌⊎◌, ◌==◌, ◌&&◌,
  true, false, some, none, if◌then◌else◌, leb, ltb, refl, arith,
}
use page_fault_os_for_risc_v.Prelude.Int.{pos}
use page_fault_os_for_risc_v.Kernel.{Kernel, Mount, fd_entry}
use page_fault_os_for_risc_v.Kernel.Run.{Cmd, ok, panic, done, alloc_file, ◌>>◌, ◌>>=◌}
use page_fault_os_for_risc_v.Kernel.Run
use page_fault_os_for_risc_v.Sync.Spinlock.{free_lock}
use page_fault_os_for_risc_v.Proc.{nfile}
use page_fault_os_for_risc_v.Fs.File.{no_file}
use page_fault_os_for_risc_v.Fs.Vfs.{
  strip, clip, PathName, get_ab_path, vfsget_fs, length, nfilesystem,
}
use page_fault_os_for_risc_v.Fs.Vfs.Lookup.{StartsWith, Serves, vfsget_fs_longest}
use page_fault_os_for_risc_v.Fs.Vfs.Paths.{get_ab_path_stuck}
use page_fault_os_for_risc_v.Fs.Vfs.Handles.{is_unused, alloc_file_handle}
use page_fault_os_for_risc_v.Fs.Vfs.Handles.Laws.{granted, alloc_file_handle_first}
use page_fault_os_for_risc_v.Fs.Vfs.Mounts.{
  devfs, vfsmount, vfsumount, dev_dir, root_dir, no_dev, hda1,
}
use page_fault_os_for_risc_v.Mm.Kalloc.Laws.{IsFree}
use page_fault_os_for_risc_v.Tests.Pages.{two_pages-IsFree}
use page_fault_os_for_risc_v.Fs.Vfs.Mounts.Laws.{vfsumount-vfsmount}
use page_fault_os_for_risc_v.Fs.Vfs.Calls.{
  FileSystem, minus_one, vfsopen, vfschdir, vfsls, vfsread_fd, vfswrite_fd, vfswrite,
}
use page_fault_os_for_risc_v.Fs.Vfs.Calls.Laws.{
  descriptor_calls_stuck, Writes, IsWritable, vfswrite_twice,
}
use page_fault_os_for_risc_v.Fs.Vfs.Calls.Refused.{refused_paths}
use page_fault_os_for_risc_v.Tests.{two_pages, two_pages, bare, one_process}

alloc_file_handle_first_example :
    ((g : ℕ) × (alloc_file_handle bare ≡ ok (suc g) (granted bare refl g))
      × (g < nfile)
      × (is_unused (bare.handles g) ≡ true)
      × ((j : ℕ) → j < g → is_unused (bare.handles j) ≡ false))
    ⊎ ((alloc_file_handle bare ≡ panic alloc_file)
        × ((j : ℕ) → j < nfile → is_unused (bare.handles j) ≡ false))
alloc_file_handle_first_example = alloc_file_handle_first bare refl refl

-- "abc", a relative path.
abbrev relative : PathName
relative i = if ltb i 3 then b'a' + i else 0

get_ab_path_stuck_run : get_ab_path relative one_process ≡ panic Run.pop_off
get_ab_path_stuck_run = get_ab_path_stuck relative one_process 1 refl refl refl (ground arith)

-- The two mounts of vfsinit().
abbrev mounts : Kernel
mounts = record bare {
  mounted = λ i.
      if i == 0
      then some (record { address = 0x80700000; mount_pos = dev_dir; special_dev = no_dev })
      else if i == 1
      then some (record { address = 0x80701000; mount_pos = root_dir; special_dev = hda1 })
      else none;
}

-- "/dev/hda1" is found below "/dev".
hda1_device :
    vfsget_fs hda1 mounts
    ≡ some (record { address = 0x80700000; mount_pos = dev_dir; special_dev = no_dev })
unfolding vfsget_fs length
hda1_device = refl

vfsumount-vfsmount_example :
    (t : Kernel) × ((vfsmount devfs root_dir hda1 >> vfsumount root_dir) two_pages ≡ ok done t)
    × ((j : ℕ) → t.mounted j ≡ none)
    × (t.mounted_lock ≡ free_lock)
    × IsFree t (0x805fe000 ∷ 0x805fd000 ∷ [])
vfsumount-vfsmount_example =
    vfsumount-vfsmount two_pages 0x805fe000 (0x805fd000 ∷ []) two_pages-IsFree refl root_dir hda1
      refl devfs (inl refl) 0 (omega arith) refl (λ j o l e. cc) (λ j l. absurd (omega arith))

abbrev dev_mount : Mount
dev_mount = record { address = 0x80700000; mount_pos = dev_dir; special_dev = no_dev }

dev_length : length dev_dir ≡ 4
unfolding length
dev_length = refl

root_length : length root_dir ≡ 1
unfolding length
root_length = refl

mounts_texts : (i : ℕ) (m : Mount) → mounts.mounted i ≡ some m → length m.mount_pos < 64
mounts_texts i m e = elim (Bool-cases (i == 0)) [
  | inl z ↦ let q : dev_mount ≡ m = cc (rw z at e) in rw (← q) (omega (arith, dev_length))
  | inr n ↦ elim (Bool-cases (i == 1)) [
    | inl z ↦
        let q : record { address = 0x80701000; mount_pos = root_dir; special_dev = hda1 } ≡ m =
          cc (rw (n, z) at e) in
        rw (← q) (omega (arith, root_length))
    | inr z ↦ absurd (cc (rw (n, z) at e))
  ]
]

vfsget_fs_longest_example :
    (n : Mount) × (vfsget_fs hda1 mounts ≡ some n)
    × StartsWith hda1 n.mount_pos
    × ((j : ℕ) (o : Mount)
        → j < nfilesystem
        → Serves mounts hda1 j o
        → length o.mount_pos ≤ length n.mount_pos)
vfsget_fs_longest_example =
    vfsget_fs_longest mounts hda1 mounts_texts (λ j l. ground arith) 0 dev_mount (omega arith)
      (refl, λ j l. let b : j < 4 = omega (arith, l, dev_length) in ground arith)
      (omega (arith, dev_length))

-- Every path is refused, and nothing else is done.
abbrev pub refusing : FileSystem
refusing = record {
  open_file = λ m p flags fp. Run.pure minus_one;
  read = λ m p u b o n. Run.pure minus_one;
  write = λ m p u b o n. Run.pure minus_one;
  ls = λ m p c l u. Run.pure minus_one;
  mkdir = λ m p. Run.pure minus_one;
  rm = λ m p. Run.pure minus_one;
}

descriptor_calls_stuck_run :
    (vfsread_fd refusing (Run.pure tt) 1 (some 0) true 0 8 one_process ≡ panic Run.pop_off)
    × (vfswrite_fd refusing (Run.pure tt) 1 (some 0) true 0 8 one_process ≡ panic Run.pop_off)
    × (vfsls refusing (some 0) 0 8 true one_process ≡ panic Run.pop_off)
descriptor_calls_stuck_run =
    descriptor_calls_stuck refusing (Run.pure tt) 1 one_process 1 0 (omega arith) refl refl refl
      true 0 8

clipped_device : vfsget_fs (clip (strip hda1)) mounts ≡ some dev_mount
unfolding vfsget_fs length
clipped_device = refl

refused_paths_run :
    ((g : ℕ) × (t : Kernel) × ((flags : ℕ) → vfsopen refusing hda1 flags mounts ≡ ok none t)
      × (is_unused (mounts.handles g) ≡ true)
      × (t.handles ≡ (λ j. if j == g then no_file else mounts.handles j)))
    × ((g : ℕ) × (t : Kernel) × (vfschdir refusing hda1 mounts ≡ ok minus_one t)
        × (is_unused (mounts.handles g) ≡ true)
        × (is_unused (t.handles g) ≡ false))
refused_paths_run =
    refused_paths refusing mounts refl refl 0 (omega arith) refl hda1 refl dev_mount clipped_device
      (λ flags fp k. refl)

-- One file, its bytes kept as the words of the memory; the byte at address a of a buffer is a.
abbrev writing : FileSystem
writing = record {
  open_file = λ m p flags fp. Run.pure minus_one;
  read = λ m p u b o n. Run.pure minus_one;
  write = λ m p u b o n k.
      ok (pos n)
        (record k { mem = λ j. if leb o j && ltb j (o + n) then b + (j - o) else k.mem j });
  ls = λ m p c l u. Run.pure minus_one;
  mkdir = λ m p. Run.pure minus_one;
  rm = λ m p. Run.pure minus_one;
}

writing-Writes :
    (m : Mount) (p : PathName) (u : Bool) → Writes writing m p u (λ k j. k.mem j) (λ src j. src + j)
writing-Writes m p u = record {
  after =
      λ b o n k. record k { mem = λ j. if leb o j && ltb j (o + n) then b + (j - o) else k.mem j };
  returns = λ b o n k. refl;
  handles = λ b o n k. refl;
  mounted = λ b o n k. refl;
  replaces = λ b o n k j. refl;
  apart = λ i f k j. refl;
}

-- A file under "/dev" that may be written, from position 7 on.
abbrev one_file : Kernel
one_file = record mounts {
  handles = λ i. record no_file {
    filepath = hda1;
    writable = 1;
    kind = fd_entry;
    position = 7;
    size = 20;
  };
}

device_of_file : vfsget_fs hda1 one_file ≡ some dev_mount
unfolding vfsget_fs length
device_of_file = refl

one_file-IsWritable : IsWritable one_file 0 dev_mount hda1
one_file-IsWritable = record {
  kind = refl;
  writable = omega arith;
  path = refl;
  served = device_of_file;
}

vfswrite_twice_run :
    (t : Kernel) × ((vfswrite writing (Run.pure tt) 1 1 true 100 5
          >> vfswrite writing (Run.pure tt) 1 1 true 200 5)
        one_file
      ≡ ok (pos 5) t)
    × ((j : ℕ) → t.mem j ≡ (if ltb j 5 then 200 + j else 0))
    × ((t.handles 0).position ≡ (7 + 5 + 5) % 2 ^ 64)
vfswrite_twice_run =
    vfswrite_twice writing (Run.pure tt) 1 dev_mount hda1 true (λ k j. k.mem j) (λ src j. src + j)
      (writing-Writes dev_mount hda1 true) one_file 0 100 200 5 one_file-IsWritable
