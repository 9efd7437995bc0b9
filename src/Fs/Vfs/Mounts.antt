-- ===== src/Fs/Vfs/Mounts.antt =====
-- kern/fs/vfs.cpp: the table of NFILESYSTEM mounted file systems.
pub mod Laws
use page_fault_os_for_risc_v.Prelude.{
  ℕ, zero, suc, ◌+◌, Bool, true, false, Option, none, some, ltb, ◌==◌, if◌then◌else◌, refl,
}
use page_fault_os_for_risc_v.Kernel.{Mount, Kernel}
use page_fault_os_for_risc_v.Kernel.Run.{
  Cmd, Status, done, failed, pure, ◌>>=◌, ◌>>◌, modify, gets, abort, create_file_system,
  mount_file_system, null_pointer,
}
use page_fault_os_for_risc_v.Kernel.Run
use page_fault_os_for_risc_v.Sync.Spinlock.{LockRef, initlock, acquire, release}
use page_fault_os_for_risc_v.Proc.{nfile}
use page_fault_os_for_risc_v.Mm.Kalloc.{kalloc, kfree}
use page_fault_os_for_risc_v.Fs.File.{no_file}
use page_fault_os_for_risc_v.Fs.Vfs.Handles.{handles_ref}
use page_fault_os_for_risc_v.Fs.Vfs.{nfilesystem, PathName, length, clip, get_ab_path}

abbrev pub mounted_ref : LockRef
mounted_ref = record {
  get = λ k. k.mounted_lock;
  put = λ l k. record k { mounted_lock = l };
  get-put = λ l k. refl;
  put-cpu = λ l k. refl;
  put-hart = λ l k. refl;
  get-cpu = λ c k. refl;
}

abbrev pub set_mount : ℕ → Option Mount → Kernel → Kernel
set_mount i m k = record k { mounted = λ j. if j == i then m else k.mounted j }

pub data FileSystemType : Type 0 where
  fat32 : FileSystemType
  sysfs : FileSystemType
  devfs : FileSystemType
  procfs : FileSystemType
  unknown : FileSystemType

-- new DeviceFS(...): a page of the allocator, and the constructor, which copies the two strings to it; they
-- are kept in the record. The null pointer is not tested for.
unfoldable pub new_device_fs : (mount_point special_dev : PathName) → Cmd Kernel Mount
new_device_fs m d = do
  p ← kalloc
  if p == 0
      then abort null_pointer
      else pure (record { address = p; mount_pos = clip m; special_dev = clip d })

unfoldable pub create_fs : FileSystemType → (mount_point special_dev : PathName) → Cmd Kernel Mount
create_fs devfs m d = new_device_fs m d
create_fs fat32 m d = new_device_fs m d
create_fs sysfs m d = abort create_file_system
create_fs procfs m d = abort create_file_system
create_fs unknown m d = abort create_file_system

-- The loop of vfsmount() from slot `i` on; the slot is filled after the lock is given back.
unfoldable pub mount_from : (rounds i : ℕ) → Mount → Cmd Kernel Status
mount_from zero i fs = do release mounted_ref; abort mount_file_system
mount_from (suc n) i fs =
    let rest = mount_from n (i + 1) fs in
    do
      o ← gets λ k. k.mounted i
      elim o [
        | none ↦ do release mounted_ref; modify (set_mount i (some fs)); pure done
        | some _ ↦ rest
      ]

-- DeviceFS::init() does nothing.
unfoldable pub vfsmount : FileSystemType → (mount_point special_dev : PathName) → Cmd Kernel Status
vfsmount type mount_point special_dev = do
  absolut_mp ← get_ab_path mount_point
  fs ← create_fs type absolut_mp special_dev
  acquire mounted_ref
  mount_from nfilesystem 0 fs

-- strncmp(p, q, n) == 0, from character `i` on
unfoldable pub same_text : (n i : ℕ) → (p q : PathName) → Bool
same_text zero i p q = true
same_text (suc n) i p q =
    let rest = same_text n (i + 1) p q in
    if p i == q i then (if p i == 0 then true else rest) else false

abbrev pub max : ℕ → ℕ → ℕ
max a b = if ltb b a then a else b

-- strncmp(fs->mountPos, absolutMp, max(n, absolutMpLen)) == 0
abbrev pub same_mount : Mount → PathName → Bool
same_mount m p = same_text (max (length m.mount_pos) (length p)) 0 m.mount_pos p

-- `delete fs` gives the page back.
unfoldable pub umount_from : (rounds i : ℕ) → PathName → Cmd Kernel Status
umount_from zero i p = do release mounted_ref; pure failed
umount_from (suc n) i p =
    let rest = umount_from n (i + 1) p in
    do
      o ← gets λ k. k.mounted i
      elim o [
        | none ↦ rest
        | some m ↦
            if same_mount m p
            then (do modify (set_mount i none); release mounted_ref; kfree m.address; pure done)
            else rest
      ]

unfoldable pub vfsumount : (mpdir : PathName) → Cmd Kernel Status
vfsumount mpdir = do
  absolut_mp ← get_ab_path mpdir
  acquire mounted_ref
  umount_from nfilesystem 0 absolut_mp

-- "/dev", "/", "" and "/dev/hda1"
abbrev pub dev_dir : PathName
dev_dir i =
    if i == 0
    then b'/'
    else if i == 1
    then b'd'
    else if i == 2
    then b'e'
    else if i == 3
    then b'v'
    else 0

abbrev pub root_dir : PathName
root_dir i = if i == 0 then b'/' else 0

abbrev pub no_dev : PathName
no_dev i = 0

abbrev pub hda1 : PathName
hda1 i =
    if ltb i 4
    then dev_dir i
    else if i == 4
    then b'/'
    else if i == 5
    then b'h'
    else if i == 6
    then b'd'
    else if i == 7
    then b'a'
    else if i == 8
    then b'1'
    else 0

-- The loops of vfsinit() over the two tables, FD_NONE being the 0 of memset().
abbrev pub cleared : Kernel → Kernel
cleared k = record k {
  mounted = λ i. if ltb i nfilesystem then none else k.mounted i;
  handles = λ i. if ltb i nfile then no_file else k.handles i;
}

unfoldable pub vfsinit : (name_lock : Cmd Kernel (Unit {0})) → Cmd Kernel (Unit {0})
vfsinit name_lock = do
  modify cleared
  initlock handles_ref name_lock
  initlock mounted_ref name_lock
  vfsmount devfs dev_dir no_dev
  vfsmount fat32 root_dir hda1
  pure tt
