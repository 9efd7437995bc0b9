-- ===== src/Fs/Device/Open.antt =====
-- open() of a device, from the path to the descriptor.
use page_fault_os_for_risc_v.Prelude.{
  ℕ, suc, ◌<◌, ◌≡◌, ◌⊎◌, inl, inr, refl, true, false, not, ◌||◌, some, ◌==◌, eq→==, arith,
}
use page_fault_os_for_risc_v.Kernel.{fd_device, File, Mount, Kernel}
use page_fault_os_for_risc_v.Kernel.Run.{ok, panic, alloc_file}
use page_fault_os_for_risc_v.Sync.Spinlock.Laws.{settled}
use page_fault_os_for_risc_v.Proc.{nofile, nfile}
use page_fault_os_for_risc_v.Proc.Wakeup.{curproc-some}
use page_fault_os_for_risc_v.Proc.Files.Laws.{Taken, regist_file_handle_lowest}
use page_fault_os_for_risc_v.Fs.Vfs.{PathName, clip, get_ab_path, vfsget_fs}
use page_fault_os_for_risc_v.Fs.Vfs.Handles.{is_unused, set_handle}
use page_fault_os_for_risc_v.Fs.Vfs.Handles.Laws.{granted, alloc_file_handle_first}
use page_fault_os_for_risc_v.Fs.Vfs.Calls.{
  FileSystem, write_only, read_write, flag, opened_with, vfsopen,
}
use page_fault_os_for_risc_v.Fs.Device.{device_open}

get_ab_path-absolute :
    (path : PathName) (k : Kernel) (i : ℕ)
    → path 0 ≡ b'/'
    → k.cpu.noff ≡ 0
    → k.current ≡ some i
    → get_ab_path path k ≡ ok (clip path) (record k { cpu = settled k.cpu })
unfolding get_ab_path
get_ab_path-absolute path k i a d c =
    let dot : (path 0 == b'.') ≡ false = ground arith in
    let slash : (path 0 == b'/') ≡ true = ground arith in rw (curproc-some k i d c, dot, slash) refl

-- What open() makes of the handle of a device.
pub record IsDevice (flags : ℕ) (f : File) : Type 0 where
  pub kind : f.kind ≡ fd_device
  pub referenced : f.ref ≡ 1
  pub no_directory : f.directory ≡ 0
  pub readable : f.readable ≡ flag (not (write_only flags))
  pub writable : f.writable ≡ flag (write_only flags || read_write flags)

module _ (fs : FileSystem)
    (device : (m : Mount) (p : PathName) (flags fp : ℕ)
      → fs.open_file m p flags fp ≡ device_open fp)
    (k : Kernel) (i g flags : ℕ) (path : PathName) (m : Mount) (d : k.cpu.noff ≡ 0)
    (c : k.current ≡ some i) where
  abbrev looked : Kernel
  looked = record k { cpu = settled k.cpu }

  -- The handle `h`, as open() leaves it.
  abbrev prepared : (h : ℕ) → Kernel
  prepared h =
      let t = granted looked refl h in
      let f : File = record (t.handles h) { kind = fd_device; directory = 0 } in
      let u = set_handle h f t in set_handle h (opened_with (clip path) flags (u.handles h)) u

  prepared-IsDevice : (h : ℕ) → IsDevice flags ((prepared h).handles h)
  prepared-IsDevice h = rw (eq→== h h refl) (record {
    kind = refl;
    referenced = refl;
    no_directory = refl;
    readable = refl;
    writable = refl;
  })

  -- open() of an absolute path that a mounted device file system covers, by a process that runs outside every
  -- critical section, with its lock and that of the handles free: it takes the first unused handle and the
  -- lowest free descriptor, and the handle is that of a device, with one reference, readable unless the
  -- flags say write-only, and writable if they say so or read-write; or it stops in the panic of
  -- allocFileHandle(), with every handle in use.
  pub vfsopen-IsDevice :
      path 0 ≡ b'/'
      → vfsget_fs (clip path) looked ≡ some m
      → k.handles_lock.locked ≡ false
      → (k.table i).lock.locked ≡ false
      → g < nofile
      → Taken (k.table i) g 0
      → (k.table i).ofile g ≡ 0
      → ((h : ℕ) × (t : Kernel) × (vfsopen fs path flags k ≡ ok (some g) t)
          × (is_unused (k.handles h) ≡ true)
          × ((j : ℕ) → j < h → is_unused (k.handles j) ≡ false)
          × ((t.table i).ofile g ≡ suc h)
          × IsDevice flags (t.handles h))
        ⊎ ((vfsopen fs path flags k ≡ panic alloc_file)
            × ((j : ℕ) → j < nfile → is_unused (k.handles j) ≡ false))
  unfolding vfsopen device_open
  vfsopen-IsDevice absolute mounted u l lt full free =
      let start = get_ab_path-absolute path k i absolute d c in
      elim (alloc_file_handle_first looked refl u) [
        | inr (e, all) ↦ inr (rw (start, e) refl, all)
        | inl (h, e, small, unused, before) ↦
            let (t, r, at, others, same) =
              regist_file_handle_lowest (prepared h) i g (suc h) lt full free refl c l in
            inl (
              h,
              t,
              rw (start, mounted, e, device m (clip path) flags (suc h)) r,
              unused,
              before,
              rw at (rw (eq→== g g refl) refl),
              rw same (prepared-IsDevice h),
            )
      ]
