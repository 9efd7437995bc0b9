-- ===== src/Syscall/Mapping.antt =====
-- kern/syscall/syscallfile.cpp: the system calls that map files.
pub mod Unmap
pub mod Place
pub mod Laws
pub mod Run
use page_fault_os_for_risc_v.Prelude.{
  ℕ, zero, suc, ◌+◌, ◌-◌, ◌*◌, ◌%◌, ◌^◌, false, Option, none, some, ◌==◌, if◌then◌else◌,
}
use page_fault_os_for_risc_v.Kernel.{Kernel, Vma}
use page_fault_os_for_risc_v.Kernel.Run.{Cmd, pure, ◌>>=◌, ◌>>◌, gets}
use page_fault_os_for_risc_v.Mm.Layout.{u64, page_size, page_round_down, max_va}
use page_fault_os_for_risc_v.Mm.PageTable.{vmunmap}
use page_fault_os_for_risc_v.Proc.{nommapfile, get_proc, curproc, deref}
use page_fault_os_for_risc_v.Proc.Files.{alloc_vma, free_vma}
use page_fault_os_for_risc_v.Proc.Exit.{
  with_vma, get_vma, change_vmas, widen, page_count, write_back,
}
use page_fault_os_for_risc_v.Proc.Fork.{set_region, vma_pointer}
use page_fault_os_for_risc_v.Fs.Vfs.Calls.{FileSystem}
use page_fault_os_for_risc_v.Fs.Vfs.Handles.{change_handle, with_handle, vfsdup}
use page_fault_os_for_risc_v.Proc.Regions.{find_region}
use page_fault_os_for_risc_v.Syscall.{argint, argaddr}
use page_fault_os_for_risc_v.Syscall.Files.{argfd}
use page_fault_os_for_risc_v.Syscall.Words.{minus_one}

-- The length of the region that a slot points to.
abbrev pub region_length : (ℕ → Vma) → (v : ℕ) → ℕ
region_length t zero = 0
region_length t (suc a) = (t a).length

-- The lengths of the regions of a process, an int.
unfoldable pub mapped_size : (n slot : ℕ) → (ℕ → ℕ) → (ℕ → Vma) → ℕ
mapped_size zero slot vma t = 0
mapped_size (suc n) slot vma t =
    let rest = mapped_size n (slot + 1) vma t in (region_length t (vma slot) + rest) % 2 ^ 32

-- PGROUNDDOWN(MAXVA - PGSIZE * 5 - vmasz - length)
abbrev pub map_address : (vmasz length : ℕ) → ℕ
map_address vmasz length =
    page_round_down
      (u64 (max_va - 5 * page_size + (2 ^ 64 - widen vmasz) + (2 ^ 64 - widen length)))

-- The region goes to the first slot that is free, if there is one.
unfoldable pub place : (n slot i v : ℕ) → Cmd Kernel (Unit {0})
place zero slot i v = pure tt
place (suc n) slot i v =
    let rest = place n (slot + 1) i v in
    do p ← get_proc i; if p.vma slot == 0 then set_region i slot v else rest

abbrev pub change_vma : ℕ → (Vma → Vma) → Cmd Kernel (Unit {0})
change_vma a f = change_vmas λ t j. if j == a then f (t a) else t j

-- The flags, the offset and the address that is asked for are read and not used, or stored only.
unfoldable pub map_file : (i f length prot flags : ℕ) → Cmd Kernel ℕ
unfolding mapped_size place
map_file i f length prot flags = do
  v ← gets λ k. vma_pointer (alloc_vma k.vmas)
  vfsdup f
  with_handle f λ h. change_handle h λ g. record g { position = 0 }
  with_vma v λ a. do
    change_vma a λ r. record r { f = f; length = length }
    p ← get_proc i
    sz ← gets λ k. mapped_size nommapfile 0 p.vma k.vmas
    change_vma a λ r. record r { addr = map_address sz length; prot = prot; flag = flags }
    place nommapfile 0 i v
    r ← get_vma a
    pure r.addr

unfoldable pub sys_mmap : Cmd Kernel ℕ
unfolding map_file argfd
sys_mmap = do
  p ← curproc
  argaddr 0
  length ← argint 1
  prot ← argint 2
  flags ← argint 3
  f ← argfd 4
  if f == 0 then pure minus_one else do argint 5; deref p λ i. map_file i f length prot flags

module _ (fs : FileSystem) (switch : Cmd Kernel (Unit {0})) (fuel : ℕ) where
  -- munmap() of `sz` bytes, an int, in the region `a` at `slot`: a region of length 0 is given back.
  unfoldable pub unmap_region : (i slot a addr sz : ℕ) → Cmd Kernel (Unit {0})
  unmap_region i slot a addr sz = do
    v ← get_vma a
    write_back fs switch fuel sz v
    p ← get_proc i
    vmunmap p.pagetable addr (page_count sz) false
    change_vma a λ r. record r { length = (r.length + 2 ^ 32 - sz) % 2 ^ 32 }
    w ← get_vma a
    if w.length == 0 then (do change_vmas (free_vma a); set_region i slot 0) else pure tt

  unfoldable pub unmap_at : (i : ℕ) → Option ℕ → (addr sz : ℕ) → Cmd Kernel ℕ
  unfolding unmap_region
  unmap_at i none addr sz = pure minus_one
  unmap_at i (some slot) addr sz = do
    p ← get_proc i
    with_vma (p.vma slot) λ a. unmap_region i slot a addr sz
    pure 0

  unfoldable pub sys_munmap : Cmd Kernel ℕ
  unfolding unmap_at
  sys_munmap = do
    p ← curproc
    addr ← argaddr 0
    sz ← argint 1
    deref p λ i. do
      c ← get_proc i
      slot ← gets λ k. find_region nommapfile 0 c.vma k.vmas addr
      unmap_at i slot addr sz
