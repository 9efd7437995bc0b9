-- ===== src/Proc/Exit.antt =====
-- kern/proc/proc.cpp: exit(). vfsclose() is empty in the source.
pub mod Laws
use page_fault_os_for_risc_v.Prelude.{
  ℕ, zero, suc, ◌+◌, ◌-◌, ◌/◌, ◌%◌, ◌^◌, Bool, true, false, ◌&&◌, Option, none, some, ltb, ◌==◌,
  if◌then◌else◌,
}
use page_fault_os_for_risc_v.Kernel.{ProcState, zombie, Chan, nowhere, on_proc, Vma, Proc, Kernel}
use page_fault_os_for_risc_v.Kernel.Run.{Cmd, pure, ◌>>=◌, ◌>>◌, modify, gets, abort, null_pointer}
use page_fault_os_for_risc_v.Kernel.Run
use page_fault_os_for_risc_v.Sync.Spinlock.{acquire}
use page_fault_os_for_risc_v.Mm.Layout.{u64, page_size}
use page_fault_os_for_risc_v.Mm.PageTable.{vmunmap}
use page_fault_os_for_risc_v.Proc.{
  nproc, nofile, nommapfile, maxpath, change_proc, get_proc, proc_lock, curproc, deref, wakeup,
}
use page_fault_os_for_risc_v.Proc.Files.{free_vma}
use page_fault_os_for_risc_v.Proc.Sched.{prepare_sched}
use page_fault_os_for_risc_v.Proc.Wait.{is_child}
use page_fault_os_for_risc_v.Fs.Vfs.Calls.{FileSystem, vfswrite}
use page_fault_os_for_risc_v.Fs.Vfs.Handles.{vfsrewind}

-- What follows a read through a pointer to a region: 0 is the null pointer, `suc i` is &vma[i].
abbrev pub with_vma : {A : Type 0} → (v : ℕ) → (ℕ → Cmd Kernel A) → Cmd Kernel A
with_vma zero f = abort null_pointer
with_vma (suc i) f = f i

abbrev pub get_vma : ℕ → Cmd Kernel Vma
get_vma i = gets λ k. k.vmas i

abbrev pub change_vmas : ((ℕ → Vma) → ℕ → Vma) → Cmd Kernel (Unit {0})
change_vmas f = modify λ k. record k { vmas = f k.vmas }

-- An int that is added to a uint64.
abbrev pub widen : ℕ → ℕ
widen n = if ltb n (2 ^ 31) then n else n + (2 ^ 64 - 2 ^ 32)

-- PGROUNDUP(n) / PGSIZE of an int, as a uint64: the number of pages, or of a negative int the
-- number of whole pages, negated.
abbrev pub page_count : ℕ → ℕ
page_count n =
    if ltb n (2 ^ 31)
    then (n + page_size - 1) / page_size
    else u64 (2 ^ 64 - (2 ^ 32 - n) / page_size)

-- vma->flag & MAP_SHARED
abbrev pub is_shared : Vma → Bool
is_shared v = v.flag % 2 == 1

-- The files closed, and the path cleared.
abbrev pub closed : Proc → Proc
closed p = record p {
  ofile = λ fd. if ltb fd nofile then 0 else p.ofile fd;
  work_dir = λ j. if ltb j maxpath then 0 else p.work_dir j;
}

-- The children of process `i` go to the first process.
abbrev pub adopted : (i : ℕ) → Kernel → ℕ → Proc
adopted i k j =
    if ltb j nproc && is_child i (k.table j)
    then record (k.table j) { parent = k.init_proc }
    else k.table j

-- The parent's channel; wakeup(NULL) wakes those that sleep nowhere.
abbrev pub parent_chan : Option ℕ → Chan
parent_chan none = nowhere
parent_chan (some i) = on_proc i

module _ (fs : FileSystem) (switch : Cmd Kernel (Unit {0})) (fuel : ℕ) where
  -- What exit() and munmap() write back of a shared region.
  unfoldable pub write_back : (n : ℕ) → Vma → Cmd Kernel (Unit {0})
  write_back n v =
      if is_shared v
      then (do vfsrewind v.f; vfswrite fs switch fuel v.f true v.addr (widen n); pure tt)
      else pure tt

  -- One region of exit(); the pointer in the process stays.
  unfoldable pub drop_region : (i v : ℕ) → Cmd Kernel (Unit {0})
  drop_region i zero = pure tt
  drop_region i (suc a) = do
    v ← get_vma a
    write_back v.length v
    p ← get_proc i
    vmunmap p.pagetable v.addr (page_count v.length) false
    change_vmas (free_vma a)

  unfoldable pub drop_regions : (n slot i : ℕ) → Cmd Kernel (Unit {0})
  drop_regions zero slot i = pure tt
  drop_regions (suc n) slot i = do
    p ← get_proc i
    drop_region i (p.vma slot)
    drop_regions n (slot + 1) i

  unfoldable pub exit : (status : ℕ) → Cmd Kernel (Unit {0})
  exit status = do
    q ← curproc
    deref q λ i. do
      change_proc i closed
      modify λ k. record k { table = adopted i k }
      drop_regions nommapfile 0 i
      change_proc i λ p. record p { state = zombie; xstate = status }
      p ← get_proc i
      wakeup (parent_chan p.parent)
      acquire (proc_lock i)
      prepare_sched switch
      abort Run.exit
