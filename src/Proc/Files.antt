-- ===== src/Proc/Files.antt =====
-- kern/proc/proc.cpp: the open files of the current process, and the table of mapped regions.
pub mod Laws
use page_fault_os_for_risc_v.Prelude.{
  ℕ, zero, suc, ◌+◌, ◌||◌, Bool, true, false, Option, none, some, ltb, leb, ◌==◌, if◌then◌else◌,
}
use page_fault_os_for_risc_v.Kernel.{Vma, Proc, Kernel}
use page_fault_os_for_risc_v.Kernel.Run.{Cmd, pure, ◌>>=◌, ◌>>◌, gets, abort, regist_file}
use page_fault_os_for_risc_v.Sync.Spinlock.{acquire, release}
use page_fault_os_for_risc_v.Proc.{
  nofile, nfile, set_at, change_proc, get_proc, proc_lock, curproc, deref,
}

-- p->ofile[fd] = fp
abbrev pub set_file : (i fd fp : ℕ) → Cmd Kernel (Unit {0})
set_file i fd fp = change_proc i (λ p. record p { ofile = set_at p.ofile fd fp })

-- The search for a free descriptor, from `fd` on.
unfoldable pub regist_from : (n fd i fp : ℕ) → Cmd Kernel (Option ℕ)
regist_from zero fd i fp = abort regist_file
regist_from (suc n) fd i fp =
    let rest = regist_from n (fd + 1) i fp in
    do
      p ← get_proc i
      if p.ofile fd == 0 then (do set_file i fd fp; release (proc_lock i); pure (some fd)) else rest

-- A wish for a descriptor is `none` for an `int fd` below 0; the result `none` is -1.
unfoldable pub regist_file_handle : (fp : ℕ) → (fd : Option ℕ) → Cmd Kernel (Option ℕ)
regist_file_handle fp none = do
  p ← curproc
  deref p λ i. do acquire (proc_lock i); regist_from nofile 0 i fp
regist_file_handle fp (some fd) = if ltb nfile fd then pure none else do
  p ← curproc
  deref p λ i. do
    acquire (proc_lock i)
    p ← get_proc i
    if p.ofile fd == 0
        then (do set_file i fd fp; release (proc_lock i); pure (some fd))
        else do release (proc_lock i); pure none

-- The null pointer is 0; `none` is an `int fd` below 0.
unfoldable pub get_file_by_fd : Option ℕ → Cmd Kernel ℕ
get_file_by_fd none = pure 0
get_file_by_fd (some fd) = if ltb nofile fd then pure 0 else do
  p ← curproc
  deref p λ i. do
    acquire (proc_lock i)
    q ← curproc
    deref q λ j. do c ← get_proc j; release (proc_lock i); pure (c.ofile fd)

-- The length of the array `vma`.
abbrev pub nvma : ℕ
nvma = 15

unfoldable pub alloc_vma_from : (n i : ℕ) → (ℕ → Vma) → Option ℕ
alloc_vma_from zero i t = none
alloc_vma_from (suc n) i t =
    let rest = alloc_vma_from n (i + 1) t in if (t i).f == 0 then some i else rest

-- The region is not marked as taken: the caller's store to `f` does that.
unfoldable pub alloc_vma : (ℕ → Vma) → Option ℕ
alloc_vma t = alloc_vma_from nvma 0 t

abbrev pub no_vma : Vma
no_vma = record { addr = 0; length = 0; prot = 0; flag = 0; f = 0 }

unfoldable pub free_vma : ℕ → (ℕ → Vma) → ℕ → Vma
free_vma a t i = if i == a then no_vma else t i
