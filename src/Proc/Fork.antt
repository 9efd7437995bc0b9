-- ===== src/Proc/Fork.antt =====
-- kern/proc/proc.cpp: fork() and clone(). The first arguments are those of allocproc(); the result `none`
-- is -1.
pub mod Laws
use page_fault_os_for_risc_v.Prelude.{
  ◌||◌, ℕ, zero, suc, ◌+◌, Bool, Option, none, some, ltb, ◌&&◌, ◌||◌, ◌==◌, if◌then◌else◌,
}
use page_fault_os_for_risc_v.Kernel.{runnable, Proc, Kernel}
use page_fault_os_for_risc_v.Kernel.Run.{Cmd, Status, done, failed, pure, ◌>>=◌, ◌>>◌, modify, gets}
use page_fault_os_for_risc_v.Mm.PageTable.{store}
use page_fault_os_for_risc_v.Mm.Uvm.{uvm_copy, move_bytes}
use page_fault_os_for_risc_v.Proc.{
  nofile, nommapfile, set_at, change_proc, get_proc, curproc, deref,
}
use page_fault_os_for_risc_v.Proc.Alloc.{trapframe_bytes, allocproc}
use page_fault_os_for_risc_v.Proc.Files.{set_file, alloc_vma}
use page_fault_os_for_risc_v.Proc.Exit.{with_vma, get_vma, change_vmas}
use page_fault_os_for_risc_v.Fs.Vfs.{PathName, length}
use page_fault_os_for_risc_v.Fs.Vfs.Handles.{vfsdup}
use page_fault_os_for_risc_v.Fs.Vfs.Calls.{put_text}

-- &tf->sp and &tf->a0
abbrev pub sp_of : ℕ → ℕ
sp_of tf = tf + 48

abbrev pub a0_of : ℕ → ℕ
a0_of tf = tf + 112

-- The files of process `i` from descriptor `fd` on, shared with `c`.
unfoldable pub share_files : (n fd i c : ℕ) → Cmd Kernel (Unit {0})
share_files zero fd i c = pure tt
share_files (suc n) fd i c = do
  p ← get_proc i
  if p.ofile fd == 0 then pure tt else do f ← vfsdup (p.ofile fd); set_file c fd f
  share_files n (fd + 1) i c

-- p->vma[slot] = v
abbrev pub set_region : (i slot v : ℕ) → Cmd Kernel (Unit {0})
set_region i slot v = change_proc i λ p. record p { vma = set_at p.vma slot v }

-- allocVma() returns the null pointer if no region is free.
abbrev pub vma_pointer : Option ℕ → ℕ
vma_pointer none = 0
vma_pointer (some a) = suc a

-- A copy of region `v` for the slot of process `c`.
unfoldable pub copy_region : (slot c v : ℕ) → Cmd Kernel (Unit {0})
copy_region slot c zero = pure tt
copy_region slot c (suc v) = do
  a ← gets λ k. vma_pointer (alloc_vma k.vmas)
  r ← get_vma v
  with_vma a λ b. change_vmas λ t j. if j == b then r else t j
  r' ← get_vma v
  vfsdup r'.f
  set_region c slot a

unfoldable pub copy_regions : (n slot i c : ℕ) → Cmd Kernel (Unit {0})
copy_regions zero slot i c = pure tt
copy_regions (suc n) slot i c = do
  p ← get_proc i
  set_region c slot 0
  copy_region slot c (p.vma slot)
  copy_regions n (slot + 1) i c

-- safestrcpy(child->name, p->name, sizeof(p->name) + 1): a second NUL follows that of a shorter name, and one
-- byte behind the name may be written.
abbrev pub put_name : PathName → PathName → PathName
put_name src dst j =
    let l = if ltb (length src) 16 then length src else 16 in
    if ltb j l then src j else if j == l || (j == l + 1 && ltb l 16) then 0 else dst j

-- What fork() and clone() make of the child `c` of process `i`; `adjust` is what clone() does besides.
unfoldable pub copy_process :
    (adjust : ℕ → Cmd Kernel (Unit {0})) → (i c : ℕ) → Cmd Kernel (Option ℕ)
copy_process adjust i c = do
  p ← get_proc i
  d ← get_proc c
  r ← uvm_copy p.pagetable d.pagetable d.kpagetable p.sz
  elim r [
    | failed ↦ pure none
    | done ↦ do
      change_proc c λ q. record q { sz = p.sz; parent = some i }
      move_bytes d.trapframe p.trapframe trapframe_bytes
      store (a0_of d.trapframe) 0
      share_files nofile 0 i c
      copy_regions nommapfile 0 i c
      change_proc c
          λ q. record q { work_dir = put_text p.work_dir q.work_dir; name = put_name p.name q.name }
      adjust d.trapframe
      change_proc c λ q. record q { state = runnable }
      e ← get_proc c
      pure (some e.pid)
  ]

module _ (fuel depth tramp entry : ℕ) (in_order : Bool) where
  unfoldable pub spawn : (adjust : ℕ → Cmd Kernel (Unit {0})) → Cmd Kernel (Option ℕ)
  spawn adjust = do
    p ← curproc
    child ← allocproc fuel depth tramp entry in_order
    elim child [ none ↦ pure none | some c ↦ deref p λ i. copy_process adjust i c ]

  unfoldable pub fork : Cmd Kernel (Option ℕ)
  unfolding spawn
  fork = spawn λ _. pure tt

  -- The flags are not read.
  unfoldable pub clone : (stack flags : ℕ) → Cmd Kernel (Option ℕ)
  unfolding spawn
  clone stack flags = spawn λ tf. store (sp_of tf) stack
