-- ===== src/Proc/First.antt =====
-- kern/proc/proc.cpp: initFirstProc(). `image` is the address of the array `initcode`, `title` what is read from the
-- string "initcode" on; the other arguments are those of allocproc().
use page_fault_os_for_risc_v.Prelude.{ℕ, ◌+◌, Bool, some, ltb, if◌then◌else◌}
use page_fault_os_for_risc_v.Kernel.{runnable, Kernel}
use page_fault_os_for_risc_v.Kernel.Run.{Cmd, ◌>>=◌, ◌>>◌, modify}
use page_fault_os_for_risc_v.Mm.Layout.{page_size}
use page_fault_os_for_risc_v.Mm.PageTable.{store}
use page_fault_os_for_risc_v.Mm.Uvm.{uvm_init}
use page_fault_os_for_risc_v.Proc.{set_at, change_proc, get_proc, deref}
use page_fault_os_for_risc_v.Proc.Alloc.{allocproc}

-- memmove(p->name, "initcode", sizeof(p->name)) and p->workDir[0] = '/', of a process whose program has one page.
abbrev pub named : (title : ℕ → ℕ) → (name : ℕ → ℕ) → ℕ → ℕ
named title name j = if ltb j 16 then title j else name j

unfoldable pub init_first_proc :
    (fuel depth tramp entry : ℕ)
    → (in_order : Bool) → (image size : ℕ) → (title : ℕ → ℕ) → Cmd Kernel (Unit {0})
init_first_proc fuel depth tramp entry in_order image size title = do
  p ← allocproc fuel depth tramp entry in_order
  deref p λ i. do
    c ← get_proc i
    uvm_init c.pagetable c.kpagetable image size
    change_proc i λ q. record q { sz = page_size }
    store (c.trapframe + 24) 0x40
    store (c.trapframe + 48) page_size
    change_proc i λ q. record q {
      name = named title q.name;
      work_dir = set_at q.work_dir 0 b'/';
      state = runnable;
    }
    modify λ k. record k { init_proc = some i }
