-- ===== src/Syscall/Registers.antt =====
-- The registers of a system call, for the running process outside every critical section.
use page_fault_os_for_risc_v.Prelude.{ℕ, ◌%◌, ◌^◌, ◌<◌, ◌≡◌, refl, some, true, ltb, arith}
use page_fault_os_for_risc_v.Kernel.{Kernel}
use page_fault_os_for_risc_v.Kernel.Run.{ok}
use page_fault_os_for_risc_v.Sync.Spinlock.Laws.{settled}
use page_fault_os_for_risc_v.Proc.Wakeup.{curproc-some}
use page_fault_os_for_risc_v.Syscall.{register, cur_trapframe, argraw, argint}

-- The kernel after a look at the current process.
abbrev pub seen : Kernel → Kernel
seen k = record k { cpu = settled k.cpu }

-- Register a0 to a7 of the process `i`.
abbrev pub argument : (k : Kernel) (i n : ℕ) → ℕ
argument k i n = k.mem (register (k.table i).trapframe n)

module _ (k : Kernel) (i : ℕ) (d : k.cpu.noff ≡ 0) (c : k.current ≡ some i) (n : ℕ)
    (lt : n < 8) where
  pub argraw-ok : argraw n k ≡ ok (argument k i n) (seen k)
  unfolding argraw cur_trapframe
  argraw-ok = let e : ltb n 8 ≡ true = ground arith in rw (curproc-some k i d c, e) refl

  pub argint-ok : argint n k ≡ ok (argument k i n % 2 ^ 32) (seen k)
  unfolding argint
  argint-ok = rw argraw-ok refl
