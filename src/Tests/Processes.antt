-- ===== src/Tests/Processes.antt =====
-- The process table and scheduling.
use page_fault_os_for_risc_v.Prelude.{
  ◌≤◌, ℕ, ◌+◌, ◌<◌, ◌≡◌, ◌≢◌, ◌⊎◌, refl, true, false, arith, ◌==◌, if◌then◌else◌, ltb, some, none,
}
use page_fault_os_for_risc_v.Kernel.{Vma, Kernel}
use page_fault_os_for_risc_v.Kernel.Run
use page_fault_os_for_risc_v.Kernel.Run.{ok, panic, done, failed, out_of_fuel, pure}
use page_fault_os_for_risc_v.Kernel.{sleeping, runnable, running, on_ticks}
use page_fault_os_for_risc_v.Sync.Spinlock.{free_lock}
use page_fault_os_for_risc_v.Sync.Spinlock.Laws.{settled, taken}
use page_fault_os_for_risc_v.Proc.{nproc, wakeup, woken, proc_lock}
use page_fault_os_for_risc_v.Proc.Wakeup.{wakeup_lem}
use page_fault_os_for_risc_v.Proc.Sched.{prepare_sched, sched_entry, forkret, timer_tick}
use page_fault_os_for_risc_v.Proc.Sched.Laws.{prepare_sched_stuck, first_run_stuck, timer_tick_lem}
use page_fault_os_for_risc_v.Proc.Alloc.{allocproc, proc_pagetable}
use page_fault_os_for_risc_v.Proc.Alloc.Laws.{First, allocproc_stuck}
use page_fault_os_for_risc_v.Proc.Alloc.Trampoline.{proc_pagetable_null}
use page_fault_os_for_risc_v.Proc.Files.{no_vma, nvma, alloc_vma, regist_file_handle}
use page_fault_os_for_risc_v.Proc.Files.Laws.{with_file, regist_file_handle_lowest, alloc_vma_first}
use page_fault_os_for_risc_v.Proc.Wait.{wait}
use page_fault_os_for_risc_v.Proc.Wait.Laws.{Childless, wait_no_child, wait_stuck}
use page_fault_os_for_risc_v.Mm.Bytes.{get_byte, put_bytes}
use page_fault_os_for_risc_v.Proc.UserCopy.{copyout2}
use page_fault_os_for_risc_v.Proc.UserCopy.Bounds.{settled_kernel, copyout2_lem}
use page_fault_os_for_risc_v.Tests.{idle, fresh_proc, bare, two_pages, one_process}

-- The process 3 sleeps on the ticks.
abbrev sleepers : Kernel
sleepers = record bare {
  table =
      λ i. if i == 3 then record fresh_proc { state = sleeping; chan = on_ticks } else fresh_proc;
}

wakeup_lem_run :
    wakeup on_ticks sleepers
    ≡ ok tt (record sleepers {
      table = λ j. if ltb j nproc then woken on_ticks (sleepers.table j) else sleepers.table j;
    })
wakeup_lem_run = wakeup_lem on_ticks sleepers

timer_tick_lem_run :
    timer_tick sleepers
    ≡ ok tt (record sleepers {
      cpu = settled idle;
      ticks = 1;
      table = λ j. if ltb j nproc then woken on_ticks (sleepers.table j) else sleepers.table j;
      tickslock = free_lock;
    })
timer_tick_lem_run = timer_tick_lem sleepers refl refl

prepare_sched_stuck_run : prepare_sched (pure tt) one_process ≢ ok tt one_process
prepare_sched_stuck_run = prepare_sched_stuck (pure tt) one_process one_process

-- The process 1 is ready, and the others are unused.
abbrev pub one_ready : Kernel
one_ready = record bare {
  table = λ i. if i == 1 then record fresh_proc { state = runnable } else fresh_proc;
}

first_run_stuck_run : sched_entry (forkret (pure tt)) 1 one_ready ≡ panic Run.pop_off
first_run_stuck_run = first_run_stuck one_ready 1 (pure tt) refl refl

pub second-First : First one_ready 1 1
second-First = record {
  unlocked = λ j lt. ground arith;
  used = λ j lt. let e : 1 + j ≡ 1 = omega arith in rw e refl;
  found = refl;
}

allocproc_stuck_run : allocproc 5 3 0x80210000 0x80211000 true one_ready ≡ panic Run.pop_off
allocproc_stuck_run =
    allocproc_stuck one_ready 1 5 3 0x80210000 0x80211000 refl refl second-First (omega arith)

proc_pagetable_null_run : proc_pagetable 3 0x80210000 0x80300000 two_pages ≢ ok 0x805fe000 two_pages
proc_pagetable_null_run =
    proc_pagetable_null 3 0x80210000 0x80300000 0x805fe000 two_pages two_pages (omega arith)
      (omega arith) (omega arith)

regist_file_handle_lowest_run :
    (k' : Kernel) × (regist_file_handle 0x8020b000 none one_process ≡ ok (some 1) k')
    × (k'.table 1 ≡ with_file 1 0x8020b000 (one_process.table 1))
    × ((j : ℕ) → j ≢ 1 → k'.table j ≡ one_process.table j)
    × (k'.handles ≡ one_process.handles)
regist_file_handle_lowest_run =
    regist_file_handle_lowest one_process 1 1 0x8020b000 (omega arith) (λ j lt. ground arith) refl
      refl refl refl

-- The first region is taken.
abbrev regions : ℕ → Vma
regions i = if i == 0 then record no_vma { f = 0x8020a000 } else no_vma

alloc_vma_first_run :
    ((i : ℕ) × (alloc_vma regions ≡ some i)
      × (i < nvma)
      × ((regions i).f ≡ 0)
      × ((j : ℕ) → j < i → (regions j).f ≢ 0))
    ⊎ ((alloc_vma regions ≡ none) × ((j : ℕ) → j < nvma → (regions j).f ≢ 0))
alloc_vma_first_run = alloc_vma_first regions

wait_no_child_run :
    wait (pure tt) 1 3 0 one_process
    ≡ ok none (taken (proc_lock 1) (record one_process { cpu = settled idle }))
wait_no_child_run = wait_no_child (pure tt) one_process 1 refl refl refl 0 3 0 (λ l lt. refl)

-- The process 1 has the process 2 as a child.
abbrev family : Kernel
family = record bare {
  current = some 1;
  table =
      λ i. if i == 2 then record fresh_proc { parent = some 1; state = running } else fresh_proc;
}

Childless-family : Childless family 1 0 2
Childless-family l lt = let e : (0 + l == 2) ≡ false = ground arith in rw e refl

wait_stuck_run : wait (pure tt) 1 3 0 family ≡ panic Run.pop_off
wait_stuck_run =
    wait_stuck (pure tt) family 1 refl refl refl 0 3 0 2 (omega arith) Childless-family refl refl
      (omega arith) refl

-- The process 1 runs and has two pages.
abbrev sized : Kernel
sized = record bare { current = some 1; table = λ i. record fresh_proc { sz = 0x2000 } }

copyout2_lem_run :
    ((0x1ff8 < 0x2000)
      × (0x2000 ≤ 0x2000)
      × (copyout2 0x1ff8 0x80400000 8 sized
          ≡ ok done (record (settled_kernel sized 1 refl refl) {
            mem = put_bytes sized.mem 0x1ff8 8 (λ j. get_byte sized.mem (0x80400000 + j));
          })))
    ⊎ (((0x2000 ≤ 0x1ff8) ⊎ (0x2000 < 0x2000))
        × (copyout2 0x1ff8 0x80400000 8 sized ≡ ok failed (settled_kernel sized 1 refl refl)))
copyout2_lem_run = copyout2_lem sized 1 refl refl 0x1ff8 0x80400000 8 (omega arith)
