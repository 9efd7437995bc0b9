-- ===== src/Tests/Regions.antt =====
-- Files and mapped regions of processes.
use page_fault_os_for_risc_v.Prelude.{
  ℕ, suc, ◌+◌, ◌-◌, ◌<◌, ◌≤◌, ◌≡◌, ◌≢◌, refl, true, some, arith, ◌==◌, if◌then◌else◌, ◌||◌,
}
use page_fault_os_for_risc_v.Kernel.{Kernel}
use page_fault_os_for_risc_v.Kernel.Run
use page_fault_os_for_risc_v.Kernel.Run.{ok, panic, pure}
use page_fault_os_for_risc_v.Proc.{nommapfile}
use page_fault_os_for_risc_v.Proc.Files.{no_vma, alloc_vma, alloc_vma_from}
use page_fault_os_for_risc_v.Proc.Regions.{find_region}
use page_fault_os_for_risc_v.Proc.Exit.{exit}
use page_fault_os_for_risc_v.Proc.Exit.Laws.{exit-Endless}
use page_fault_os_for_risc_v.Proc.Fork.{share_files, fork, clone}
use page_fault_os_for_risc_v.Proc.Fork.Laws.{Shared, share_files_lem, fork_stuck}
use page_fault_os_for_risc_v.Syscall.{register}
use page_fault_os_for_risc_v.Syscall.Files.{
  sys_read, sys_write, sys_close, sys_dup, sys_dup3, sys_getdents64,
}
use page_fault_os_for_risc_v.Syscall.Files.Laws.{fd_calls_stuck}
use page_fault_os_for_risc_v.Syscall.Mapping.{map_file}
use page_fault_os_for_risc_v.Syscall.Mapping.Place.{top, Stacked}
use page_fault_os_for_risc_v.Syscall.Mapping.Run.{map_file_lem}
use page_fault_os_for_risc_v.Tests.{root_table, bare, one_leaf, fresh_proc}
use page_fault_os_for_risc_v.Tests.Processes.{one_ready, second-First}
use page_fault_os_for_risc_v.Tests.Calls.{caller}
use page_fault_os_for_risc_v.Tests.Handles.{refusing}

exit-Endless_run : exit refusing (pure tt) 1 0 caller ≢ ok tt caller
exit-Endless_run = exit-Endless refusing (pure tt) 1 0 caller tt caller

-- The process 1 has the handle 0 as the descriptors 0 and 2, and the process 2 has no file.
abbrev parent : Kernel
parent = record bare {
  table = λ i.
      if i == 1
      then record fresh_proc { ofile = λ j. if j == 0 || j == 2 then 1 else 0 }
      else fresh_proc;
  handles = λ i. record (bare.handles i) { ref = 2 };
}

share_files_lem_example :
    (t : Kernel) × (share_files 4 0 1 2 parent ≡ ok tt t) × Shared 4 0 1 2 parent t
share_files_lem_example =
    share_files_lem 1 2 (omega arith) 4 0 parent refl refl (λ j h e. omega arith)

fork_stuck_run :
    (fork 5 3 0x80210000 0x80211000 true one_ready ≡ panic Run.pop_off)
    × ((stack flags : ℕ)
        → clone 5 3 0x80210000 0x80211000 true stack flags one_ready ≡ panic Run.pop_off)
fork_stuck_run =
    fork_stuck one_ready 1 5 3 0x80210000 0x80211000 refl refl second-First (omega arith)

fd_calls_stuck_example :
    (sys_read refusing (pure tt) 1 caller ≡ panic Run.pop_off)
    × (sys_write refusing (pure tt) 1 caller ≡ panic Run.pop_off)
    × (sys_close (λ i n. pure tt) caller ≡ panic Run.pop_off)
    × (sys_dup caller ≡ panic Run.pop_off)
    × (sys_dup3 caller ≡ panic Run.pop_off)
    × (sys_getdents64 refusing caller ≡ panic Run.pop_off)
fd_calls_stuck_example =
    fd_calls_stuck caller 0 refl refl refl (omega arith) refusing (pure tt) 1 (λ i n. pure tt)

-- The process 0 has one region of a page, and the handle 1 is open.
abbrev one_region : Kernel
one_region = record bare {
  current = some 0;
  table = λ i. record fresh_proc { vma = λ j. if j == 0 then 1 else 0 };
  vmas = λ i.
      if i == 0
      then record { addr = top - 4096; length = 4096; prot = 3; flag = 1; f = 1 }
      else no_vma;
  handles = λ i. record (bare.handles i) { ref = 1; position = 7 };
}

second_free : alloc_vma one_region.vmas ≡ some 1
unfolding alloc_vma alloc_vma_from
second_free = refl

only_first : (j a : ℕ) → (if j == 0 then 1 else 0) ≡ suc a → a ≡ 0
only_first j a e = ground arith

one_region-Stacked : Stacked (one_region.table 0).vma one_region.vmas
one_region-Stacked = record {
  live = λ j a e. rw (only_first j a e) (omega arith);
  whole = λ j a e. rw (only_first j a e) refl;
  deep = λ j a e. rw (only_first j a e) (omega arith);
  high = λ j a e. rw (only_first j a e) (omega arith);
}

map_file_lem_example :
    (t : Kernel) × (map_file 0 2 8192 1 2 one_region ≡ ok (top - (4096 + 8192)) t)
    × Stacked (t.table 0).vma t.vmas
    × ((t.handles 1).ref ≡ 2)
    × ((t.handles 1).position ≡ 0)
    × ((x : ℕ)
        → top - (4096 + 8192) ≤ x
        → x < top - (4096 + 8192) + 8192
        → find_region nommapfile 0 (t.table 0).vma t.vmas x ≡ some 1)
map_file_lem_example =
    map_file_lem one_region 0 1 1 1 8192 1 2 refl refl (omega arith) second_free (omega arith)
      (λ j l. ground arith) refl one_region-Stacked refl (omega arith)

-- The process 0 has a private region at 0, whose page is loaded, and calls munmap(0, 4096).
abbrev loaded : Kernel
loaded = record bare {
  current = some 0;
  table = λ i. record fresh_proc {
    pagetable = root_table;
    trapframe = 0x80400000;
    vma = λ j. if j == 0 then 1 else 0;
  };
  vmas =
      λ i. if i == 0 then record { addr = 0; length = 4096; prot = 3; flag = 2; f = 1 } else no_vma;
  mem = λ a. if a == register 0x80400000 1 then 4096 else one_leaf.mem a;
}
