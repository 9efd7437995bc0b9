-- ===== src/Proc/Alloc.antt =====
-- kern/proc/proc.cpp: filling and clearing entries of the process table. `tramp` is the address of the
-- trampoline's code and `depth` bounds freewalk().
pub mod Laws
pub mod Trampoline
use page_fault_os_for_risc_v.Prelude.{
  ℕ, zero, suc, ◌+◌, ◌*◌, ◌%◌, ◌^◌, Bool, true, false, Option, none, some, ltb, ◌==◌, if◌then◌else◌,
}
use page_fault_os_for_risc_v.Kernel.{
  Lock, ProcState, unused, sleeping, runnable, running, zombie, nowhere, Context, Proc, Kernel,
  Memory,
}
use page_fault_os_for_risc_v.Kernel.Run.{
  Cmd, Status, done, failed, out_of_fuel, pure, ◌>>=◌, ◌>>◌, modify, gets, abort,
}
use page_fault_os_for_risc_v.Sync.Spinlock.{free_lock, initlock, acquire, release}
use page_fault_os_for_risc_v.Mm.Layout.{
  u64, page_size, flag_r, flag_w, flag_x, trampoline, trapframe,
}
use page_fault_os_for_risc_v.Mm.Kalloc.{kfree, kalloc}
use page_fault_os_for_risc_v.Mm.Bytes.{put_bytes}
use page_fault_os_for_risc_v.Mm.PageTable.{map_pages, vmunmap}
use page_fault_os_for_risc_v.Mm.Uvm.{uvm_create, uvm_free, uvm_init, move_bytes}
use page_fault_os_for_risc_v.Proc.{nproc, set_proc, set_at, change_proc, get_proc, proc_lock, deref}

-- KSTACK_SIZE
abbrev pub kstack_size : ℕ
kstack_size = page_size * 2

-- One round of initProcTable() but for its lock; `stack` is the address of the stacks.
abbrev pub init_entry : (stack i : ℕ) → Proc → Proc
init_entry stack i p = record p {
  pid = i;
  kstack = u64 (stack + kstack_size * i);
  trapframe = 0;
  state = unused;
  killed = 0;
  xstate = 0;
  sz = 0;
  mticks = 0;
  vma = λ j. 0;
  uticks = 0;
  work_dir = λ j. 0;
  ofile = λ j. 0;
}

unfoldable pub init_from :
    (name_lock : Cmd Kernel (Unit {0})) → (n i stack : ℕ) → Cmd Kernel (Unit {0})
init_from name_lock zero i stack = pure tt
init_from name_lock (suc n) i stack = do
  initlock (proc_lock i) name_lock
  change_proc i (init_entry stack i)
  init_from name_lock n (i + 1) stack

unfoldable pub init_proc_table :
    (name_lock : Cmd Kernel (Unit {0})) → (stack : ℕ) → Cmd Kernel (Unit {0})
init_proc_table name_lock stack = init_from name_lock nproc 0 stack

-- MapPages() gets PGSIZE as the physical address and the address as the size.
unfoldable pub proc_pagetable : (depth tramp tf : ℕ) → Cmd Kernel ℕ
proc_pagetable depth tramp tf = do
  pt ← uvm_create
  if pt == 0 then pure 0 else do
    r ← map_pages pt trampoline page_size tramp (flag_r + flag_x)
    elim r [
      | failed ↦ do uvm_free depth pt 0; pure 0
      | done ↦ do
        r' ← map_pages pt trapframe page_size tf (flag_r + flag_w)
        elim r' [
          | failed ↦ do vmunmap pt trampoline 1 false; uvm_free depth pt 0; pure 0
          | done ↦ pure pt
        ]
    ]

-- sizeof(struct trapframe)
abbrev pub trapframe_bytes : ℕ
trapframe_bytes = 288

abbrev pub is_unused : ProcState → Bool
is_unused unused = true
is_unused sleeping = false
is_unused runnable = false
is_unused running = false
is_unused zombie = false

-- The search of allocproc(), which leaves the entry that it finds locked. The loop's test compares the
-- address of the other table, `proc`, with the end of procTable: it is the same Boolean, `in_order`, in
-- every round, and with `true` the search does not stop at NPROC.
unfoldable pub find_unused : (fuel i : ℕ) → Bool → Cmd Kernel (Option ℕ)
find_unused zero i in_order = λ _. out_of_fuel
find_unused (suc fuel) i in_order =
    let rest = find_unused fuel (i + 1) in_order in
    if in_order
    then (do
      acquire (proc_lock i)
      p ← get_proc i
      if is_unused p.state then pure (some i) else do release (proc_lock i); rest)
    else pure none

-- The label `found`; `entry` is the address of forkret().
unfoldable pub set_up : (depth tramp entry i : ℕ) → Cmd Kernel (Option ℕ)
set_up depth tramp entry i = do
  tf ← kalloc
  change_proc i (λ p. record p { trapframe = tf })
  if tf == 0 then (do release (proc_lock i); pure none) else do
    pt ← proc_pagetable depth tramp tf
    change_proc i (λ p. record p { pagetable = pt })
    modify λ k. record k { mem = put_bytes k.mem tf trapframe_bytes (λ j. 0) }
    change_proc i (λ p. record p {
      context = record { ra = entry; sp = u64 (p.kstack + page_size); saved = λ j. 0 };
    })
    release (proc_lock i)
    pure (some i)

unfoldable pub allocproc : (fuel depth tramp entry : ℕ) → Bool → Cmd Kernel (Option ℕ)
allocproc fuel depth tramp entry in_order = do
  found ← find_unused fuel 1 in_order
  elim found [ none ↦ pure none | some i ↦ set_up depth tramp entry i ]

unfoldable pub free_proc_pagetable : (depth pt size : ℕ) → Cmd Kernel (Unit {0})
free_proc_pagetable depth pt size = do
  vmunmap pt trampoline 1 false
  vmunmap pt trapframe 1 false
  uvm_free depth pt size

-- The fields that freeproc() resets.
abbrev pub blank : Proc → Proc
blank p = record p {
  vma = λ j. 0;
  pagetable = 0;
  sz = 0;
  name = set_at p.name 0 0;
  chan = nowhere;
  killed = 0;
  xstate = 0;
  state = unused;
  parent = none;
}

unfoldable pub freeproc : (depth i : ℕ) → Cmd Kernel (Unit {0})
freeproc depth i = do
  p ← get_proc i
  if p.trapframe == 0 then pure tt else kfree p.trapframe
  change_proc i (λ p. record p { trapframe = 0 })
  if p.pagetable == 0 then pure tt else free_proc_pagetable depth p.pagetable p.sz
  change_proc i blank
