-- ===== src/Trap/Pid.antt =====
-- getpid() and getppid() of a user process, with the table that syscall_init() fills.
use page_fault_os_for_risc_v.Prelude.{
  ℕ, ◌+◌, ◌%◌, ◌^◌, ◌≡◌, ◌∙◌, refl, ap, some, none, true, false, ◌==◌, eq→==, arith, Option, ◌<◌,
}
use page_fault_os_for_risc_v.Kernel.{Kernel, write_word}
use page_fault_os_for_risc_v.Kernel.Run.{Cmd, Panic, ok, panic, null_pointer}
use page_fault_os_for_risc_v.Mm.Layout.{u64, trapframe}
use page_fault_os_for_risc_v.Sync.Spinlock.Laws.{settled}
use page_fault_os_for_risc_v.Proc.Wakeup.{curproc-some}
use page_fault_os_for_risc_v.Syscall.{
  register, call_count, dispatch, syscall, sys_getpid, sys_getppid,
}
use page_fault_os_for_risc_v.Syscall.Table.{Calls, syscalls, file_call, process_call}
use page_fault_os_for_risc_v.Trap.{
  Board, make_satp, epc_of, on_syscall, on_cause, from_user, user_trap,
}
use page_fault_os_for_risc_v.Trap.User.{Returns, calling, user_trap-user, user_trap-syscall}

syscalls-getpid : (t : Calls) → syscalls t 172 ≡ some sys_getpid
unfolding syscalls file_call process_call
syscalls-getpid t = refl

syscalls-getppid : (t : Calls) → syscalls t 173 ≡ some sys_getppid
unfolding syscalls file_call process_call
syscalls-getppid t = refl

sys_getpid-ok :
    (k : Kernel) (i : ℕ)
    → k.cpu.noff ≡ 0
    → k.current ≡ some i
    → sys_getpid k ≡ ok (k.table i).pid (record k { cpu = settled k.cpu })
unfolding sys_getpid
sys_getpid-ok k i d c = rw (curproc-some k i d c) refl

sys_getppid-ok :
    (k : Kernel) (i j : ℕ)
    → k.cpu.noff ≡ 0
    → k.current ≡ some i
    → (k.table i).parent ≡ some j
    → sys_getppid k ≡ ok (k.table j).pid (record k { cpu = settled k.cpu })
unfolding sys_getppid
sys_getppid-ok k i j d c up = rw (curproc-some k i d c, up) refl

sys_getppid-orphan :
    (k : Kernel) (i : ℕ)
    → k.cpu.noff ≡ 0
    → k.current ≡ some i
    → (k.table i).parent ≡ none
    → sys_getppid k ≡ panic null_pointer
unfolding sys_getppid
sys_getppid-orphan k i d c up = rw (curproc-some k i d c, up) refl

-- syscall() with a number whose entry stops the kernel.
syscall-panic :
    (k : Kernel) (i : ℕ)
    → k.cpu.noff ≡ 0
    → k.current ≡ some i
    → (table : ℕ → Option (Cmd Kernel ℕ)) (call : Cmd Kernel ℕ) (p : Panic)
    → k.mem (register (k.table i).trapframe 7) % 2 ^ 32 ≡ 173
    → table 173 ≡ some call
    → call (record k { cpu = settled k.cpu }) ≡ panic p
    → syscall table k ≡ panic p
unfolding syscall dispatch
syscall-panic k i d c table call p n s e = rw (curproc-some k i d c, n, s, e) refl

module _ (b : Board) (t : Calls) (table : b.syscalls ≡ syscalls t) (k : Kernel) (i : ℕ)
    (d : k.cpu.noff ≡ 0) (c : k.current ≡ some i) (user : k.csr.spp ≡ false)
    (ecall : k.csr.scause ≡ 8) (alive : (k.table i).killed ≡ 0) where
  abbrev start : Kernel
  start = calling b k i d c user ecall alive

  abbrev number : ℕ
  number = k.mem (register (k.table i).trapframe 7) % 2 ^ 32

  -- The trap by a call gets back to user mode behind the call, with `r` in a0.
  abbrev pub Answers : ℕ → Type 0
  Answers r =
      (u : Kernel) × (user_trap b k ≡ b.userret trapframe (make_satp (k.table i).pagetable) u)
      × Returns b (u64 (k.csr.sepc + 4)) u
      × (u.mem (register (k.table i).trapframe 0) ≡ r)

  answers :
      (call : Cmd Kernel ℕ) (r : ℕ)
      → 0 < number
      → number < call_count
      → b.syscalls number ≡ some call
      → call start ≡ ok r (record start { cpu = settled start.cpu })
      → Answers r
  answers call r pos lt e run =
      let (epc, (u, back, ret, a0)) =
        user_trap-syscall b k i d c user ecall alive call r
          (record start { cpu = settled start.cpu }) pos lt e run refl c alive in
      (u, back, rw epc at ret, a0)

  orphan : number ≡ 173 → (k.table i).parent ≡ none → user_trap b k ≡ panic null_pointer
  unfolding from_user on_cause on_syscall write_word
  orphan n up =
      let s : Kernel = record start { cpu = record (settled k.cpu) { intr = true } } in
      let e : b.syscalls 173 ≡ some sys_getppid = ap (λ f. f 173) table ∙ syscalls-getppid t in
      let reg : s.mem (register (k.table i).trapframe 7)
          ≡ k.mem (register (k.table i).trapframe 7) =
        ground arith in
      let sc : syscall b.syscalls s ≡ panic null_pointer =
        syscall-panic s i refl c b.syscalls sys_getppid null_pointer (rw reg n) e
          (sys_getppid-orphan (record s { cpu = settled s.cpu }) i refl c up) in
      let eight : (k.csr.scause == 8) ≡ true = eq→== k.csr.scause 8 ecall in
      let live : ((k.table i).killed == 0) ≡ true = eq→== (k.table i).killed 0 alive in
      let same : (epc_of (k.table i).trapframe == epc_of (k.table i).trapframe) ≡ true =
        eq→== (epc_of (k.table i).trapframe) (epc_of (k.table i).trapframe) refl in
      user_trap-user b k user
      ∙ rw
          (
            curproc-some (record k { csr = record k.csr { stvec = b.kernvec } }) i d c,
            eight,
            live,
            same,
            sc,
          )
          refl

  -- A process of the table of system calls that the kernel has, outside every critical section and not
  -- killed: a trap by getpid() gets back to user mode behind the call with the number of the process in
  -- a0, a trap by getppid() with the number of its parent, and without a parent
  -- getppid() reads through a null pointer.
  pub user_trap-getpid :
      (number ≡ 172 → Answers (k.table i).pid)
      × (number ≡ 173
          → ((j : ℕ) → (k.table i).parent ≡ some j → Answers (k.table j).pid)
            × ((k.table i).parent ≡ none → user_trap b k ≡ panic null_pointer))
  user_trap-getpid = (
    λ n.
        answers sys_getpid (k.table i).pid (omega arith) (omega arith)
          (ap (λ f. f number) table ∙ rw n (syscalls-getpid t)) (sys_getpid-ok start i refl c),
    λ n. (
      λ j up.
          answers sys_getppid (k.table j).pid (omega arith) (omega arith)
            (ap (λ f. f number) table ∙ rw n (syscalls-getppid t))
            (sys_getppid-ok start i j refl c up),
      orphan n,
    ),
  )
