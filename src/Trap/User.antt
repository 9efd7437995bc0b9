-- ===== src/Trap/User.antt =====
-- A system call of a user process, from the trap to the jump back.
use page_fault_os_for_risc_v.Prelude.{
  ℕ, ◌+◌, ◌%◌, ◌^◌, ◌<◌, ◌≡◌, ◌∙◌, refl, some, true, false, ◌==◌, if◌then◌else◌, eq→==, arith,
}
use page_fault_os_for_risc_v.Kernel.{Kernel, write_word}
use page_fault_os_for_risc_v.Kernel.Run.{Cmd, ok, abort, user_trap_mode}
use page_fault_os_for_risc_v.Mm.Layout.{u64, page_size, trampoline, trapframe}
use page_fault_os_for_risc_v.Sync.Spinlock.Laws.{settled}
use page_fault_os_for_risc_v.Proc.Wakeup.{curproc-some}
use page_fault_os_for_risc_v.Syscall.{call_count, register, syscall}
use page_fault_os_for_risc_v.Syscall.Dispatch.{syscall_lem}
use page_fault_os_for_risc_v.Trap.{
  Board, make_satp, epc_of, on_syscall, on_cause, from_user, user_trap, user_trap_ret,
}

-- What the hart is set to on the way back to user mode, with `pc` to go on at.
pub record Returns (b : Board) (pc : ℕ) (k : Kernel) : Type 0 where
  pub sepc : k.csr.sepc ≡ pc
  pub user_mode : k.csr.spp ≡ false
  pub interrupts : k.csr.spie ≡ true
  pub masked : k.cpu.intr ≡ false
  pub vector : k.csr.stvec ≡ trampoline + b.uservec

written : (m : ℕ → ℕ) (a v : ℕ) → write_word m a v a ≡ v
unfolding write_word
written m a v = rw (eq→== a a refl) refl

other : (m : ℕ → ℕ) (a v j : ℕ) → (a == j) ≡ false → write_word m a v j ≡ m j
unfolding write_word
other m a v j ne = rw ne refl

module _ (b : Board) (t : Kernel) (i : ℕ) (d : t.cpu.noff ≡ 0) (c : t.current ≡ some i) where
  abbrev tf_of : ℕ
  tf_of = (t.table i).trapframe

  abbrev saved : ℕ → ℕ
  saved =
      write_word
        (write_word
          (write_word (write_word t.mem tf_of t.csr.satp) (tf_of + 8)
            (u64 ((t.table i).kstack + page_size)))
          (tf_of + 16) b.user_trap_at)
        (tf_of + 32) t.hart

  abbrev leaving : Kernel
  leaving = record t {
    cpu = record (settled t.cpu) { intr = false };
    mem = saved;
    csr = record t.csr {
      stvec = trampoline + b.uservec;
      spp = false;
      spie = true;
      sepc = saved (epc_of tf_of);
    };
  }

  saved-epc : saved (epc_of tf_of) ≡ t.mem (epc_of tf_of)
  unfolding write_word
  saved-epc = ground arith

  saved-a0 : saved (register tf_of 0) ≡ t.mem (register tf_of 0)
  unfolding write_word
  saved-a0 = ground arith

  -- UserTrapRet() jumps to the trampoline with the page table of the process, and goes on where the trap
  -- frame says.
  pub user_trap_ret_lem :
      (u : Kernel) × (user_trap_ret b t ≡ b.userret trapframe (make_satp (t.table i).pagetable) u)
      × Returns b (t.mem (epc_of tf_of)) u
      × (u.mem (register tf_of 0) ≡ t.mem (register tf_of 0))
      × (u.table ≡ t.table)
  unfolding user_trap_ret
  user_trap_ret_lem = (
    leaving,
    rw (curproc-some t i d c) refl,
    record { sepc = saved-epc; user_mode = refl; interrupts = refl; masked = refl; vector = refl },
    saved-a0,
    refl,
  )

pub user_trap-user :
    (b : Board) (k : Kernel) → k.csr.spp ≡ false → user_trap b k ≡ from_user b k.csr k
unfolding user_trap
user_trap-user b k u = λ i. (if u i then abort user_trap_mode else from_user b k.csr) k

module _ (b : Board) (k : Kernel) (i : ℕ) (d : k.cpu.noff ≡ 0) (c : k.current ≡ some i)
    (user : k.csr.spp ≡ false) (ecall : k.csr.scause ≡ 8) (alive : (k.table i).killed ≡ 0) where
  abbrev frame : ℕ
  frame = (k.table i).trapframe

  -- The kernel when the call starts: the interrupts were on and are off again.
  abbrev pub calling : Kernel
  calling = record k {
    cpu = record { noff = 0; intena = true; intr = false };
    mem =
        write_word (write_word k.mem (epc_of frame) k.csr.sepc) (epc_of frame)
          (u64 (k.csr.sepc + 4));
    csr = record k.csr { stvec = b.kernvec };
  }

  -- The number of the call is not touched by the writes to epc.
  calling-register : (n : ℕ) → calling.mem (register frame n) ≡ k.mem (register frame n)
  unfolding write_word
  calling-register n = ground arith

  abbrev number : ℕ
  number = k.mem (register frame 7) % 2 ^ 32

  -- A system call of a process that was not killed, by a number below 400 that has an entry in the table,
  -- where that entry returns `r` to the same process outside every critical section: UserTrap()
  -- jumps back with a0 of its trap frame set to `r` and goes on at the epc of the frame, which is 4
  -- behind the call when the entry starts.
  pub user_trap-syscall :
      (call : Cmd Kernel ℕ) (r : ℕ) (t : Kernel)
      → 0 < number
      → number < call_count
      → b.syscalls number ≡ some call
      → call calling ≡ ok r t
      → t.cpu.noff ≡ 0
      → t.current ≡ some i
      → (t.table i).killed ≡ 0
      → (calling.mem (epc_of frame) ≡ u64 (k.csr.sepc + 4))
        × ((u : Kernel) × (user_trap b k ≡ b.userret trapframe (make_satp (t.table i).pagetable) u)
            × Returns b (t.mem (epc_of (t.table i).trapframe)) u
            × (u.mem (register (t.table i).trapframe 0) ≡ r))
  unfolding from_user on_cause on_syscall
  user_trap-syscall call r t pos lt e run d' c' alive' =
      let s : Kernel = record calling { cpu = record (settled k.cpu) { intr = true } } in
      let t' : Kernel = record t { mem = write_word t.mem (register (t.table i).trapframe 0) r } in
      let reg = calling-register 7 in
      let sc : syscall b.syscalls s ≡ ok tt t' =
        (syscall_lem s i refl c b.syscalls).1 call r t (rw reg pos) (rw reg lt) (rw reg e) run in
      let (u, back, ret, a0, same) = user_trap_ret_lem b t' i d' c' in
      let apart : (register (t.table i).trapframe 0 == epc_of (t.table i).trapframe) ≡ false =
        ground arith in
      let eight : (k.csr.scause == 8) ≡ true = eq→== k.csr.scause 8 ecall in
      let live : ((k.table i).killed == 0) ≡ true = eq→== (k.table i).killed 0 alive in
      let live' : ((t.table i).killed == 0) ≡ true = eq→== (t.table i).killed 0 alive' in
      (
        written (write_word k.mem (epc_of frame) k.csr.sepc) (epc_of frame) (u64 (k.csr.sepc + 4)),
        (
          u,
          user_trap-user b k user
              ∙ rw
                  (
                    curproc-some (record k { csr = record k.csr { stvec = b.kernvec } }) i d c,
                    eight,
                    live,
                    written k.mem (epc_of frame) k.csr.sepc,
                    sc,
                    live',
                  )
                  back,
          rw (other t.mem (register (t.table i).trapframe 0) r (epc_of (t.table i).trapframe) apart)
              at ret,
          a0 ∙ written t.mem (register (t.table i).trapframe 0) r,
        ),
      )
