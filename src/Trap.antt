-- ===== src/Trap.antt =====
-- kern/trap/trap.cpp, in the build for the K210. What is printed is left out. The devices, the firmware, the
-- trampoline and the addresses that the linker chooses are a record that the handlers take.
pub mod User
pub mod Fault
pub mod Loading
pub mod Supervisor
pub mod Pid
use page_fault_os_for_risc_v.Prelude.{
  ℕ, zero, suc, ◌+◌, ◌-◌, ◌*◌, ◌/◌, ◌%◌, ◌^◌, Bool, true, false, not, ◌&&◌, ◌||◌, Option, none,
  some, ltb, leb, ◌==◌, if◌then◌else◌,
}
use page_fault_os_for_risc_v.Kernel.{Csr, Vma, Proc, Kernel}
use page_fault_os_for_risc_v.Kernel.Run.{
  Cmd, pure, ◌>>=◌, ◌>>◌, modify, gets, abort, user_trap_mode, kernel_trap_mode,
  kernel_trap_enabled,
}
use page_fault_os_for_risc_v.Kernel.Run
use page_fault_os_for_risc_v.Mm.Layout.{
  u64, page_size, page_round_down, flag_r, flag_w, flag_u, trampoline, trapframe,
}
use page_fault_os_for_risc_v.Mm.Kalloc.{kalloc, memset_page}
use page_fault_os_for_risc_v.Mm.PageTable.{load, store, map_pages}
use page_fault_os_for_risc_v.Proc.{nommapfile, change_proc, get_proc, curproc, deref}
use page_fault_os_for_risc_v.Proc.Sched.{is_running, intr_on, yield, timer_tick}
use page_fault_os_for_risc_v.Proc.Regions.{find_region}
use page_fault_os_for_risc_v.Proc.Exit.{with_vma, get_vma, widen, exit}
use page_fault_os_for_risc_v.Fs.Vfs.Calls.{FileSystem, vfsread}
use page_fault_os_for_risc_v.Console.{consoleintr}
use page_fault_os_for_risc_v.Syscall.{syscall}

-- What the handlers use: Plic_Claim() and Plic_Complete(), which read and write a register of the interrupt
-- controller, disk_intr(), sbi_console_getchar() with `none` for -1, sbi_console_putchar(), pswitch(), the
-- jump to userret, the methods of the file systems, the table of system calls, the addresses of kernvec,
-- uservec, userret and UserTrap(), and the rounds of the waits of pipes.
pub record Board : Type 0 where
  pub claim : Cmd Kernel ℕ
  pub complete : ℕ → Cmd Kernel (Unit {0})
  pub disk_intr : Cmd Kernel (Unit {0})
  pub getchar : Cmd Kernel (Option ℕ)
  pub putchar : ℕ → Kernel → Kernel
  pub switch : Cmd Kernel (Unit {0})
  pub userret : (trapframe satp : ℕ) → Cmd Kernel (Unit {0})
  pub fs : FileSystem
  pub syscalls : ℕ → Option (Cmd Kernel ℕ)
  pub kernvec : ℕ
  pub uservec : ℕ
  pub user_trap_at : ℕ
  pub fuel : ℕ

abbrev pub uart_irq : ℕ
uart_irq = 33

abbrev pub disk_irq : ℕ
disk_irq = 27

-- The causes that DevIntr() and UserTrap() tell apart.
abbrev pub external_cause : ℕ
external_cause = 2 ^ 63 + 1

abbrev pub timer_cause : ℕ
timer_cause = 2 ^ 63 + 5

abbrev pub is_fault : ℕ → Bool
is_fault c = c == 13 || c == 5

-- MAKE_SATP(pagetable)
abbrev pub make_satp : ℕ → ℕ
make_satp pt = 2 ^ 63 + pt / 2 ^ 12

-- What DevIntr() returns: 0, 1 or 2.
pub data Device : Type 0 where
  no_device : Device
  external : Device
  timer : Device

abbrev pub change_csr : (Csr → Csr) → Cmd Kernel (Unit {0})
change_csr f = modify λ k. record k { csr = f k.csr }

abbrev pub get_csr : Cmd Kernel Csr
get_csr = gets λ k. k.csr

abbrev pub set_intr : Bool → Cmd Kernel (Unit {0})
set_intr b = modify λ k. record k { cpu = record k.cpu { intr = b } }

-- The fields of the trap frame at `tf`.
abbrev pub epc_of : ℕ → ℕ
epc_of tf = tf + 24

-- PTE_V | PTE_U and what the region allows.
abbrev pub region_perm : Vma → ℕ
region_perm v =
    1
    + flag_u
    + (if v.prot % 2 == 1 then flag_r else 0)
    + (if v.prot / 2 % 2 == 1 then flag_w else 0)

module _ (b : Board) where
  open b use {
    claim, complete, disk_intr, getchar, putchar, switch, userret, fs, syscalls, kernvec, uservec,
    user_trap_at, fuel,
  }

  unfoldable pub serve_uart : Option ℕ → Cmd Kernel (Unit {0})
  serve_uart none = pure tt
  serve_uart (some c) = consoleintr putchar c

  unfoldable pub serve : (irq : ℕ) → Cmd Kernel (Unit {0})
  unfolding serve_uart
  serve irq =
      if irq == uart_irq
      then (do c ← getchar; serve_uart c)
      else if irq == disk_irq
      then disk_intr
      else pure tt

  unfoldable pub dev_intr : Cmd Kernel Device
  unfolding serve
  dev_intr = do
    c ← get_csr
    if c.scause == external_cause && c.stval == 9
        then (do irq ← claim; serve irq; if irq == 0 then pure tt else complete irq; pure external)
        else if c.scause == timer_cause
        then (do timer_tick; pure timer)
        else pure no_device

  unfoldable pub user_trap_ret : Cmd Kernel (Unit {0})
  user_trap_ret = do
    p ← curproc
    deref p λ i. do
      set_intr false
      change_csr λ c. record c { stvec = trampoline + uservec }
      q ← get_proc i
      c ← get_csr
      store q.trapframe c.satp
      store (q.trapframe + 8) (u64 (q.kstack + page_size))
      store (q.trapframe + 16) user_trap_at
      h ← gets λ k. k.hart
      store (q.trapframe + 32) h
      change_csr λ c. record c { spp = false; spie = true }
      e ← load (epc_of q.trapframe)
      change_csr λ c. record c { sepc = e }
      userret trapframe (make_satp q.pagetable)

  -- A page for the address, from the file of the region; the offset is not used by vfsread().
  unfoldable pub load_page : (i v addr : ℕ) → Cmd Kernel (Unit {0})
  load_page i v addr = do
    mem ← kalloc
    memset_page mem 0
    r ← get_vma v
    p ← get_proc i
    map_pages p.pagetable (page_round_down addr) mem page_size (region_perm r)
    s ← get_vma v
    vfsread fs switch fuel s.f false mem page_size
    pure tt

  abbrev pub kill : ℕ → Cmd Kernel (Unit {0})
  kill i = change_proc i λ p. record p { killed = 1 }

  unfoldable pub on_fault : (i : ℕ) → Option ℕ → (addr : ℕ) → Cmd Kernel (Unit {0})
  on_fault i none addr = kill i
  on_fault i (some slot) addr = do p ← get_proc i; with_vma (p.vma slot) λ v. load_page i v addr

  unfoldable pub on_syscall : (i : ℕ) → Cmd Kernel (Unit {0})
  on_syscall i = do
    p ← get_proc i
    if p.killed == 0 then pure tt else exit fs switch fuel (2 ^ 32 - 1)
    e ← load (epc_of p.trapframe)
    store (epc_of p.trapframe) (u64 (e + 4))
    intr_on
    syscall syscalls

  -- The last branches of UserTrap(): a device, or an unexpected cause.
  unfoldable pub on_device : (i : ℕ) → Device → Cmd Kernel Bool
  on_device i no_device = do kill i; pure false
  on_device i external = pure false
  on_device i timer = pure true

  -- The branch for the cause; the result says whether it was the timer.
  unfoldable pub on_cause : (i : ℕ) → Csr → Cmd Kernel Bool
  unfolding on_syscall on_fault on_device
  on_cause i c =
      if c.scause == 8
      then (do on_syscall i; pure false)
      else if is_fault c.scause
      then (do
        p ← get_proc i
        slot ← gets λ k. find_region nommapfile 0 p.vma k.vmas c.stval
        on_fault i slot c.stval
        pure false)
      else do d ← dev_intr; on_device i d

  -- What UserTrap() does to a trap from user mode.
  unfoldable pub from_user : Csr → Cmd Kernel (Unit {0})
  unfolding on_cause
  from_user c = do
    change_csr λ c. record c { stvec = kernvec }
    q ← curproc
    deref q λ i. do
      p ← get_proc i
      store (epc_of p.trapframe) c.sepc
      ticked ← on_cause i c
      p ← get_proc i
      if p.killed == 0 then pure tt else exit fs switch fuel (2 ^ 32 - 1)
      if ticked then yield switch else pure tt
      user_trap_ret

  unfoldable pub user_trap : Cmd Kernel (Unit {0})
  user_trap = do c ← get_csr; if c.spp then abort user_trap_mode else from_user c

  -- After the device, on a trap from the kernel.
  unfoldable pub after_device : Device → Cmd Kernel (Unit {0})
  after_device no_device = do curproc; abort Run.kernel_trap
  after_device external = pure tt
  after_device timer = do
    q ← curproc
    deref q λ i. do p ← get_proc i; if is_running p.state then yield switch else pure tt

  -- The interrupts were off when the trap came, and so they are set again.
  unfoldable pub from_kernel : Csr → Cmd Kernel (Unit {0})
  unfolding after_device
  from_kernel c = do
    d ← dev_intr
    after_device d
    change_csr λ d. record d { sepc = c.sepc; spp = c.spp; spie = c.spie }
    set_intr false

  unfoldable pub kernel_trap : Cmd Kernel (Unit {0})
  kernel_trap = do
    c ← get_csr
    if not c.spp
        then abort kernel_trap_mode
        else do on ← gets λ k. k.cpu.intr; if on then abort kernel_trap_enabled else from_kernel c
