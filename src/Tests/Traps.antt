-- ===== src/Tests/Traps.antt =====
-- Traps of a process and of the kernel.
use page_fault_os_for_risc_v.Prelude.{
  ℕ, ◌+◌, ◌<◌, ◌≡◌, ◌≢◌, ◌⊎◌, inr, [], ◌∷◌, true, false, Option, some, none, refl, arith,
}
use page_fault_os_for_risc_v.Kernel.{write_word, Kernel, running}
use page_fault_os_for_risc_v.Kernel.Run
use page_fault_os_for_risc_v.Kernel.Run.{
  Cmd, Run, ok, panic, pure, out_of_fuel, syscall_error, null_pointer, ◌>>◌,
}
use page_fault_os_for_risc_v.Sync.Spinlock.{push_off, pop_off}
use page_fault_os_for_risc_v.Sync.Spinlock.Laws.{settled}
use page_fault_os_for_risc_v.Mm.Layout.{page_size, trapframe, u64}
use page_fault_os_for_risc_v.Mm.Kalloc.Laws.{IsFree}
use page_fault_os_for_risc_v.Mm.PageTable.{walkaddr}
use page_fault_os_for_risc_v.Proc.{curproc}
use page_fault_os_for_risc_v.Proc.Sched.{is_running}
use page_fault_os_for_risc_v.Syscall.{register, sys_getpid}
use page_fault_os_for_risc_v.Syscall.Table.{Calls, syscalls}
use page_fault_os_for_risc_v.Trap.{
  Board, make_satp, epc_of, load_page, user_trap, user_trap_ret, kernel_trap, timer_cause,
}
use page_fault_os_for_risc_v.Trap.User.{Returns, calling, user_trap-syscall}
use page_fault_os_for_risc_v.Trap.Fault.{doomed, last_exit, user_trap_kills}
use page_fault_os_for_risc_v.Trap.Loading.{then_read, load_page_lem}
use page_fault_os_for_risc_v.Trap.Supervisor.{ticked, kernel_trap-timer}
use page_fault_os_for_risc_v.Trap.Pid.{Answers, user_trap-getpid}
use page_fault_os_for_risc_v.Tests.{root_table, bare, two_pages, fresh_proc}
use page_fault_os_for_risc_v.Tests.Pages.{two_pages-IsFree}
use page_fault_os_for_risc_v.Tests.Tables.{two}
use page_fault_os_for_risc_v.Tests.Calls.{caller, get_pid_only}
use page_fault_os_for_risc_v.Tests.Handles.{refusing}

-- No device has work, and the jump to user mode ends the run.
abbrev board_of : (ℕ → Option (Cmd Kernel ℕ)) → Board
board_of calls = record {
  claim = pure 0;
  complete = λ irq. pure tt;
  disk_intr = pure tt;
  getchar = pure none;
  putchar = λ c k. k;
  switch = pure tt;
  userret = λ tf satp. pure tt;
  fs = refusing;
  syscalls = calls;
  kernvec = 0x80201000;
  uservec = 0;
  user_trap_at = 0x80202000;
  fuel = 1;
}

abbrev board : Board
board = board_of get_pid_only

-- The process 0 calls getpid() at 0x100.
abbrev trapped : Kernel
trapped = record caller { csr = record bare.csr { scause = 8; sepc = 0x100 } }

abbrev in_call : Kernel
in_call = calling board trapped 0 refl refl refl refl refl

asks : sys_getpid in_call ≡ ok 7 (record in_call { cpu = settled in_call.cpu })
unfolding sys_getpid curproc push_off pop_off
asks = refl

user_trap-syscall_example :
    (in_call.mem (epc_of 0x80400000) ≡ u64 (0x100 + 4))
    × ((u : Kernel) × (user_trap board trapped ≡ board.userret trapframe (make_satp 0) u)
        × Returns board (in_call.mem (epc_of 0x80400000)) u
        × (u.mem (register 0x80400000 0) ≡ 7))
user_trap-syscall_example =
    user_trap-syscall board trapped 0 refl refl refl refl refl sys_getpid 7
      (record in_call { cpu = settled in_call.cpu }) (omega arith) (omega arith) refl asks refl refl
      refl

-- The process 0 writes to an address that it does not have.
abbrev stray : Kernel
stray = record caller { csr = record bare.csr { scause = 15; stval = 0x4000; sepc = 0x100 } }

user_trap_kills_example :
    (user_trap board stray
      ≡ (last_exit board stray 0 refl refl refl >> (pure tt >> user_trap_ret board))
          (doomed board stray 0 refl refl refl))
    × ((a : Unit {0}) (t : Kernel) → user_trap board stray ≢ ok a t)
user_trap_kills_example =
    user_trap_kills board stray 0 refl refl refl (inr (refl, refl, refl, refl))

-- Two pages are free, and the table of process 0 is empty.
abbrev lazy : Kernel
lazy = record two_pages {
  current = some 0;
  table = λ j. record fresh_proc { pagetable = root_table };
  vmas = λ i. record { addr = 0x3000; length = 4096; prot = 3; flag = 2; f = 1 };
}

lazy-IsFree : IsFree lazy two
lazy-IsFree = record {
  chain = two_pages-IsFree.chain;
  count = two_pages-IsFree.count;
  unlocked = two_pages-IsFree.unlocked;
  depth = two_pages-IsFree.depth;
}

load_page_lem_example :
    (s : Kernel) × (load_page board 0 0 0x3004 lazy
      ≡ then_read board lazy 0x805fe000 (0x805fd000 ∷ []) 0 0 0x3004 lazy-IsFree s)
    × (IsFree s []
        ⊎ ((walkaddr root_table 0x3000 s ≡ ok 0x805fe000 s)
            × ((j : ℕ) → j < page_size → s.mem (0x805fe000 + j) ≡ 0)))
load_page_lem_example =
    load_page_lem board lazy 0x805fe000 (0x805fd000 ∷ []) 0 0 0x3004 lazy-IsFree (omega arith)
      (record { root = refl; root_used = refl; middle = λ e. cc; leaf = λ e. cc })
      (record { empty = λ e. cc })

-- The timer stops the kernel code of process 0, which is not in the state `running`.
abbrev tick : Kernel
tick = record caller {
  cpu = record { noff = 0; intena = true; intr = false };
  csr = record bare.csr { scause = timer_cause; spp = true };
}

kernel_trap-timer_example :
    (◌≡◌ {A = Option ℕ} (some 0) none → kernel_trap board tick ≡ panic null_pointer)
    × ((i : ℕ)
        → tick.current ≡ some i
        → (((tick.table i).state ≡ running)
            → (tick.table i).lock.locked ≡ false
            → kernel_trap board tick ≡ panic Run.pop_off)
          × (is_running (tick.table i).state ≡ false
              → kernel_trap board tick
                ≡ ok tt (record (ticked board tick refl refl refl refl refl) {
                  cpu = settled (settled tick.cpu);
                })))
kernel_trap-timer_example = kernel_trap-timer board tick refl refl refl refl refl

abbrev calls : Calls
calls = record {
  fs = refusing;
  switch = pure tt;
  cal_ab_path = λ p. pure tt;
  set_satp = λ kpt. pure tt;
  stamp = pure 0;
  new_pipe = pure none;
  name_lock = pure tt;
  path = 0x80500000;
  special = 0x80500100;
  fstype = 0x80500200;
  uarg = 0x80500300;
  elf = 0x80500400;
  ph = 0x80500500;
  behind = 0;
  fds = (none, none);
  before = λ i n. pure tt;
  astray = λ pid vaddr. pure none;
  tramp = 0x80210000;
  entry = 0x80211000;
  in_order = true;
  depth = 3;
  fuel = 60;
}

-- The process 0, a child of process 5, calls getppid().
abbrev child : Kernel
child = record trapped {
  mem = write_word trapped.mem (register 0x80400000 7) 173;
  table = λ j. record (trapped.table j) { pid = j + 7; parent = some 5 };
}

user_trap-getpid_example :
    (◌≡◌ {A = ℕ} 173 172
      → Answers (board_of (syscalls calls)) calls refl child 0 refl refl refl refl refl 7)
    × (◌≡◌ {A = ℕ} 173 173
        → ((j : ℕ)
            → ◌≡◌ {A = Option ℕ} (some 5) (some j)
            → Answers
                (board_of (syscalls calls))
                calls
                refl
                child
                0
                refl
                refl
                refl
                refl
                refl
                (j + 7))
          × (◌≡◌ {A = Option ℕ} (some 5) none
              → user_trap (board_of (syscalls calls)) child ≡ panic null_pointer))
unfolding write_word
user_trap-getpid_example =
    user_trap-getpid (board_of (syscalls calls)) calls refl child 0 refl refl refl refl refl
