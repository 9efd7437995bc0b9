-- ===== src/Syscall/Table.antt =====
-- kern/syscall/syscall.cpp: the table that syscall_init() fills, with the numbers of kern/syscall/sysnum.h.
use page_fault_os_for_risc_v.Prelude.{ℕ, Bool, Option, none, some, ◌||◌, ◌==◌, if◌then◌else◌}
use page_fault_os_for_risc_v.Kernel.{Kernel}
use page_fault_os_for_risc_v.Kernel.Run.{Cmd}
use page_fault_os_for_risc_v.Fs.Vfs.Calls.{FileSystem}
use page_fault_os_for_risc_v.Syscall.{sys_getpid, sys_getppid, sys_sched_yield}
use page_fault_os_for_risc_v.Syscall.Files
use page_fault_os_for_risc_v.Syscall.Mapping
use page_fault_os_for_risc_v.Syscall.Process
use page_fault_os_for_risc_v.Syscall.Execve

-- What the calls take besides their registers: the code that is not modelled, the addresses of the local
-- variables of a call, what is found where a variable is not set or an index is out of bounds, the arguments
-- of allocproc(), and the rounds of the loops that wait.
pub record Calls : Type 0 where
  pub fs : FileSystem
  pub switch : Cmd Kernel (Unit {0})
  pub cal_ab_path : ℕ → Cmd Kernel (Unit {0})
  pub set_satp : ℕ → Cmd Kernel (Unit {0})
  pub stamp : Cmd Kernel ℕ
  pub new_pipe : Cmd Kernel (Option ℕ)
  pub name_lock : Cmd Kernel (Unit {0})
  pub path : ℕ
  pub special : ℕ
  pub fstype : ℕ
  pub uarg : ℕ
  pub elf : ℕ
  pub ph : ℕ
  pub behind : ℕ
  pub fds : Option ℕ × Option ℕ
  pub before : (i n : ℕ) → Cmd Kernel (Unit {0})
  pub astray : (pid vaddr : ℕ) → Cmd Kernel (Option ℕ)
  pub tramp : ℕ
  pub entry : ℕ
  pub in_order : Bool
  pub depth : ℕ
  pub fuel : ℕ

module _ (c : Calls) where
  -- The entries for files.
  unfoldable pub file_call : ℕ → Option (Cmd Kernel ℕ)
  file_call n =
      if n == 17
      then some Files.sys_getcwd
      else if n == 59
      then some (Files.sys_pipe2 c.new_pipe c.name_lock c.fds)
      else if n == 2
      then some (Files.sys_open c.fs c.path)
      else if n == 64
      then some (Files.sys_write c.fs c.switch c.fuel)
      else if n == 63
      then some (Files.sys_read c.fs c.switch c.fuel)
      else if n == 23
      then some Files.sys_dup
      else if n == 24
      then some Files.sys_dup3
      else if n == 49
      then some (Files.sys_chdir c.fs c.path)
      else if n == 57
      then some (Files.sys_close c.before)
      else if n == 34
      then some (Files.sys_mkdirat c.fs c.path)
      else if n == 56
      then some (Files.sys_openat c.fs c.path)
      else if n == 61
      then some (Files.sys_getdents64 c.fs)
      else if n == 40
      then some (Files.sys_mount c.special c.path c.fstype)
      else if n == 39
      then some (Files.sys_umount2 c.path)
      else if n == 222
      then some Mapping.sys_mmap
      else if n == 215
      then some (Mapping.sys_munmap c.fs c.switch c.fuel)
      else if n == 80
      then some Files.sys_fstat
      else if n == 35
      then some (Files.sys_unlinkat c.fs c.path)
      else none

  -- The entries for processes.
  unfoldable pub process_call : ℕ → Option (Cmd Kernel ℕ)
  process_call n =
      if n == 221
      then some (Execve.sys_execve c.cal_ab_path c.set_satp c.fs c.path c.uarg c.elf c.ph c.behind)
      else if n == 172
      then some sys_getpid
      else if n == 173
      then some sys_getppid
      else if n == 1 || n == 220
      then some (Process.sys_fork c.fuel c.depth c.tramp c.entry c.in_order)
      else if n == 93
      then some (Process.sys_exit c.fs c.switch c.fuel)
      else if n == 3
      then some (Process.sys_wait c.switch c.astray c.fuel c.depth)
      else if n == 260
      then some (Process.sys_wait4 c.switch c.astray c.fuel c.depth)
      else if n == 124
      then some (sys_sched_yield c.switch)
      else if n == 214
      then some Process.sys_brk
      else if n == 160
      then some Process.sys_uname
      else if n == 153
      then some Process.sys_times
      else if n == 169
      then some (Process.sys_gettimeofday c.stamp)
      else none

  unfoldable pub syscalls : ℕ → Option (Cmd Kernel ℕ)
  unfolding file_call process_call
  syscalls n = elim (file_call n) [ some call ↦ some call | none ↦ process_call n ]
