-- ===== src/Syscall/Files/Laws.antt =====
-- The system calls that look up a descriptor.
use page_fault_os_for_risc_v.Prelude.{false, ℕ, ◌%◌, ◌^◌, ◌≤◌, ◌≡◌, refl, some, true, ltb, arith}
use page_fault_os_for_risc_v.Kernel.{Kernel}
use page_fault_os_for_risc_v.Kernel.Run.{Cmd, ok, panic}
use page_fault_os_for_risc_v.Kernel.Run
use page_fault_os_for_risc_v.Proc.{nofile}
use page_fault_os_for_risc_v.Proc.Files.{get_file_by_fd}
use page_fault_os_for_risc_v.Proc.Files.Laws.{get_file_by_fd_stuck}
use page_fault_os_for_risc_v.Fs.Vfs.Calls.{FileSystem, vfsread_fd, vfswrite_fd, vfsls}
use page_fault_os_for_risc_v.Syscall.Registers.{seen, argument, argraw-ok, argint-ok}
use page_fault_os_for_risc_v.Syscall.Files.{
  sys_read, sys_write, sys_close, sys_dup, sys_dup3, sys_getdents64,
}
use page_fault_os_for_risc_v.Syscall.Words.{fd_of}

module _ (k : Kernel) (i : ℕ) (d : k.cpu.noff ≡ 0) (c : k.current ≡ some i)
    (u : (k.table i).lock.locked ≡ false) (small : argument k i 0 % 2 ^ 32 ≤ nofile) where
  abbrev fd : ℕ
  fd = argument k i 0 % 2 ^ 32

  -- In each kernel that only differs in its interrupt state.
  stuck :
      (s : Kernel)
      → s.cpu.noff ≡ 0
      → s.current ≡ some i
      → (s.table i).lock.locked ≡ false
      → get_file_by_fd (fd_of fd) s ≡ panic Run.pop_off
  stuck s d' c' u' =
      let e : ltb fd (2 ^ 31) ≡ true = ground arith in
      rw e (get_file_by_fd_stuck s i fd small d' c' u')

  -- For a running process outside every critical section, with its lock free, and any descriptor up to
  -- NOFILE: read, write, close, dup, dup3 and getdents64 all stop the kernel in the panic of pop_off(),
  -- whether the descriptor is open or not.
  pub fd_calls_stuck :
      (fs : FileSystem) (switch : Cmd Kernel (Unit {0})) (fuel : ℕ)
      (before : (i n : ℕ) → Cmd Kernel (Unit {0}))
      → (sys_read fs switch fuel k ≡ panic Run.pop_off)
        × (sys_write fs switch fuel k ≡ panic Run.pop_off)
        × (sys_close before k ≡ panic Run.pop_off)
        × (sys_dup k ≡ panic Run.pop_off)
        × (sys_dup3 k ≡ panic Run.pop_off)
        × (sys_getdents64 fs k ≡ panic Run.pop_off)
  unfolding sys_read sys_write sys_close sys_dup sys_dup3 sys_getdents64 vfsread_fd vfswrite_fd
      vfsls
  fd_calls_stuck fs switch fuel before =
      let s1 : Kernel = seen k in
      let s2 : Kernel = seen s1 in
      let s3 : Kernel = seen s2 in
      let a0 = argint-ok k i d c 0 (omega arith) in
      let n1 = argint-ok s1 i refl c 2 (omega arith) in
      let r1 = argraw-ok s1 i refl c 1 (omega arith) in
      let r2 = argraw-ok s2 i refl c 1 (omega arith) in
      (
        rw (a0, n1, r2, stuck s3 refl c u) refl,
        rw (a0, n1, r2, stuck s3 refl c u) refl,
        rw (a0, stuck s1 refl c u) refl,
        rw (a0, stuck s1 refl c u) refl,
        rw (a0, argint-ok s1 i refl c 1 (omega arith), stuck s2 refl c u) refl,
        rw (a0, r1, argint-ok s2 i refl c 2 (omega arith), stuck s3 refl c u) refl,
      )
