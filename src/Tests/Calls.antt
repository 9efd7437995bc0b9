-- ===== src/Tests/Calls.antt =====
-- System calls of a process.
use page_fault_os_for_risc_v.Prelude.{
  false, true, ℕ, ◌<◌, ◌≤◌, ◌⊎◌, Option, none, some, ◌≡◌, refl, arith, if◌then◌else◌, ◌==◌,
}
use page_fault_os_for_risc_v.Kernel.{Kernel, write_word}
use page_fault_os_for_risc_v.Kernel.Run.{Cmd, ok, panic, syscall_error, fetchaddr_invalid}
use page_fault_os_for_risc_v.Syscall.{register, call_count, fetchaddr, syscall, sys_getpid}
use page_fault_os_for_risc_v.Syscall.Arguments.{fetchaddr_lem}
use page_fault_os_for_risc_v.Syscall.Dispatch.{syscall_lem}
use page_fault_os_for_risc_v.Tests.{bare, idle, fresh_proc}

-- A process of 4096 bytes that calls getpid().
abbrev pub caller : Kernel
caller = record bare {
  current = some 0;
  table = λ j. record fresh_proc { pid = 7; sz = 4096; trapframe = 0x80400000 };
  mem = λ a. if a == register 0x80400000 7 then 172 else 0;
}

abbrev asked : ℕ
asked = 172

abbrev pub get_pid_only : ℕ → Option (Cmd Kernel ℕ)
get_pid_only n = if n == asked then some sys_getpid else none

-- The last word of the process is refused.
fetchaddr_lem_run : fetchaddr 4088 0x80500000 caller ≡ panic fetchaddr_invalid
fetchaddr_lem_run = fetchaddr_lem caller 0 refl refl (omega arith) 4088 0x80500000 (omega arith)

syscall_lem_example :
    ((asked ≡ 0) ⊎ ((call_count ≤ asked) ⊎ (get_pid_only asked ≡ none))
      → syscall get_pid_only caller ≡ panic syscall_error)
    × ((call : Cmd Kernel ℕ) (r : ℕ) (t : Kernel)
        → 0 < asked
        → asked < call_count
        → get_pid_only asked ≡ some call
        → call (record caller { cpu = record idle { intena = true; intr = false } }) ≡ ok r t
        → syscall get_pid_only caller
          ≡ ok tt (record t { mem = write_word t.mem (register (t.table 0).trapframe 0) r }))
syscall_lem_example = syscall_lem caller 0 refl refl get_pid_only
