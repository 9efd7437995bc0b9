-- ===== src/Tests/Keyboard.antt =====
-- Keys that are typed on the console.
use page_fault_os_for_risc_v.Prelude.{
  ℕ, suc, [], ◌∷◌, false, ◌≡◌, ◌<◌, refl, arith, if◌then◌else◌, ◌==◌,
}
use page_fault_os_for_risc_v.Kernel.{Kernel, on_console}
use page_fault_os_for_risc_v.Kernel.Run.{ok, panic, ◌>>◌}
use page_fault_os_for_risc_v.Kernel.Run
use page_fault_os_for_risc_v.Proc.{nproc, woken}
use page_fault_os_for_risc_v.Sync.Spinlock.{free_lock}
use page_fault_os_for_risc_v.Console.{
  slot, nothing_typed, set_console, consoleintr, consolewrite, consoleread,
}
use page_fault_os_for_risc_v.Console.Editing.{typed, IsConsole}
use page_fault_os_for_risc_v.Console.Keys.{consoleintr_lem}
use page_fault_os_for_risc_v.Console.Stuck.{console_calls_stuck}
use page_fault_os_for_risc_v.Tests.{bare}

-- A firmware that drops what it gets.
abbrev silent : ℕ → Kernel → Kernel
silent ch k = k

-- "ls" waits, behind 126 characters that were read.
abbrev listed : Kernel
listed =
    set_console
      (record {
        buf = λ i. if i == 126 then b'l' else if i == 127 then b's' else 0;
        read_index = 126;
        write_index = 128;
        lock = free_lock;
      })
      bare

listed-IsConsole : IsConsole listed.console
listed-IsConsole = record { ordered = omega arith; fits = omega arith; small = omega arith }

consoleintr_lem_example :
    (t : Kernel) × (consoleintr silent 10 listed ≡ ok tt t)
    × ((typed t.console ≡ b'l' ∷ b's' ∷ 10 ∷ [])
        × IsConsole t.console
        × ((j : ℕ) → j < nproc → t.table j ≡ woken on_console (bare.table j)))
unfolding slot
consoleintr_lem_example =
    consoleintr_lem silent (record { console = λ c k. refl; table = λ c k. refl }) listed
      listed-IsConsole 10 (omega arith) (omega arith) (omega arith)

console_calls_stuck_run :
    (consolewrite silent 0x80400000 0x80500000 false 3 listed ≡ panic Run.pop_off)
    × (nothing_typed listed.console ≡ false
        → (fuel : ℕ)
        → consoleread (λ k. ok tt k) (suc fuel) 0x80400000 0x80500000 false 3 listed
          ≡ panic Run.pop_off)
console_calls_stuck_run =
    console_calls_stuck listed refl silent (λ k. ok tt k) 0x80400000 0x80500000 2 false
