-- ===== src/Console/Stuck.antt =====
-- consolewrite() and consoleread() call either_copyin() and either_copyout() under the lock of the console.
use page_fault_os_for_risc_v.Prelude.{ℕ, suc, ◌≤◌, ◌≡◌, ◌+◌, refl, Bool, false, arith}
use page_fault_os_for_risc_v.Kernel.{Kernel}
use page_fault_os_for_risc_v.Kernel.Run.{Cmd, panic}
use page_fault_os_for_risc_v.Kernel.Run
use page_fault_os_for_risc_v.Sync.Spinlock.Laws.{acquire-ok, taken}
use page_fault_os_for_risc_v.Proc.Wakeup.{curproc_nested}
use page_fault_os_for_risc_v.Proc.UserCopy.{either_copyin, either_copyout}
use page_fault_os_for_risc_v.Mm.Layout.{u64}
use page_fault_os_for_risc_v.Mm.Bytes.{put_bytes}
use page_fault_os_for_risc_v.Console.{
  console_lock, set_console, nothing_typed, advance, next_char, console_write_loop, consolewrite,
  console_wait, console_read_loop, consoleread,
}

either_copyin_nested :
    (d : ℕ) (u : Bool) (s n : ℕ) (k : Kernel)
    → 1 ≤ k.cpu.noff
    → either_copyin d u s n k ≡ panic Run.pop_off
unfolding either_copyin
either_copyin_nested d u s n k h = rw (curproc_nested k h) refl

either_copyout_nested :
    (u : Bool) (d s n : ℕ) (k : Kernel)
    → 1 ≤ k.cpu.noff
    → either_copyout u d s n k ≡ panic Run.pop_off
unfolding either_copyout
either_copyout_nested u d s n k h = rw (curproc_nested k h) refl

module _ (k : Kernel) (free : k.console.lock.locked ≡ false) where
  write_stuck :
      (putchar : ℕ → Kernel → Kernel) (local src n : ℕ) (user : Bool)
      → consolewrite putchar local src user (suc n) k ≡ panic Run.pop_off
  unfolding consolewrite console_write_loop
  write_stuck putchar local src n user =
      rw
        (
          acquire-ok console_lock k free,
          either_copyin_nested local user (u64 (src + 0)) 1 (taken console_lock k) (omega arith),
        )
        refl

  abbrev taken_char : ℕ → Kernel → Kernel
  taken_char local s = record (set_console (advance s.console) s) {
    mem = put_bytes s.mem local 1 λ _. next_char s.console;
  }

  read_stuck :
      (switch : Cmd Kernel (Unit {0})) (fuel local dst n : ℕ) (user : Bool)
      → nothing_typed k.console ≡ false
      → consoleread switch (suc fuel) local dst user (suc n) k ≡ panic Run.pop_off
  unfolding consoleread console_read_loop console_wait
  read_stuck switch fuel local dst n user t =
      rw
        (
          acquire-ok console_lock k free,
          t,
          either_copyout_nested user dst local 1 (taken_char local (taken console_lock k))
              (omega arith),
        )
        refl

  -- With the lock of the console free, consolewrite() of one or more bytes stops the kernel, and so does
  -- consoleread() of one or more if a character waits: both get to curproc() under that lock.
  pub console_calls_stuck :
      (putchar : ℕ → Kernel → Kernel) (switch : Cmd Kernel (Unit {0})) (local buf n : ℕ)
      (user : Bool)
      → (consolewrite putchar local buf user (suc n) k ≡ panic Run.pop_off)
        × (nothing_typed k.console ≡ false
            → (fuel : ℕ)
            → consoleread switch (suc fuel) local buf user (suc n) k ≡ panic Run.pop_off)
  console_calls_stuck putchar switch local buf n user =
      (write_stuck putchar local buf n user, λ t fuel. read_stuck switch fuel local buf n user t)
