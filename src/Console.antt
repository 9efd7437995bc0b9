-- ===== src/Console.antt =====
-- kern/console/console.cpp, in the build for the K210.
pub mod Editing
pub mod Keys
pub mod Stuck
use page_fault_os_for_risc_v.Prelude.{
  ℕ, zero, suc, ◌+◌, ◌-◌, ◌%◌, ◌^◌, Bool, true, false, Option, none, some, ltb, ◌==◌, ◌||◌,
  if◌then◌else◌, refl,
}
use page_fault_os_for_risc_v.Kernel.{Console, Kernel, on_console}
use page_fault_os_for_risc_v.Kernel.Run.{
  Cmd, Status, done, failed, out_of_fuel, pure, ◌>>=◌, ◌>>◌, modify, gets,
}
use page_fault_os_for_risc_v.Sync.Spinlock.{LockRef, initlock, acquire, release}
use page_fault_os_for_risc_v.Mm.Layout.{u64}
use page_fault_os_for_risc_v.Mm.Bytes.{get_byte, put_bytes}
use page_fault_os_for_risc_v.Proc.{set_at, wakeup}
use page_fault_os_for_risc_v.Proc.Sched.{sleep}
use page_fault_os_for_risc_v.Proc.UserCopy.{either_copyin, either_copyout}

abbrev pub input_buf : ℕ
input_buf = 128

abbrev pub set_console : Console → Kernel → Kernel
set_console c k = record k { console = c }

abbrev pub console_lock : LockRef
console_lock = record {
  get = λ k. k.console.lock;
  put = λ l k. set_console (record k.console { lock = l }) k;
  get-put = λ l k. refl;
  put-cpu = λ l k. refl;
  put-hart = λ l k. refl;
  get-cpu = λ c k. refl;
}

unfoldable pub consoleinit : (name_lock : Cmd Kernel (Unit {0})) → Cmd Kernel (Unit {0})
consoleinit name_lock = do
  initlock console_lock name_lock
  modify λ k. set_console (record k.console { read_index = 0; write_index = 0 }) k

-- i % INPUT_BUF; the remainder of a negative int is not positive, a place before the buffer.
unfoldable pub slot : ℕ → ℕ
slot i = if ltb i (2 ^ 31) then i % input_buf else (2 ^ 32 - (2 ^ 32 - i) % input_buf) % 2 ^ 32

-- console.write_index--
unfoldable pub erase : Console → Console
erase c = record c { write_index = (c.write_index + 2 ^ 32 - 1) % 2 ^ 32 }

-- console.buf[console.write_index++ % INPUT_BUF] = ch
unfoldable pub store : ℕ → Console → Console
store ch c = record c {
  buf = set_at c.buf (slot c.write_index) (ch % 2 ^ 8);
  write_index = (c.write_index + 1) % 2 ^ 32;
}

-- console.read_index++
unfoldable pub advance : Console → Console
advance c = record c { read_index = (c.read_index + 1) % 2 ^ 32 }

abbrev pub next_char : Console → ℕ
next_char c = c.buf (slot c.read_index)

abbrev pub nothing_typed : Console → Bool
nothing_typed c = c.read_index == c.write_index

abbrev pub change_console : (Console → Console) → Cmd Kernel (Unit {0})
change_console f = modify λ k. set_console (f k.console) k

-- '\b', DEL, CTRL('P'), '\r', '\n' and '\a'
abbrev pub is_erase : ℕ → Bool
is_erase ch = ch == 8 || ch == 127

abbrev pub is_ignored : ℕ → Bool
is_ignored ch = ch == 16 || ch == 13

abbrev pub new_line : ℕ
new_line = 10

abbrev pub bell : ℕ
bell = 7

-- `putchar` is sbi_console_putchar() of the firmware.
module _ (putchar : ℕ → Kernel → Kernel) where
  unfoldable pub consputc : ℕ → Cmd Kernel (Unit {0})
  consputc ch =
      if ch == 0x100
      then (do modify (putchar 8); modify (putchar 32); modify (putchar 8))
      else modify (putchar ch)

  unfoldable pub consoleintr : ℕ → Cmd Kernel (Unit {0})
  unfolding consputc
  consoleintr ch = do
    c ← gets λ k. k.console
    if is_erase ch
        then (if nothing_typed c
            then pure tt
            else do change_console erase; consputc 0x100; consputc bell)
        else if is_ignored ch
        then pure tt
        else do
          consputc ch
          change_console (store ch)
          if ch == new_line then wakeup on_console else pure tt

  -- The loop of consolewrite() with `n` bytes left, `i` written; `local` is the address of its variable.
  unfoldable pub console_write_loop : (local n i : ℕ) (user : Bool) (src : ℕ) → Cmd Kernel ℕ
  console_write_loop local zero i user src = pure i
  console_write_loop local (suc n) i user src =
      let rest = console_write_loop local n (i + 1) user src in
      do
        r ← either_copyin local user (u64 (src + i)) 1
        elim r [
          | failed ↦ pure i
          | done ↦ do ch ← gets λ k. get_byte k.mem local; modify (putchar ch); rest
        ]

  unfoldable pub consolewrite : (local src : ℕ) (user : Bool) (n : ℕ) → Cmd Kernel ℕ
  consolewrite local src user n = do
    acquire console_lock
    i ← console_write_loop local n 0 user src
    release console_lock
    pure i

-- `switch` is pswitch().
module _ (switch : Cmd Kernel (Unit {0})) where
  unfoldable pub console_wait : (fuel : ℕ) → Cmd Kernel (Unit {0})
  console_wait zero = λ _. out_of_fuel
  console_wait (suc fuel) =
      let rest = console_wait fuel in
      do
        c ← gets λ k. k.console
        if nothing_typed c then (do sleep switch on_console console_lock false; rest) else pure tt

  -- The loop of consoleread() with `n` characters to go; it returns how many are left.
  unfoldable pub console_read_loop : (fuel local n : ℕ) (user : Bool) (dst : ℕ) → Cmd Kernel ℕ
  console_read_loop fuel local zero user dst = pure 0
  console_read_loop fuel local (suc n) user dst =
      let rest = console_read_loop fuel local n user (u64 (dst + 1)) in
      do
        console_wait fuel
        c ← gets λ k. k.console
        change_console advance
        modify λ k. record k { mem = put_bytes k.mem local 1 λ _. next_char c }
        r ← either_copyout user dst local 1
        elim r [ failed ↦ pure (suc n) | done ↦ if next_char c == new_line then pure n else rest ]

  unfoldable pub consoleread : (fuel local dst : ℕ) (user : Bool) (n : ℕ) → Cmd Kernel ℕ
  consoleread fuel local dst user n = do
    acquire console_lock
    left ← console_read_loop fuel local n user dst
    release console_lock
    pure (n - left)
