-- ===== src/Fs/Device.antt =====
-- kern/fs/devicefs.cpp, in the build for the K210: the file system of the console and the card, as an instance of
-- the interface that kern/fs/vfs.cpp uses.
pub mod Open
use page_fault_os_for_risc_v.Prelude.{ℕ, ◌+◌, ◌-◌, ◌/◌, ◌%◌, ◌^◌, Bool, ltb, ◌==◌, if◌then◌else◌}
use page_fault_os_for_risc_v.Prelude.Int.{ℤ, pos}
use page_fault_os_for_risc_v.Kernel.{fd_device, Mount, Kernel}
use page_fault_os_for_risc_v.Kernel.Run.{Cmd, pure, ◌>>=◌, ◌>>◌, abort, unknown_device}
use page_fault_os_for_risc_v.Console.{consoleread, consolewrite}
use page_fault_os_for_risc_v.Fs.Vfs.{PathName, length}
use page_fault_os_for_risc_v.Fs.Vfs.Handles.{change_handle, with_handle}
use page_fault_os_for_risc_v.Fs.Vfs.Mounts.{same_text, hda1, dev_dir}
use page_fault_os_for_risc_v.Fs.Vfs.Calls.{FileSystem}

-- "/dev/tty" and "/dev/vda2"
abbrev pub tty : PathName
tty i =
    if ltb i 4
    then dev_dir i
    else if i == 4
    then b'/'
    else if i == 5
    then b't'
    else if i == 6
    then b't'
    else if i == 7
    then b'y'
    else 0

abbrev pub vda2 : PathName
vda2 i =
    if ltb i 5
    then hda1 i
    else if i == 5
    then b'v'
    else if i == 6
    then b'd'
    else if i == 7
    then b'a'
    else if i == 8
    then b'2'
    else 0

-- strncmp(path, device, strlen(path)) == 0, which every beginning of the device's path passes.
abbrev pub begins : (path device : PathName) → Bool
begins path device = same_text (length path) 0 path device

-- strncmp(path, device, strlen(device)) == 0
abbrev pub names : (path device : PathName) → Bool
names path device = same_text (length device) 0 path device

-- `int offset`, and offset / 512 as a uint32
abbrev pub sector_at : ℕ → ℕ
sector_at offset =
    let o : ℕ = offset % 2 ^ 32 in
    if ltb o (2 ^ 31) then o / 512 else (2 ^ 32 - (2 ^ 32 - o) / 512) % 2 ^ 32

-- `int n`, where a number below 0 does what 0 does.
abbrev pub rounds : ℕ → ℕ
rounds n = let m : ℕ = n % 2 ^ 32 in if ltb m (2 ^ 31) then m else 0

unfoldable pub device_open : (fp : ℕ) → Cmd Kernel ℤ
device_open fp = do
  with_handle fp λ i. change_handle i λ f. record f { kind = fd_device; directory = 0 }
  pure (pos 0)

-- `read_card` and `write_card` are sdcard_read_sector() and sdcard_write_sector(), `local` the address of the
-- character that the console's functions have on the stack, and `putchar` the output of the firmware.
module _ (putchar : ℕ → Kernel → Kernel) (switch : Cmd Kernel (Unit {0})) (fuel local : ℕ)
    (read_card write_card : (buf sector : ℕ) → Cmd Kernel (Unit {0})) where
  unfoldable pub device_read : PathName → (user : Bool) → (buf offset n : ℕ) → Cmd Kernel ℤ
  device_read path user buf offset n =
      if begins path tty
      then (do r ← consoleread switch fuel local buf user (rounds n); pure (pos r))
      else if begins path vda2
      then (do read_card buf (sector_at offset); pure (pos 0))
      else if names path hda1
      then (do read_card buf (sector_at offset); pure (pos 0))
      else abort unknown_device

  unfoldable pub device_write : PathName → (user : Bool) → (buf offset n : ℕ) → Cmd Kernel ℤ
  device_write path user buf offset n =
      if begins path tty
      then (do r ← consolewrite putchar local buf user (rounds n); pure (pos r))
      else if names path vda2
      then (do write_card buf (sector_at offset); pure (pos 0))
      else if names path hda1
      then (do write_card buf (sector_at offset); pure (pos 0))
      else abort unknown_device

  -- mkdir() is declared and not defined in the source.
  abbrev pub device_fs : (mkdir : PathName → Cmd Kernel ℤ) → FileSystem
  device_fs mkdir = record {
    open_file = λ m path flags fp. device_open fp;
    read = λ m path user buf offset n. device_read path user buf offset n;
    write = λ m path user buf offset n. device_write path user buf offset n;
    ls = λ m path contents len user. pure (pos 0);
    mkdir = λ m path. mkdir path;
    rm = λ m path. pure (pos 0);
  }
