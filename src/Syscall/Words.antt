-- ===== src/Syscall/Words.antt =====
-- kern/syscall/syscallfile.cpp: the results of the system calls as words of 64 bits, ints that are descriptors,
-- and strings that are copied to the kernel stack.
use page_fault_os_for_risc_v.Prelude.{
  ℕ, ◌+◌, ◌-◌, ◌%◌, ◌^◌, Option, none, some, ltb, ◌==◌, if◌then◌else◌,
}
use page_fault_os_for_risc_v.Prelude.Int.{ℤ, pos, negsuc}
use page_fault_os_for_risc_v.Kernel.{Kernel}
use page_fault_os_for_risc_v.Kernel.Run.{Cmd, Status, done, failed, pure, ◌>>=◌, gets}
use page_fault_os_for_risc_v.Mm.Layout.{u64}
use page_fault_os_for_risc_v.Mm.Bytes.{get_byte}
use page_fault_os_for_risc_v.Proc.Exit.{widen}
use page_fault_os_for_risc_v.Fs.Vfs.{PathName}
use page_fault_os_for_risc_v.Fs.Vfs.Calls.{DirFd, at_fdcwd, dir}
use page_fault_os_for_risc_v.Syscall.{argstr}

-- -1 as a uint64
abbrev pub minus_one : ℕ
minus_one = 2 ^ 64 - 1

-- A size_t, an int that is made a uint64, and what a function returns as 0 and -1.
abbrev pub word : ℤ → ℕ
word (pos n) = u64 n
word (negsuc n) = u64 (2 ^ 64 - (n + 1) % 2 ^ 64)

abbrev pub int_word : ℤ → ℕ
int_word r = widen (word r % 2 ^ 32)

abbrev pub fd_word : Option ℕ → ℕ
fd_word none = minus_one
fd_word (some fd) = fd

abbrev pub status_word : Status → ℕ
status_word done = 0
status_word failed = minus_one

-- An int as a descriptor: `none` if it is below 0.
abbrev pub fd_of : ℕ → Option ℕ
fd_of n = if ltb n (2 ^ 31) then some n else none

-- AT_FDCWD is -100.
abbrev pub dir_of : ℕ → DirFd
dir_of n = if n == 2 ^ 32 - 100 then at_fdcwd else dir (fd_of n)

-- The string at an address of the kernel.
abbrev pub text : ℕ → Cmd Kernel PathName
text buf = gets λ k j. get_byte k.mem (buf + j)

-- argstr() into a local buffer: the two ways that it ends.
abbrev pub with_text : (n buf max : ℕ) → (PathName → Cmd Kernel ℕ) → Cmd Kernel ℕ
with_text n buf max f = do
  r ← argstr n buf max
  elim r [ failed ↦ pure minus_one | done ↦ do p ← text buf; f p ]
